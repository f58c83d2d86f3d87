-- ===== src/Pr.antt =====
-- pr.go: the operations on patch requests, over the database of `Store`. An operation takes the
-- database and gives its result with the database that it leaves.
pub mod Queries
pub mod Users
pub mod Submit
pub mod Change
pub mod Stored
pub mod Appended
pub mod Changed
pub mod Guards
pub mod Valid
pub mod Operation
pub mod ReadBack
pub mod Keeps
pub mod Bodies
pub mod Effect
pub mod Removed
pub mod Recorded
pub mod History
pub mod Submission
pub mod Ownership
pub mod ForeignKeys
