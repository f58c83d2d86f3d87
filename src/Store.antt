-- ===== src/Store.antt =====
-- models.go and the tables of sqlite.go: the rows, the database and what the driver decides.
-- A table is the list of its rows in rowid order; `AUTOINCREMENT` never gives an id twice, so the
-- last id given is kept beside it. Times are numbers.
pub mod Statements
pub mod Keys
pub mod Effects
pub mod Valid
pub mod Upgrade
pub mod Upgraded
pub mod EventValue
use patchbin.Base.{ℕ, Str, Bool, true, false, List, [], Option}

-- sql.NullInt64
pub record NullInt64 : Type 0 where
  pub int64 : ℕ
  pub valid : Bool

-- A text column that may be NULL
pub record NullString : Type 0 where
  pub string : Str
  pub valid : Bool

pub record User : Type 0 where
  pub id : ℕ
  pub pubkey : Str
  pub name : Str
  pub created_at : ℕ
  pub updated_at : ℕ

-- An absent `pubkey` or `ip_address` is `none`.
pub record Acl : Type 0 where
  pub id : ℕ
  pub pubkey : Option Str
  pub ip_address : Option Str
  pub permission : Str
  pub created_at : ℕ

pub record PatchRequest : Type 0 where
  pub id : ℕ
  pub user_id : ℕ
  pub repo_name : Str
  pub slug : Str
  pub name : Str
  pub text : Str
  pub created_at : ℕ
  pub updated_at : ℕ
  pub last_activity : ℕ

-- The field `Review` has no column and is never written.
pub record Patchset : Type 0 where
  pub id : ℕ
  pub user_id : ℕ
  pub patch_request_id : ℕ
  pub created_at : ℕ

-- The columns of a patch that `ParsePatchset` fills in.
pub record PatchText : Type 0 where
  pub author_name : Str
  pub author_email : Str
  pub author_date : ℕ
  pub title : Str
  pub body : Str
  pub body_appendix : Str
  pub commit_sha : Str
  pub content_sha : Str
  pub base_commit_sha : NullString
  pub raw_text : Str

-- What the driver writes of a text that may be NULL, as it is read back.
abbrev pub null_unless_valid : Bool → Str → NullString
null_unless_valid true s = record { string = s; valid = true }
null_unless_valid false s = record { string = []; valid = false }

-- The columns as they are read back.
abbrev pub written : PatchText → PatchText
written c = record c {
  base_commit_sha = null_unless_valid c.base_commit_sha.valid c.base_commit_sha.string;
}

pub record Patch : Type 0 where
  pub id : ℕ
  pub user_id : ℕ
  pub patchset_id : ℕ
  pub content : PatchText
  pub open content use *
  pub created_at : ℕ

-- The events that the code writes, and any other text.
pub data EventKind : Type 0 where
  pr_created pr_patchset_added pr_patchset_deleted pr_name_changed pr_commented : EventKind
  other_event : Str → EventKind

pub record EventData : Type 0 where
  pub name : Str
  pub comment : Str

pub record EventLog : Type 0 where
  pub id : ℕ
  pub user_id : ℕ
  pub patch_request_id : NullInt64
  pub patchset_id : NullInt64
  pub event : EventKind
  pub created_at : ℕ
  pub payload : EventData

pub record Db : Type 0 where
  pub users : List User
  pub acl : List Acl
  pub requests : List PatchRequest
  pub patchsets : List Patchset
  pub patches : List Patch
  pub event_logs : List EventLog
  pub last_user : ℕ
  pub last_request : ℕ
  pub last_patchset : ℕ
  pub last_patch : ℕ
  pub last_event : ℕ

-- The tables as the schema creates them.
abbrev pub empty_db : Db
empty_db = record {
  users = [];
  acl = [];
  requests = [];
  patchsets = [];
  patches = [];
  event_logs = [];
  last_user = 0;
  last_request = 0;
  last_patchset = 0;
  last_patch = 0;
  last_event = 0;
}

-- The statements that the code hands to the driver.
pub data Statement : Type 0 where
  begin commit : Statement
  select_acl select_users select_requests select_patchsets select_patches : Statement
  select_events : Statement
  insert_user insert_request insert_patchset insert_patch insert_event : Statement
  update_name update_activity delete_patchset read_clock : Statement

-- What is decided outside the code: whether foreign keys are enforced, which statements fail, and
-- the time that a statement (or `time.Now()`) reads.
pub record Driver : Type 0 where
  pub foreign_keys : Bool
  pub fails : Statement → Db → Bool
  pub now : Statement → Db → ℕ
