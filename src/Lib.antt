-- ===== src/Lib.antt =====
-- patchbin: a pastebin for git patches. Users push the output of `git format-patch` over SSH; it
-- is stored as a patch request, to which further patchsets, comments and titles are added, and it
-- is pulled again as an mbox, with the discussion in a cover letter.
--
-- The parts and their files:
-- - Base: texts (lists of bytes), lists, numbers, sorting, searching, and the results of Go
--   functions that return an error. Base/Space is strings.TrimSpace, Base/Number strconv.Atoi and
--   `%d`.
-- - RateLimit: ratelimit.go. The limiter is a record; `allow` is `Allow` with the time as
--   argument.
-- - Target: ParseTarget and Target.String of util.go. Resolve: ResolveTarget, ParseID,
--   GetPatchsetByParsedID, getPatchsetRev, getPrID and getFormattedPatchsetID of util.go, over the
--   queries of pr.go.
-- - Mbox: ParsePatchset, splitPatchSet, findBaseCommit, calcContentSha and patchToDiff of util.go.
-- - Store: models.go and the tables of sqlite.go. `Db` has a list for each table, in the order of
--   the rows' ids, and the last id given of each; Store/Statements has the SQL statements that the
--   code runs and `transaction`, which drops the changes of a body that fails. Store/Valid is the
--   invariant.
-- - Pr: pr.go. Pr/Queries are the reading operations; Pr/Users, Pr/Submit and Pr/Change those that
--   write, each from a database to a result and the database that is left. Pr/Operation makes them
--   the steps of a program that shares one database.
-- - RangeDiff: range_diff.go, and DiffPatchsets of pr.go. A panic on an index is an error of its
--   own.
-- - CoverLetter: cover_letter.go.
-- - Cli: cli.go, over the limiter and the database that the sessions share (`Server`), and the
--   rewriting of arguments of mdw.go. Cli.antt has `push` and `rm`, Cli/Talk `edit` and `comment`,
--   Cli/Issue `issue`, Cli/Reading `pull`, `show`, `ls` and `logs`; Cli/Session puts the commands
--   of all sessions in a sequence. Cli/Summary is what `show` and `push` print. Cli/Steps and
--   Cli/Posts take the commands apart into the operations of Pr.
-- - SemDiff: semdiff.go. Base/Regex matches the patterns of hunk headers, SemDiff/Patterns has the
--   patterns and SemDiff/Comment reads names by them; SemDiff/Pieces, SemDiff/GoName and
--   SemDiff/Header speak of the one for Go. SemDiff/Changes are the changes of a hunk, of a file and
--   of a patch. Base/Regex/Matches says what a match is.
-- - DiffHtml: diff_render.go, a hunk as a table.
-- - Keys: backend.go, `authHandler` of ssh.go and GetAuthorizedKeys of util.go.
-- - Config: cfg.go, the defaults over what koanf loads. SshServer: `GitSshServer` of ssh.go.
-- - Web: web.go and web_pr_detail.go. A handler is a function to a `Response`: a status, a
--   redirection, the data of a page, or a panic. Web.antt has the lists, Web/Legacy the old
--   addresses, Web/Feeds the feeds, Web/Data, Web/Detail and Web/Selected the page of a request,
--   Web/Server the routes, the static files and the handlers in one function; Web/Patterns says how
--   `http.ServeMux` chooses among patterns.
-- - Store/Upgrade: SqliteOpen and sqliteUpgrade of sqlite.go, over a transaction's own copy of the
--   file; Store/Upgraded its proofs. Pr/History has the revisions of a request that the tables
--   stand for, Pr/Effect what each operation does to those tables, and
--   Pr/Recorded the steps on the histories. Store/EventValue: Scan and Value of models.go.
-- - Tests: the theorems at concrete inputs.
--
-- How the parts interact: Pr stores what Mbox reads; Resolve reads Target's parts and Pr's rows;
-- RangeDiff compares patches that Mbox parsed and Pr stored; CoverLetter writes what Mbox read;
-- Cli calls RateLimit, Target, Resolve, Mbox and Pr, in the order of the code. Web reads what Pr
-- stored, and shows it by RangeDiff, SemDiff, DiffHtml and CoverLetter.
--
-- What is given from outside, as parameters: `Driver` decides which statements fail, the clock,
-- and whether SQLite enforces foreign keys (the address of the database asks for it, and a comment
-- of sqlite.go says that it never was); `Mbox.Tools` are the parsers of bluekeyes/go-gitdiff, the
-- printing of its lines and modes, and SHA-256; `RangeDiff.Choices` are the assignment of
-- oddg/hungarian-algorithm, the order of a map's iteration, and what sort.Slice does with elements
-- of which neither is less; `CoverLetter.Layouts` are the layouts of a time and SHA-256;
-- `SemDiff.Grammar` is tree-sitter (which queries compile, and what they capture in a text) and
-- the order of a map's iteration; `DiffHtml.Painter` is the highlighter chroma; `Keys.Keyring` is
-- the parser of keys; filepath.Abs is an argument of `new_git_cfg`; `Web.Feeds.FeedLayouts` are
-- json.Marshal and a layout; `Store.Upgrade.Engine` is what SQLite makes of the scripts of a
-- migration. `Web.Detail.Site` holds all that a handler of the web server needs, and
-- `Web.Server.Assets` the files, their types and the style sheet; the choice of http.ServeMux is
-- an argument of `git_web_server`. `Config.Koanf` is koanf, `Store.EventValue.Json` encoding/json,
-- and `Cli.Summary.Screen` the columns of text/tabwriter with the layout of a time.
--
-- Bounds: an int or int64 that the code reads is checked against its range; ids, sizes and times
-- are natural numbers, since a table does not reach 2 ^ 63 rows and a submission is at most as
-- large as the configuration allows, 5 MB if it says nothing. There is fuel in
-- `Base.Number.format`, where a number has at most as many digits as its value, and in the star of
-- a pattern, whose rounds each take a byte of the text. Rows with equal times stay in the order of
-- their ids where a query sorts by the time alone. A statement that runs on its own either fails
-- and changes nothing, or is carried out.
--
-- The address of a redirection is the one given to http.Redirect, which cleans it. Events with
-- equal times stay in their order where slices.SortFunc sorts them.
--
-- Not modelled: the context of a web request (which is always there), how templates, feeds and the
-- tables of `ls` and `logs` are written out; the texts of help, errors and logs; the inside of the
-- libraries' servers; the SQL of the migrations; the programs under cmd and the scripts under
-- contrib; util/util.go,
-- which only tests and scripts use.
pub mod Base
pub mod RateLimit
pub mod Target
pub mod Store
pub mod Pr
pub mod Mbox
pub mod CoverLetter
pub mod RangeDiff
pub mod Resolve
pub mod Tests
pub mod Cli
pub mod DiffHtml
pub mod Keys
pub mod Config
pub mod SshServer
pub mod Web
pub mod SemDiff
