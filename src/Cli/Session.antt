-- ===== src/Cli/Session.antt =====
-- The sessions of the server: any sequence of the commands of cli.go, by any users and at any times.
use patchbin.Base.{ℕ, Str, Bool, List, Result, ◌≡◌, refl, sym, subst, ◌∙◌}
use patchbin.RateLimit.{RateLimiter, allow}
use patchbin.RateLimit.Window.{allow-IsValid}
use patchbin.RateLimit.Window as Window
use patchbin.Store.{Db, Driver}
use patchbin.Mbox.{Tools}
use patchbin.Pr.Operation.{Operation, perform, Reached}
use patchbin.Cli.{Server, push, remove}
use patchbin.Cli.Talk.{edit, send_comment}
use patchbin.Cli.Issue.{open_issue}
use patchbin.Cli.Reading.{logs}
use patchbin.Cli.Steps.{push-keeps, push-limiter, remove-keeps, edit-keeps}
use patchbin.Cli.Posts.{
  send_comment-keeps, send_comment-limiter, open_issue-keeps, open_issue-limiter, logs-keeps,
}

-- The commands that write, with what standard input gives and the arguments; the key of the session
-- and the time come apart. `logs` may make a user.
pub data Command : Type 0 where
  push_command : Result Str → List Str → Command
  rm_command : List Str → Command
  edit_command : List Str → Command
  comment_command : Result Str → List Str → Command
  issue_command : Result Str → Str → List Str → Command
  logs_command : Bool → Str → Command

abbrev pub with_db : Server → Db → Server
with_db s db = record s { db = db }

module _ (drv : Driver) (tools : Tools) (max_bytes : ℕ) where
  -- The server once a command has run.
  unfoldable pub serve : ℕ → Str → Command → Server → Server
  serve now pubkey (Command.push_command stdin args) s =
      (push drv tools max_bytes now stdin pubkey args s).1
  serve now pubkey (Command.rm_command args) s = with_db s (remove drv pubkey args s.db).1
  serve now pubkey (Command.edit_command args) s = with_db s (edit drv pubkey args s.db).1
  serve now pubkey (Command.comment_command stdin args) s =
      (send_comment drv max_bytes now stdin pubkey args s).1
  serve now pubkey (Command.issue_command stdin flag args) s =
      (open_issue drv max_bytes now stdin pubkey flag args s).1
  serve now pubkey (Command.logs_command mine target) s =
      with_db s (logs drv mine target pubkey s.db).1

  -- The servers that sessions reach from `start`.
  pub data Served (start : Server) : Server → Type 0 where
    begin : Served start start
    next :
        (now : ℕ) (pubkey : Str) (c : Command) (s : Server)
        → Served start s
        → Served start (serve now pubkey c s)

  reach : (db : Db) → Reached drv db → (op : Operation) → Reached drv (perform drv op db)
  reach db r op = Reached.next op r

  serve-Reached :
      (now : ℕ) (pubkey : Str) (c : Command) (s : Server)
      → Reached drv s.db
      → Reached drv (serve now pubkey c s).db
  unfolding serve
  serve-Reached now pubkey (Command.push_command stdin args) s r =
      push-keeps drv (Reached drv) reach tools max_bytes now stdin pubkey args s r
  serve-Reached now pubkey (Command.rm_command args) s r =
      remove-keeps drv (Reached drv) reach pubkey args s.db r
  serve-Reached now pubkey (Command.edit_command args) s r =
      edit-keeps drv (Reached drv) reach pubkey args s.db r
  serve-Reached now pubkey (Command.comment_command stdin args) s r =
      send_comment-keeps drv (Reached drv) reach max_bytes now stdin pubkey args s r
  serve-Reached now pubkey (Command.issue_command stdin flag args) s r =
      open_issue-keeps drv (Reached drv) reach max_bytes now stdin pubkey flag args s r
  serve-Reached now pubkey (Command.logs_command mine target) s r =
      logs-keeps drv (Reached drv) reach mine target pubkey s.db r

  -- The limiter is within its cap, and has the settings of another one.
  abbrev pub IsLimited : RateLimiter → RateLimiter → Type 0
  IsLimited first r = Window.IsValid r × (r.max ≡ first.max) × (r.interval ≡ first.interval)

  allowed-IsLimited :
      (first r after : RateLimiter) (now : ℕ)
      → after ≡ (allow now r).1
      → IsLimited first r
      → IsLimited first after
  allowed-IsLimited first r after now same (v, cap, span) =
      let (v', cap', span') = allow-IsValid now r v in
      subst (IsLimited first) (sym same) (v', cap' ∙ cap, span' ∙ span)

  serve-IsLimited :
      (first : RateLimiter) (now : ℕ) (pubkey : Str) (c : Command) (s : Server)
      → IsLimited first s.limiter
      → IsLimited first (serve now pubkey c s).limiter
  unfolding serve
  serve-IsLimited first now pubkey (Command.push_command stdin args) s h =
      allowed-IsLimited first s.limiter _ now
        (push-limiter drv tools max_bytes now stdin pubkey args s) h
  serve-IsLimited first now pubkey (Command.rm_command args) s h = h
  serve-IsLimited first now pubkey (Command.edit_command args) s h = h
  serve-IsLimited first now pubkey (Command.comment_command stdin args) s h =
      allowed-IsLimited first s.limiter _ now
        (send_comment-limiter drv max_bytes stdin pubkey now args s) h
  serve-IsLimited first now pubkey (Command.issue_command stdin flag args) s h =
      allowed-IsLimited first s.limiter _ now
        (open_issue-limiter drv max_bytes stdin pubkey now flag args s) h
  serve-IsLimited first now pubkey (Command.logs_command mine target) s h = h

-- From a server whose limiter is within its cap and whose database the writing operations of pr.go
-- reach from an empty one: whatever commands sessions of any users run on it, in any order, at any
-- times and with any outcome, its database is again one that these operations reach, and its
-- limiter is within the cap, with the same settings.
pub Served-Reached :
    (drv : Driver) (tools : Tools) (max_bytes : ℕ) (start s : Server)
    → Window.IsValid start.limiter
    → Reached drv start.db
    → Served drv tools max_bytes start s
    → Reached drv s.db
      × Window.IsValid s.limiter
      × (s.limiter.max ≡ start.limiter.max)
      × (s.limiter.interval ≡ start.limiter.interval)
Served-Reached drv tools max_bytes start _ v r begin = (r, v, refl, refl)
Served-Reached drv tools max_bytes start _ v r (next now pubkey c s' h) =
    let (r', v', cap, span) = Served-Reached drv tools max_bytes start s' v r h in
    let (v'', cap', span') =
      serve-IsLimited drv tools max_bytes start.limiter now pubkey c s' (v', cap, span) in
    (serve-Reached drv tools max_bytes now pubkey c s' r', v'', cap', span')
