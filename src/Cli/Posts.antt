-- ===== src/Cli/Posts.antt =====
-- The commands `comment`, `issue` and `logs` of cli.go as steps of the writing operations of pr.go.
use patchbin.Base.{ℕ, Str, Bool, true, false, List, [], ◌∷◌, Result, ok, err, ◌≡◌, refl}
use patchbin.RateLimit.{RateLimiter, allow}
use patchbin.Target.{Target, parse_target}
use patchbin.Store.{User, PatchRequest, Db, Driver}
use patchbin.Pr.Users.{upsert_user_by_pubkey}
use patchbin.Pr.Submit.{submit_issue}
use patchbin.Pr.Operation.{Operation, perform}
use patchbin.Cli.{Server, created}
use patchbin.Cli.Talk.{
  comment_text, named_request, comment_with, comment_as, comment_on, comment_args,
  comment_if_allowed, send_comment,
}
use patchbin.Cli.Issue.{issue_text, issue_with, issue_to, issue_as, issue_if_allowed, open_issue}
use patchbin.Cli.Reading.{logs_as, logs}

module _ (drv : Driver) (P : Db → Type 0)
    (step : (db : Db) → P db → (op : Operation) → P (perform drv op db)) where
  comment_with-keeps :
      (pr : PatchRequest) (u : User) (db : Db) (r : Result Str)
      → P db
      → P (comment_with drv pr u db r).1
  unfolding perform
  comment_with-keeps pr u db (err e) v = v
  comment_with-keeps pr u db (ok text) v = step db v (Operation.comment pr.id u.id text)

  comment_as-keeps :
      (max_bytes : ℕ) (stdin : Result Str) (rest : List Str) (pr : PatchRequest)
      (x : Result User × Db)
      → P x.1
      → P (comment_as drv max_bytes stdin rest pr x).1
  comment_as-keeps max_bytes stdin rest pr (err e, db) v = v
  comment_as-keeps max_bytes stdin rest pr (ok u, db) v =
      comment_with-keeps pr u db (comment_text max_bytes stdin rest) v

  comment_on-keeps :
      (max_bytes : ℕ) (stdin : Result Str) (pubkey : Str) (rest : List Str) (db : Db)
      (r : Result PatchRequest)
      → P db
      → P (comment_on drv max_bytes stdin pubkey rest db r).1
  unfolding perform
  comment_on-keeps max_bytes stdin pubkey rest db (err e) v = v
  comment_on-keeps max_bytes stdin pubkey rest db (ok pr) v =
      comment_as-keeps max_bytes stdin rest pr (upsert_user_by_pubkey drv pubkey db)
        (step db v (Operation.upsert pubkey))

  comment_args-keeps :
      (max_bytes : ℕ) (stdin : Result Str) (pubkey : Str) (args : List Str) (db : Db)
      → P db
      → P (comment_args drv max_bytes stdin pubkey args db).1
  comment_args-keeps max_bytes stdin pubkey [] db v = v
  comment_args-keeps max_bytes stdin pubkey (first ∷ rest) db v =
      comment_on-keeps max_bytes stdin pubkey rest db (named_request drv first db) v

  comment_if_allowed-keeps :
      (max_bytes : ℕ) (stdin : Result Str) (pubkey : Str) (args : List Str) (db : Db)
      (a : Bool × RateLimiter)
      → P db
      → P (comment_if_allowed drv max_bytes stdin pubkey args db a).1.db
  comment_if_allowed-keeps max_bytes stdin pubkey args db (false, limiter) v = v
  comment_if_allowed-keeps max_bytes stdin pubkey args db (true, limiter) v =
      comment_args-keeps max_bytes stdin pubkey args db v

  pub send_comment-keeps :
      (max_bytes now : ℕ) (stdin : Result Str) (pubkey : Str) (args : List Str) (s : Server)
      → P s.db
      → P (send_comment drv max_bytes now stdin pubkey args s).1.db
  unfolding send_comment
  send_comment-keeps max_bytes now stdin pubkey args s v =
      comment_if_allowed-keeps max_bytes stdin pubkey args s.db (allow now s.limiter) v

  created-keeps : (x : Result PatchRequest × Db) → P x.1 → P (created drv x).1
  created-keeps (err e, db) v = v
  created-keeps (ok pr, db) v = v

  issue_with-keeps :
      (u : User) (t : Target) (db : Db) (r : Result (Str × Str))
      → P db
      → P (issue_with drv u t db r).1
  unfolding perform
  issue_with-keeps u t db (err e) v = v
  issue_with-keeps u t db (ok (title, body)) v =
      created-keeps (submit_issue drv u.id t.repo t.slug title body db)
        (step db v (Operation.new_issue u.id t.repo t.slug title body))

  issue_to-keeps :
      (max_bytes : ℕ) (stdin : Result Str) (flag : Str) (rest : List Str) (u : User) (db : Db)
      (r : Result Target)
      → P db
      → P (issue_to drv max_bytes stdin flag rest u db r).1
  issue_to-keeps max_bytes stdin flag rest u db (err e) v = v
  issue_to-keeps max_bytes stdin flag rest u db (ok t) v =
      issue_with-keeps u t db (issue_text max_bytes stdin flag rest) v

  issue_as-keeps :
      (max_bytes : ℕ) (stdin : Result Str) (flag : Str) (args : List Str) (x : Result User × Db)
      → P x.1
      → P (issue_as drv max_bytes stdin flag args x).1
  issue_as-keeps max_bytes stdin flag args (err e, db) v = v
  issue_as-keeps max_bytes stdin flag [] (ok u, db) v = v
  issue_as-keeps max_bytes stdin flag (first ∷ rest) (ok u, db) v =
      issue_to-keeps max_bytes stdin flag rest u db (parse_target first) v

  issue_if_allowed-keeps :
      (max_bytes : ℕ) (stdin : Result Str) (pubkey flag : Str) (args : List Str) (db : Db)
      (a : Bool × RateLimiter)
      → P db
      → P (issue_if_allowed drv max_bytes stdin pubkey flag args db a).1.db
  unfolding perform
  issue_if_allowed-keeps max_bytes stdin pubkey flag args db (false, limiter) v = v
  issue_if_allowed-keeps max_bytes stdin pubkey flag args db (true, limiter) v =
      issue_as-keeps max_bytes stdin flag args (upsert_user_by_pubkey drv pubkey db)
        (step db v (Operation.upsert pubkey))

  pub open_issue-keeps :
      (max_bytes now : ℕ) (stdin : Result Str) (pubkey flag : Str) (args : List Str) (s : Server)
      → P s.db
      → P (open_issue drv max_bytes now stdin pubkey flag args s).1.db
  unfolding open_issue
  open_issue-keeps max_bytes now stdin pubkey flag args s v =
      issue_if_allowed-keeps max_bytes stdin pubkey flag args s.db (allow now s.limiter) v

  logs_as-keeps :
      (mine : Bool) (target : Str) (x : Result User × Db) → P x.1 → P (logs_as drv mine target x).1
  logs_as-keeps mine target (err e, db) v = v
  logs_as-keeps mine target (ok u, db) v = v

  pub logs-keeps :
      (mine : Bool) (target pubkey : Str) (db : Db) → P db → P (logs drv mine target pubkey db).1
  unfolding logs perform
  logs-keeps mine target pubkey db v =
      logs_as-keeps mine target (upsert_user_by_pubkey drv pubkey db)
        (step db v (Operation.upsert pubkey))

module _ (drv : Driver) (max_bytes : ℕ) (stdin : Result Str) (pubkey : Str) where
  comment_if_allowed-limiter :
      (args : List Str) (db : Db) (a : Bool × RateLimiter)
      → (comment_if_allowed drv max_bytes stdin pubkey args db a).1.limiter ≡ a.1
  comment_if_allowed-limiter args db (false, limiter) = refl
  comment_if_allowed-limiter args db (true, limiter) = refl

  pub send_comment-limiter :
      (now : ℕ) (args : List Str) (s : Server)
      → (send_comment drv max_bytes now stdin pubkey args s).1.limiter ≡ (allow now s.limiter).1
  unfolding send_comment
  send_comment-limiter now args s = comment_if_allowed-limiter args s.db (allow now s.limiter)

  issue_if_allowed-limiter :
      (flag : Str) (args : List Str) (db : Db) (a : Bool × RateLimiter)
      → (issue_if_allowed drv max_bytes stdin pubkey flag args db a).1.limiter ≡ a.1
  issue_if_allowed-limiter flag args db (false, limiter) = refl
  issue_if_allowed-limiter flag args db (true, limiter) = refl

  pub open_issue-limiter :
      (now : ℕ) (flag : Str) (args : List Str) (s : Server)
      → (open_issue drv max_bytes now stdin pubkey flag args s).1.limiter ≡ (allow now s.limiter).1
  unfolding open_issue
  open_issue-limiter now flag args s = issue_if_allowed-limiter flag args s.db (allow now s.limiter)
