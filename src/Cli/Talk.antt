-- ===== src/Cli/Talk.antt =====
-- The commands `edit` and `comment` of cli.go.
use patchbin.Base.{
  ℕ, Str, Bool, true, false, List, [], ◌∷◌, codes, str_eq, Result, ok, err, Error, fail_if, ◌>>=◌,
  ◌>>◌,
}
use patchbin.Base.Space.{trim_space}
use patchbin.Base.Search.{join}
use patchbin.RateLimit.{RateLimiter, allow}
use patchbin.Target.{parse_target}
use patchbin.Store.{User, PatchRequest, Db, Driver}
use patchbin.Pr.Queries.{get_patch_request_by_repo_and_slug}
use patchbin.Pr.Users.{upsert_user_by_pubkey}
use patchbin.Pr.Change.{update_patch_request_name, add_comment}
use patchbin.Resolve.{or_error}
use patchbin.Cli.{Server, read_stdin_limited}

-- The words behind the target.
abbrev pub words : List Str → Str
words rest = trim_space (join rest (codes " "))

unfoldable pub edited_title : List Str → Result Str
edited_title rest = do fail_if (str_eq (words rest) []) Error.empty_name; ok (words rest)

unfoldable pub comment_text : ℕ → Result Str → List Str → Result Str
comment_text max_bytes stdin [] = do
  body ← read_stdin_limited max_bytes stdin
  fail_if (str_eq (trim_space body) []) Error.missing_comment
  ok (trim_space body)
comment_text max_bytes stdin (word ∷ rest) = do
  fail_if (str_eq (words (word ∷ rest)) []) Error.missing_comment
  ok (words (word ∷ rest))

module _ (drv : Driver) where
  -- The request that the first argument names, without a revision.
  unfoldable pub named_request : Str → Db → Result PatchRequest
  named_request first db = do
    target ← parse_target first
    or_error Error.pr_not_found (get_patch_request_by_repo_and_slug drv target.repo target.slug db)

  abbrev pub edit_with : Str → Db → Result (PatchRequest × Str) → Result (Unit {0}) × Db
  edit_with pubkey db (err e) = (err e, db)
  edit_with pubkey db (ok (pr, title)) = update_patch_request_name drv pr.id pubkey title db

  unfoldable pub edit_checks : List Str → Db → Result (PatchRequest × Str)
  unfolding named_request edited_title
  edit_checks [] db = err Error.missing_target
  edit_checks (first ∷ rest) db = do
    pr ← named_request first db
    title ← edited_title rest
    ok (pr, title)

  unfoldable pub edit : Str → List Str → Db → Result (Unit {0}) × Db
  edit pubkey args db = edit_with pubkey db (edit_checks args db)

  abbrev pub comment_with : PatchRequest → User → Db → Result Str → Result (Unit {0}) × Db
  comment_with pr user db (err e) = (err e, db)
  comment_with pr user db (ok text) = add_comment drv pr.id user.id text db

  abbrev pub comment_as :
      ℕ → Result Str → List Str → PatchRequest → Result User × Db → Result (Unit {0}) × Db
  comment_as max_bytes stdin rest pr (err e, db) = (err e, db)
  comment_as max_bytes stdin rest pr (ok user, db) =
      comment_with pr user db (comment_text max_bytes stdin rest)

  abbrev pub comment_on :
      ℕ → Result Str → Str → List Str → Db → Result PatchRequest → Result (Unit {0}) × Db
  comment_on max_bytes stdin pubkey rest db (err e) = (err e, db)
  comment_on max_bytes stdin pubkey rest db (ok pr) =
      comment_as max_bytes stdin rest pr (upsert_user_by_pubkey drv pubkey db)

  abbrev pub comment_args : ℕ → Result Str → Str → List Str → Db → Result (Unit {0}) × Db
  comment_args max_bytes stdin pubkey [] db = (err Error.missing_target, db)
  comment_args max_bytes stdin pubkey (first ∷ rest) db =
      comment_on max_bytes stdin pubkey rest db (named_request first db)

  abbrev pub comment_if_allowed :
      ℕ → Result Str → Str → List Str → Db → Bool × RateLimiter → Result (Unit {0}) × Server
  comment_if_allowed max_bytes stdin pubkey args db (false, limiter) =
      (err Error.rate_limited, record { limiter = limiter; db = db })
  comment_if_allowed max_bytes stdin pubkey args db (true, limiter) =
      let (result, db') = comment_args max_bytes stdin pubkey args db in
      (result, record { limiter = limiter; db = db' })

  -- The whole command, at the time `now`.
  unfoldable pub send_comment :
      ℕ → ℕ → Result Str → Str → List Str → Server → Result (Unit {0}) × Server
  send_comment max_bytes now stdin pubkey args s =
      comment_if_allowed max_bytes stdin pubkey args s.db (allow now s.limiter)
