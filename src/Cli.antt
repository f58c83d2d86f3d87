-- ===== src/Cli.antt =====
-- cli.go: the commands `push` and `rm` of a session, and the rewriting of arguments of mdw.go. The
-- commands `edit` and `comment` are in Talk.
-- What a command prints is modelled for `show` and `push` only, in `Summary`.
pub mod Commands
pub mod Talk
pub mod Issue
pub mod Reading
pub mod Kept
pub mod Steps
pub mod Posts
pub mod Session
pub mod Summary
pub mod Pulled
use patchbin.Base.{
  ℕ, suc, ◌+◌, Str, Bool, true, false, not, Option, none, some, List, [], ◌∷◌, ◌++◌, map, codes,
  ltb, str_eq, has_byte, has_suffix, trim_suffix, length, take, last_elem?, if◌then◌else◌, Result,
  ok, err, Error, fail_if, ◌>>=◌, ◌>>◌,
}
use patchbin.Base.Space.{trim_space}
use patchbin.Base.Number.{parse_int, format}
use patchbin.RateLimit.{RateLimiter, allow}
use patchbin.Target.{Target, parse_target, positive_rev, colon, dot, dot_patch}
use patchbin.Store.{User, PatchRequest, Patchset, PatchText, Db, Driver}
use patchbin.Mbox.{File, Tools, parse_patchset}
use patchbin.Pr.Queries.{
  indexed, get_user_by_id, get_patchsets_by_pr_id, get_patches_by_patchset_id,
  get_patch_request_by_repo_and_slug,
}
use patchbin.Pr.Users.{upsert_user_by_pubkey}
use patchbin.Pr.Submit.{submit_patch_request, submit_patchset}
use patchbin.Pr.Change.{delete_patchset_by_id}
use patchbin.Resolve.{resolve_target}

-- What the sessions share.
pub record Server : Type 0 where
  pub limiter : RateLimiter
  pub db : Db

-- `{repo}:{slug}.patch` pulls and `{repo}:{slug}` pushes, if it is the first word of a session.
unfoldable pub rewrite_args : List Str → List Str
rewrite_args [] = []
rewrite_args (first ∷ rest) =
    if has_byte colon first
    then (if has_suffix first dot_patch
        then codes "pull" ∷ trim_suffix first dot_patch ∷ rest
        else (codes "push" ∷ first ∷ rest))
    else (first ∷ rest)

-- `stdin` is an error where reading fails.
unfoldable pub read_stdin_limited : ℕ → Result Str → Result Str
read_stdin_limited max_bytes stdin = do
  text ← stdin
  let body = take (max_bytes + 1) text
  fail_if (ltb max_bytes (length body)) Error.stdin_too_large
  ok body

abbrev pub patch_texts : Result (List (PatchText × List File)) → Result (List PatchText)
patch_texts (ok ps) = ok (map (λ p. p.0) ps)
patch_texts (err e) = err e

-- The patchset of a push, before it is parsed.
unfoldable pub pushed_body : ℕ → Result Str → Result Str
unfolding read_stdin_limited
pushed_body max_bytes stdin = do
  body ← read_stdin_limited max_bytes stdin
  fail_if (str_eq (trim_space body) []) Error.no_patch_data
  ok body

-- `raw.rev` if a second argument is a positive number.
abbrev pub with_revision : Str → Option ℕ → Str
with_revision raw none = raw
with_revision raw (some n) = raw ++ (dot ∷ format n)

abbrev pub raw_target : Str → List Str → Str
raw_target raw [] = raw
raw_target raw (second ∷ rest) = with_revision raw (positive_rev (parse_int second))

module _ (drv : Driver) where
  -- What prSummary reads; the rows that it cannot show are left out.
  unfoldable pub pr_summary : PatchRequest → Db → Result (Unit {0})
  pr_summary pr db = do
    patchsets ← get_patchsets_by_pr_id drv pr.id db
    latest ← indexed (last_elem? patchsets)
    _ ← get_patches_by_patchset_id drv latest.id db
    ok tt

  abbrev pub created : Result PatchRequest × Db → Result (Unit {0}) × Db
  created (err e, db) = (err e, db)
  created (ok pr, db) = (pr_summary pr db, db)

  abbrev pub added : PatchRequest → Result (List ℕ) × Db → Result (Unit {0}) × Db
  added pr (err e, db) = (err e, db)
  added pr (ok [], db) = (ok tt, db)
  added pr (ok (id ∷ ids), db) = (pr_summary pr db, db)

  -- A request that is found gets a patchset; any error of the search makes a new one.
  abbrev pub push_to :
      Target → User → Result (List PatchText) → Db → Result PatchRequest → Result (Unit {0}) × Db
  push_to target user patches db (err e) =
      created (submit_patch_request drv user.id target.repo target.slug patches db)
  push_to target user patches db (ok pr) = added pr (submit_patchset drv pr.id user.id patches db)

  abbrev pub push_body : Tools → Target → User → Db → Result Str → Result (Unit {0}) × Db
  push_body tools target user db (err e) = (err e, db)
  push_body tools target user db (ok body) =
      push_to target user (patch_texts (parse_patchset tools body)) db
        (get_patch_request_by_repo_and_slug drv target.repo target.slug db)

  abbrev pub push_as : Tools → ℕ → Result Str → Target → Result User × Db → Result (Unit {0}) × Db
  push_as tools max_bytes stdin target (err e, db) = (err e, db)
  push_as tools max_bytes stdin target (ok user, db) =
      push_body tools target user db (pushed_body max_bytes stdin)

  abbrev pub push_target :
      Tools → ℕ → Result Str → Str → Db → Result Target → Result (Unit {0}) × Db
  push_target tools max_bytes stdin pubkey db (err e) = (err e, db)
  push_target tools max_bytes stdin pubkey db (ok target) =
      push_as tools max_bytes stdin target (upsert_user_by_pubkey drv pubkey db)

  abbrev pub push_args : Tools → ℕ → Result Str → Str → List Str → Db → Result (Unit {0}) × Db
  push_args tools max_bytes stdin pubkey [] db = (err Error.missing_target, db)
  push_args tools max_bytes stdin pubkey (first ∷ rest) db =
      push_target tools max_bytes stdin pubkey db (parse_target first)

  abbrev pub if_allowed :
      Tools → ℕ → Result Str → Str → List Str → Db → Bool × RateLimiter → Result (Unit {0}) × Server
  if_allowed tools max_bytes stdin pubkey args db (false, limiter) =
      (err Error.rate_limited, record { limiter = limiter; db = db })
  if_allowed tools max_bytes stdin pubkey args db (true, limiter) =
      let (result, db') = push_args tools max_bytes stdin pubkey args db in
      (result, record { limiter = limiter; db = db' })

  -- The whole command, at the time `now`.
  unfoldable pub push :
      Tools → ℕ → ℕ → Result Str → Str → List Str → Server → Result (Unit {0}) × Server
  push tools max_bytes now stdin pubkey args s =
      if_allowed tools max_bytes stdin pubkey args s.db (allow now s.limiter)

  -- Only the user whose patchset it is may remove it.
  unfoldable pub patchset_owner : Str → Patchset → Db → Result User
  patchset_owner pubkey patchset db = do
    user ← get_user_by_id drv patchset.user_id db
    fail_if (not (str_eq pubkey user.pubkey)) Error.not_authorized
    ok user

  abbrev pub rm_owned : PatchRequest → Patchset → Db → Result User → Result (Unit {0}) × Db
  rm_owned pr patchset db (err e) = (err e, db)
  rm_owned pr patchset db (ok user) = delete_patchset_by_id drv user.id pr.id patchset.id db

  abbrev pub rm_resolved : Str → Db → Result (PatchRequest × Patchset) → Result (Unit {0}) × Db
  rm_resolved pubkey db (err e) = (err e, db)
  rm_resolved pubkey db (ok (pr, patchset)) =
      rm_owned pr patchset db (patchset_owner pubkey patchset db)

  unfoldable pub remove : Str → List Str → Db → Result (Unit {0}) × Db
  remove pubkey [] db = (err Error.missing_target, db)
  remove pubkey (raw ∷ rest) db =
      rm_resolved pubkey db (resolve_target drv (raw_target raw rest) db)
