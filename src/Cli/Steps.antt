-- ===== src/Cli/Steps.antt =====
-- The commands `push`, `rm` and `edit` of cli.go as steps of the writing operations of pr.go.
use patchbin.Base.{ℕ, Str, Bool, true, false, List, [], ◌∷◌, Result, ok, err, ◌≡◌, refl}
use patchbin.RateLimit.{RateLimiter, allow}
use patchbin.Target.{Target, parse_target}
use patchbin.Store.{User, PatchRequest, Patchset, PatchText, Db, Driver}
use patchbin.Mbox.{Tools, parse_patchset}
use patchbin.Pr.Queries.{get_patch_request_by_repo_and_slug}
use patchbin.Pr.Users.{upsert_user_by_pubkey}
use patchbin.Pr.Submit.{submit_patch_request, submit_patchset}
use patchbin.Pr.Operation.{Operation, perform}
use patchbin.Resolve.{resolve_target}
use patchbin.Cli.{
  Server, push, push_to, push_body, push_as, push_target, push_args, if_allowed, pushed_body,
  patch_texts, created, added, patchset_owner, rm_owned, rm_resolved, raw_target, remove,
}
use patchbin.Cli.Talk.{edit_with, edit_checks, edit}

module _ (drv : Driver) (P : Db → Type 0)
    (step : (db : Db) → P db → (op : Operation) → P (perform drv op db)) where
  created-keeps : (x : Result PatchRequest × Db) → P x.1 → P (created drv x).1
  created-keeps (err e, db) v = v
  created-keeps (ok pr, db) v = v

  added-keeps : (pr : PatchRequest) (x : Result (List ℕ) × Db) → P x.1 → P (added drv pr x).1
  added-keeps pr (err e, db) v = v
  added-keeps pr (ok [], db) v = v
  added-keeps pr (ok (id ∷ ids), db) v = v

  push_to-keeps :
      (t : Target) (u : User) (patches : Result (List PatchText)) (db : Db)
      (r : Result PatchRequest)
      → P db
      → P (push_to drv t u patches db r).1
  unfolding perform
  push_to-keeps t u patches db (err e) v =
      created-keeps (submit_patch_request drv u.id t.repo t.slug patches db)
        (step db v (Operation.new_request u.id t.repo t.slug patches))
  push_to-keeps t u patches db (ok pr) v =
      added-keeps pr (submit_patchset drv pr.id u.id patches db)
        (step db v (Operation.new_patchset pr.id u.id patches))

  push_body-keeps :
      (tools : Tools) (t : Target) (u : User) (db : Db) (r : Result Str)
      → P db
      → P (push_body drv tools t u db r).1
  push_body-keeps tools t u db (err e) v = v
  push_body-keeps tools t u db (ok body) v =
      push_to-keeps t u (patch_texts (parse_patchset tools body)) db
        (get_patch_request_by_repo_and_slug drv t.repo t.slug db) v

  push_as-keeps :
      (tools : Tools) (max_bytes : ℕ) (stdin : Result Str) (t : Target) (x : Result User × Db)
      → P x.1
      → P (push_as drv tools max_bytes stdin t x).1
  push_as-keeps tools max_bytes stdin t (err e, db) v = v
  push_as-keeps tools max_bytes stdin t (ok u, db) v =
      push_body-keeps tools t u db (pushed_body max_bytes stdin) v

  push_target-keeps :
      (tools : Tools) (max_bytes : ℕ) (stdin : Result Str) (pubkey : Str) (db : Db)
      (r : Result Target)
      → P db
      → P (push_target drv tools max_bytes stdin pubkey db r).1
  unfolding perform
  push_target-keeps tools max_bytes stdin pubkey db (err e) v = v
  push_target-keeps tools max_bytes stdin pubkey db (ok t) v =
      push_as-keeps tools max_bytes stdin t (upsert_user_by_pubkey drv pubkey db)
        (step db v (Operation.upsert pubkey))

  push_args-keeps :
      (tools : Tools) (max_bytes : ℕ) (stdin : Result Str) (pubkey : Str) (args : List Str)
      (db : Db)
      → P db
      → P (push_args drv tools max_bytes stdin pubkey args db).1
  push_args-keeps tools max_bytes stdin pubkey [] db v = v
  push_args-keeps tools max_bytes stdin pubkey (first ∷ rest) db v =
      push_target-keeps tools max_bytes stdin pubkey db (parse_target first) v

  if_allowed-keeps :
      (tools : Tools) (max_bytes : ℕ) (stdin : Result Str) (pubkey : Str) (args : List Str)
      (db : Db) (a : Bool × RateLimiter)
      → P db
      → P (if_allowed drv tools max_bytes stdin pubkey args db a).1.db
  if_allowed-keeps tools max_bytes stdin pubkey args db (false, limiter) v = v
  if_allowed-keeps tools max_bytes stdin pubkey args db (true, limiter) v =
      push_args-keeps tools max_bytes stdin pubkey args db v

  pub push-keeps :
      (tools : Tools) (max_bytes now : ℕ) (stdin : Result Str) (pubkey : Str) (args : List Str)
      (s : Server)
      → P s.db
      → P (push drv tools max_bytes now stdin pubkey args s).1.db
  unfolding push
  push-keeps tools max_bytes now stdin pubkey args s v =
      if_allowed-keeps tools max_bytes stdin pubkey args s.db (allow now s.limiter) v

  rm_owned-keeps :
      (pr : PatchRequest) (patchset : Patchset) (db : Db) (r : Result User)
      → P db
      → P (rm_owned drv pr patchset db r).1
  unfolding perform
  rm_owned-keeps pr patchset db (err e) v = v
  rm_owned-keeps pr patchset db (ok user) v = step db v (Operation.delete user.id pr.id patchset.id)

  rm_resolved-keeps :
      (pubkey : Str) (db : Db) (r : Result (PatchRequest × Patchset))
      → P db
      → P (rm_resolved drv pubkey db r).1
  rm_resolved-keeps pubkey db (err e) v = v
  rm_resolved-keeps pubkey db (ok (pr, patchset)) v =
      rm_owned-keeps pr patchset db (patchset_owner drv pubkey patchset db) v

  pub remove-keeps :
      (pubkey : Str) (args : List Str) (db : Db) → P db → P (remove drv pubkey args db).1
  unfolding remove
  remove-keeps pubkey [] db v = v
  remove-keeps pubkey (raw ∷ rest) db v =
      rm_resolved-keeps pubkey db (resolve_target drv (raw_target raw rest) db) v

  edit_with-keeps :
      (pubkey : Str) (db : Db) (r : Result (PatchRequest × Str))
      → P db
      → P (edit_with drv pubkey db r).1
  unfolding perform
  edit_with-keeps pubkey db (err e) v = v
  edit_with-keeps pubkey db (ok (pr, title)) v = step db v (Operation.set_title pr.id pubkey title)

  pub edit-keeps : (pubkey : Str) (args : List Str) (db : Db) → P db → P (edit drv pubkey args db).1
  unfolding edit
  edit-keeps pubkey args db v = edit_with-keeps pubkey db (edit_checks drv args db) v

-- What a push does to the limiter is one call of `Allow`.
if_allowed-limiter :
    (drv : Driver) (tools : Tools) (max_bytes : ℕ) (stdin : Result Str) (pubkey : Str)
    (args : List Str) (db : Db) (a : Bool × RateLimiter)
    → (if_allowed drv tools max_bytes stdin pubkey args db a).1.limiter ≡ a.1
if_allowed-limiter drv tools max_bytes stdin pubkey args db (false, limiter) = refl
if_allowed-limiter drv tools max_bytes stdin pubkey args db (true, limiter) = refl

pub push-limiter :
    (drv : Driver) (tools : Tools) (max_bytes now : ℕ) (stdin : Result Str) (pubkey : Str)
    (args : List Str) (s : Server)
    → (push drv tools max_bytes now stdin pubkey args s).1.limiter ≡ (allow now s.limiter).1
unfolding push
push-limiter drv tools max_bytes now stdin pubkey args s =
    if_allowed-limiter drv tools max_bytes stdin pubkey args s.db (allow now s.limiter)
