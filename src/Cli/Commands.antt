-- ===== src/Cli/Commands.antt =====
-- What the commands `push` and `rm` keep, and whom they let through.
use patchbin.Base.{
  ℕ, ◌≤◌, ◌<◌, Str, not, List, [], ◌∷◌, str_eq, str_eq_iff, Result, ok, err, Error, Result-cases,
  fail_if, >>=-eq-ok, ◌⊎◌, inl, inr, ◌≡◌, refl, sym, ap, subst, arith,
}
use patchbin.RateLimit.Window.{allow-IsValid, refused_iff}
use patchbin.RateLimit.Window as Window
use patchbin.Store.{User, PatchRequest, Patchset, Db, Driver}
use patchbin.Store.Valid.{IsValid}
use patchbin.Mbox.{Tools}
use patchbin.Pr.Queries.{get_user_by_id}
use patchbin.Pr.Change.{delete_patchset_by_id}
use patchbin.Pr.Operation.{perform-IsValid}
use patchbin.Resolve.{resolve_target}
use patchbin.Resolve.Found.{IsResolved, resolve_target-IsResolved}
use patchbin.Cli.Steps.{push-keeps, push-limiter}
use patchbin.Cli.{
  Server, push, if_allowed, patchset_owner, rm_owned, rm_resolved, raw_target, remove,
}

-- The counter is within the cap, and the tables satisfy their invariant.
pub record IsSound (s : Server) : Type 0 where
  pub limited : Window.IsValid s.limiter
  pub stored : IsValid s.db

module _ (drv : Driver) where
  -- A push keeps the counter within the cap and the invariant of the tables, whatever is sent, and
  -- whether it succeeds or fails.
  push-IsSound :
      (tools : Tools) (max_bytes now : ℕ) (stdin : Result Str) (pubkey : Str) (args : List Str)
      (s : Server)
      → IsSound s
      → IsSound (push drv tools max_bytes now stdin pubkey args s).1
  push-IsSound tools max_bytes now stdin pubkey args s v = record {
    limited =
        subst Window.IsValid (sym (push-limiter drv tools max_bytes now stdin pubkey args s))
          (allow-IsValid now s.limiter v.limited).0;
    stored =
        push-keeps drv IsValid (λ db v op. perform-IsValid drv db v op) tools max_bytes now stdin
          pubkey args s v.stored;
  }

  -- With a cap above zero that is reached and a window that is open, a push is refused, and neither
  -- the limiter nor the database changes.
  pub push-refused :
      (tools : Tools) (max_bytes now : ℕ) (stdin : Result Str) (pubkey : Str) (args : List Str)
      (s : Server)
      → 0 < s.limiter.max
      → now ≤ s.limiter.reset_at
      → s.limiter.max ≤ s.limiter.count
      → push drv tools max_bytes now stdin pubkey args s ≡ (err Error.rate_limited, s)
  unfolding push
  push-refused tools max_bytes now stdin pubkey args s cap is_open reached =
      ap (if_allowed drv tools max_bytes stdin pubkey args s.db)
        ((refused_iff now s.limiter cap).1.1 (is_open, reached))

  -- An error is answered and nothing is changed, or the owner of the patchset that `r` resolved to
  -- removes it from its request.
  abbrev pub IsOwnedBy :
      Str → Result (PatchRequest × Patchset) → Db → Result (Unit {0}) × Db → Type 0
  IsOwnedBy pubkey r db x =
      ((e : Error) × (x ≡ (err e, db)))
      ⊎ ((pr : PatchRequest) × (patchset : Patchset) × (user : User) × (r ≡ ok (pr, patchset))
          × (get_user_by_id drv patchset.user_id db ≡ ok user)
          × (user.pubkey ≡ pubkey)
          × (patchset.patch_request_id ≡ pr.id)
          × (x ≡ delete_patchset_by_id drv user.id pr.id patchset.id db))

  -- The patchset is the one that the first argument names, with the flag and the rest behind it.
  abbrev pub IsOwned : Str → List Str → Db → Result (Unit {0}) × Db → Type 0
  IsOwned pubkey [] db x = (e : Error) × (x ≡ (err e, db))
  IsOwned pubkey (raw ∷ rest) db x =
      IsOwnedBy pubkey (resolve_target drv (raw_target raw rest) db) db x

  patchset_owner-ok :
      (pubkey : Str) (patchset : Patchset) (db : Db) (user : User)
      → patchset_owner drv pubkey patchset db ≡ ok user
      → (get_user_by_id drv patchset.user_id db ≡ ok user) × (user.pubkey ≡ pubkey)
  unfolding patchset_owner
  patchset_owner-ok pubkey patchset db user h =
      let (found, is_found, rest) = >>=-eq-ok (get_user_by_id drv patchset.user_id db) _ h in
      let (_, passed, last) =
        >>=-eq-ok (fail_if (not (str_eq pubkey found.pubkey)) Error.not_authorized) _ rest in
      let same : found ≡ user = ground (arith, last) in
      (
        rw same at is_found,
        rw (sym same) (sym ((str_eq_iff pubkey found.pubkey).0 (ground (arith, passed)))),
      )

  rm_resolved-IsOwned :
      (pubkey : Str) (db : Db) (r : Result (PatchRequest × Patchset))
      → IsResolved r
      → IsOwnedBy pubkey r db (rm_resolved drv pubkey db r)
  rm_resolved-IsOwned pubkey db (err e) h = inl (e, refl)
  rm_resolved-IsOwned pubkey db (ok (pr, patchset)) h =
      elim (Result-cases (patchset_owner drv pubkey patchset db)) [
        | inl (e, failed) ↦ inl (e, ap (rm_owned drv pr patchset db) failed)
        | inr (user, passed) ↦
            let (found, same) = patchset_owner-ok pubkey patchset db user passed in
            inr (pr, patchset, user, refl, found, same, h, ap (rm_owned drv pr patchset db) passed)
      ]

  -- A removal answers an error and changes nothing, or it is DeletePatchsetByID of the patchset that
  -- the arguments resolve to, which belongs to the request found, and then the key is that of the
  -- user who submitted the patchset.
  pub remove-IsOwned :
      (pubkey : Str) (args : List Str) (db : Db)
      → IsOwned pubkey args db (remove drv pubkey args db)
  unfolding remove
  remove-IsOwned pubkey [] db = (_, refl)
  remove-IsOwned pubkey (raw ∷ rest) db =
      rm_resolved-IsOwned pubkey db (resolve_target drv (raw_target raw rest) db)
        (resolve_target-IsResolved drv (raw_target raw rest) db)
