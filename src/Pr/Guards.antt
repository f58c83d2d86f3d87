-- ===== src/Pr/Guards.antt =====
-- What must hold for a title to be changed or a comment to be added.
use patchbin.Base.{
  ℕ, Str, not, [], str_eq, str_eq_iff, Result, ok, Error, fail_if, >>=-eq-ok, ◌≡◌, ◌≢◌, arith,
}
use patchbin.Store.{User, PatchRequest, Db, Driver}
use patchbin.Pr.Queries.{get_patch_request_by_id, get_user_by_id}
use patchbin.Pr.Change.{rename_checks, rename_body, comment_checks, comment_body}

module _ (drv : Driver) (id : ℕ) (db : Db) (body : Db → Result (Unit {0} × Db)) where
  -- The requester is the author of the patch request.
  pub rename_checks-ok :
      (pubkey name : Str)
      → rename_checks drv id pubkey name db ≡ ok body
      → (request : PatchRequest) × (owner : User) × (get_patch_request_by_id drv id db ≡ ok request)
        × (get_user_by_id drv request.user_id db ≡ ok owner)
        × (owner.pubkey ≡ pubkey)
        × (name ≢ [])
        × (body ≡ rename_body drv id request.user_id name)
  unfolding rename_checks
  rename_checks-ok pubkey name h =
      let (_, filled, rest) = >>=-eq-ok (fail_if (str_eq name []) Error.empty_name) _ h in
      let (request, found, rest1) = >>=-eq-ok (get_patch_request_by_id drv id db) _ rest in
      let (owner, found', rest2) = >>=-eq-ok (get_user_by_id drv request.user_id db) _ rest1 in
      let (_, allowed, last) =
        >>=-eq-ok (fail_if (not (str_eq owner.pubkey pubkey)) Error.not_pr_owner) _ rest2 in
      (
        request,
        owner,
        found,
        found',
        ground (arith, allowed, str_eq_iff owner.pubkey pubkey),
        ground (arith, filled, str_eq_iff name []),
        ok-injective last,
      )
    where
      ok-injective :
          {f g : Db → Result (Unit {0} × Db)}
          → ◌≡◌ {A = Result (Db → Result (Unit {0} × Db))} (ok f) (ok g)
          → g ≡ f
      ok-injective e = cc

  pub comment_checks-ok :
      (user : ℕ) (comment : Str)
      → comment_checks drv id user comment db ≡ ok body
      → (request : PatchRequest) × (get_patch_request_by_id drv id db ≡ ok request)
        × (comment ≢ [])
        × (body ≡ comment_body drv id user comment)
  unfolding comment_checks
  comment_checks-ok user comment h =
      let (_, filled, rest) = >>=-eq-ok (fail_if (str_eq comment []) Error.empty_comment) _ h in
      let (request, found, last) = >>=-eq-ok (get_patch_request_by_id drv id db) _ rest in
      (request, found, ground (arith, filled, str_eq_iff comment []), cc last)
