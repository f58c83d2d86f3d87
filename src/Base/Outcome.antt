-- ===== src/Base/Outcome.antt =====
-- A Go function that returns `(value, error)`. The constructors of `Error` are the errors that the
-- code makes or passes on; the texts of messages are not modelled.
use mathlib.Core.Path.{◌≡◌, refl}
use mathlib.Core.Logic.{◌⊎◌, inl, inr}
use mathlib.Core.Bool.{Bool, true, false}

pub data Error : Type 0 where
  -- from the database driver: a failed statement, `sql.ErrNoRows`, a violated constraint
  io_error no_rows unique_violation fk_violation : Error
  -- `ErrPatchExists`, `ErrNotPrOwner` and the checks of pr.go
  patch_exists not_pr_owner empty_pubkey no_patchsets not_created empty_name empty_comment : Error
  empty_title no_patches banned : Error
  -- util.go
  empty_target target_whitespace bad_target_format empty_slug : Error
  pr_not_found no_such_revision empty_id bad_pr_id bad_revision : Error
  patchset_empty patchset_unrecognized bad_patch bad_header no_diff bad_number : Error
  -- cli.go
  rate_limited stdin_too_large no_patch_data missing_target missing_title : Error
  not_authorized missing_comment : Error
  -- a panic: an index out of range or a nil pointer
  panic : Error

-- The value, or the error that was returned in its place.
pub data Result {ℓ} (V : Type ℓ) : Type ℓ where
  err : Error → Result V
  ok : V → Result V

pub Result-cases {ℓ} :
    {V : Type ℓ} (r : Result V) → ((e : Error) × (r ≡ err e)) ⊎ ((v : V) × (r ≡ ok v))
Result-cases (ok v) = inr (v, refl)
Result-cases (err e) = inl (e, refl)

-- `if bad { return err }`
abbrev pub fail_if : Bool → Error → Result (Unit {0})
fail_if false e = ok tt
fail_if true e = err e

-- `if err != nil { return err }` behind a call
infixl 5 ◌>>=◌
abbrev pub ◌>>=◌ {κ ℓ} : {V : Type κ} {W : Type ℓ} → Result V → (V → Result W) → Result W
err e >>= next = err e
ok v >>= next = next v

-- The call went well, and so did what follows.
pub >>=-eq-ok {κ ℓ} :
    {V : Type κ} {W : Type ℓ} (call : Result V) (next : V → Result W) {w : W}
    → (call >>= next) ≡ ok w
    → (v : V) × (call ≡ ok v) × (next v ≡ ok w)
>>=-eq-ok (err e) next h = cc
>>=-eq-ok (ok v) next h = (v, refl, h)

infixl 5 ◌>>◌
abbrev pub ◌>>◌ {κ} : {W : Type κ} → Result (Unit {0}) → Result W → Result W
check >> next = check >>= λ passed. next
