-- ===== src/Target/Accepted.antt =====
-- What holds of every target that the parser accepts.
use patchbin.Base.{
  ℕ, zero, suc, ◌-◌, Str, false, Option, none, some, [], ◌∷◌, ◌++◌, str_eq, str_eq_iff, has_byte,
  has_byte-append, has_suffix, trim_suffix, ok, ◌≡◌, ◌≢◌, refl, ap, inl, inr, arith, take, length,
  Bool-cases, Option-cases,
}
use patchbin.Base.Space.{trim_space}
use patchbin.Base.Search.{cut_first, cut_first-some, cut_last, cut_last-some}
use patchbin.Target.{
  Target, colon, dot, dot_patch, has_white, split_revision, target_of, parse_target,
}

has_byte-take : (b n : ℕ) (s : Str) → has_byte b s ≡ false → has_byte b (take n s) ≡ false
has_byte-take b zero s h = refl
has_byte-take b (suc n) [] h = refl
has_byte-take b (suc n) (c ∷ s) h = ground (arith, has_byte-take b n s)

has_byte-trim_suffix :
    (b : ℕ) (s p : Str) → has_byte b s ≡ false → has_byte b (trim_suffix s p) ≡ false
has_byte-trim_suffix b s p h = elim (Bool-cases (has_suffix s p)) [
  | inl e ↦ rw e (has_byte-take b (length s - length p) s h)
  | inr e ↦ rw e h
]

-- The parts of an accepted pair.
target_of_sound :
    (p : Str × Option Str) (t : Target)
    → target_of p ≡ ok t
    → (after : Str) × (p.1 ≡ some after)
      × (t.repo ≡ p.0)
      × (p.0 ≢ [])
      × (split_revision after ≡ (t.slug, t.rev))
      × (t.slug ≢ [])
unfolding target_of
target_of_sound (repo, none) t h = cc
target_of_sound (repo, some after) t h = (
  after,
  refl,
  ground arith,
  ground (arith, str_eq_iff repo []),
  ground arith,
  ground (arith, str_eq_iff t.slug []),
)

has_byte-split_revision :
    (b : ℕ) (part : Str) → has_byte b part ≡ false → has_byte b (split_revision part).0 ≡ false
unfolding split_revision
has_byte-split_revision b part h = elim (Option-cases (cut_last dot part)) [
  | inl e ↦ rw e h
  | inr ((slug, text), e) ↦
      let whole : has_byte b (slug ++ dot ∷ text) ≡ false =
        rw (cut_last-some dot part slug text e) at h in
      ground (arith, e, whole, has_byte-append b slug (dot ∷ text))
]

-- What holds of every target that the parser accepts.
pub record IsAccepted (t : Target) : Type 0 where
  pub repo_filled : t.repo ≢ []
  pub repo_colon : has_byte colon t.repo ≡ false
  pub slug_filled : t.slug ≢ []
  pub repo_white : has_white t.repo ≡ false
  pub slug_white : has_white t.slug ≡ false

-- A byte that the checked text lacks is in neither part of the target.
parts_lack :
    (u : Str) (t : Target) (b : ℕ)
    → target_of (cut_first colon (trim_suffix u dot_patch)) ≡ ok t
    → has_byte b u ≡ false
    → (has_byte b t.repo ≡ false) × (has_byte b t.slug ≡ false)
parts_lack u t b h lacks =
    let v = trim_suffix u dot_patch in
    let (after, e, repo, _, split, _) = target_of_sound (cut_first colon v) t h in
    let (whole, _) = cut_first-some colon v after e in
    let all_of : has_byte b ((cut_first colon v).0 ++ colon ∷ after) ≡ false =
      rw whole at (has_byte-trim_suffix b u dot_patch lacks) in
    let slug : (split_revision after).0 ≡ t.slug = ap (λ (p : Str × ℕ). p.0) split in
    ground (
      arith,
      all_of,
      has_byte-append b (cut_first colon v).0 (colon ∷ after),
      has_byte-split_revision b after,
    )

checked :
    (u : Str) (t : Target)
    → has_white u ≡ false
    → target_of (cut_first colon (trim_suffix u dot_patch)) ≡ ok t
    → IsAccepted t
checked u t w h =
    let v = trim_suffix u dot_patch in
    let (after, e, repo, filled, _, slug_filled) = target_of_sound (cut_first colon v) t h in
    let (_, lacks) = cut_first-some colon v after e in
    let white = λ (b : ℕ) (l : has_byte b u ≡ false). parts_lack u t b h l in
    record {
      repo_filled = rw repo filled;
      repo_colon = rw repo lacks;
      slug_filled = slug_filled;
      repo_white = ground (
        arith,
        white 32 (ground arith),
        white 9 (ground arith),
        white 13 (ground arith),
        white 10 (ground arith),
      );
      slug_white = ground (
        arith,
        white 32 (ground arith),
        white 9 (ground arith),
        white 13 (ground arith),
        white 10 (ground arith),
      );
    }

-- Every target that the parser accepts has a repository name without a colon and a slug, both
-- filled and free of spaces, tabs and line ends, whatever text it was read from.
pub parse_target-IsAccepted : (raw : Str) (t : Target) → parse_target raw ≡ ok t → IsAccepted t
unfolding parse_target
parse_target-IsAccepted raw t h =
    let u = trim_space raw in
    elim (Bool-cases (str_eq u [])) [
      | inl e ↦ absurd (ground (arith, e))
      | inr filled ↦ elim (Bool-cases (has_white u)) [
        | inl w ↦ absurd (ground (arith, filled, w))
        | inr w ↦ checked u t w (ground (arith, filled, w))
      ]
    ]
