-- ===== src/Target/RoundTrip.antt =====
-- A printed target is read back.
use mathlib.Core.List.{reverse, reverse-append, reverse-cons}
use patchbin.Base.{
  ℕ, zero, suc, ◌≤◌, ◌<◌, Str, true, false, some, [], ◌∷◌, ◌++◌, has_byte, has_suffix, trim_suffix,
  ok, ◌≡◌, ◌≢◌, refl, sym, ap, ◌∙◌, arith, append_assoc, Bool-cases, ltb, inl, inr,
}
use patchbin.Base.Space.{trim_space, trim_space-plain, starts_plain}
use patchbin.Base.Search.{cut_first, cut_first-append, cut_last-append}
use patchbin.Base.Number.{format, format-digits, parse_int-format, max_int64}
use patchbin.Target.{
  Target, colon, dot, dot_patch, has_white, print_target, revision, split_revision, target_of,
  parse_target,
}
use patchbin.Target.Digits.{
  has_byte-digits, reverse-format, plain-digit, has_suffix-digit, white-parts, has_white-format,
  starts_plain-append, str_eq-filled, append-filled, trim_prefix-digits,
}

-- What a text must be for the parser to take it apart again: no white space, no colon in front of
-- the slug, and bytes at both ends that are not part of a white space character.
pub record IsPrintable (t : Target) : Type 0 where
  pub repo_filled : t.repo ≢ []
  pub repo_plain : starts_plain t.repo ≡ true
  pub repo_white : has_white t.repo ≡ false
  pub repo_colon : has_byte colon t.repo ≡ false
  pub slug_filled : t.slug ≢ []
  pub slug_white : has_white t.slug ≡ false

-- A text that passes the checks is taken apart at its first colon.
parse_target-step :
    (repo part : Str)
    → repo ≢ []
    → starts_plain repo ≡ true
    → has_byte colon repo ≡ false
    → has_white (repo ++ colon ∷ part) ≡ false
    → starts_plain (reverse (repo ++ colon ∷ part)) ≡ true
    → has_suffix (repo ++ colon ∷ part) dot_patch ≡ false
    → parse_target (repo ++ colon ∷ part) ≡ target_of (repo, some part)
unfolding parse_target
parse_target-step repo part h p c w b x = rw (
  trim_space-plain (repo ++ colon ∷ part) (starts_plain-append repo (colon ∷ part) h p) b,
  str_eq-filled (repo ++ colon ∷ part) (append-filled repo (colon ∷ part) h),
  w,
  x,
  cut_first-append colon repo part c,
)

-- Behind the last dot stands the printed revision.
split_revision-format :
    (slug : Str) (n : ℕ)
    → 0 < n
    → n ≤ max_int64
    → split_revision (slug ++ dot ∷ format n) ≡ (slug, n)
unfolding split_revision revision
split_revision-format slug zero h fits = absurd (omega arith)
split_revision-format slug (suc n) h fits =
    let no_dot = has_byte-digits dot (format (suc n)) (format-digits (suc n)) (omega arith) in
    rw (
      cut_last-append dot slug (format (suc n)) no_dot,
      trim_prefix-digits (format (suc n)) (format-digits (suc n)),
      parse_int-format (suc n) fits,
    )

print_revision :
    (t : Target) → 0 < t.rev → print_target t ≡ t.repo ++ colon ∷ (t.slug ++ dot ∷ format t.rev)
unfolding print_target
print_revision t h = ground arith

target_of-parts :
    (t : Target) (part : Str)
    → t.repo ≢ []
    → part ≢ []
    → t.slug ≢ []
    → split_revision part ≡ (t.slug, t.rev)
    → target_of (t.repo, some part) ≡ ok t
unfolding target_of
target_of-parts t part h k l e =
    rw (str_eq-filled t.repo h, str_eq-filled part k, e, str_eq-filled t.slug l)

-- The end of a printed revision is a digit.
module _ (t : Target) (v : IsPrintable t) where
  abbrev pub revised_slug : Str
  revised_slug = t.slug ++ dot ∷ format t.rev

  revised-back :
      (starts_plain (reverse (t.repo ++ colon ∷ revised_slug)) ≡ true)
      × (has_suffix (t.repo ++ colon ∷ revised_slug) dot_patch ≡ false)
  revised-back =
      let (d, rest, e, digit) = reverse-format (t.repo ++ colon ∷ (t.slug ++ dot ∷ [])) t.rev in
      let back : reverse (t.repo ++ colon ∷ revised_slug) ≡ d ∷ rest = simp append_assoc at e in
      (
        rw back (plain-digit d digit),
        has_suffix-digit (t.repo ++ colon ∷ revised_slug) d rest back digit,
      )

  -- A printable target with a revision that is an int64 is read back as it was.
  parse-print_revision : 0 < t.rev → t.rev ≤ max_int64 → parse_target (print_target t) ≡ ok t
  parse-print_revision h fits =
      let (plain, no_patch) = revised-back in
      rw (print_revision t h) (
        parse_target-step t.repo revised_slug v.repo_filled v.repo_plain v.repo_colon
          (white-parts t.repo revised_slug colon v.repo_white
            (white-parts t.slug (format t.rev) dot v.slug_white (has_white-format t.rev) refl) refl)
          plain no_patch
        ∙ target_of-parts t revised_slug v.repo_filled (append-filled t.slug _ v.slug_filled)
            v.slug_filled (split_revision-format t.slug t.rev h fits))

  -- The text behind the colon is the slug with its revision.
  pub cut_first-print_revision :
      0 < t.rev
      → cut_first colon (trim_suffix (trim_space (print_target t)) dot_patch)
        ≡ (t.repo, some revised_slug)
  cut_first-print_revision h =
      let (plain, no_patch) = revised-back in
      rw
        (
          print_revision t h,
          trim_space-plain (t.repo ++ colon ∷ revised_slug)
              (starts_plain-append t.repo (colon ∷ revised_slug) v.repo_filled v.repo_plain) plain,
          no_patch,
        )
        (cut_first-append colon t.repo revised_slug v.repo_colon)

print_latest : (t : Target) → t.rev ≡ 0 → print_target t ≡ t.repo ++ colon ∷ t.slug
unfolding print_target
print_latest t h = ground arith

starts_plain-colon :
    (s r : Str) → starts_plain s ≡ true → starts_plain ((s ++ colon ∷ []) ++ r) ≡ true
starts_plain-colon [] r h = refl
starts_plain-colon (c ∷ s) r h = h

back_plain :
    (repo slug : Str)
    → starts_plain (reverse slug) ≡ true
    → starts_plain (reverse (repo ++ colon ∷ slug)) ≡ true
back_plain repo slug h =
    rw (reverse-append repo (colon ∷ slug))
      (rw (reverse-cons colon slug) (starts_plain-colon (reverse slug) (reverse repo) h))

-- A printable target without a revision is read back as it was, if its slug ends in a plain byte,
-- does not end in ".patch" and ends in no revision of its own.
parse-print_latest :
    (t : Target)
    → IsPrintable t
    → t.rev ≡ 0
    → starts_plain (reverse t.slug) ≡ true
    → has_suffix (print_target t) dot_patch ≡ false
    → split_revision t.slug ≡ (t.slug, 0)
    → parse_target (print_target t) ≡ ok t
parse-print_latest t v zero_rev plain no_patch whole =
    let printed : print_target t ≡ t.repo ++ colon ∷ t.slug = print_latest t zero_rev in
    let end_text : has_suffix (t.repo ++ colon ∷ t.slug) dot_patch ≡ false =
      rw printed at no_patch in
    rw printed (
      parse_target-step t.repo t.slug v.repo_filled v.repo_plain v.repo_colon
        (white-parts t.repo t.slug colon v.repo_white v.slug_white refl)
        (back_plain t.repo t.slug plain) end_text
      ∙ target_of-parts t t.slug v.repo_filled v.slug_filled v.slug_filled
          (whole ∙ ap (λ (r : ℕ). (t.slug, r)) (sym zero_rev)))

-- A printable target is read back as it was: with a revision that is an int64, and without one if its
-- slug ends in a plain byte, does not end in ".patch" and ends in no revision of its own.
pub parse-print_target :
    (t : Target)
    → IsPrintable t
    → t.rev ≤ max_int64
    → (t.rev ≡ 0
        → (starts_plain (reverse t.slug) ≡ true)
          × (has_suffix (print_target t) dot_patch ≡ false)
          × (split_revision t.slug ≡ (t.slug, 0)))
    → parse_target (print_target t) ≡ ok t
parse-print_target t v fits whole = elim (Bool-cases (ltb 0 t.rev)) [
  | inl revised ↦ parse-print_revision t v (ground arith) fits
  | inr unrevised ↦
      let zero_rev : t.rev ≡ 0 = ground arith in
      let (plain, no_patch, kept) = whole zero_rev in
      parse-print_latest t v zero_rev plain no_patch kept
]
