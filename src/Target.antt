-- ===== src/Target.antt =====
-- util.go: targets of the form `repo:slug` or `repo:slug.rev`.
pub mod Digits
pub mod RoundTrip
pub mod Accepted
use mathlib.Core.List.{reverse}
use patchbin.Base.{
  ℕ, zero, suc, ◌+◌, Str, Bool, true, false, not, ◌&&◌, ◌||◌, Option, none, some, List, [], ◌∷◌,
  ◌++◌, codes, ◌==◌, ltb, str_eq, has_byte, trim_suffix, trim_prefix, if◌then◌else◌, Result, ok,
  err, Error, fail_if, ◌>>=◌, ◌>>◌,
}
use patchbin.Base.Space.{trim_space}
use patchbin.Base.Search.{cut_first, cut_last}
use patchbin.Base.Number.{ℤ, pos, negsuc, parse_int, format}

pub record Target : Type 0 where
  pub repo : Str
  pub slug : Str
  -- from 1 on, or 0 for the latest revision
  pub rev : ℕ

abbrev pub colon : ℕ
colon = b':'

abbrev pub dot : ℕ
dot = b'.'

-- (Target).String
unfoldable pub print_target : Target → Str
print_target t =
    if ltb 0 t.rev
    then t.repo ++ (colon ∷ (t.slug ++ (dot ∷ format t.rev)))
    else t.repo ++ (colon ∷ t.slug)

-- strings.ContainsAny(raw, " \t\r\n")
abbrev pub has_white : Str → Bool
has_white s = has_byte 32 s || has_byte 9 s || has_byte 13 s || has_byte 10 s

abbrev pub dot_patch : Str
dot_patch = codes ".patch"

abbrev pub positive_rev : Option ℤ → Option ℕ
positive_rev (some (pos (suc n))) = some (suc n)
positive_rev _ = none

-- What a revision text behind the last dot counts for: `some` if it is a positive number.
unfoldable pub revision : Str → Option ℕ
revision s = positive_rev (parse_int (trim_prefix s (codes "v")))

abbrev take_revision : Str → Str → Option ℕ → Str × ℕ
take_revision slug_part slug none = (slug_part, 0)
take_revision slug_part slug (some r) = (slug, r)

abbrev revision_behind : Str → Option (Str × Str) → Str × ℕ
revision_behind slug_part none = (slug_part, 0)
revision_behind slug_part (some (slug, rev_text)) = take_revision slug_part slug (revision rev_text)

-- The part behind the colon: the slug, and the revision or 0.
unfoldable pub split_revision : Str → Str × ℕ
split_revision slug_part = revision_behind slug_part (cut_last dot slug_part)

-- The checks on the two parts of a target.
unfoldable pub target_of : Str × Option Str → Result Target
target_of (repo, none) = err Error.bad_target_format
target_of (repo, some slug_part) = do
  fail_if (str_eq repo [] || str_eq slug_part []) Error.bad_target_format
  let (slug, rev) = split_revision slug_part
  fail_if (str_eq slug []) Error.empty_slug
  ok (record { repo = repo; slug = slug; rev = rev })

unfoldable pub parse_target : Str → Result Target
parse_target raw = do
  let trimmed = trim_space raw
  fail_if (str_eq trimmed []) Error.empty_target
  fail_if (has_white trimmed) Error.target_whitespace
  target_of (cut_first colon (trim_suffix trimmed dot_patch))
