-- ===== src/Base/Text.antt =====
-- Go's strings as lists of bytes, with the functions of package `strings` that the code calls.
use Prim.Native.Nat.{ℕ, ◌-◌}
use Prim.Native.Char.{code}
use Prim.Native.String.{String}
use mathlib.Core.Path.{◌≡◌, refl}
use mathlib.Core.Logic.{◌↔◌}
use mathlib.Core.Bool.{Bool, true, false, ◌&&◌, ◌||◌}
use mathlib.Core.List.{List, [], ◌∷◌, ◌++◌, reverse}
use native.Mathlib.Omega.{arith}
use patchbin.Base.Tests.{◌==◌, if◌then◌else◌}
use patchbin.Base.Lists.{length, take, drop}

abbrev pub Str : Type 0
Str = List ℕ

-- The bytes of an ASCII literal.
abbrev pub codes : String → Str
codes String.[] = []
codes (String.◌∷◌ c s) = code c ∷ codes s

abbrev pub str_eq : Str → Str → Bool
str_eq [] [] = true
str_eq [] (y ∷ t) = false
str_eq (x ∷ s) [] = false
str_eq (x ∷ s) (y ∷ t) = x == y && str_eq s t

pub str_eq_iff : (s t : Str) → (str_eq s t ≡ true) ↔ (s ≡ t)
str_eq_iff [] [] = ground arith
str_eq_iff [] (y ∷ t) = ground arith
str_eq_iff (x ∷ s) [] = ground arith
str_eq_iff (x ∷ s) (y ∷ t) = ground (arith, str_eq_iff s t)

pub str_eq_refl : (s : Str) → str_eq s s ≡ true
str_eq_refl s = (str_eq_iff s s).1 refl

pub str_eq_comm : (s t : Str) → str_eq s t ≡ str_eq t s
str_eq_comm [] [] = refl
str_eq_comm [] (y ∷ t) = refl
str_eq_comm (x ∷ s) [] = refl
str_eq_comm (x ∷ s) (y ∷ t) = ground (arith, str_eq_comm s t)

-- strings.HasPrefix
abbrev pub has_prefix : Str → Str → Bool
has_prefix s [] = true
has_prefix [] (p ∷ ps) = false
has_prefix (c ∷ s) (p ∷ ps) = c == p && has_prefix s ps

-- strings.TrimPrefix
abbrev pub trim_prefix : Str → Str → Str
trim_prefix s p = if has_prefix s p then drop (length p) s else s

-- strings.HasSuffix
abbrev pub has_suffix : Str → Str → Bool
has_suffix s p = has_prefix (reverse s) (reverse p)

-- strings.TrimSuffix
abbrev pub trim_suffix : Str → Str → Str
trim_suffix s p = if has_suffix s p then take (length s - length p) s else s

-- Does the byte occur in the text?
abbrev pub has_byte : ℕ → Str → Bool
has_byte b [] = false
has_byte b (c ∷ s) = c == b || has_byte b s

pub has_prefix-append : (p s : Str) → has_prefix (p ++ s) p ≡ true
has_prefix-append [] s = refl
has_prefix-append (c ∷ p) s = ground (arith, has_prefix-append p s)

pub has_prefix-split : (s p : Str) → has_prefix s p ≡ true → p ++ drop (length p) s ≡ s
has_prefix-split s [] h = refl
has_prefix-split [] (c ∷ p) h = cc
has_prefix-split (x ∷ s) (c ∷ p) h = ground (arith, has_prefix-split s p)

pub has_byte-append : (b : ℕ) (s t : Str) → has_byte b (s ++ t) ≡ (has_byte b s || has_byte b t)
has_byte-append b [] t = refl
has_byte-append b (c ∷ s) t = ground (arith, has_byte-append b s t)
