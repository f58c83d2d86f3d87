-- ===== src/Base/Space.antt =====
-- strings.TrimSpace and strings.Fields, over the UTF-8 bytes of Unicode's white space.
use Prim.Native.Nat.{ℕ, zero, suc}
use mathlib.Core.Path.{◌≡◌, refl, ap, ◌∙◌}
use mathlib.Core.Bool.{Bool, true, false, ◌&&◌, ◌||◌}
use mathlib.Core.List.{[], ◌∷◌, reverse, reverse-reverse}
use native.Mathlib.Omega.{arith}
use patchbin.Base.Tests.{◌==◌, leb, if◌then◌else◌}
use patchbin.Base.Text.{Str, codes}

-- '\t', '\n', '\v', '\f', '\r' and ' '
unfoldable pub ascii_space : ℕ → Bool
ascii_space c = (leb 9 c && leb c 13) || c == 32

-- U+0085 and U+00A0
unfoldable pub space2 : ℕ → ℕ → Bool
space2 a b = a == 0xc2 && (b == 0x85 || b == 0xa0)

-- U+1680, U+2000 to U+200A, U+2028, U+2029, U+202F, U+205F and U+3000
unfoldable pub space3 : ℕ → ℕ → ℕ → Bool
space3 a b c =
    (a == 0xe1 && b == 0x9a && c == 0x80)
    || (a == 0xe2
        && ((b == 0x80 && ((leb 0x80 c && leb c 0x8a) || c == 0xa8 || c == 0xa9 || c == 0xaf))
            || (b == 0x81 && c == 0x9f)))
    || (a == 0xe3 && b == 0x80 && c == 0x80)

-- The length of the white space character at the front of a text, 0 if there is none.
unfoldable pub space_width : Str → ℕ
space_width [] = 0
space_width (a ∷ []) = if ascii_space a then 1 else 0
space_width (a ∷ b ∷ []) = if ascii_space a then 1 else if space2 a b then 2 else 0
space_width (a ∷ b ∷ c ∷ s) =
    if ascii_space a then 1 else if space2 a b then 2 else if space3 a b c then 3 else 0

-- The same at the back; the text is given from its last byte on.
unfoldable pub back_space_width : Str → ℕ
back_space_width [] = 0
back_space_width (a ∷ []) = if ascii_space a then 1 else 0
back_space_width (b ∷ a ∷ []) = if ascii_space b then 1 else if space2 a b then 2 else 0
back_space_width (c ∷ b ∷ a ∷ s) =
    if ascii_space c then 1 else if space2 b c then 2 else if space3 a b c then 3 else 0

-- Drops white space from the front; the number counts bytes of a character that is being dropped.
unfoldable pub trim_front : (Str → ℕ) → ℕ → Str → Str
trim_front width skip [] = []
trim_front width (suc skip) (c ∷ s) = trim_front width skip s
trim_front width zero (c ∷ s) = elim (width (c ∷ s)) [ zero ↦ c ∷ s | suc n ↦ trim_front width n s ]

unfoldable pub trim_space : Str → Str
unfolding trim_front space_width back_space_width ascii_space space2 space3
trim_space s = reverse (trim_front back_space_width 0 (reverse (trim_front space_width 0 s)))

-- A byte that neither is white space nor stands in the encoding of a white space character.
abbrev pub is_plain : ℕ → Bool
is_plain c = leb 33 c && leb c 0x7f

abbrev pub starts_plain : Str → Bool
starts_plain [] = true
starts_plain (c ∷ s) = is_plain c

pub ascii_space-plain : (c : ℕ) → is_plain c ≡ true → ascii_space c ≡ false
unfolding ascii_space
ascii_space-plain c h = ground arith

space2-plain_front : (a b : ℕ) → is_plain a ≡ true → space2 a b ≡ false
unfolding space2
space2-plain_front a b h = ground arith

space2-plain_back : (a b : ℕ) → is_plain b ≡ true → space2 a b ≡ false
unfolding space2
space2-plain_back a b h = ground arith

space3-plain_front : (a b c : ℕ) → is_plain a ≡ true → space3 a b c ≡ false
unfolding space3
space3-plain_front a b c h = ground arith

space3-plain_back : (a b c : ℕ) → is_plain c ≡ true → space3 a b c ≡ false
unfolding space3
space3-plain_back a b c h = ground arith

space_width-plain : (s : Str) → starts_plain s ≡ true → space_width s ≡ 0
unfolding space_width
space_width-plain [] h = refl
space_width-plain (a ∷ []) h = rw (ascii_space-plain a h)
space_width-plain (a ∷ b ∷ []) h = rw (ascii_space-plain a h, space2-plain_front a b h)
space_width-plain (a ∷ b ∷ c ∷ s) h =
    rw (ascii_space-plain a h, space2-plain_front a b h, space3-plain_front a b c h)

back_space_width-plain : (s : Str) → starts_plain s ≡ true → back_space_width s ≡ 0
unfolding back_space_width
back_space_width-plain [] h = refl
back_space_width-plain (a ∷ []) h = rw (ascii_space-plain a h)
back_space_width-plain (b ∷ a ∷ []) h = rw (ascii_space-plain b h, space2-plain_back a b h)
back_space_width-plain (c ∷ b ∷ a ∷ s) h =
    rw (ascii_space-plain c h, space2-plain_back b c h, space3-plain_back a b c h)

trim_front-stop : (width : Str → ℕ) (s : Str) → width s ≡ 0 → trim_front width 0 s ≡ s
unfolding trim_front
trim_front-stop width [] h = refl
trim_front-stop width (c ∷ s) h = ground arith

-- A text with plain bytes at both ends is left as it is.
pub trim_space-plain :
    (s : Str) → starts_plain s ≡ true → starts_plain (reverse s) ≡ true → trim_space s ≡ s
unfolding trim_space
trim_space-plain s front back =
    ap (λ t. reverse (trim_front back_space_width 0 (reverse t)))
      (trim_front-stop space_width s (space_width-plain s front))
    ∙ ap reverse
        (trim_front-stop back_space_width (reverse s) (back_space_width-plain (reverse s) back))
    ∙ reverse-reverse s

trims_both : trim_space (codes " \t a b\n") ≡ codes "a b"
unfolding trim_space
trims_both = refl

trims_unicode : trim_space (0xc2 ∷ 0xa0 ∷ 0x61 ∷ 0xe3 ∷ 0x80 ∷ 0x80 ∷ []) ≡ codes "a"
unfolding trim_space
trims_unicode = refl
