-- ===== src/Target/Digits.antt =====
-- Digits and white space in the texts of targets, for util.go.
use mathlib.Core.List.{reverse, reverse-append, reverse-cons}
use patchbin.Base.{
  ℕ, ◌<◌, Str, true, false, [], ◌∷◌, ◌++◌, codes, str_eq, has_byte, has_byte-append, has_suffix,
  trim_prefix, ◌≡◌, ◌≢◌, refl, ap, ◌∙◌, arith, All, All-append,
}
use patchbin.Base.Space.{starts_plain, is_plain}
use patchbin.Base.Number.{format, format-digits, format-cons, IsDigit}
use patchbin.Target.{dot_patch, has_white}

All-reverse : (s : Str) → All IsDigit s → All IsDigit (reverse s)
All-reverse [] h = tt
All-reverse (c ∷ s) (h, hs) =
    rw reverse-cons (All-append IsDigit (reverse s) (c ∷ []) (All-reverse s hs) (h, tt))

pub has_byte-digits : (b : ℕ) (s : Str) → All IsDigit s → b < b'0' → has_byte b s ≡ false
has_byte-digits b [] h lt = refl
has_byte-digits b (c ∷ s) (h, hs) lt = ground (arith, has_byte-digits b s hs lt)

digits_front :
    (xs : Str) (c : ℕ) (ys : Str)
    → All IsDigit (xs ++ c ∷ [])
    → (d : ℕ) × (rest : Str) × ((xs ++ c ∷ []) ++ ys ≡ d ∷ rest) × IsDigit d
digits_front [] c ys (h, _) = (c, ys, refl, h)
digits_front (x ∷ xs) c ys (h, _) = (x, (xs ++ c ∷ []) ++ ys, refl, h)

-- The text from its last byte on, for a text that ends in the digits of `n`.
pub reverse-format :
    (s : Str) (n : ℕ) → (d : ℕ) × (rest : Str) × (reverse (s ++ format n) ≡ d ∷ rest) × IsDigit d
reverse-format s n =
    let (c, rest, e) = format-cons n in
    let all_digits : All IsDigit (reverse rest ++ c ∷ []) =
      rw reverse-cons at (All-reverse (c ∷ rest) (rw e at (format-digits n))) in
    let (d, tail, e', digit) = digits_front (reverse rest) c (reverse s) all_digits in
    (
      d,
      tail,
      reverse-append s (format n)
          ∙ ap (λ t. reverse t ++ reverse s) e
          ∙ ap (λ t. t ++ reverse s) (reverse-cons c rest)
          ∙ e',
      digit,
    )

pub plain-digit : (d : ℕ) → IsDigit d → is_plain d ≡ true
plain-digit d h = ground arith

pub has_suffix-digit :
    (s : Str) (d : ℕ) (rest : Str)
    → reverse s ≡ d ∷ rest
    → IsDigit d
    → has_suffix s dot_patch ≡ false
has_suffix-digit s d rest e h = rw e (ground arith)

-- A text is free of white space if its parts are.
pub white-parts :
    (s t : Str) (b : ℕ)
    → has_white s ≡ false
    → has_white t ≡ false
    → has_white (b ∷ []) ≡ false
    → has_white (s ++ b ∷ t) ≡ false
white-parts s t b hs ht hb = ground (
  arith,
  has_byte-append 32 s (b ∷ t),
  has_byte-append 9 s (b ∷ t),
  has_byte-append 13 s (b ∷ t),
  has_byte-append 10 s (b ∷ t),
)

pub has_white-format : (n : ℕ) → has_white (format n) ≡ false
has_white-format n =
    let hs = format-digits n in
    ground (
      arith,
      has_byte-digits 32 (format n) hs (omega arith),
      has_byte-digits 9 (format n) hs (omega arith),
      has_byte-digits 13 (format n) hs (omega arith),
      has_byte-digits 10 (format n) hs (omega arith),
    )

pub starts_plain-append :
    (s t : Str) → s ≢ [] → starts_plain s ≡ true → starts_plain (s ++ t) ≡ true
starts_plain-append [] t h p = absurd (h refl)
starts_plain-append (c ∷ s) t h p = p

pub str_eq-filled : (s : Str) → s ≢ [] → str_eq s [] ≡ false
str_eq-filled [] h = absurd (h refl)
str_eq-filled (c ∷ s) h = refl

pub append-filled : (s t : Str) → s ≢ [] → s ++ t ≢ []
append-filled [] t h = absurd (h refl)
append-filled (c ∷ s) t h = cc

pub trim_prefix-digits : (s : Str) → All IsDigit s → trim_prefix s (codes "v") ≡ s
trim_prefix-digits [] h = refl
trim_prefix-digits (c ∷ s) (h, hs) = ground arith
