-- ===== src/Base/Number.antt =====
-- Decimal numbers: strconv.Atoi and strconv.ParseInt(s, 10, 64) on a 64-bit machine, and `%d`.
use Prim.Native.Nat.{ℕ, zero, suc, ◌+◌, ◌-◌, ◌*◌, ◌/◌, ◌%◌, ◌^◌, ◌≤◌, ◌<◌}
use mathlib.Core.Path.{◌≡◌, refl, sym, ap, ◌∙◌}
use mathlib.Core.Bool.{Bool, true, ◌&&◌}
use mathlib.Core.Logic.{inl, inr}
use mathlib.Core.Option.{Option, none, some}
use mathlib.Core.List.{[], ◌∷◌}
use native.Mathlib.Omega.{arith}
use patchbin.Base.Tests.{◌==◌, leb, if◌then◌else◌, Bool-cases}
use patchbin.Base.Text.{Str, codes}
use patchbin.Base.Lists.{All}

-- `negsuc n` is -(n + 1).
pub data ℤ : Type 0 where
  pos : ℕ → ℤ
  negsuc : ℕ → ℤ

abbrev pub max_int64 : ℕ
max_int64 = 2 ^ 63 - 1

is_digit : ℕ → Bool
is_digit c = leb b'0' c && leb c b'9'

-- The number that digits spell behind `n`; `none` at a byte that is no digit.
digits_value : ℕ → Str → Option ℕ
digits_value n [] = some n
digits_value n (c ∷ s) = if is_digit c then digits_value (n * 10 + (c - b'0')) s else none

-- The digits behind an optional sign: at least one, and in the range of int64.
positive : Option ℕ → Option ℤ
positive none = none
positive (some n) = if leb n max_int64 then some (pos n) else none

negative : Option ℕ → Option ℤ
negative none = none
negative (some zero) = some (pos 0)
negative (some (suc n)) = if leb n max_int64 then some (negsuc n) else none

unsigned : Str → Option ℕ
unsigned [] = none
unsigned (c ∷ s) = digits_value 0 (c ∷ s)

unfoldable pub parse_int : Str → Option ℤ
unfolding digits_value is_digit positive negative unsigned
parse_int [] = none
parse_int (c ∷ s) =
    if c == b'-'
    then negative (unsigned s)
    else if c == b'+'
    then positive (unsigned s)
    else positive (unsigned (c ∷ s))

-- The digits of `n` in front of `out`; `n` rounds are enough.
emit : ℕ → ℕ → Str → Str
emit zero n out = out
emit (suc f) n out =
    let more = emit f (n / 10) ((b'0' + n % 10) ∷ out) in if n == 0 then out else more

unfoldable pub format : ℕ → Str
unfolding emit
format n = if n == 0 then b'0' ∷ [] else emit n n []

digit-is_digit : (n : ℕ) → is_digit (b'0' + n % 10) ≡ true
unfolding is_digit
digit-is_digit n = ground arith

read-digit :
    (n : ℕ) (out : Str) → digits_value (n / 10) ((b'0' + n % 10) ∷ out) ≡ digits_value n out
unfolding digits_value
read-digit n out =
    let exact : n / 10 * 10 + (b'0' + n % 10 - b'0') ≡ n = omega arith in
    rw (digit-is_digit n, exact)

read-emit : (f n : ℕ) (out : Str) → n ≤ f → digits_value 0 (emit f n out) ≡ digits_value n out
unfolding emit
read-emit zero n out h = let e : n ≡ 0 = omega arith in rw e
read-emit (suc f) n out h =
    ground (arith, read-emit f (n / 10) ((b'0' + n % 10) ∷ out), read-digit n out)

abbrev pub IsDigit : ℕ → Type 0
IsDigit c = (b'0' ≤ c) × (c ≤ b'9')

emit-digits : (f n : ℕ) (out : Str) → All IsDigit out → All IsDigit (emit f n out)
unfolding emit
emit-digits zero n out h = h
emit-digits (suc f) n out h =
    ground (arith, emit-digits f (n / 10) ((b'0' + n % 10) ∷ out) ((omega arith, omega arith), h))

pub format-digits : (n : ℕ) → All IsDigit (format n)
unfolding format
format-digits n = ground (arith, emit-digits n n [] tt)

emit-cons : (f n c : ℕ) (out : Str) → (d : ℕ) × (rest : Str) × (emit f n (c ∷ out) ≡ d ∷ rest)
unfolding emit
emit-cons zero n c out = (c, out, refl)
emit-cons (suc f) n c out = elim (Bool-cases (n == 0)) [
  | inl done ↦ (c, out, rw done)
  | inr more ↦ rw more (emit-cons f (n / 10) (b'0' + n % 10) (c ∷ out))
]

emit_pos-cons : (f n : ℕ) → 0 < n → n ≤ f → (d : ℕ) × (rest : Str) × (emit f n [] ≡ d ∷ rest)
unfolding emit
emit_pos-cons zero n h k = absurd (omega arith)
emit_pos-cons (suc f) n h k = elim (Bool-cases (n == 0)) [
  | inl done ↦ absurd (ground arith)
  | inr more ↦ rw more (emit-cons f (n / 10) (b'0' + n % 10) [])
]

pub format-cons : (n : ℕ) → (d : ℕ) × (rest : Str) × (format n ≡ d ∷ rest)
unfolding format
format-cons n = elim (Bool-cases (n == 0)) [
  | inl zero_is ↦ (b'0', [], rw zero_is)
  | inr more ↦ rw more (emit_pos-cons n n (ground arith) (omega arith))
]

unsigned-format : (n : ℕ) → unsigned (format n) ≡ some n
unsigned-format n =
    let (d, rest, e) = format-cons n in
    rw e (unfold unsigned in ap (digits_value 0) (sym e) ∙ value)
  where
    value : digits_value 0 (format n) ≡ some n
    value = unfold format digits_value is_digit in ground (arith, read-emit n n [] (omega arith))

parse_int-digit :
    (d : ℕ) (rest : Str) → IsDigit d → parse_int (d ∷ rest) ≡ positive (unsigned (d ∷ rest))
unfolding parse_int
parse_int-digit d rest h = ground arith

-- Atoi reads back what `%d` prints.
pub parse_int-format : (n : ℕ) → n ≤ max_int64 → parse_int (format n) ≡ some (pos n)
parse_int-format n fits =
    let (d, rest, e) = format-cons n in
    let digits : All IsDigit (d ∷ rest) = rw e at (format-digits n) in
    ap parse_int e
    ∙ parse_int-digit d rest digits.0
    ∙ ap (λ s. positive (unsigned s)) (sym e)
    ∙ ap positive (unsigned-format n)
    ∙ (unfold positive in ground arith)

reads_signs :
    (parse_int (codes "-12") ≡ some (negsuc 11))
    × (parse_int (codes "+7") ≡ some (pos 7))
    × (parse_int (codes "9223372036854775808") ≡ none)
    × (parse_int (codes "-") ≡ none)
unfolding parse_int
reads_signs = (refl, refl, refl, refl)

prints : format 9007 ≡ codes "9007"
unfolding format
prints = refl
