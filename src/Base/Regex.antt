-- ===== src/Base/Regex.antt =====
-- Regular expressions that are anchored at the start of a text, with Go's choice of a match: the
-- first alternative that leads to one, and as many rounds of a star as possible. All bodies of stars
-- take at least one byte.
pub mod Matches
use Prim.Native.Nat.{ℕ, zero, suc, ◌-◌}
use mathlib.Core.Bool.{Bool, true, false, ◌&&◌, ◌||◌}
use mathlib.Core.Option.{Option, none, some}
use mathlib.Core.List.{List, [], ◌∷◌}
use patchbin.Base.Tests.{ltb, leb, ◌==◌}
use patchbin.Base.Lists.{length, take}
use patchbin.Base.Text.{Str}

pub data Regex : Type 0 where
  nothing : Regex
  one : (ℕ → Bool) → Regex
  seq : Regex → Regex → Regex
  alt : Regex → Regex → Regex
  many : Regex → Regex
  group : Regex → Regex

-- The texts of the groups, the last one first, and what follows.
abbrev pub Next : Type 0
Next = List Str → Str → Option (List Str)

-- Rounds of a star: as many as the text has bytes are enough.
unfoldable pub rounds :
    (List Str → Str → Next → Option (List Str)) → ℕ → List Str → Str → Next → Option (List Str)
rounds step zero caught s next = next caught s
rounds step (suc n) caught s next =
    elim (step caught s (λ caught' s'. elim (ltb (length s') (length s)) [
      | true ↦ rounds step n caught' s' next
      | false ↦ none
    ])) [ some found ↦ some found | none ↦ next caught s ]

unfoldable pub run : Regex → List Str → Str → Next → Option (List Str)
unfolding rounds
run Regex.nothing caught s next = next caught s
run (Regex.one p) caught [] next = none
run (Regex.one p) caught (c ∷ s) next = elim (p c) [ true ↦ next caught s | false ↦ none ]
run (Regex.seq r t) caught s next = run r caught s (λ caught' s'. run t caught' s' next)
run (Regex.alt r t) caught s next = elim (run r caught s next) [
  | some found ↦ some found
  | none ↦ run t caught s next
]
run (Regex.many r) caught s next = rounds (run r) (length s) caught s next
run (Regex.group r) caught s next =
    run r caught s (λ caught' s'. next (take (length s - length s') s ∷ caught') s')

-- The groups of the match at the start of a text.
unfoldable pub submatches : Regex → Str → Option (List Str)
unfolding run
submatches r s = run r [] s (λ caught rest. some caught)

abbrev pub optional : Regex → Regex
optional r = Regex.alt r Regex.nothing

abbrev pub some_of : Regex → Regex
some_of r = Regex.seq r (Regex.many r)

abbrev pub word : Str → Regex
word [] = Regex.nothing
word (c ∷ s) = Regex.seq (Regex.one (λ d. d == c)) (word s)

-- `\s`
abbrev pub is_blank : ℕ → Bool
is_blank c = c == 32 || (c == 9 || (c == 10 || (c == 12 || c == 13)))

abbrev pub blanks : Regex
blanks = Regex.many (Regex.one is_blank)

abbrev pub some_blanks : Regex
some_blanks = some_of (Regex.one is_blank)

abbrev pub is_letter : ℕ → Bool
is_letter c = (leb b'A' c && leb c b'Z') || ((leb b'a' c && leb c b'z') || c == b'_')

abbrev pub is_letter_or_digit : ℕ → Bool
is_letter_or_digit c = is_letter c || (leb b'0' c && leb c b'9')

-- `[A-Za-z_][A-Za-z0-9_]*`
abbrev pub identifier : Regex
identifier = Regex.seq (Regex.one is_letter) (Regex.many (Regex.one is_letter_or_digit))
