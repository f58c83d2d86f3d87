-- ===== src/Base/Regex/Matches.antt =====
-- What it means for a pattern to match, beside the search of `submatches`.
use Prim.Native.Nat.{ℕ, zero, suc, ◌-◌, ◌<◌, ◌≤◌}
use mathlib.Core.Path.{◌≡◌, refl, ap, subst}
use mathlib.Core.Bool.{true, false}
use mathlib.Core.Logic.{◌⊎◌, inl, inr}
use mathlib.Core.Option.{Option, none, some}
use mathlib.Core.List.{List, [], ◌∷◌}
use native.Mathlib.Omega.{arith}
use patchbin.Base.Tests.{ltb, Bool-cases, Option-cases}
use patchbin.Base.Lists.{length, take}
use patchbin.Base.Text.{Str}
use patchbin.Base.Regex.{Regex, Next, run, rounds, submatches}

-- A relation between what is caught with the text ahead, before and after.
abbrev Steps : Type 1
Steps = List Str → Str → List Str → Str → Type 0

-- Any number of rounds.
pub data Star (R : Steps) : List Str → Str → List Str → Str → Type 0 where
  stop :
      {caught caught' : List Str} {s s' : Str}
      → caught ≡ caught'
      → s ≡ s'
      → Star R caught s caught' s'
  again :
      {caught caught1 caught' : List Str} {s s1 s' : Str}
      → R caught s caught1 s1
      → Star R caught1 s1 caught' s'
      → Star R caught s caught' s'

-- The pattern matches what of `s` is in front of `s'`, and its groups catch what is in front of `caught`
-- in `caught'`.
abbrev pub Matches : Regex → Steps
Matches Regex.nothing caught s caught' s' = (caught ≡ caught') × (s ≡ s')
Matches (Regex.one p) caught s caught' s' =
    (c : ℕ) × (s ≡ c ∷ s') × (p c ≡ true) × (caught ≡ caught')
Matches (Regex.seq r t) caught s caught' s' =
    (caught1 : List Str) × (s1 : Str) × Matches r caught s caught1 s1
    × Matches t caught1 s1 caught' s'
Matches (Regex.alt r t) caught s caught' s' =
    Matches r caught s caught' s' ⊎ Matches t caught s caught' s'
Matches (Regex.many r) caught s caught' s' = Star (Matches r) caught s caught' s'
Matches (Regex.group r) caught s caught' s' =
    (caught1 : List Str) × Matches r caught s caught1 s'
    × (caught' ≡ take (length s - length s') s ∷ caught1)

-- A match that is followed by what `next` accepts.
abbrev Then : Regex → List Str → Str → Next → List Str → Type 0
Then r caught s next found =
    (caught' : List Str) × (s' : Str) × Matches r caught s caught' s'
    × (next caught' s' ≡ some found)

either-some :
    (x y : Option (List Str)) (found : List Str)
    → (elim x [ some f ↦ some f | none ↦ y ]) ≡ some found
    → (x ≡ some found) ⊎ (y ≡ some found)
either-some (some f) y found h = inl h
either-some none y found h = inr h

-- What a star does behind a round.
abbrev round : Regex → ℕ → Str → Next → Next
round r n s next = λ caught' s'. elim (ltb (length s') (length s)) [
  | true ↦ rounds (run r) n caught' s' next
  | false ↦ none
]

rounds-Matches :
    (r : Regex)
    → ((caught : List Str) (s : Str) (next : Next) (found : List Str)
        → run r caught s next ≡ some found
        → Then r caught s next found)
    → (n : ℕ) (caught : List Str) (s : Str) (next : Next) (found : List Str)
    → rounds (run r) n caught s next ≡ some found
    → Then (Regex.many r) caught s next found
unfolding rounds
rounds-Matches r step zero caught s next found h = (caught, s, Star.stop refl refl, h)
rounds-Matches r step (suc n) caught s next found h = elim (either-some _ _ found h) [
  | inr stopped ↦ (caught, s, Star.stop refl refl, stopped)
  | inl taken ↦
      let (caught1, s1, first, rest) = step caught s (round r n s next) found taken in
      elim (Bool-cases (ltb (length s1) (length s))) [
        | inr empty ↦ absurd (cc (rw (round, empty) at rest))
        | inl less ↦
            let (caught', s', later, end) =
              rounds-Matches r step n caught1 s1 next found (rw (round, less) at rest) in
            (caught', s', Star.again first later, end)
      ]
]

-- What the search finds is a match.
run-Matches :
    (r : Regex) (caught : List Str) (s : Str) (next : Next) (found : List Str)
    → run r caught s next ≡ some found
    → Then r caught s next found
unfolding run
run-Matches Regex.nothing caught s next found h = (caught, s, (refl, refl), h)
run-Matches (Regex.one p) caught [] next found h = absurd (cc h)
run-Matches (Regex.one p) caught (c ∷ s) next found h = elim (Bool-cases (p c)) [
  | inl holds ↦ (caught, s, (c, refl, holds, refl), rw holds at h)
  | inr fails ↦ absurd (cc (rw fails at h))
]
run-Matches (Regex.seq r t) caught s next found h =
    let (caught1, s1, first, rest) = run-Matches r caught s _ found h in
    let (caught', s', second, end) = run-Matches t caught1 s1 next found rest in
    (caught', s', (caught1, s1, first, second), end)
run-Matches (Regex.alt r t) caught s next found h = elim (either-some _ _ found h) [
  | inl left ↦
      let (caught', s', m, end) = run-Matches r caught s next found left in
      (caught', s', inl m, end)
  | inr right ↦
      let (caught', s', m, end) = run-Matches t caught s next found right in
      (caught', s', inr m, end)
]
run-Matches (Regex.many r) caught s next found h =
    rounds-Matches r (run-Matches r) (length s) caught s next found h
run-Matches (Regex.group r) caught s next found h =
    let (caught1, s', m, end) = run-Matches r caught s _ found h in
    (take (length s - length s') s ∷ caught1, s', (caught1, m, refl), end)

-- Something is found.
abbrev IsFound : Option (List Str) → Type 0
IsFound none = ⊥
IsFound (some found) = Unit

or-IsFound :
    (x y : Option (List Str))
    → IsFound x ⊎ IsFound y
    → IsFound (elim x [ some f ↦ some f | none ↦ y ])
or-IsFound (some f) y h = tt
or-IsFound none y (inl h) = absurd h
or-IsFound none y (inr h) = h

-- A match takes nothing, or some bytes.
abbrev Shrinks : Str → Str → Type 0
Shrinks s s' = (s ≡ s') ⊎ (length s' < length s)

Shrinks-trans : (s s1 s' : Str) → Shrinks s s1 → Shrinks s1 s' → Shrinks s s'
Shrinks-trans s s1 s' (inl e) h = rw e h
Shrinks-trans s s1 s' (inr lt) (inl e) = inr (rw e at lt)
Shrinks-trans s s1 s' (inr lt) (inr lt') = inr (omega arith)

Star-Shrinks :
    (R : Steps)
    → ((caught : List Str) (s : Str) (caught' : List Str) (s' : Str)
        → R caught s caught' s'
        → Shrinks s s')
    → (caught : List Str) (s : Str) (caught' : List Str) (s' : Str) → Star R caught s caught' s'
    → Shrinks s s'
Star-Shrinks R each caught s caught' s' (Star.stop _ e) = inl e
Star-Shrinks R each caught s caught' s' (Star.again {caught1} {s1} m later) =
    Shrinks-trans s s1 s' (each caught s caught1 s1 m)
      (Star-Shrinks R each caught1 s1 caught' s' later)

Matches-Shrinks :
    (r : Regex) (caught : List Str) (s : Str) (caught' : List Str) (s' : Str)
    → Matches r caught s caught' s'
    → Shrinks s s'
Matches-Shrinks Regex.nothing caught s caught' s' (_, e) = inl e
Matches-Shrinks (Regex.one p) caught s caught' s' (c, e, _, _) =
    inr (omega (arith, ap (λ (t : Str). length t) e))
Matches-Shrinks (Regex.seq r t) caught s caught' s' (caught1, s1, m, m') =
    Shrinks-trans s s1 s' (Matches-Shrinks r caught s caught1 s1 m)
      (Matches-Shrinks t caught1 s1 caught' s' m')
Matches-Shrinks (Regex.alt r t) caught s caught' s' (inl m) =
    Matches-Shrinks r caught s caught' s' m
Matches-Shrinks (Regex.alt r t) caught s caught' s' (inr m) =
    Matches-Shrinks t caught s caught' s' m
Matches-Shrinks (Regex.many r) caught s caught' s' m =
    Star-Shrinks (Matches r) (Matches-Shrinks r) caught s caught' s' m
Matches-Shrinks (Regex.group r) caught s caught' s' (caught1, m, _) =
    Matches-Shrinks r caught s caught1 s' m

-- The search finds something in front of what `next` takes at `s'`.
abbrev Complete : Regex → Type 0
Complete r =
    (caught0 : List Str) (s : Str) (caught' : List Str) (s' : Str)
    → Matches r caught0 s caught' s'
    → (caught : List Str) (next : Next) → ((c : List Str) → IsFound (next c s'))
    → IsFound (run r caught s next)

rounds-IsFound :
    (r : Regex)
    → Complete r
    → (caught0 : List Str) (s : Str) (caught' : List Str) (s' : Str)
    → Star (Matches r) caught0 s caught' s'
    → (n : ℕ) → length s ≤ n
    → (caught : List Str) (next : Next) → ((c : List Str) → IsFound (next c s'))
    → IsFound (rounds (run r) n caught s next)
unfolding rounds
rounds-IsFound r step caught0 s caught' s' (Star.stop _ e) zero le caught next h = rw e (h caught)
rounds-IsFound r step caught0 s caught' s' (Star.stop _ e) (suc n) le caught next h =
    or-IsFound (run r caught s (round r n s next)) (next caught s) (inr (rw e (h caught)))
rounds-IsFound r step caught0 s caught' s' (Star.again {caught1} {s1} m later) zero le caught next
      h =
    elim (Matches-Shrinks r caught0 s caught1 s1 m) [
      | inl same ↦
          rw same
            (rounds-IsFound r step caught1 s1 caught' s' later zero (rw same at le) caught next h)
      | inr less ↦ absurd (omega arith)
    ]
rounds-IsFound r step caught0 s caught' s' (Star.again {caught1} {s1} m later) (suc n) le caught
      next h =
    elim (Matches-Shrinks r caught0 s caught1 s1 m) [
      | inl same ↦
          rw same (
            rounds-IsFound r step caught1 s1 caught' s' later (suc n) (rw same at le) caught next h)
      | inr less ↦ or-IsFound (run r caught s (round r n s next)) (next caught s) (
          inl (
            step caught0 s caught1 s1 m caught (round r n s next) λ c.
              let taken : ltb (length s1) (length s) ≡ true = ground arith in
              rw (round, taken)
                (rounds-IsFound r step caught1 s1 caught' s' later n (omega arith) c next h)))
    ]

run-IsFound : (r : Regex) → Complete r
unfolding run
run-IsFound Regex.nothing caught0 s caught' s' (_, e) caught next h = rw e (h caught)
run-IsFound (Regex.one p) caught0 s caught' s' (c, e, holds, _) caught next h =
    rw e (rw holds (h caught))
run-IsFound (Regex.seq r t) caught0 s caught' s' (caught1, s1, m, m') caught next h =
    run-IsFound r caught0 s caught1 s1 m caught _
      (λ c. run-IsFound t caught1 s1 caught' s' m' c next h)
run-IsFound (Regex.alt r t) caught0 s caught' s' (inl m) caught next h =
    or-IsFound _ _ (inl (run-IsFound r caught0 s caught' s' m caught next h))
run-IsFound (Regex.alt r t) caught0 s caught' s' (inr m) caught next h =
    or-IsFound _ _ (inr (run-IsFound t caught0 s caught' s' m caught next h))
run-IsFound (Regex.many r) caught0 s caught' s' m caught next h =
    rounds-IsFound r (run-IsFound r) caught0 s caught' s' m (length s) (omega arith) caught next h
run-IsFound (Regex.group r) caught0 s caught' s' (caught1, m, _) caught next h =
    run-IsFound r caught0 s caught1 s' m caught _ (λ c. h _)

-- The search for a match ends with one, with the texts that its groups catch, or there is none.
pub submatches-decides :
    (r : Regex) (s : Str)
    → ((out : List Str) × (rest : Str) × Matches r [] s out rest × (submatches r s ≡ some out))
      ⊎ ((submatches r s ≡ none) × ((out : List Str) (rest : Str) → ¬ Matches r [] s out rest))
unfolding submatches
submatches-decides r s = elim (Option-cases (run r [] s (λ caught rest. some caught))) [
  | inr (out, h) ↦
      let (caught, rest, m, same) = run-Matches r [] s (λ caught rest. some caught) out h in
      let is : caught ≡ out = cc same in inl (out, rest, subst (λ c. Matches r [] s c rest) is m, h)
  | inl h ↦ inr (
    h,
    λ out rest m.
        let found = run-IsFound r [] s out rest m [] (λ caught rest. some caught) (λ c. tt) in
        subst IsFound h found,
  )
]
