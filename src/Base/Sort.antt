-- ===== src/Base/Sort.antt =====
-- Sorting by a numeric key, as `ORDER BY` and `sort.Slice` do it: rows with equal keys keep their
-- order.
use Prim.Native.Nat.{ℕ, suc, ◌≤◌}
use mathlib.Core.Path.{◌≡◌, refl, ap, ◌∙◌}
use mathlib.Core.Bool.{true, false}
use mathlib.Core.Logic.{inl, inr}
use mathlib.Core.List.{List, [], ◌∷◌, ◌++◌, Perm}
use mathlib.Core.List.Perm
use native.Mathlib.Omega.{arith}
use patchbin.Base.Tests.{leb, if◌then◌else◌, Bool-cases}
use patchbin.Base.Lists.{length, All}

module _ {ℓ} {A : Type ℓ} (key : A → ℕ) where
  insert_by : A → List A → List A
  insert_by x [] = x ∷ []
  insert_by x (y ∷ ys) =
      let rest = insert_by x ys in if leb (key x) (key y) then x ∷ y ∷ ys else y ∷ rest

  unfoldable pub sort_by : List A → List A
  unfolding insert_by
  sort_by [] = []
  sort_by (x ∷ xs) = insert_by x (sort_by xs)

  -- The same from the largest key down.
  insert_desc_by : A → List A → List A
  insert_desc_by x [] = x ∷ []
  insert_desc_by x (y ∷ ys) =
      let rest = insert_desc_by x ys in if leb (key y) (key x) then x ∷ y ∷ ys else y ∷ rest

  unfoldable pub sort_desc_by : List A → List A
  unfolding insert_desc_by
  sort_desc_by [] = []
  sort_desc_by (x ∷ xs) = insert_desc_by x (sort_desc_by xs)

  abbrev pub IsSorted : List A → Type 0
  IsSorted [] = Unit
  IsSorted (x ∷ xs) = All (λ y. key x ≤ key y) xs × IsSorted xs

  insert_by-perm : (x : A) (ys : List A) → Perm (insert_by x ys) (x ∷ ys)
  unfolding insert_by
  insert_by-perm x [] = Perm.refl (x ∷ [])
  insert_by-perm x (y ∷ ys) = elim (Bool-cases (leb (key x) (key y))) [
    | inl h ↦ rw h (Perm.refl (x ∷ y ∷ ys))
    | inr h ↦ rw h (Perm.trans (Perm.cons y (insert_by-perm x ys)) (Perm.swap x y ys))
  ]

  pub sort_by-perm : (xs : List A) → Perm (sort_by xs) xs
  unfolding sort_by
  sort_by-perm [] = Perm.refl []
  sort_by-perm (x ∷ xs) = Perm.trans (insert_by-perm x (sort_by xs)) (Perm.cons x (sort_by-perm xs))

  length-insert_by : (x : A) (ys : List A) → length (insert_by x ys) ≡ suc (length ys)
  unfolding insert_by
  length-insert_by x [] = refl
  length-insert_by x (y ∷ ys) = ground (arith, length-insert_by x ys)

  pub length-sort_by : (xs : List A) → length (sort_by xs) ≡ length xs
  unfolding sort_by
  length-sort_by [] = refl
  length-sort_by (x ∷ xs) = length-insert_by x (sort_by xs) ∙ ap suc (length-sort_by xs)

  All-insert_by {κ} :
      (P : A → Type κ) (x : A) (ys : List A) → P x → All P ys → All P (insert_by x ys)
  unfolding insert_by
  All-insert_by P x [] px h = (px, tt)
  All-insert_by P x (y ∷ ys) px (py, h) =
      elim (leb (key x) (key y)) as (λ b. All P (if b then x ∷ y ∷ ys else y ∷ insert_by x ys)) [
        | true ↦ (px, (py, h))
        | false ↦ (py, All-insert_by P x ys px h)
      ]

  pub All-sort_by {κ} : (P : A → Type κ) (xs : List A) → All P xs → All P (sort_by xs)
  unfolding sort_by
  All-sort_by P [] h = tt
  All-sort_by P (x ∷ xs) (px, h) = All-insert_by P x (sort_by xs) px (All-sort_by P xs h)

  -- A list in order is left as it is.
  pub sort_by-IsSorted : (xs : List A) → IsSorted xs → sort_by xs ≡ xs
  unfolding sort_by
  sort_by-IsSorted [] h = refl
  sort_by-IsSorted (x ∷ xs) (least, h) = rw (sort_by-IsSorted xs h) (stays x xs least)
    where
      stays : (x : A) (ys : List A) → All (λ y. key x ≤ key y) ys → insert_by x ys ≡ x ∷ ys
      stays x [] h = refl
      stays x (y ∷ ys) h = ground arith

  insert_by-append :
      (x y : A) (xs : List A)
      → key x ≤ key y
      → insert_by x (xs ++ y ∷ []) ≡ insert_by x xs ++ y ∷ []
  unfolding insert_by
  insert_by-append x y [] le = ground arith
  insert_by-append x y (z ∷ zs) le = elim (Bool-cases (leb (key x) (key z))) [
    | inl h ↦ rw h refl
    | inr h ↦ rw h (ap (λ rest. z ∷ rest) (insert_by-append x y zs le))
  ]

  -- A row with a key that no other exceeds stays the last one.
  pub sort_by-append :
      (xs : List A) (y : A)
      → All (λ x. key x ≤ key y) xs
      → sort_by (xs ++ y ∷ []) ≡ sort_by xs ++ y ∷ []
  unfolding sort_by insert_by
  sort_by-append [] y h = refl
  sort_by-append (x ∷ xs) y (h, hs) =
      ap (insert_by x) (sort_by-append xs y hs) ∙ insert_by-append x y (sort_by xs) h

  All-lower :
      (x y : A) (xs : List A)
      → key x ≤ key y
      → All (λ z. key y ≤ key z) xs
      → All (λ z. key x ≤ key z) xs
  All-lower x y [] le h = tt
  All-lower x y (z ∷ zs) le (h, hs) = (omega arith, All-lower x y zs le hs)

  insert_by-IsSorted : (x : A) (ys : List A) → IsSorted ys → IsSorted (insert_by x ys)
  unfolding insert_by
  insert_by-IsSorted x [] h = (tt, tt)
  insert_by-IsSorted x (y ∷ ys) (least, h) = elim (Bool-cases (leb (key x) (key y))) [
    | inl e ↦ rw e ((ground arith, All-lower x y ys (ground arith) least), (least, h))
    | inr e ↦
        rw e
          (All-insert_by (λ z. key y ≤ key z) x ys (ground arith) least, insert_by-IsSorted x ys h)
  ]

  sort_by-sorts : (xs : List A) → IsSorted (sort_by xs)
  unfolding sort_by
  sort_by-sorts [] = tt
  sort_by-sorts (x ∷ xs) = insert_by-IsSorted x (sort_by xs) (sort_by-sorts xs)

  insert_by-least : (x : A) (ys : List A) → All (λ y. key x ≤ key y) ys → insert_by x ys ≡ x ∷ ys
  unfolding insert_by
  insert_by-least x [] h = refl
  insert_by-least x (y ∷ ys) h = ground arith

  -- A list with one row between two parts, and the list without it.
  abbrev pub Without : A → List A → List A → Type ℓ
  Without y with_it without =
      (before : List A) × (after : List A) × (with_it ≡ before ++ y ∷ after)
      × (without ≡ before ++ after)

  -- A row put into both.
  insert_by-Without :
      (x y : A) (before after : List A)
      → IsSorted (before ++ y ∷ after)
      → Without y (insert_by x (before ++ y ∷ after)) (insert_by x (before ++ after))
  unfolding insert_by
  insert_by-Without x y [] after (least, h) = elim (Bool-cases (leb (key x) (key y))) [
    | inl e ↦
        rw e
          (x ∷ [], after, refl, insert_by-least x after (All-lower x y after (ground arith) least))
    | inr e ↦ rw e ([], insert_by x after, refl, refl)
  ]
  insert_by-Without x y (z ∷ zs) after (least, h) = elim (Bool-cases (leb (key x) (key z))) [
    | inl e ↦ rw e (x ∷ z ∷ zs, after, refl, refl)
    | inr e ↦ rw e (
        let (before, rest, with_it, without) = insert_by-Without x y zs after h in
        (z ∷ before, rest, ap (λ l. z ∷ l) with_it, ap (λ l. z ∷ l) without))
  ]

  insert_by-itself : (y : A) (ys : List A) → Without y (insert_by y ys) ys
  unfolding insert_by
  insert_by-itself y [] = ([], [], refl, refl)
  insert_by-itself y (z ∷ zs) = elim (Bool-cases (leb (key y) (key z))) [
    | inl e ↦ rw e ([], z ∷ zs, refl, refl)
    | inr e ↦ rw e (
        let (before, after, with_it, without) = insert_by-itself y zs in
        (z ∷ before, after, ap (λ l. z ∷ l) with_it, ap (λ l. z ∷ l) without))
  ]

  -- Sorting a list without one of its rows takes that row out of the sorted list.
  pub sort_by-Without :
      (y : A) (before after : List A)
      → Without y (sort_by (before ++ y ∷ after)) (sort_by (before ++ after))
  unfolding sort_by
  sort_by-Without y [] after = insert_by-itself y (sort_by after)
  sort_by-Without y (x ∷ xs) after =
      let (before, rest, with_it, without) = sort_by-Without y xs after in
      let sorted : IsSorted (before ++ y ∷ rest) =
        rw with_it at (sort_by-sorts (xs ++ y ∷ after)) in
      rw (with_it, without) (insert_by-Without x y before rest sorted)
