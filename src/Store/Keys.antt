-- ===== src/Store/Keys.antt =====
-- Tables in the order of their ids: every row has an id of its own, and new rows come last.
use patchbin.Base.{
  ℕ, ◌≤◌, ◌<◌, Bool, false, List, [], ◌∷◌, ◌++◌, map, ◌==◌, any_row, where_rows, ◌≡◌, refl, arith,
  Bool-cases, inl, inr,
}

module _ {ℓ} {A : Type ℓ} (key : A → ℕ) where
  -- The keys grow, from above `lo` and up to `hi`.
  abbrev pub Ordered : ℕ → List A → ℕ → Type 0
  Ordered lo [] hi = lo ≤ hi
  Ordered lo (x ∷ xs) hi = (lo < key x) × Ordered (key x) xs hi

  pub Ordered-le : (lo : ℕ) (xs : List A) (hi : ℕ) → Ordered lo xs hi → lo ≤ hi
  Ordered-le lo [] hi h = h
  Ordered-le lo (x ∷ xs) hi (h, hs) = omega (arith, Ordered-le (key x) xs hi hs)

  pub Ordered-append :
      (lo : ℕ) (xs : List A) (hi : ℕ) (x : A)
      → Ordered lo xs hi
      → hi < key x
      → Ordered lo (xs ++ x ∷ []) (key x)
  Ordered-append lo [] hi x h lt = (omega arith, omega arith)
  Ordered-append lo (y ∷ ys) hi x (h, hs) lt = (h, Ordered-append (key y) ys hi x hs lt)

  Ordered-lower :
      (lo lo' : ℕ) (xs : List A) (hi : ℕ) → lo' ≤ lo → Ordered lo xs hi → Ordered lo' xs hi
  Ordered-lower lo lo' [] hi le h = omega arith
  Ordered-lower lo lo' (x ∷ xs) hi le (h, hs) = (omega arith, hs)

  pub Ordered-where_rows :
      (p : A → Bool) (lo : ℕ) (xs : List A) (hi : ℕ)
      → Ordered lo xs hi
      → Ordered lo (where_rows p xs) hi
  Ordered-where_rows p lo [] hi h = h
  Ordered-where_rows p lo (x ∷ xs) hi (h, hs) = elim (Bool-cases (p x)) [
    | inl e ↦ rw e (h, Ordered-where_rows p (key x) xs hi hs)
    | inr e ↦ rw e (
        Ordered-lower (key x) lo (where_rows p xs) hi (omega arith)
          (Ordered-where_rows p (key x) xs hi hs))
  ]

  pub Ordered-map :
      (f : A → A)
      → ((x : A) → key (f x) ≡ key x)
      → (lo : ℕ) (xs : List A) (hi : ℕ) → Ordered lo xs hi
      → Ordered lo (map f xs) hi
  Ordered-map f same lo [] hi h = h
  Ordered-map f same lo (x ∷ xs) hi (h, hs) = rw same (h, Ordered-map f same (key x) xs hi hs)

  -- No row has an id that is not above `lo`, or that is above `hi`.
  pub any_row-below :
      (lo : ℕ) (xs : List A) (hi id : ℕ)
      → Ordered lo xs hi
      → id ≤ lo
      → any_row (λ x. key x == id) xs ≡ false
  any_row-below lo [] hi id h le = refl
  any_row-below lo (x ∷ xs) hi id (h, hs) le =
      ground (arith, any_row-below (key x) xs hi id hs (omega arith))

  pub any_row-above :
      (lo : ℕ) (xs : List A) (hi id : ℕ)
      → Ordered lo xs hi
      → hi < id
      → any_row (λ x. key x == id) xs ≡ false
  any_row-above lo [] hi id h le = refl
  any_row-above lo (x ∷ xs) hi id (h, hs) le =
      ground (arith, any_row-above (key x) xs hi id hs le, Ordered-le (key x) xs hi hs)
