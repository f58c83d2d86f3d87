-- ===== src/RangeDiff/Within.antt =====
-- The matchings of two patchsets point into them.
use patchbin.Base.{
  ℕ, zero, suc, ◌+◌, ◌≤◌, ◌<◌, Str, true, false, ◌++◌, Option, none, some, List, [], ◌∷◌, map,
  str_eq, ltb, length, length-append, get_elem?, if◌then◌else◌, All, Result, ok, ◌>>=◌, ◌≡◌, refl,
  ap, ◌∙◌, arith,
}
use patchbin.RangeDiff.{PatchEntry}
use patchbin.RangeDiff.Matching.{
  sha_of, matched, match_row, find_exact_matches, zeros, copies, pair_costs, creation_cost,
  cost_matrix, set_matching, assign,
}

-- A matching that points into `n` commits.
unfoldable pub IsWithin : ℕ → PatchEntry → Type 0
IsWithin n e = elim e.matching as (λ _. Type 0) [ none ↦ Unit | some i ↦ i < n ]

length-match_row :
    (i : ℕ) (sha : Str) (j : ℕ) (m : Option ℕ) (es : List PatchEntry)
    → length (match_row i sha j m es).1 ≡ length es
unfolding match_row
length-match_row i sha j m [] = refl
length-match_row i sha j m (e ∷ es) = ap suc (length-match_row i sha (suc j) _ es)

match_row-IsWithin :
    (n i : ℕ) (sha : Str) (j : ℕ) (m : Option ℕ) (es : List PatchEntry)
    → i < n
    → All (IsWithin n) es
    → All (IsWithin n) (match_row i sha j m es).1
unfolding match_row IsWithin
match_row-IsWithin n i sha j m [] below h = tt
match_row-IsWithin n i sha j m (e ∷ es) below (here, h) = (
  elim (str_eq sha (sha_of e)) as (λ b. IsWithin n (if b then matched (some i) e else e)) [
    | true ↦ below
    | false ↦ here
  ],
  match_row-IsWithin n i sha (suc j) _ es below h,
)

pub find_exact_matches-IsWithin :
    (n i : ℕ) (olds news : List PatchEntry)
    → i + length olds ≤ n
    → All (IsWithin n) news
    → (length (find_exact_matches i olds news).0 ≡ length olds)
      × (length (find_exact_matches i olds news).1 ≡ length news)
      × All (IsWithin n) (find_exact_matches i olds news).1
unfolding find_exact_matches
find_exact_matches-IsWithin n i [] news small h = (refl, refl, h)
find_exact_matches-IsWithin n i (e ∷ olds) news small h =
    let row = match_row i (sha_of e) 0 e.matching news in
    let (olds_kept, news_kept, within) =
      find_exact_matches-IsWithin n (suc i) olds row.1 (omega arith)
        (match_row-IsWithin n i (sha_of e) 0 e.matching news (omega arith) h) in
    (ap suc olds_kept, news_kept ∙ length-match_row i (sha_of e) 0 e.matching news, within)

length-set_matching :
    (j i : ℕ) (news : List PatchEntry) → length (set_matching j i news) ≡ length news
unfolding set_matching
length-set_matching j i [] = refl
length-set_matching zero i (b ∷ news) = refl
length-set_matching (suc j) i (b ∷ news) = ap suc (length-set_matching j i news)

set_matching-IsWithin :
    (n j i : ℕ) (news : List PatchEntry)
    → i < n
    → All (IsWithin n) news
    → All (IsWithin n) (set_matching j i news)
unfolding set_matching IsWithin
set_matching-IsWithin n j i [] below h = tt
set_matching-IsWithin n zero i (b ∷ news) below (here, h) = (below, h)
set_matching-IsWithin n (suc j) i (b ∷ news) below (here, h) =
    (here, set_matching-IsWithin n j i news below h)

-- The patchsets that the assignment leaves: as long as they were, the newer one within `n`.
unfoldable pub IsAssigned : ℕ → ℕ → ℕ → Result (List PatchEntry × List PatchEntry) → Type 0
IsAssigned n old_count new_count r =
    (olds news : List PatchEntry) × (r ≡ ok (olds, news))
    × (length olds ≡ old_count)
    × (length news ≡ new_count)
    × All (IsWithin n) news

pub assign-IsAssigned :
    (n i : ℕ) (js : List (Option ℕ)) (olds news : List PatchEntry)
    → i + length olds ≤ n
    → length olds ≤ length js
    → All (IsWithin n) news
    → IsAssigned n (length olds) (length news) (assign i js olds news)
unfolding assign IsAssigned
assign-IsAssigned n i js [] news small enough h = ([], news, refl, refl, refl, h)
assign-IsAssigned n i [] (a ∷ olds) news small enough h = absurd (omega (arith, enough))
assign-IsAssigned n i (none ∷ js) (a ∷ olds) news small enough h =
    let (olds', news', same, olds_kept, news_kept, within) =
      assign-IsAssigned n (suc i) js olds news (omega arith) (omega arith) h in
    (a ∷ olds', news', rw same refl, ap suc olds_kept, news_kept, within)
assign-IsAssigned n i (some j ∷ js) (a ∷ olds) news small enough h =
    elim (ltb j (length news))
      as (λ b. IsAssigned n (suc (length olds)) (length news) (
        assign (suc i) js olds (if b then set_matching j i news else news) >>= λ r.
        ok ((if b then matched (some j) a else a) ∷ r.0, r.1))) [
          | true ↦
              let (olds', news', same, olds_kept, news_kept, within) =
                assign-IsAssigned n (suc i) js olds (set_matching j i news) (omega arith)
                  (omega arith) (set_matching-IsWithin n j i news (omega arith) h) in
              (
                matched (some j) a ∷ olds',
                news',
                rw same refl,
                ap suc olds_kept,
                news_kept ∙ length-set_matching j i news,
                within,
              )
          | false ↦
              let (olds', news', same, olds_kept, news_kept, within) =
                assign-IsAssigned n (suc i) js olds news (omega arith) (omega arith) h in
              (a ∷ olds', news', rw same refl, ap suc olds_kept, news_kept, within)
        ]

copies-length : (n : ℕ) (row : List ℕ) → length (copies n row) ≡ n
unfolding copies
copies-length zero row = refl
copies-length (suc n) row = ap suc (copies-length n row)

pub length-map {ℓ κ} :
    {A : Type ℓ} {B : Type κ} (f : A → B) (xs : List A) → length (map f xs) ≡ length xs
length-map f [] = refl
length-map f (x ∷ xs) = ap suc (length-map f xs)

pub length-cost_matrix :
    (factor : ℕ) (olds news : List PatchEntry) → length olds ≤ length (cost_matrix factor olds news)
unfolding cost_matrix
length-cost_matrix factor olds news =
    let rows = map (λ a. pair_costs a 0 news ++ zeros (length olds)) olds in
    let others = copies (length news) (map (creation_cost factor) news ++ zeros (length olds)) in
    omega (
      arith,
      length-append rows others,
      length-map (λ a. pair_costs a 0 news ++ zeros (length olds)) olds,
    )

pub get_elem?-below {ℓ} :
    {A : Type ℓ} (xs : List A) (i : ℕ) → i < length xs → (x : A) × (get_elem? xs i ≡ some x)
get_elem?-below [] i below = absurd (omega (arith, below))
get_elem?-below (x ∷ xs) zero below = (x, refl)
get_elem?-below (x ∷ xs) (suc i) below = get_elem?-below xs i (omega arith)
