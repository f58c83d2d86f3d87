-- ===== src/RangeDiff/Matching.antt =====
-- Which commit of one patchset is which commit of the other.
use patchbin.Base.{
  ℕ, zero, suc, ◌-◌, ◌*◌, ◌/◌, Str, Bool, true, false, ◌++◌, Option, none, some, List, [], ◌∷◌, map,
  ◌==◌, ltb, str_eq, length, if◌then◌else◌, Result, ok, err, Error, ◌>>=◌,
}
use patchbin.RangeDiff.{PatchFiles, PatchEntry}

abbrev pub cost_max : ℕ
cost_max = 65536

abbrev pub creation_factor_default : ℕ
creation_factor_default = 60

abbrev pub max_int32 : ℕ
max_int32 = 2147483647

abbrev pub sha_of : PatchEntry → Str
sha_of e = e.patch.0.content_sha

abbrev pub patch_size : PatchFiles → ℕ
patch_size p = length p.0.raw_text

abbrev pub entry : PatchFiles → PatchEntry
entry p = record { patch = p; matching = none; size = patch_size p }

abbrev pub matched : Option ℕ → PatchEntry → PatchEntry
matched m e = record e { matching = m }

-- The inner loop of `findExactMatches` for commit `i` of `a`: its matching, and the rest of `b` from `j`.
unfoldable pub match_row : ℕ → Str → ℕ → Option ℕ → List PatchEntry → Option ℕ × List PatchEntry
match_row i sha j m [] = (m, [])
match_row i sha j m (e ∷ es) =
    let same = str_eq sha (sha_of e) in
    let (m', es') = match_row i sha (suc j) (if same then some j else m) es in
    (m', (if same then matched (some i) e else e) ∷ es')

unfoldable pub find_exact_matches :
    ℕ → List PatchEntry → List PatchEntry → List PatchEntry × List PatchEntry
unfolding match_row
find_exact_matches i [] news = ([], news)
find_exact_matches i (e ∷ es) news =
    let (m, news') = match_row i (sha_of e) 0 e.matching news in
    let (es', news'') = find_exact_matches (suc i) es news' in (matched m e ∷ es', news'')

abbrev pub abs_diff : ℕ → ℕ → ℕ
abs_diff a b = if ltb b a then a - b else (b - a)

unfoldable pub zeros : ℕ → List ℕ
zeros zero = []
zeros (suc n) = 0 ∷ zeros n

abbrev pub matches : Option ℕ → ℕ → Bool
matches none j = false
matches (some i) j = i == j

abbrev pub unmatched : Option ℕ → Bool
unmatched none = true
unmatched (some i) = false

-- `cost[i][j]` of two commits
unfoldable pub pair_cost : PatchEntry → ℕ → PatchEntry → ℕ
pair_cost a j b =
    if matches a.matching j
    then 0
    else (if unmatched a.matching
        then (if unmatched b.matching then abs_diff a.size b.size else cost_max)
        else cost_max)

unfoldable pub pair_costs : PatchEntry → ℕ → List PatchEntry → List ℕ
unfolding pair_cost
pair_costs a j [] = []
pair_costs a j (b ∷ news) = pair_cost a j b ∷ pair_costs a (suc j) news

unfoldable pub creation_cost : ℕ → PatchEntry → ℕ
creation_cost factor b = elim b.matching [ none ↦ (b.size * factor) / 100 | some i ↦ max_int32 ]

unfoldable pub copies : ℕ → List ℕ → List (List ℕ)
copies zero row = []
copies (suc n) row = row ∷ copies n row

-- The square matrix: a row for each commit of `a`, then a row for each of `b`; the cells that the
-- code does not set are 0.
unfoldable pub cost_matrix : ℕ → List PatchEntry → List PatchEntry → List (List ℕ)
unfolding pair_costs creation_cost copies zeros
cost_matrix factor olds news =
    map (λ a. pair_costs a 0 news ++ zeros (length olds)) olds
    ++ copies (length news) (map (creation_cost factor) news ++ zeros (length olds))

-- `b[j].Matching = i`
unfoldable pub set_matching : ℕ → ℕ → List PatchEntry → List PatchEntry
set_matching j i [] = []
set_matching zero i (b ∷ news) = matched (some i) b ∷ news
set_matching (suc j) i (b ∷ news) = b ∷ set_matching j i news

-- The loop over `assignment`, from commit `i` on: an index that the assignment does not have panics.
unfoldable pub assign :
    ℕ
    → List (Option ℕ)
    → List PatchEntry
    → List PatchEntry
    → Result (List PatchEntry × List PatchEntry)
unfolding set_matching
assign i js [] news = ok ([], news)
assign i [] (a ∷ olds) news = err Error.panic
assign i (none ∷ js) (a ∷ olds) news = do
  (olds', news') ← assign (suc i) js olds news
  ok (a ∷ olds', news')
assign i (some j ∷ js) (a ∷ olds) news = do
  (olds', news') ←
      assign (suc i) js olds (if ltb j (length news) then set_matching j i news else news)
  ok ((if ltb j (length news) then matched (some j) a else a) ∷ olds', news')

unfoldable pub get_correspondences :
    (List (List ℕ) → List (Option ℕ))
    → List PatchEntry
    → List PatchEntry
    → ℕ
    → Result (List PatchEntry × List PatchEntry)
unfolding cost_matrix assign
get_correspondences solve olds news factor =
    assign 0 (solve (cost_matrix factor olds news)) olds news
