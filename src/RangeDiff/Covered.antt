-- ===== src/RangeDiff/Covered.antt =====
-- The rows of a comparison of two patchsets, for RangeDiff and outputDiff of range_diff.go.
use mathlib.Core.List.{Perm}
use patchbin.Base.{
  ℕ, zero, suc, >>=-eq-ok, Str, ◌≤◌, ◌<◌, Bool, true, false, ◌++◌, Option, none, some, List, [],
  ◌∷◌, map, str_eq, ltb, length, if◌then◌else◌, All, ok, ◌≡◌, refl, sym, ap, subst, ◌∙◌, arith,
}
use patchbin.Mbox.{Tools}
use patchbin.RangeDiff.{PatchFiles, PatchEntry, DiffType, RangeDiffOutput, Choices}
use patchbin.RangeDiff.Matching.{
  entry, sha_of, matched, find_exact_matches, cost_matrix, get_correspondences,
  creation_factor_default, set_matching, assign,
}
use patchbin.RangeDiff.Output.{
  removed_outputs, matched_output, matched_or_panic, output_of, other_outputs, build_output,
  range_diff,
}
use patchbin.RangeDiff.Exact.{patches, find_exact_matches-AreExact}
use patchbin.RangeDiff.Within.{
  IsWithin, find_exact_matches-IsWithin, IsAssigned, assign-IsAssigned, length-cost_matrix,
  get_elem?-below,
}

abbrev pub is_rm : DiffType → Bool
is_rm t = elim t [
  | DiffType.rm ↦ true
  | DiffType.add ↦ false
  | DiffType.equal ↦ false
  | DiffType.changed ↦ false
]

-- What a row shows of a commit of the newer patchset, and what there is to show of it.
abbrev pub shown_of : RangeDiffOutput → List Str
shown_of o =
    o.header.new_sha ∷ o.header.new_title ∷ o.header.new_body ∷ o.header.new_author_name
    ∷ o.header.new_author_email ∷ []

abbrev pub commit_of : PatchFiles → List Str
commit_of (p, files) = p.commit_sha ∷ p.title ∷ p.body ∷ p.author_name ∷ p.author_email ∷ []

-- Up to order: rows that are removals, and for each commit of `b`, in its order, a row that is no
-- removal and shows it.
abbrev pub IsShown : List PatchFiles → List RangeDiffOutput → Type 0
IsShown b os =
    (removals rows : List RangeDiffOutput) × Perm os (removals ++ rows)
    × All (λ (o : RangeDiffOutput). is_rm o.type ≡ true) removals
    × All (λ (o : RangeDiffOutput). is_rm o.type ≡ false) rows
    × (map shown_of rows ≡ map commit_of b)

entries-IsWithin : (n : ℕ) (b : List PatchFiles) → All (IsWithin n) (map entry b)
unfolding IsWithin
entries-IsWithin n [] = tt
entries-IsWithin n (p ∷ b) = (tt, entries-IsWithin n b)

-- The assignment leaves the patches alone.
patches-set_matching :
    (j i : ℕ) (news : List PatchEntry) → patches (set_matching j i news) ≡ patches news
unfolding set_matching
patches-set_matching j i [] = refl
patches-set_matching zero i (b ∷ news) = refl
patches-set_matching (suc j) i (b ∷ news) = ap (λ l. b.patch ∷ l) (patches-set_matching j i news)

patches-assigned :
    (within : Bool) (j i : ℕ) (news : List PatchEntry)
    → patches (if within then set_matching j i news else news) ≡ patches news
patches-assigned true j i news = patches-set_matching j i news
patches-assigned false j i news = refl

patches-assign :
    (i : ℕ) (js : List (Option ℕ)) (olds news olds' news' : List PatchEntry)
    → assign i js olds news ≡ ok (olds', news')
    → patches news' ≡ patches news
unfolding assign
patches-assign i js [] news olds' news' h = ap patches (cc h)
patches-assign i [] (a ∷ olds) news olds' news' h = absurd (cc h)
patches-assign i (none ∷ js) (a ∷ olds) news olds' news' h =
    let ((olds1, news1), rest, last) = >>=-eq-ok (assign (suc i) js olds news) _ h in
    ap patches (cc last) ∙ patches-assign (suc i) js olds news olds1 news1 rest
patches-assign i (some j ∷ js) (a ∷ olds) news olds' news' h =
    let before = if ltb j (length news) then set_matching j i news else news in
    let ((olds1, news1), rest, last) = >>=-eq-ok (assign (suc i) js olds before) _ h in
    ap patches (cc last)
    ∙ patches-assign (suc i) js olds before olds1 news1 rest
    ∙ patches-assigned (ltb j (length news)) j i news

module _ (tools : Tools) (choices : Choices) where
  output_of-shown :
      (olds : List PatchEntry) (j : ℕ) (b : PatchEntry)
      → IsWithin (length olds) b
      → (o : RangeDiffOutput) × (output_of tools choices olds j b ≡ ok o)
        × (is_rm o.type ≡ false)
        × (shown_of o ≡ commit_of b.patch)
  unfolding output_of IsWithin matched_output
  output_of-shown olds j b h = shown b.matching h
    where
      shown :
          (m : Option ℕ)
          → elim m as (λ _. Type 0) [ none ↦ Unit | some i ↦ i < length olds ]
          → (o : RangeDiffOutput) × (output_of tools choices olds j (matched m b) ≡ ok o)
            × (is_rm o.type ≡ false)
            × (shown_of o ≡ commit_of b.patch)
      shown none h = (_, refl, refl, refl)
      shown (some i) h =
          let (a, found) = get_elem?-below olds i h in
          (
            matched_output tools choices i a (matched (some i) b),
            ap (matched_or_panic tools choices i (matched (some i) b)) found,
            elim (str_eq (sha_of b) (sha_of a))
                as (λ s. is_rm (if s then DiffType.equal else DiffType.changed) ≡ false) [
                  | true ↦ refl
                  | false ↦ refl
                ],
            refl,
          )

  -- One row for each commit, in their order, none of them a removal.
  abbrev Shows : List PatchFiles → List RangeDiffOutput → Type 0
  Shows b os =
      All (λ (o : RangeDiffOutput). is_rm o.type ≡ false) os × (map shown_of os ≡ map commit_of b)

  other_outputs-shown :
      (olds : List PatchEntry) (j : ℕ) (news : List PatchEntry)
      → All (IsWithin (length olds)) news
      → (os : List RangeDiffOutput) × (other_outputs tools choices olds j news ≡ ok os)
        × Shows (patches news) os
  unfolding other_outputs
  other_outputs-shown olds j [] h = ([], refl, (tt, refl))
  other_outputs-shown olds j (b ∷ news) (here, h) =
      let (o, first, kind, same) = output_of-shown olds j b here in
      let (os, others, (kinds, sames)) = other_outputs-shown olds (suc j) news h in
      (o ∷ os, rw first (rw others refl), ((kind, kinds), λ i. same i ∷ sames i))

  removed_outputs-removed :
      (i : ℕ) (olds : List PatchEntry)
      → All (λ (o : RangeDiffOutput). is_rm o.type ≡ true) (removed_outputs tools choices i olds)
  unfolding removed_outputs
  removed_outputs-removed i [] = tt
  removed_outputs-removed i (a ∷ olds) =
      elim a.matching
        as (λ m.
          All (λ (o : RangeDiffOutput). is_rm o.type ≡ true)
            (removed_outputs tools choices i (matched m a ∷ olds))) [
              | none ↦ (refl, removed_outputs-removed (suc i) olds)
              | some _ ↦ removed_outputs-removed (suc i) olds
            ]

  -- If the assignment has an entry for every row of the matrix, and sorting only reorders, then the
  -- comparison of any two patchsets does not panic. Up to order it consists of removal
  -- rows and of one row for each commit of the newer patchset, which is no removal and has the
  -- commit's hash, title, body and author.
  pub range_diff-shows :
      (a b : List PatchFiles)
      → ((matrix : List (List ℕ)) → length matrix ≤ length (choices.solve matrix))
      → ((less : RangeDiffOutput → RangeDiffOutput → Bool) (os : List RangeDiffOutput)
          → Perm (choices.sort_outputs less os) os)
      → (os : List RangeDiffOutput) × (range_diff tools choices a b ≡ ok os) × IsShown b os
  unfolding range_diff get_correspondences build_output IsAssigned
  range_diff-shows a b solves sorts =
      let (olds, news) = find_exact_matches 0 (map entry a) (map entry b) in
      let (olds_kept, news_kept, within) =
        find_exact_matches-IsWithin (length (map entry a)) 0 (map entry a) (map entry b)
          (omega arith) (entries-IsWithin (length (map entry a)) b) in
      let matrix = cost_matrix creation_factor_default olds news in
      let (olds', news', assigned, olds_left, news_left, within') =
        assign-IsAssigned (length olds) 0 (choices.solve matrix) olds news (omega arith)
          (omega (arith, solves matrix, length-cost_matrix creation_factor_default olds news))
          (subst (λ n. All (IsWithin n) news) (sym olds_kept) within) in
      let (os, shown, (kinds, commits)) =
        other_outputs-shown olds' 0 news'
          (subst (λ n. All (IsWithin n) news') (sym olds_left) within') in
      let (_, _, _, exact) = find_exact_matches-AreExact a b in
      let kept = patches-assign 0 (choices.solve matrix) olds news olds' news' assigned ∙ exact in
      let less = λ (x y : RangeDiffOutput). ltb x.order y.order in
      let removals = removed_outputs tools choices 0 olds' in
      (
        choices.sort_outputs less (removals ++ os),
        rw assigned (rw shown refl),
        (
          removals,
          os,
          sorts less (removals ++ os),
          removed_outputs-removed 0 olds',
          kinds,
          commits ∙ ap (λ (l : List PatchFiles). map commit_of l) kept,
        ),
      )
