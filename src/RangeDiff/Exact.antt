-- ===== src/RangeDiff/Exact.antt =====
-- The exact matches of two patchsets, for `findExactMatches` of range_diff.go.
use patchbin.Base.{
  ℕ, zero, suc, Str, Bool, true, false, ◌++◌, Option, none, some, List, [], ◌∷◌, map, str_eq,
  str_eq_iff, length, length-append, get_elem?, if◌then◌else◌, All, All-append, append_assoc,
  append-nil, subst, ◌≡◌, ◌≢◌, refl, sym, ap, ◌∙◌, arith,
}
use patchbin.RangeDiff.{PatchFiles, PatchEntry}
use patchbin.RangeDiff.Matching.{entry, sha_of, matched, match_row, find_exact_matches}

-- Against the digests of the other patchset: a commit that is not matched has a digest that none of
-- them is, and one that is matched has the digest at that place.
abbrev pub IsExact : List Str → Str → Option ℕ → Type 0
IsExact others sha none = All (λ t. t ≢ sha) others
IsExact others sha (some i) = get_elem? others i ≡ some sha

get_elem?-append :
    (xs ys : List Str) (i : ℕ) (x : Str) → get_elem? xs i ≡ some x → get_elem? (xs ++ ys) i ≡ some x
get_elem?-append [] ys i x h = absurd (cc h)
get_elem?-append (y ∷ xs) ys zero x h = h
get_elem?-append (y ∷ xs) ys (suc i) x h = get_elem?-append xs ys i x h

get_elem?-next : (xs ys : List Str) (x : Str) → get_elem? (xs ++ x ∷ ys) (length xs) ≡ some x
get_elem?-next [] ys x = refl
get_elem?-next (y ∷ xs) ys x = get_elem?-next xs ys x

-- One more digest of the other patchset.
IsExact-next :
    (others : List Str) (sha t : Str) (m : Option ℕ) (i : ℕ) (same : Bool)
    → i ≡ length others
    → (same ≡ true → t ≡ sha)
    → (same ≡ false → t ≢ sha)
    → IsExact others sha m
    → IsExact (others ++ t ∷ []) sha (if same then some i else m)
IsExact-next others sha t m i true at equal differs h =
    rw (at, equal refl) (get_elem?-next others [] sha)
IsExact-next others sha t none i false at equal differs h =
    All-append (λ t. t ≢ sha) others (t ∷ []) h (differs refl, tt)
IsExact-next others sha t (some k) i false at equal differs h =
    get_elem?-append others (t ∷ []) k sha h

abbrev pub AreExact : List Str → List PatchEntry → Type 0
AreExact others = All (λ (e : PatchEntry). IsExact others (sha_of e) e.matching)

-- The matching that the commit of `a` gets from one round of the loop.
match_row-IsExact :
    (i : ℕ) (sha : Str) (before : List Str) (j : ℕ) (m : Option ℕ) (es : List PatchEntry)
    → j ≡ length before
    → IsExact before sha m
    → IsExact (before ++ map sha_of es) sha (match_row i sha j m es).0
unfolding match_row
match_row-IsExact i sha before j m [] at h =
    subst (λ others. IsExact others sha m) (sym (append-nil before)) h
match_row-IsExact i sha before j m (e ∷ es) at h =
    let same = str_eq sha (sha_of e) in
    subst (λ others. IsExact others sha (match_row i sha j m (e ∷ es)).0)
      (append_assoc before (sha_of e ∷ []) (map sha_of es))
      (match_row-IsExact i sha (before ++ sha_of e ∷ []) (suc j) (if same then some j else m) es
        (omega (arith, length-append before (sha_of e ∷ [])))
        (IsExact-next before sha (sha_of e) m j same at
          (λ equal. ground (arith, str_eq_iff sha (sha_of e), equal))
          (λ differs e'. ground (arith, str_eq_iff sha (sha_of e), differs, sym e')) h))

rematched :
    (others : List Str) (e : PatchEntry) (i : ℕ) (same : Bool)
    → IsExact others (sha_of e) (if same then some i else e.matching)
    → IsExact others
        (sha_of (if same then matched (some i) e else e))
        (if same then matched (some i) e else e).matching
rematched others e i true h = h
rematched others e i false h = h

-- What the commits of `b` get from it.
match_row-AreExact :
    (done : List Str) (i : ℕ) (sha : Str) (j : ℕ) (m : Option ℕ) (es : List PatchEntry)
    → i ≡ length done
    → AreExact done es
    → AreExact (done ++ sha ∷ []) (match_row i sha j m es).1
unfolding match_row
match_row-AreExact done i sha j m [] at h = tt
match_row-AreExact done i sha j m (e ∷ es) at (here, h) =
    let same = str_eq sha (sha_of e) in
    (
      rematched (done ++ sha ∷ []) e i same (
          IsExact-next done (sha_of e) sha e.matching i same at
            (λ equal. ground (arith, str_eq_iff sha (sha_of e), equal))
            (λ differs e'. ground (arith, str_eq_iff sha (sha_of e), differs, e')) here),
      match_row-AreExact done i sha (suc j) _ es at h,
    )

-- The patches stay.
patch-rematched :
    (e : PatchEntry) (i : ℕ) (same : Bool)
    → (if same then matched (some i) e else e).patch ≡ e.patch
patch-rematched e i true = refl
patch-rematched e i false = refl

abbrev pub patches : List PatchEntry → List PatchFiles
patches = map (λ (e : PatchEntry). e.patch)

patches-match_row :
    (i : ℕ) (sha : Str) (j : ℕ) (m : Option ℕ) (es : List PatchEntry)
    → patches (match_row i sha j m es).1 ≡ patches es
unfolding match_row
patches-match_row i sha j m [] = refl
patches-match_row i sha j m (e ∷ es) = λ k.
    patch-rematched e i (str_eq sha (sha_of e)) k
    ∷ patches-match_row i sha (suc j) (if str_eq sha (sha_of e) then some j else m) es k

abbrev pub shas : List PatchFiles → List Str
shas = map (λ (p : PatchFiles). p.0.content_sha)

shas-patches : (es : List PatchEntry) → map sha_of es ≡ shas (patches es)
shas-patches [] = refl
shas-patches (e ∷ es) = ap (λ l. sha_of e ∷ l) (shas-patches es)

abbrev IsUnmatched : PatchEntry → Type 0
IsUnmatched e = e.matching ≡ none

exact_from :
    (done : List Str) (i : ℕ) (olds news : List PatchEntry)
    → i ≡ length done
    → All IsUnmatched olds
    → AreExact done news
    → AreExact (map sha_of news) (find_exact_matches i olds news).0
      × AreExact (done ++ map sha_of olds) (find_exact_matches i olds news).1
      × (patches (find_exact_matches i olds news).0 ≡ patches olds)
      × (patches (find_exact_matches i olds news).1 ≡ patches news)
unfolding find_exact_matches
exact_from done i [] news at free h =
    (tt, subst (λ l. AreExact l news) (sym (append-nil done)) h, refl, refl)
exact_from done i (e ∷ olds) news at (free, frees) h =
    let sha = sha_of e in
    let row = match_row i sha 0 e.matching news in
    let kept = patches-match_row i sha 0 e.matching news in
    let same : map sha_of row.1 ≡ map sha_of news =
      shas-patches row.1 ∙ ap shas kept ∙ sym (shas-patches news) in
    let (olds_exact, news_exact, olds_kept, news_kept) =
      exact_from (done ++ sha ∷ []) (suc i) olds row.1
        (omega (arith, length-append done (sha ∷ []))) frees
        (match_row-AreExact done i sha 0 e.matching news at h) in
    (
      (
        match_row-IsExact i sha [] 0 e.matching news refl (rw free tt),
        subst (λ l. AreExact l (find_exact_matches (suc i) olds row.1).0) same olds_exact,
      ),
      subst (λ l. AreExact l (find_exact_matches (suc i) olds row.1).1)
          (append_assoc done (sha ∷ []) (map sha_of olds)) news_exact,
      ap (λ l. e.patch ∷ l) olds_kept,
      news_kept ∙ kept,
    )

entries-free : (a : List PatchFiles) → All IsUnmatched (map entry a)
entries-free [] = tt
entries-free (p ∷ a) = (refl, entries-free a)

entries-AreExact : (b : List PatchFiles) → AreExact [] (map entry b)
entries-AreExact [] = tt
entries-AreExact (p ∷ b) = (tt, entries-AreExact b)

shas-entries : (a : List PatchFiles) → map sha_of (map entry a) ≡ shas a
shas-entries [] = refl
shas-entries (p ∷ a) = ap (λ l. p.0.content_sha ∷ l) (shas-entries a)

-- The search for exact matches between any two patchsets is right on both sides: it keeps the commits,
-- and a commit of either one is matched exactly if the other has a commit with the same digest of
-- its contents, and then with such a commit.
pub find_exact_matches-AreExact :
    (a b : List PatchFiles)
    → AreExact (shas b) (find_exact_matches 0 (map entry a) (map entry b)).0
      × AreExact (shas a) (find_exact_matches 0 (map entry a) (map entry b)).1
      × (patches (find_exact_matches 0 (map entry a) (map entry b)).0 ≡ a)
      × (patches (find_exact_matches 0 (map entry a) (map entry b)).1 ≡ b)
find_exact_matches-AreExact a b =
    let (olds, news, olds_kept, news_kept) =
      exact_from [] 0 (map entry a) (map entry b) refl (entries-free a) (entries-AreExact b) in
    (
      subst (λ l. AreExact l (find_exact_matches 0 (map entry a) (map entry b)).0) (shas-entries b)
          olds,
      subst (λ l. AreExact l (find_exact_matches 0 (map entry a) (map entry b)).1) (shas-entries a)
          news,
      olds_kept ∙ patches-entries a,
      news_kept ∙ patches-entries b,
    )
  where
    patches-entries : (a : List PatchFiles) → patches (map entry a) ≡ a
    patches-entries [] = refl
    patches-entries (p ∷ a) = ap (λ l. p ∷ l) (patches-entries a)
