-- ===== src/Pr/ReadBack.antt =====
-- The patches of a patchset are read back as they were stored.
use patchbin.Base.{
  ℕ, ◌≤◌, ◌<◌, Bool, List, [], ◌∷◌, ◌++◌, ◌==◌, where_rows, ◌≡◌, refl, ap, ◌∙◌, arith, All,
}
use patchbin.Base.Sort.{sort_by, sort_by-IsSorted, IsSorted}
use patchbin.Store.{PatchText, Patch, Db, Statement, Driver}
use patchbin.Store.Keys.{Ordered}
use patchbin.Pr.Queries.{patches_of}
use patchbin.Pr.Stored.{Holds, IsTimed}

-- The clock does not go back while patches are inserted.
abbrev pub Steady : Driver → Type 0
Steady drv =
    (d d' : Db)
    → d.last_patch ≤ d'.last_patch
    → drv.now Statement.insert_patch d ≤ drv.now Statement.insert_patch d'

pub where_rows-append {ℓ} :
    {A : Type ℓ} (p : A → Bool) (xs ys : List A)
    → where_rows p (xs ++ ys) ≡ where_rows p xs ++ where_rows p ys
where_rows-append p [] ys = refl
where_rows-append p (x ∷ xs) ys = ground (arith, where_rows-append p xs ys)

other_patches :
    (k n : ℕ) (ps : List Patch)
    → All (λ (p : Patch). p.patchset_id ≤ n) ps
    → n < k
    → where_rows (λ (p : Patch). p.patchset_id == k) ps ≡ []
other_patches k n [] h lt = refl
other_patches k n (p ∷ ps) (h, hs) lt = ground (arith, other_patches k n ps hs lt)

own_patches :
    (user k : ℕ) (ps : List Patch)
    → All (λ (p : Patch). (p.user_id ≡ user) × (p.patchset_id ≡ k)) ps
    → where_rows (λ (p : Patch). p.patchset_id == k) ps ≡ ps
own_patches user k [] h = refl
own_patches user k (p ∷ ps) ((_, h), hs) = ground (arith, own_patches user k ps hs)

above :
    (drv : Driver) (p : Patch) (lo : ℕ) (rows : List Patch) (hi : ℕ)
    → Ordered (λ (p : Patch). p.id) lo rows hi
    → p.id ≤ lo
    → All (λ (q : Patch). p.id ≤ q.id) rows
above drv p lo [] hi h le = tt
above drv p lo (q ∷ rows) hi (h, hs) le = (omega arith, above drv p q.id rows hi hs (omega arith))

Ordered-IsSorted :
    (drv : Driver) (lo : ℕ) (rows : List Patch) (hi : ℕ)
    → Ordered (λ (p : Patch). p.id) lo rows hi
    → IsSorted (λ (p : Patch). p.id) rows
Ordered-IsSorted drv lo [] hi h = tt
Ordered-IsSorted drv lo (p ∷ rows) hi (h, hs) =
    (above drv p p.id rows hi hs (omega arith), Ordered-IsSorted drv p.id rows hi hs)

later :
    (drv : Driver) (p : Patch) (rows : List Patch)
    → Steady drv
    → IsTimed drv p
    → All (λ (q : Patch). p.id ≤ q.id) rows
    → All (IsTimed drv) rows
    → All (λ (q : Patch). p.created_at ≤ q.created_at) rows
later drv p [] steady t h ts = tt
later drv p (q ∷ rows) steady (d, now, id) (h, hs) ((d', now', id'), ts) =
    (rw (now, now') (steady d d' (omega arith)), later drv p rows steady (d, now, id) hs ts)

timed-IsSorted :
    (drv : Driver) (rows : List Patch)
    → Steady drv
    → IsSorted (λ (p : Patch). p.id) rows
    → All (IsTimed drv) rows
    → IsSorted (λ (p : Patch). p.created_at) rows
timed-IsSorted drv [] steady h t = tt
timed-IsSorted drv (p ∷ rows) steady (h, hs) (t, ts) =
    (later drv p rows steady t h ts, timed-IsSorted drv rows steady hs ts)

pub patches_of-stored :
    (drv : Driver) (user k first : ℕ) (cs : List PatchText) (old rows : List Patch) (n : ℕ)
    (db' : Db)
    → Steady drv
    → All (λ (p : Patch). p.patchset_id ≤ n) old
    → n < k
    → Holds drv user k first cs rows
    → db'.patches ≡ old ++ rows
    → patches_of k db' ≡ rows
patches_of-stored drv user k first cs old rows n db' steady known lt held e =
    let by_id = Ordered-IsSorted drv first rows _ held.ordered in
    let own : where_rows (λ (p : Patch). p.patchset_id == k) db'.patches ≡ rows =
      ap (where_rows (λ (p : Patch). p.patchset_id == k)) e
      ∙ where_rows-append (λ (p : Patch). p.patchset_id == k) old rows
      ∙ (λ i. other_patches k n old known lt i ++ own_patches user k rows held.owned i) in
    ap (λ ps. sort_by (λ (p : Patch). p.created_at) (sort_by (λ (p : Patch). p.id) ps)) own
    ∙ ap (sort_by (λ (p : Patch). p.created_at)) (sort_by-IsSorted _ rows by_id)
    ∙ sort_by-IsSorted _ rows (timed-IsSorted drv rows steady by_id held.timed)
