-- ===== src/Pr/History.antt =====
-- The history of a patch request, for `SubmitPatchset` of pr.go: its revisions, each the contents of a
-- patchset's patches.
use patchbin.Base.{
  ℕ, suc, ◌≤◌, ◌<◌, Bool, true, false, List, [], ◌∷◌, ◌++◌, map, ◌==◌, where_rows, if◌then◌else◌,
  ok, ◌≡◌, refl, ap, ◌∙◌, arith, All, append-nil, Bool-cases, inl, inr,
}
use mathlib.Core.List.{map-append}
use patchbin.Base.Sort.{sort_by, sort_by-append, All-sort_by}
use patchbin.Store.{PatchText, written, Patchset, Patch, Db, Statement, Driver}
use patchbin.Store.Keys.{Ordered, Ordered-le}
use patchbin.Store.Statements.{patchset_row}
use patchbin.Store.Valid.{IsValid}
use patchbin.Pr.Queries.{patchsets_of, patches_of}
use patchbin.Pr.Submit.{submit_patchset}
use patchbin.Pr.ReadBack.{Steady, where_rows-append, patches_of-stored}
use patchbin.Pr.Stored.{Holds}
use patchbin.Pr.Submission.{submit_patchset-rows}

-- What a patch request is to its readers: for each id, the revisions from the oldest one on.
abbrev pub Histories : Type 0
Histories = ℕ → List (List PatchText)

abbrev pub append_revision : ℕ → List PatchText → Histories → Histories
append_revision request texts h k = if k == request then h k ++ texts ∷ [] else h k

abbrev pub texts_of : Db → Patchset → List PatchText
texts_of db p = map (λ (q : Patch). q.content) (patches_of p.id db)

-- The histories that a database stands for.
abbrev pub histories : Db → Histories
histories db k = map (texts_of db) (patchsets_of k db)

pub All-where_rows {ℓ κ} :
    {A : Type ℓ} (P : A → Type κ) (p : A → Bool) (xs : List A) → All P xs → All P (where_rows p xs)
All-where_rows P p [] h = tt
All-where_rows P p (x ∷ xs) (px, h) = elim (Bool-cases (p x)) [
  | inl e ↦ rw e (px, All-where_rows P p xs h)
  | inr e ↦ rw e (All-where_rows P p xs h)
]

map-same {ℓ κ} :
    {A : Type ℓ} {B : Type κ} (P : A → Type κ) (f g : A → B)
    → ((x : A) → P x → f x ≡ g x)
    → (xs : List A) → All P xs
    → map f xs ≡ map g xs
map-same P f g same [] h = refl
map-same P f g same (x ∷ xs) (px, h) = λ i. same x px i ∷ map-same P f g same xs h i

pub bounded :
    (lo hi : ℕ) (ps : List Patchset)
    → Ordered (λ (p : Patchset). p.id) lo ps hi
    → All (λ (p : Patchset). p.id ≤ hi) ps
bounded lo hi [] h = tt
bounded lo hi (p ∷ ps) (h, hs) =
    (Ordered-le (λ (p : Patchset). p.id) p.id ps hi hs, bounded p.id hi ps hs)

-- Patches of another patchset are not those of `k`.
none_of :
    (user k n : ℕ) (rows : List Patch)
    → All (λ (q : Patch). (q.user_id ≡ user) × (q.patchset_id ≡ n)) rows
    → k < n
    → where_rows (λ (q : Patch). q.patchset_id == k) rows ≡ []
none_of user k n [] h lt = refl
none_of user k n (q ∷ rows) ((_, h), hs) lt = ground (arith, none_of user k n rows hs lt)

texts_of-kept :
    (user n : ℕ) (rows : List Patch) (db db' : Db) (p : Patchset)
    → All (λ (q : Patch). (q.user_id ≡ user) × (q.patchset_id ≡ n)) rows
    → db'.patches ≡ db.patches ++ rows
    → p.id < n
    → texts_of db' p ≡ texts_of db p
texts_of-kept user n rows db db' p owned stored lt =
    ap
      (λ qs.
        map (λ (q : Patch). q.content)
          (sort_by (λ (q : Patch). q.created_at) (sort_by (λ (q : Patch). q.id) qs)))
      (ap (where_rows (λ (q : Patch). q.patchset_id == p.id)) stored
        ∙ where_rows-append (λ (q : Patch). q.patchset_id == p.id) db.patches rows
        ∙ ap (λ qs. where_rows (λ (q : Patch). q.patchset_id == p.id) db.patches ++ qs)
            (none_of user p.id n rows owned lt)
        ∙ append-nil _)

-- The patchsets of a request, once a newer one is at the end of the table.
patchsets_of-appended :
    (k : ℕ) (p : Patchset) (db db' : Db)
    → All (λ (q : Patchset). q.created_at ≤ p.created_at) db.patchsets
    → db'.patchsets ≡ db.patchsets ++ p ∷ []
    → patchsets_of k db'
      ≡ (if k == p.patch_request_id then patchsets_of k db ++ p ∷ [] else patchsets_of k db)
patchsets_of-appended k p db db' dated stored =
    let own = λ (q : Patchset). q.patch_request_id == k in
    let olds = where_rows own db.patchsets in
    let split =
      ap (λ ps. sort_by (λ (q : Patchset). q.created_at) (where_rows own ps)) stored
      ∙ ap (sort_by (λ (q : Patchset). q.created_at))
          (where_rows-append own db.patchsets (p ∷ [])) in
    elim (Bool-cases (k == p.patch_request_id)) [
      | inl e ↦
          let mine : own p ≡ true = ground arith in
          rw e (
            split
            ∙ ap
                (λ b. sort_by (λ (q : Patchset). q.created_at) (olds ++ (if b then p ∷ [] else [])))
                mine
            ∙ sort_by-append (λ (q : Patchset). q.created_at) olds p
                (All-where_rows (λ (q : Patchset). q.created_at ≤ p.created_at) own db.patchsets
                  dated))
      | inr e ↦
          let other : own p ≡ false = ground arith in
          rw e (
            split
            ∙ ap
                (λ b. sort_by (λ (q : Patchset). q.created_at) (olds ++ (if b then p ∷ [] else [])))
                other
            ∙ ap (sort_by (λ (q : Patchset). q.created_at)) (append-nil olds))
    ]

module _ (request : ℕ) (texts : List PatchText) (row : Patchset) (db db' : Db) where
  per_request :
      (k : ℕ)
      → patchsets_of k db'
        ≡ (if k == request then patchsets_of k db ++ row ∷ [] else patchsets_of k db)
      → map (texts_of db') (patchsets_of k db) ≡ histories db k
      → texts_of db' row ≡ texts
      → histories db' k ≡ append_revision request texts (histories db) k
  per_request k now olds new = ap (map (texts_of db')) now ∙ either (k == request)
    where
      either :
          (mine : Bool)
          → map (texts_of db') (if mine then patchsets_of k db ++ row ∷ [] else patchsets_of k db)
            ≡ (if mine then histories db k ++ texts ∷ [] else histories db k)
      either true =
          map-append (texts_of db') (patchsets_of k db) (row ∷ []) ∙ (λ i. olds i ++ new i ∷ [])
      either false = olds

-- What one more patchset, with its patches, does to the histories; `at` is the database at the moment
-- when it was inserted.
pub histories-appended :
    (drv : Driver) (request user : ℕ) (cs : List PatchText) (rows : List Patch) (at db db' : Db)
    → IsValid db
    → Steady drv
    → All (λ (p : Patchset). p.created_at ≤ drv.now Statement.insert_patchset at) db.patchsets
    → Holds drv user (suc db.last_patchset) db.last_patch cs rows
    → at.last_patchset ≡ db.last_patchset
    → db'.patches ≡ db.patches ++ rows
    → db'.patchsets ≡ db.patchsets ++ patchset_row drv user request at ∷ []
    → histories db' ≡ append_revision request (map written cs) (histories db)
histories-appended drv request user cs rows at db db' v steady dated held last patches patchsets =
    let row = patchset_row drv user request at in
    let texts : texts_of db' row ≡ map written cs =
      ap (λ n. map (λ (q : Patch). q.content) (patches_of (suc n) db')) last
      ∙ ap (map (λ (q : Patch). q.content)) (
          patches_of-stored drv user (suc db.last_patchset) db.last_patch cs db.patches rows
            db.last_patchset db' steady v.opened (omega arith) held patches)
      ∙ held.same in
    let olds : (k : ℕ) → map (texts_of db') (patchsets_of k db) ≡ histories db k = λ k.
      map-same (λ (p : Patchset). p.id ≤ db.last_patchset) (texts_of db') (texts_of db)
        (λ p le.
          texts_of-kept user (suc db.last_patchset) rows db db' p held.owned patches (omega arith))
        (patchsets_of k db)
        (All-sort_by (λ (p : Patchset). p.created_at) (λ (p : Patchset). p.id ≤ db.last_patchset) _
          (All-where_rows (λ (p : Patchset). p.id ≤ db.last_patchset) _ db.patchsets
            (bounded 0 db.last_patchset db.patchsets v.patchsets))) in
    λ i k.
      per_request request (map written cs) row db db' k
        (patchsets_of-appended k row db db' dated patchsets) (olds k) texts i

-- From a valid database whose patchsets are no younger than the clock says, and with a clock that does
-- not go back: what a patchset that is added does to the histories is to append to its request's the
-- contents that were sent (but for base commits that are not marked valid). No earlier revision
-- and no other request changes.
pub submit_patchset-appends :
    (drv : Driver) (request user : ℕ) (cs : List PatchText) (db : Db) (ids : List ℕ) (db' : Db)
    → IsValid db
    → Steady drv
    → All (λ (p : Patchset). p.created_at ≤ drv.now Statement.insert_patchset db) db.patchsets
    → submit_patchset drv request user (ok cs) db ≡ (ok ids, db')
    → histories db' ≡ append_revision request (map written cs) (histories db)
submit_patchset-appends drv request user cs db ids db' v steady dated h =
    let (rows, held, count, patches, patchsets) =
      submit_patchset-rows drv request user cs db ids db' v h in
    histories-appended drv request user cs rows db db db' v steady dated held refl patches patchsets
