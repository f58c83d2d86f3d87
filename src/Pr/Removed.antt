-- ===== src/Pr/Removed.antt =====
-- What the histories of the patch requests lose when `DeletePatchsetByID` of pr.go takes a patchset out
-- of its table.
use patchbin.Base.{
  ℕ, ◌≤◌, Bool, true, false, List, [], ◌∷◌, ◌++◌, map, ◌==◌, where_rows, if◌then◌else◌, ◌≡◌, ◌⊎◌,
  inl, inr, refl, sym, ap, ◌∙◌, arith, Bool-cases,
}
use mathlib.Core.List.{map-append}
use patchbin.Base.Sort.{sort_by, sort_by-Without}
use patchbin.Store.{PatchText, Patchset, Patch, Db}
use patchbin.Store.Keys.{Ordered}
use patchbin.Store.Statements.{other_patchset}
use patchbin.Store.Valid.{IsValid}
use patchbin.Pr.ReadBack.{where_rows-append}
use patchbin.Pr.Keeps.{Keeps}
use patchbin.Pr.Bodies.{Removes}
use patchbin.Pr.History.{Histories, texts_of, histories}

-- One request loses one revision.
pub record Loses (h h' : Histories) : Type 0 where
  pub request : ℕ
  pub before : List (List PatchText)
  pub texts : List PatchText
  pub after : List (List PatchText)
  pub had : h request ≡ before ++ texts ∷ after
  pub has : h' request ≡ before ++ after
  pub others : (k : ℕ) → (k == request) ≡ false → h' k ≡ h k

pub histories-Keeps : (db db' : Db) → Keeps db db' → histories db' ≡ histories db
histories-Keeps db db' same = λ i k.
    map
      (λ (p : Patchset).
        map (λ (q : Patch). q.content)
          (sort_by (λ (q : Patch). q.created_at)
            (sort_by (λ (q : Patch). q.id)
              (where_rows (λ (q : Patch). q.patchset_id == p.id) (same.patches i)))))
      (sort_by (λ (p : Patchset). p.created_at)
        (where_rows (λ (p : Patchset). p.patch_request_id == k) (same.patchsets i)))

-- Without the row, in a table that has it nowhere.
kept_below :
    (id lo hi : ℕ) (ps : List Patchset)
    → Ordered (λ (p : Patchset). p.id) lo ps hi
    → id ≤ lo
    → where_rows (other_patchset id) ps ≡ ps
kept_below id lo hi [] h le = refl
kept_below id lo hi (p ∷ ps) (h, hs) le = ground (arith, kept_below id p.id hi ps hs (omega arith))

-- A table in the order of its ids has a row once or not at all.
split_at_id :
    (id lo hi : ℕ) (ps : List Patchset)
    → Ordered (λ (p : Patchset). p.id) lo ps hi
    → (where_rows (other_patchset id) ps ≡ ps)
      ⊎ ((before : List Patchset) × (p : Patchset) × (after : List Patchset) × (ps
            ≡ before ++ p ∷ after)
          × (where_rows (other_patchset id) ps ≡ before ++ after))
split_at_id id lo hi [] h = inl refl
split_at_id id lo hi (p ∷ ps) (h, hs) = elim (Bool-cases (other_patchset id p)) [
  | inl other ↦ rw other (elim (split_at_id id p.id hi ps hs) [
    | inl same ↦ inl (ap (λ l. p ∷ l) same)
    | inr (before, q, after, is, without) ↦
        inr (p ∷ before, q, after, ap (λ l. p ∷ l) is, ap (λ l. p ∷ l) without)
  ])
  | inr this ↦ rw this (inr ([], p, ps, refl, kept_below id p.id hi ps hs (ground arith)))
]

module _ (db db' : Db) (patches : db'.patches ≡ db.patches) (before after : List Patchset)
    (p : Patchset) (had : db.patchsets ≡ before ++ p ∷ after)
    (has : db'.patchsets ≡ before ++ after) where
  abbrev own : ℕ → Patchset → Bool
  own k q = q.patch_request_id == k

  with_row :
      (k : ℕ)
      → where_rows (own k) db.patchsets
        ≡ where_rows (own k) before
          ++ (if own k p then p ∷ where_rows (own k) after else where_rows (own k) after)
  with_row k = ap (where_rows (own k)) had ∙ where_rows-append (own k) before (p ∷ after)

  without_row :
      (k : ℕ)
      → where_rows (own k) db'.patchsets ≡ where_rows (own k) before ++ where_rows (own k) after
  without_row k = ap (where_rows (own k)) has ∙ where_rows-append (own k) before after

  texts_of-same : texts_of db' ≡ texts_of db
  texts_of-same = λ i q.
      map (λ (r : Patch). r.content)
        (sort_by (λ (r : Patch). r.created_at)
          (sort_by (λ (r : Patch). r.id)
            (where_rows (λ (r : Patch). r.patchset_id == q.id) (patches i))))

  others : (k : ℕ) → (k == p.patch_request_id) ≡ false → histories db' k ≡ histories db k
  others k other =
      let own_not : own k p ≡ false = ground arith in
      let same = without_row k ∙ sym (rw own_not at (with_row k)) in
      λ i. map (texts_of-same i) (sort_by (λ (q : Patchset). q.created_at) (same i))

  loses : Loses (histories db) (histories db')
  loses =
      let k = p.patch_request_id in
      let mine : own k p ≡ true = ground arith in
      let (b, a, with_it, without) =
        sort_by-Without (λ (q : Patchset). q.created_at) p (where_rows (own k) before)
          (where_rows (own k) after) in
      let had_row = rw mine at (with_row k) in
      record {
        request = k;
        before = map (texts_of db) b;
        texts = texts_of db p;
        after = map (texts_of db) a;
        had =
            ap (λ ps. map (texts_of db) (sort_by (λ (q : Patchset). q.created_at) ps)) had_row
            ∙ ap (map (texts_of db)) with_it
            ∙ map-append (texts_of db) b (p ∷ a);
        has =
            ap (λ ps. map (texts_of db') (sort_by (λ (q : Patchset). q.created_at) ps))
              (without_row k)
            ∙ (λ i. map (texts_of-same i) (without i))
            ∙ map-append (texts_of db) b a;
        others = others;
      }

pub Removes-Loses :
    (patchset : ℕ) (db db' : Db)
    → IsValid db
    → Removes patchset db db'
    → (histories db' ≡ histories db) ⊎ Loses (histories db) (histories db')
Removes-Loses patchset db db' v gone =
    elim (split_at_id patchset 0 db.last_patchset db.patchsets v.patchsets) [
      | inl same ↦ inl (
          histories-Keeps db db'
            (record { patches = gone.patches; patchsets = gone.patchsets ∙ same }))
      | inr (before, p, after, is, without) ↦
          inr (loses db db' gone.patches before after p is (gone.patchsets ∙ without))
    ]
