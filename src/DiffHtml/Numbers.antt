-- ===== src/DiffHtml/Numbers.antt =====
-- The numbers of the lines in a hunk's table.
use patchbin.Base.{ℕ, zero, suc, Option, none, some, List, [], ◌∷◌, ◌⊎◌, inl, inr, ◌≡◌, refl, ap}
use patchbin.Mbox.{LineOp, Line}
use patchbin.DiffHtml.{DiffRow, diff_rows}

abbrev pub count_from : ℕ → ℕ → List ℕ
count_from n zero = []
count_from n (suc k) = n ∷ count_from (suc n) k

abbrev pub or_skip : Option ℕ → List ℕ → List ℕ
or_skip none ns = ns
or_skip (some n) ns = n ∷ ns

unfoldable pub old_numbers : List DiffRow → List ℕ
old_numbers [] = []
old_numbers (r ∷ rs) = or_skip r.old_number (old_numbers rs)

unfoldable pub new_numbers : List DiffRow → List ℕ
new_numbers [] = []
new_numbers (r ∷ rs) = or_skip r.new_number (new_numbers rs)

-- The lines of the old side: those that are not added.
unfoldable pub old_count : List Line → ℕ
old_count [] = 0
old_count (l ∷ ls) = elim l.op [
  | LineOp.op_context ↦ suc (old_count ls)
  | LineOp.op_delete ↦ suc (old_count ls)
  | LineOp.op_add ↦ old_count ls
]

unfoldable pub new_count : List Line → ℕ
new_count [] = 0
new_count (l ∷ ls) = elim l.op [
  | LineOp.op_context ↦ suc (new_count ls)
  | LineOp.op_delete ↦ new_count ls
  | LineOp.op_add ↦ suc (new_count ls)
]

LineOp-cases :
    (op : LineOp) → (op ≡ LineOp.op_context) ⊎ ((op ≡ LineOp.op_delete) ⊎ (op ≡ LineOp.op_add))
LineOp-cases LineOp.op_context = inl refl
LineOp-cases LineOp.op_delete = inr (inl refl)
LineOp-cases LineOp.op_add = inr (inr refl)

-- Whatever the lines of a hunk are: down the table, the old numbers count from the old position on
-- without a gap, one for each line that is not added, and the new numbers from the new position on,
-- one for each line that is not deleted.
pub diff_rows-IsNumbered :
    (old new : ℕ) (ls : List Line)
    → (old_numbers (diff_rows old new ls) ≡ count_from old (old_count ls))
      × (new_numbers (diff_rows old new ls) ≡ count_from new (new_count ls))
unfolding diff_rows old_numbers new_numbers old_count new_count
diff_rows-IsNumbered old new [] = (refl, refl)
diff_rows-IsNumbered old new (l ∷ ls) = elim (LineOp-cases l.op) [
  | inl e ↦
      let (left, right) = diff_rows-IsNumbered (suc old) (suc new) ls in
      rw e (ap (λ ns. old ∷ ns) left, ap (λ ns. new ∷ ns) right)
  | inr (inl e) ↦
      let (left, right) = diff_rows-IsNumbered (suc old) new ls in
      rw e (ap (λ ns. old ∷ ns) left, right)
  | inr (inr e) ↦
      let (left, right) = diff_rows-IsNumbered old (suc new) ls in
      rw e (left, ap (λ ns. new ∷ ns) right)
]
