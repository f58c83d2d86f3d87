-- ===== src/Pr/Appended.antt =====
-- What `SubmitPatchset` writes, when it succeeds.
use patchbin.Base.{
  ℕ, suc, List, [], ◌∷◌, length, ◌==◌, ok, Error, fail_if, >>=-eq-ok, ◌≡◌, sym, ap, ◌∙◌, arith,
}
use mathlib.Core.Path.{subst₂}
use patchbin.Store.{PatchText, Patch, EventKind, Db, Driver}
use patchbin.Store.Statements.{patchset_row, push_patchset, push_event, add_patchset}
use patchbin.Store.Effects.{add_patchset-ok, add_event-ok}
use patchbin.Store.Valid.{IsValid}
use patchbin.Pr.Submit.{collect_patches, patchset_body, log_if_any, new_event, valid_id, no_data}
use patchbin.Pr.Stored.{Holds, more_patches, logged, collect_patches-ok}

-- The database with a new patchset that holds the rows.
abbrev pub filled : Driver → ℕ → ℕ → List Patch → ℕ → Db → Db
filled drv user_id request_id rows n db =
    more_patches rows n (push_patchset (patchset_row drv user_id request_id db) db)

-- The event is logged only if a patch was stored.
abbrev pub appended : Driver → ℕ → ℕ → List Patch → List PatchText → Db → Db
appended drv user_id request_id rows [] db = filled drv user_id request_id rows 0 db
appended drv user_id request_id rows (c ∷ cs) db =
    let db1 = filled drv user_id request_id rows (suc (length cs)) db in
    push_event
      (logged drv user_id request_id (suc db.last_patchset) EventKind.pr_patchset_added db1) db1

logged_or_not :
    (drv : Driver) (user_id request_id p : ℕ) (db db2 db3 : Db) (rows : List Patch)
    (cs : List PatchText) (fin : List ℕ)
    → length fin ≡ length cs
    → log_if_any drv fin
        (new_event user_id (valid_id request_id) (valid_id p) EventKind.pr_patchset_added no_data)
        db2
      ≡ ok db3
    → db2 ≡ filled drv user_id request_id rows (length cs) db
    → p ≡ suc db.last_patchset
    → db3 ≡ appended drv user_id request_id rows cs db
logged_or_not drv user_id request_id p db db2 db3 rows [] [] n h e q = ground arith
logged_or_not drv user_id request_id p db db2 db3 rows [] (x ∷ fin) n h e q = absurd (omega arith)
logged_or_not drv user_id request_id p db db2 db3 rows (c ∷ cs) [] n h e q = absurd (omega arith)
logged_or_not drv user_id request_id p db db2 db3 rows (c ∷ cs) (x ∷ fin) n h e q =
    add_event-ok drv db2 _ db3 h ∙ (λ i.
      push_event (logged drv user_id request_id (q i) EventKind.pr_patchset_added (e i)) (e i))

pub patchset_body-ok :
    (drv : Driver) (cs : List PatchText) (request_id user_id : ℕ) (db : Db) (ids : List ℕ)
    (db' : Db)
    → IsValid db
    → patchset_body drv (ok cs) request_id user_id db ≡ ok (ids, db')
    → (rows : List Patch) × Holds drv user_id (suc db.last_patchset) db.last_patch cs rows
      × (length ids ≡ length cs)
      × (db' ≡ appended drv user_id request_id rows cs db)
unfolding patchset_body
patchset_body-ok drv cs request_id user_id db ids db' v h =
    let ((p, db1), first, rest) = >>=-eq-ok (add_patchset drv user_id request_id db) _ h in
    let (p_is, e) = add_patchset-ok drv db user_id request_id p db1 first in
    let (_, _, rest1) = >>=-eq-ok (fail_if (p == 0) Error.not_created) _ rest in
    let ((fin, db2), second, rest2) =
      >>=-eq-ok (collect_patches drv db user_id p cs [] db1) _ rest1 in
    let (rows, e1, held, count) =
      collect_patches-ok drv db user_id p cs [] db1 fin db2 v.opened (omega arith) second in
    let event =
      new_event user_id (valid_id request_id) (valid_id p) EventKind.pr_patchset_added no_data in
    let (db3, third, last) = >>=-eq-ok (log_if_any drv fin event db2) _ rest2 in
    let fin_is : fin ≡ ids = ground (arith, last) in
    let db_is : db' ≡ db3 = ground (arith, last) in
    let e2 : db2 ≡ filled drv user_id request_id rows (length cs) db =
      e1 ∙ ap (more_patches rows (length cs)) e in
    (
      rows,
      subst₂ (λ k n. Holds drv user_id k n cs rows) p_is (ap (λ (d : Db). d.last_patch) e) held,
      ap length (sym fin_is) ∙ (omega (arith, count)),
      db_is
          ∙ logged_or_not drv user_id request_id p db db2 db3 rows cs fin (omega (arith, count))
              third e2 p_is,
    )
