-- ===== src/Pr/ForeignKeys.antt =====
-- What changes where the driver enforces the foreign keys of the schema, and where it does not.
use patchbin.Base.{
  ℕ, Str, true, false, List, [], ◌∷◌, ◌==◌, any_row, where_rows, Result, ok, err, Error, >>=-eq-ok,
  ◌≡◌, inl, inr, refl, ap, ◌∙◌, arith, Bool-cases,
}
use patchbin.Base.Space.{trim_space}
use patchbin.Store.{Patchset, Db, Driver}
use patchbin.Store.Keys.{any_row-below}
use patchbin.Store.Statements.{
  has_patchset, other_patchset, cascade, add_event, set_name, remove_patchset, transaction,
}
use patchbin.Store.Effects.{
  add_event-references, transaction-outcomes, remove_patchset-ok, set_name-ok,
}
use patchbin.Store.Valid.{IsValid}
use patchbin.Pr.Change.{
  guarded, update_patch_request_name, rename_checks, rename_body, add_comment, comment_checks,
  comment_body, delete_patchset_by_id, delete_body, then_touch,
}
use patchbin.Pr.Changed.{name_event, comment_event, delete_event, delete_body-ok}
use patchbin.Pr.Keeps.{then_touch-Keeps}
use patchbin.Pr.Guards.{comment_checks-ok, rename_checks-ok}

any_row-where_rows :
    (id : ℕ) (ps : List Patchset)
    → any_row (λ (p : Patchset). p.id == id) (where_rows (other_patchset id) ps) ≡ false
any_row-where_rows id [] = refl
any_row-where_rows id (p ∷ ps) = ground (arith, any_row-where_rows id ps)

-- The event of a comment names patchset 0, and there is none.
comment_body-fails :
    (drv : Driver) (id user : ℕ) (comment : Str) (db : Db) (a : Unit {0}) (db' : Db)
    → drv.foreign_keys ≡ true
    → IsValid db
    → comment_body drv id user comment db ≡ ok (a, db')
    → ⊥
unfolding comment_body
comment_body-fails drv id user comment db a db' fk v h =
    let event = comment_event user id comment in
    let (d, added, _) = >>=-eq-ok (add_event drv event db) _ h in
    let (_, there) = add_event-references drv db event d fk added in
    cc (
      there,
      any_row-below (λ (p : Patchset). p.id) 0 db.patchsets db.last_patchset 0 v.patchsets
          (omega arith),
    )

-- A guarded change whose body cannot succeed.
guarded-fails :
    (drv : Driver) (id : ℕ) (checks : Result (Db → Result (Unit {0} × Db))) (db : Db)
    → ((body : Db → Result (Unit {0} × Db))
        → checks ≡ ok body
        → (a : Unit {0}) (db' : Db) → body db ≡ ok (a, db')
        → ⊥)
    → (e : Error) × (guarded drv id checks db ≡ (err e, db))
guarded-fails drv id (err e) db never = (e, refl)
guarded-fails drv id (ok body) db never = elim (transaction-outcomes drv body db) [
  | inl (e, failed) ↦ (e, ap (then_touch drv id) failed)
  | inr (a, db', done, _) ↦ absurd (never body refl a db' done)
]

-- The event of a new title names patchset 0, too.
rename_body-fails :
    (drv : Driver) (id author : ℕ) (name : Str) (db : Db) (a : Unit {0}) (db' : Db)
    → drv.foreign_keys ≡ true
    → IsValid db
    → rename_body drv id author name db ≡ ok (a, db')
    → ⊥
unfolding rename_body
rename_body-fails drv id author name db a db' fk v h =
    let (d, first, rest) = >>=-eq-ok (set_name drv id name db) _ h in
    let (d', added, _) = >>=-eq-ok (add_event drv (name_event author id name) d) _ rest in
    let (_, there) = add_event-references drv d (name_event author id name) d' fk added in
    cc (
      there,
      ap (λ (x : Db). has_patchset 0 x) (set_name-ok drv db id name d first),
      any_row-below (λ (p : Patchset). p.id) 0 db.patchsets db.last_patchset 0 v.patchsets
          (omega arith),
    )

add_comment-fails :
    (drv : Driver) (id user : ℕ) (comment : Str) (db : Db)
    → drv.foreign_keys ≡ true
    → IsValid db
    → (e : Error) × (add_comment drv id user comment db ≡ (err e, db))
unfolding add_comment
add_comment-fails drv id user comment db fk v =
    guarded-fails drv id (comment_checks drv id user (trim_space comment) db) db
      λ body passed a db' done.
        let (_, _, _, is) = comment_checks-ok drv id db body user (trim_space comment) passed in
        comment_body-fails drv id user (trim_space comment) db a db' fk v (rw is at done)

update_patch_request_name-fails :
    (drv : Driver) (id : ℕ) (pubkey name : Str) (db : Db)
    → drv.foreign_keys ≡ true
    → IsValid db
    → (e : Error) × (update_patch_request_name drv id pubkey name db ≡ (err e, db))
unfolding update_patch_request_name
update_patch_request_name-fails drv id pubkey name db fk v =
    guarded-fails drv id (rename_checks drv id pubkey name db) db λ body passed a db' done.
      let (request, _, _, _, _, _, is) = rename_checks-ok drv id db body pubkey name passed in
      rename_body-fails drv id request.user_id name db a db' fk v (rw is at done)

delete_body-fails :
    (drv : Driver) (user id patchset : ℕ) (db : Db) (a : Unit {0}) (db' : Db)
    → drv.foreign_keys ≡ true
    → delete_body drv user id patchset db ≡ ok (a, db')
    → ⊥
unfolding delete_body
delete_body-fails drv user id patchset db a db' fk h =
    let (d, removed, rest) = >>=-eq-ok (remove_patchset drv patchset db) _ h in
    let event = delete_event user id patchset in
    let (d', added, _) = >>=-eq-ok (add_event drv event d) _ rest in
    let (_, there) = add_event-references drv d event d' fk added in
    let gone = any_row-where_rows patchset (cascade drv patchset db).patchsets in
    cc (
      there,
      ap (λ (x : Db). has_patchset patchset x) (remove_patchset-ok drv db patchset d removed),
      gone,
    )

-- Where foreign keys are enforced, no patchset can be removed: the event of the removal names the
-- patchset that is gone.
pub delete_patchset_by_id-fails :
    (drv : Driver) (user id patchset : ℕ) (db : Db)
    → drv.foreign_keys ≡ true
    → (e : Error) × (delete_patchset_by_id drv user id patchset db ≡ (err e, db))
unfolding delete_patchset_by_id
delete_patchset_by_id-fails drv user id patchset db fk =
    elim (transaction-outcomes drv (delete_body drv user id patchset) db) [
      | inl (e, failed) ↦ (e, ap (then_touch drv id) failed)
      | inr (a, db', done, _) ↦ absurd (delete_body-fails drv user id patchset db a db' fk done)
    ]

-- Where foreign keys are enforced, from a valid database no patchset can be removed, no comment added
-- and no title changed: each of these is answered by an error, and the database stays as it was.
pub foreign_keys-refuse :
    (drv : Driver) (user id patchset : ℕ) (comment pubkey name : Str) (db : Db)
    → drv.foreign_keys ≡ true
    → IsValid db
    → ((e : Error) × (delete_patchset_by_id drv user id patchset db ≡ (err e, db)))
      × ((e : Error) × (add_comment drv id user comment db ≡ (err e, db)))
      × ((e : Error) × (update_patch_request_name drv id pubkey name db ≡ (err e, db)))
foreign_keys-refuse drv user id patchset comment pubkey name db fk v = (
  delete_patchset_by_id-fails drv user id patchset db fk,
  add_comment-fails drv id user comment db fk v,
  update_patch_request_name-fails drv id pubkey name db fk v,
)

-- The removal of a patchset never removes a patch, whether the driver enforces foreign keys or not
-- and whether it succeeds or fails.
patches-delete_patchset_by_id :
    (drv : Driver) (user id patchset : ℕ) (db : Db)
    → (delete_patchset_by_id drv user id patchset db).1.patches ≡ db.patches
patches-delete_patchset_by_id drv user id patchset db = elim (Bool-cases drv.foreign_keys) [
  | inl fk ↦
      let (e, failed) = delete_patchset_by_id-fails drv user id patchset db fk in
      ap (λ (p : Result (Unit {0}) × Db). p.1.patches) failed
  | inr off ↦
      unfold delete_patchset_by_id in
      (then_touch-Keeps drv id (transaction drv (delete_body drv user id patchset) db)).patches
      ∙ (elim (transaction-outcomes drv (delete_body drv user id patchset) db) [
        | inl (e, failed) ↦ ap (λ (p : Result (Unit {0}) × Db). p.1.patches) failed
        | inr (a, db', done, ended) ↦
            ap (λ (p : Result (Unit {0}) × Db). p.1.patches) ended
            ∙ ap (λ (d : Db). d.patches) (delete_body-ok drv id db db' a user patchset done)
            ∙ kept_rows drv patchset db off
      ])
]
  where
    kept_rows :
        (drv : Driver) (patchset : ℕ) (db : Db)
        → drv.foreign_keys ≡ false
        → (cascade drv patchset db).patches ≡ db.patches
    kept_rows drv patchset db off = ground arith
