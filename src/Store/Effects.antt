-- ===== src/Store/Effects.antt =====
-- What a statement did, when it succeeded.
use patchbin.Base.{
  ℕ, suc, Str, true, false, map, any_row, where_rows, Result, ok, err, Result-cases, Error, ◌≡◌,
  ◌⊎◌, inl, inr, Bool-cases, sym, ap, ◌∙◌, arith,
}
use patchbin.Store.{PatchText, EventLog, Db, Statement, Driver}
use patchbin.Store.Statements.{
  add_user, add_request, add_patchset, add_patch, add_event, set_name, set_activity,
  remove_patchset, user_row, request_row, patchset_row, patch_row, event_row, push_user,
  push_request, push_patchset, push_patch, push_event, rename, touch, other_patchset, cascade,
  same_user, same_target, has_request, has_patchset, transaction,
}

module _ (drv : Driver) (db : Db) where
  pub add_user-ok :
      (pubkey : Str) (id : ℕ) (db' : Db)
      → add_user drv pubkey db ≡ ok (id, db')
      → (any_row (same_user pubkey) db.users ≡ false)
        × (id ≡ suc db.last_user)
        × (db' ≡ push_user (user_row drv pubkey db) db)
  unfolding add_user
  add_user-ok pubkey id db' h = ground arith

  pub add_request-ok :
      (user_id : ℕ) (repo slug name text : Str) (now id : ℕ) (db' : Db)
      → add_request drv user_id repo slug name text now db ≡ ok (id, db')
      → (any_row (same_target repo slug) db.requests ≡ false)
        × (id ≡ suc db.last_request)
        × (db' ≡ push_request (request_row drv user_id repo slug name text now db) db)
  unfolding add_request
  add_request-ok user_id repo slug name text now id db' h = ground arith

  pub add_patchset-ok :
      (user_id request_id id : ℕ) (db' : Db)
      → add_patchset drv user_id request_id db ≡ ok (id, db')
      → (id ≡ suc db.last_patchset)
        × (db' ≡ push_patchset (patchset_row drv user_id request_id db) db)
  unfolding add_patchset
  add_patchset-ok user_id request_id id db' h = ground arith

  pub add_patch-ok :
      (user_id patchset_id : ℕ) (content : PatchText) (id : ℕ) (db' : Db)
      → add_patch drv user_id patchset_id content db ≡ ok (id, db')
      → (id ≡ suc db.last_patch)
        × (db' ≡ push_patch (patch_row drv user_id patchset_id content db) db)
  unfolding add_patch
  add_patch-ok user_id patchset_id content id db' h = ground arith

  pub add_event-ok :
      (e : EventLog) (db' : Db)
      → add_event drv e db ≡ ok db'
      → db' ≡ push_event (event_row drv e db) db
  unfolding add_event
  add_event-ok e db' h = ground arith

  -- Where foreign keys are enforced, an event needs a row for each of its three ids.
  pub add_event-references :
      (e : EventLog) (db' : Db)
      → drv.foreign_keys ≡ true
      → add_event drv e db ≡ ok db'
      → (has_request e.patch_request_id.int64 db ≡ true)
        × (has_patchset e.patchset_id.int64 db ≡ true)
  unfolding add_event
  add_event-references e db' fk h = ground arith

  pub set_name-ok :
      (id : ℕ) (name : Str) (db' : Db)
      → set_name drv id name db ≡ ok db'
      → db' ≡ record db { requests = map (rename id name) db.requests }
  unfolding set_name
  set_name-ok id name db' h = ground arith

  pub set_activity-ok :
      (id now : ℕ) (db' : Db)
      → set_activity drv id now db ≡ ok db'
      → db' ≡ record db { requests = map (touch id now) db.requests }
  unfolding set_activity
  set_activity-ok id now db' h = ground arith

  pub remove_patchset-ok :
      (id : ℕ) (db' : Db)
      → remove_patchset drv id db ≡ ok db'
      → db' ≡ record (cascade drv id db) {
        patchsets = where_rows (other_patchset id) (cascade drv id db).patchsets;
      }
  unfolding remove_patchset
  remove_patchset-ok id db' h = ground arith

-- A transaction ends in one of two ways: an error, with the database as it was, or the success of
-- its body, with the body's database.
pub transaction-outcomes {ℓ} :
    {A : Type ℓ} (drv : Driver) (body : Db → Result (A × Db)) (db : Db)
    → ((e : Error) × (transaction drv body db ≡ (err e, db)))
      ⊎ ((a : A) × (db' : Db) × (body db ≡ ok (a, db')) × (transaction drv body db ≡ (ok a, db')))
unfolding transaction
transaction-outcomes drv body db = elim (Bool-cases (drv.fails Statement.begin db)) [
  | inl no_begin ↦ inl (Error.io_error, rw no_begin)
  | inr begun ↦ elim (Result-cases (body db)) [
    | inl (e, failed) ↦ inl (e, rw (begun, failed))
    | inr ((a, db'), done) ↦ elim (Bool-cases (drv.fails Statement.commit db')) [
      | inl no_commit ↦ inl (Error.io_error, rw (begun, done, no_commit))
      | inr committed ↦ inr (a, db', done, rw (begun, done, committed))
    ]
  ]
]

-- What holds of the database as it was and of every one that the body leaves holds after the transaction.
pub transaction-rule {ℓ κ} :
    {A : Type ℓ} (drv : Driver) (body : Db → Result (A × Db)) (P : Db → Type κ) (db : Db)
    → P db
    → ((a : A) (db' : Db) → body db ≡ ok (a, db') → P db')
    → P (transaction drv body db).1
transaction-rule drv body P db v keep = elim (transaction-outcomes drv body db) [
  | inl (e, failed) ↦ rw failed v
  | inr (a, db', done, ended) ↦ rw ended (keep a db' done)
]

ok-ne-err {ℓ} :
    {A : Type ℓ} {a : A} {e : Error} {d d' : Db} → ¬ (◌≡◌ {A = Result A × Db} (ok a, d) (err e, d'))
ok-ne-err {A} h = absurd (cc (ap (λ (p : Result A × Db). p.0) h))

settle-injective {ℓ} :
    {A : Type ℓ} {a a' : A} {d d' : Db}
    → ◌≡◌ {A = Result A × Db} (ok a, d) (ok a', d')
    → ◌≡◌ {A = Result (A × Db)} (ok (a, d)) (ok (a', d'))
settle-injective {A} h =
    ap (λ (p : Result A × Db). elim p.0 [ ok x ↦ ok (x, p.1) | err e ↦ err e ]) h

pub transaction-ok {ℓ} :
    {A : Type ℓ} (drv : Driver) (body : Db → Result (A × Db)) (db : Db) (a : A) (db' : Db)
    → transaction drv body db ≡ (ok a, db')
    → body db ≡ ok (a, db')
transaction-ok drv body db a db' h = elim (transaction-outcomes drv body db) [
  | inl (e, failed) ↦ absurd (ok-ne-err (sym h ∙ failed))
  | inr (a', d, done, ended) ↦ done ∙ settle-injective (sym ended ∙ h)
]
