-- ===== src/Store/Statements.antt =====
-- The statements that write to the database: what each does to the tables of sqlite.go, with the
-- constraints of the schema. A statement that fails changes nothing.
use patchbin.Base.{
  ℕ, suc, Str, Bool, true, not, ◌&&◌, ◌||◌, [], ◌∷◌, ◌++◌, map, ◌==◌, str_eq, any_row, where_rows,
  if◌then◌else◌, Result, ok, err, Error, fail_if, ◌>>=◌, ◌>>◌,
}
use patchbin.Store.{
  User, PatchRequest, Patchset, PatchText, Patch, EventLog, written, Db, Statement, Driver,
}

abbrev pub has_user : ℕ → Db → Bool
has_user id db = any_row (λ (u : User). u.id == id) db.users

abbrev pub has_request : ℕ → Db → Bool
has_request id db = any_row (λ (r : PatchRequest). r.id == id) db.requests

abbrev pub has_patchset : ℕ → Db → Bool
has_patchset id db = any_row (λ (p : Patchset). p.id == id) db.patchsets

-- The unique index on (repo_name, slug).
abbrev pub same_target : Str → Str → PatchRequest → Bool
same_target repo slug r = str_eq r.repo_name repo && str_eq r.slug slug

-- A new row at the end of its table, with the id that it was given.
abbrev pub push_user : User → Db → Db
push_user u db = record db { users = db.users ++ u ∷ []; last_user = u.id }

abbrev pub push_request : PatchRequest → Db → Db
push_request r db = record db { requests = db.requests ++ r ∷ []; last_request = r.id }

abbrev pub push_patchset : Patchset → Db → Db
push_patchset p db = record db { patchsets = db.patchsets ++ p ∷ []; last_patchset = p.id }

abbrev pub push_patch : Patch → Db → Db
push_patch p db = record db { patches = db.patches ++ p ∷ []; last_patch = p.id }

abbrev pub push_event : EventLog → Db → Db
push_event e db = record db { event_logs = db.event_logs ++ e ∷ []; last_event = e.id }

abbrev pub rename : ℕ → Str → PatchRequest → PatchRequest
rename id name r = if r.id == id then record r { name = name } else r

abbrev pub touch : ℕ → ℕ → PatchRequest → PatchRequest
touch id now r = if r.id == id then record r { last_activity = now } else r

abbrev pub other_patchset : ℕ → Patchset → Bool
other_patchset id p = not (p.id == id)

abbrev pub patch_elsewhere : ℕ → Patch → Bool
patch_elsewhere id p = not (p.patchset_id == id)

abbrev pub event_elsewhere : ℕ → EventLog → Bool
event_elsewhere id e = not (e.patchset_id.int64 == id)

abbrev pub same_user : Str → User → Bool
same_user pubkey u = str_eq u.pubkey pubkey || str_eq u.name pubkey

module _ (drv : Driver) where
  -- A failing statement, and a foreign key that must be there.
  abbrev pub run : Statement → Db → Result (Unit {0})
  run s db = fail_if (drv.fails s db) Error.io_error

  abbrev pub references : Bool → Result (Unit {0})
  references found = fail_if (drv.foreign_keys && not found) Error.fk_violation

  abbrev pub user_row : Str → Db → User
  user_row pubkey db =
      let now = drv.now Statement.insert_user db in
      record {
        id = suc db.last_user;
        pubkey = pubkey;
        name = pubkey;
        created_at = now;
        updated_at = now;
      }

  unfoldable pub add_user : Str → Db → Result (ℕ × Db)
  add_user pubkey db = do
    run Statement.insert_user db
    fail_if (any_row (same_user pubkey) db.users) Error.unique_violation
    let row = user_row pubkey db
    ok (row.id, push_user row db)

  abbrev pub request_row : ℕ → Str → Str → Str → Str → ℕ → Db → PatchRequest
  request_row user_id repo slug name text now db = record {
    id = suc db.last_request;
    user_id = user_id;
    repo_name = repo;
    slug = slug;
    name = name;
    text = text;
    created_at = drv.now Statement.insert_request db;
    updated_at = now;
    last_activity = now;
  }

  unfoldable pub add_request : ℕ → Str → Str → Str → Str → ℕ → Db → Result (ℕ × Db)
  add_request user_id repo slug name text now db = do
    run Statement.insert_request db
    fail_if (any_row (same_target repo slug) db.requests) Error.unique_violation
    references (has_user user_id db)
    let row = request_row user_id repo slug name text now db
    ok (row.id, push_request row db)

  abbrev pub patchset_row : ℕ → ℕ → Db → Patchset
  patchset_row user_id request_id db = record {
    id = suc db.last_patchset;
    user_id = user_id;
    patch_request_id = request_id;
    created_at = drv.now Statement.insert_patchset db;
  }

  unfoldable pub add_patchset : ℕ → ℕ → Db → Result (ℕ × Db)
  add_patchset user_id request_id db = do
    run Statement.insert_patchset db
    references (has_user user_id db && has_request request_id db)
    let row = patchset_row user_id request_id db
    ok (row.id, push_patchset row db)

  abbrev pub patch_row : ℕ → ℕ → PatchText → Db → Patch
  patch_row user_id patchset_id content db = record {
    id = suc db.last_patch;
    user_id = user_id;
    patchset_id = patchset_id;
    content = written content;
    created_at = drv.now Statement.insert_patch db;
  }

  unfoldable pub add_patch : ℕ → ℕ → PatchText → Db → Result (ℕ × Db)
  add_patch user_id patchset_id content db = do
    run Statement.insert_patch db
    references (has_user user_id db && has_patchset patchset_id db)
    let row = patch_row user_id patchset_id content db
    ok (row.id, push_patch row db)

  -- The columns are written from `.Int64`, so an id that is not valid is stored as 0 and not as NULL,
  -- and is read back as valid.
  abbrev pub event_row : EventLog → Db → EventLog
  event_row e db = record {
    id = suc db.last_event;
    user_id = e.user_id;
    patch_request_id = record { int64 = e.patch_request_id.int64; valid = true };
    patchset_id = record { int64 = e.patchset_id.int64; valid = true };
    event = e.event;
    created_at = drv.now Statement.insert_event db;
    payload = e.payload;
  }

  unfoldable pub add_event : EventLog → Db → Result Db
  add_event e db = do
    run Statement.insert_event db
    references (
        has_user e.user_id db
        && has_request e.patch_request_id.int64 db
        && has_patchset e.patchset_id.int64 db)
    ok (push_event (event_row e db) db)

  unfoldable pub set_name : ℕ → Str → Db → Result Db
  set_name id name db = do
    run Statement.update_name db
    ok (record db { requests = map (rename id name) db.requests })

  unfoldable pub set_activity : ℕ → ℕ → Db → Result Db
  set_activity id now db = do
    run Statement.update_activity db
    ok (record db { requests = map (touch id now) db.requests })

  -- `ON DELETE CASCADE` works only where foreign keys are enforced.
  abbrev pub cascade : ℕ → Db → Db
  cascade id db =
      if drv.foreign_keys
      then record db {
        patches = where_rows (patch_elsewhere id) db.patches;
        event_logs = where_rows (event_elsewhere id) db.event_logs;
      }
      else db

  unfoldable pub remove_patchset : ℕ → Db → Result Db
  remove_patchset id db = do
    run Statement.delete_patchset db
    let db' = cascade id db
    ok (record db' { patchsets = where_rows (other_patchset id) db'.patchsets })

-- What the caller sees of a transaction: `Rollback` on the way out of any error.
abbrev pub settle {ℓ} : {A : Type ℓ} → Db → Result (A × Db) → Result A × Db
settle db (ok (a, db')) = (ok a, db')
settle db (err e) = (err e, db)

-- `Beginx`, the statements of the body, and `Commit`.
unfoldable pub transaction {ℓ} : {A : Type ℓ} → Driver → (Db → Result (A × Db)) → Db → Result A × Db
transaction drv body db =
    settle db
      (do run drv Statement.begin db; (a, db') ← body db; run drv Statement.commit db'; ok (a, db'))
