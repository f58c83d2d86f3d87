-- ===== src/Pr/Submit.antt =====
-- `SubmitPatchRequest`, `SubmitIssue` and `SubmitPatchset` of pr.go. The parser of patchsets is the
-- argument `patches`, its result on the text that was sent.
use patchbin.Base.{
  ℕ, Str, Bool, true, false, ◌&&◌, List, [], ◌∷◌, ◌++◌, ◌==◌, str_eq, any_row, if◌then◌else◌,
  Result, ok, err, Error, fail_if, ◌>>=◌, ◌>>◌,
}
use patchbin.Store.{
  PatchRequest, PatchText, Patch, NullInt64, EventKind, EventData, EventLog, Db, Statement, Driver,
}
use patchbin.Store.Statements.{
  add_request, add_patchset, add_patch, add_event, set_activity, transaction,
}
use patchbin.Pr.Queries.{get_patch_request_by_id}

abbrev pub no_data : EventData
no_data = record { name = []; comment = [] }

abbrev pub valid_id : ℕ → NullInt64
valid_id id = record { int64 = id; valid = true }

-- A `NullInt64` that the code leaves out.
abbrev pub null_id : NullInt64
null_id = record { int64 = 0; valid = false }

-- The event that the code hands over; `id` and `created_at` are the table's.
abbrev pub new_event : ℕ → NullInt64 → NullInt64 → EventKind → EventData → EventLog
new_event user_id request patchset kind payload = record {
  id = 0;
  user_id = user_id;
  patch_request_id = request;
  patchset_id = patchset;
  event = kind;
  created_at = 0;
  payload = payload;
}

abbrev pub same_content : ℕ → PatchText → Patch → Bool
same_content patchset_id content p =
    p.patchset_id == patchset_id && str_eq p.content_sha content.content_sha

-- `createPatch`. The search for an equal patch goes through `Backend.DB` and not through the
-- transaction, so it sees the committed database; its error is ignored.
unfoldable pub create_patch : Driver → Db → ℕ → ℕ → PatchText → Db → Result (ℕ × Db)
create_patch drv committed user_id patchset_id content db = do
  fail_if
      (if drv.fails Statement.select_patches committed
        then false
        else any_row (same_content patchset_id content) committed.patches)
      Error.patch_exists
  (id, db') ← add_patch drv user_id patchset_id content db
  fail_if (id == 0) Error.not_created
  ok (id, db')

-- The loop of `SubmitPatchRequest`: every error ends it.
unfoldable pub create_patches : Driver → Db → ℕ → ℕ → List PatchText → Db → Result Db
create_patches drv committed user_id patchset_id [] db = ok db
create_patches drv committed user_id patchset_id (c ∷ cs) db = do
  (id, db') ← create_patch drv committed user_id patchset_id c db
  create_patches drv committed user_id patchset_id cs db'

-- `INSERT INTO patch_requests … RETURNING id` and `INSERT INTO patchsets … RETURNING id`
unfoldable pub open_request : Driver → ℕ → Str → Str → Str → Str → Db → Result (ℕ × ℕ × Db)
open_request drv user_id repo slug name text db = do
  (request_id, db1) ←
      add_request drv user_id repo slug name text (drv.now Statement.read_clock db) db
  fail_if (request_id == 0) Error.not_created
  (patchset_id, db2) ← add_patchset drv user_id request_id db1
  fail_if (patchset_id == 0) Error.not_created
  ok (request_id, patchset_id, db2)

unfoldable pub request_body :
    Driver → ℕ → Str → Str → Str → Str → List PatchText → Db → Result (ℕ × Db)
request_body drv user_id repo slug name text patches db = do
  (request_id, patchset_id, db2) ← open_request drv user_id repo slug name text db
  db3 ← create_patches drv db user_id patchset_id patches db2
  db4 ←
      add_event drv
        (new_event user_id (valid_id request_id) (valid_id patchset_id) EventKind.pr_created
          no_data)
        db3
  ok (request_id, db4)

-- The row that is read back after the commit.
abbrev pub read_request : Driver → Result ℕ × Db → Result PatchRequest × Db
read_request drv (err e, db) = (err e, db)
read_request drv (ok id, db) = (get_patch_request_by_id drv id db, db)

-- The name and the text of a patch request are those of its first patch.
unfoldable pub patch_request_body :
    Driver → Result (List PatchText) → ℕ → Str → Str → Db → Result (ℕ × Db)
patch_request_body drv (err e) user_id repo slug db = err e
patch_request_body drv (ok []) user_id repo slug db = err Error.no_patches
patch_request_body drv (ok (c ∷ cs)) user_id repo slug db =
    request_body drv user_id repo slug c.title c.body (c ∷ cs) db

unfoldable pub submit_patch_request :
    Driver → ℕ → Str → Str → Result (List PatchText) → Db → Result PatchRequest × Db
submit_patch_request drv user_id repo slug patches db =
    read_request drv (transaction drv (patch_request_body drv patches user_id repo slug) db)

abbrev pub titled : Driver → Bool → ℕ → Str → Str → Str → Str → Db → Result PatchRequest × Db
titled drv true user_id repo slug title body db = (err Error.empty_title, db)
titled drv false user_id repo slug title body db =
    read_request drv (transaction drv (request_body drv user_id repo slug title body []) db)

unfoldable pub submit_issue : Driver → ℕ → Str → Str → Str → Str → Db → Result PatchRequest × Db
submit_issue drv user_id repo slug title body db =
    titled drv (str_eq title []) user_id repo slug title body db

-- One round of the loop of `SubmitPatchset`: a patch that is there already is passed over.
abbrev pub take_patch : Db → List ℕ → Result (ℕ × Db) → Result (List ℕ × Db)
take_patch db fin (ok (id, db')) = ok (fin ++ id ∷ [], db')
take_patch db fin (err Error.patch_exists) = ok (fin, db)
take_patch db fin (err e) = err e

-- The ids of the patches that were stored.
unfoldable pub collect_patches :
    Driver → Db → ℕ → ℕ → List PatchText → List ℕ → Db → Result (List ℕ × Db)
collect_patches drv committed user_id patchset_id [] fin db = ok (fin, db)
collect_patches drv committed user_id patchset_id (c ∷ cs) fin db = do
  (fin', db') ← take_patch db fin (create_patch drv committed user_id patchset_id c db)
  collect_patches drv committed user_id patchset_id cs fin' db'

abbrev pub log_if_any : Driver → List ℕ → EventLog → Db → Result Db
log_if_any drv [] e db = ok db
log_if_any drv (id ∷ ids) e db = add_event drv e db

unfoldable pub patchset_body : Driver → Result (List PatchText) → ℕ → ℕ → Db → Result (List ℕ × Db)
patchset_body drv (err e) request_id user_id db = err e
patchset_body drv (ok patches) request_id user_id db = do
  (patchset_id, db1) ← add_patchset drv user_id request_id db
  fail_if (patchset_id == 0) Error.not_created
  (fin, db2) ← collect_patches drv db user_id patchset_id patches [] db1
  db3 ←
      log_if_any drv fin
        (new_event user_id (valid_id request_id) (valid_id patchset_id) EventKind.pr_patchset_added
          no_data)
        db2
  ok (fin, db3)

-- The statement that runs on its own after the commit; here its error is only logged.
abbrev pub or_keep : Db → Result Db → Db
or_keep db (ok db') = db'
or_keep db (err e) = db

abbrev pub touch_after : Driver → ℕ → Result (List ℕ) × Db → Result (List ℕ) × Db
touch_after drv request_id (err e, db) = (err e, db)
touch_after drv request_id (ok ids, db) =
    (ok ids, or_keep db (set_activity drv request_id (drv.now Statement.read_clock db) db))

unfoldable pub submit_patchset :
    Driver → ℕ → ℕ → Result (List PatchText) → Db → Result (List ℕ) × Db
submit_patchset drv request_id user_id patches db =
    touch_after drv request_id (transaction drv (patchset_body drv patches request_id user_id) db)
