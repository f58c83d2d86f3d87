-- ===== src/Pr/Change.antt =====
-- `UpdatePatchRequestName`, `AddComment` and `DeletePatchsetByID` of pr.go.
use patchbin.Base.{ℕ, Str, not, [], str_eq, Result, ok, err, Error, fail_if, ◌>>=◌, ◌>>◌}
use patchbin.Base.Space.{trim_space}
use patchbin.Store.{EventKind, Db, Statement, Driver}
use patchbin.Store.Statements.{add_event, set_name, set_activity, remove_patchset, transaction}
use patchbin.Pr.Queries.{get_patch_request_by_id, get_user_by_id}
use patchbin.Pr.Submit.{no_data, valid_id, null_id, new_event}

abbrev pub settle_activity : Db → Result Db → Result (Unit {0}) × Db
settle_activity db (ok db') = (ok tt, db')
settle_activity db (err e) = (err e, db)

-- `updateLastActivity`, a statement on its own.
unfoldable pub update_last_activity : Driver → ℕ → Db → Result (Unit {0}) × Db
update_last_activity drv id db =
    settle_activity db (set_activity drv id (drv.now Statement.read_clock db) db)

-- `return cmd.updateLastActivity(prID)` behind a committed transaction.
abbrev pub then_touch : Driver → ℕ → Result (Unit {0}) × Db → Result (Unit {0}) × Db
then_touch drv id (err e, db) = (err e, db)
then_touch drv id (ok _, db) = update_last_activity drv id db

-- A transaction whose body runs only if the checks in front of it pass.
abbrev pub guarded : Driver → ℕ → Result (Db → Result (Unit {0} × Db)) → Db → Result (Unit {0}) × Db
guarded drv id (err e) db = (err e, db)
guarded drv id (ok body) db = then_touch drv id (transaction drv body db)

unfoldable pub rename_body : Driver → ℕ → ℕ → Str → Db → Result (Unit {0} × Db)
rename_body drv id author name db = do
  db1 ← set_name drv id name db
  db2 ←
      add_event drv
        (new_event author (valid_id id) null_id EventKind.pr_name_changed
          (record { name = name; comment = [] }))
        db1
  ok (tt, db2)

-- The title must not be empty, and the author's key must be the one of the session.
unfoldable pub rename_checks : Driver → ℕ → Str → Str → Db → Result (Db → Result (Unit {0} × Db))
rename_checks drv id pubkey name db = do
  fail_if (str_eq name []) Error.empty_name
  request ← get_patch_request_by_id drv id db
  owner ← get_user_by_id drv request.user_id db
  fail_if (not (str_eq owner.pubkey pubkey)) Error.not_pr_owner
  ok (rename_body drv id request.user_id name)

unfoldable pub update_patch_request_name : Driver → ℕ → Str → Str → Db → Result (Unit {0}) × Db
update_patch_request_name drv id pubkey name db =
    guarded drv id (rename_checks drv id pubkey name db) db

unfoldable pub comment_body : Driver → ℕ → ℕ → Str → Db → Result (Unit {0} × Db)
comment_body drv id user_id comment db = do
  db1 ←
      add_event drv
        (new_event user_id (valid_id id) null_id EventKind.pr_commented
          (record { name = []; comment = comment }))
        db
  ok (tt, db1)

unfoldable pub comment_checks : Driver → ℕ → ℕ → Str → Db → Result (Db → Result (Unit {0} × Db))
comment_checks drv id user_id comment db = do
  fail_if (str_eq comment []) Error.empty_comment
  _ ← get_patch_request_by_id drv id db
  ok (comment_body drv id user_id comment)

unfoldable pub add_comment : Driver → ℕ → ℕ → Str → Db → Result (Unit {0}) × Db
add_comment drv id user_id comment db =
    guarded drv id (comment_checks drv id user_id (trim_space comment) db) db

unfoldable pub delete_body : Driver → ℕ → ℕ → ℕ → Db → Result (Unit {0} × Db)
delete_body drv user_id id patchset_id db = do
  db1 ← remove_patchset drv patchset_id db
  db2 ←
      add_event drv
        (new_event user_id (valid_id id) (valid_id patchset_id) EventKind.pr_patchset_deleted
          no_data)
        db1
  ok (tt, db2)

unfoldable pub delete_patchset_by_id : Driver → ℕ → ℕ → ℕ → Db → Result (Unit {0}) × Db
delete_patchset_by_id drv user_id id patchset_id db =
    then_touch drv id (transaction drv (delete_body drv user_id id patchset_id) db)
