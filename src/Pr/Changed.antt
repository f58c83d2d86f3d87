-- ===== src/Pr/Changed.antt =====
-- What the changes write, when they succeed.
use patchbin.Base.{ℕ, Str, [], map, where_rows, ok, >>=-eq-ok, ◌≡◌, ap, ◌∙◌, arith}
use patchbin.Store.{EventKind, EventLog, Db, Driver}
use patchbin.Store.Statements.{
  add_event, set_name, remove_patchset, event_row, push_event, rename, cascade, other_patchset,
}
use patchbin.Store.Effects.{add_event-ok, set_name-ok, remove_patchset-ok}
use patchbin.Pr.Submit.{new_event, valid_id, null_id, no_data}
use patchbin.Pr.Change.{rename_body, comment_body, delete_body}

abbrev pub with_event : Driver → EventLog → Db → Db
with_event drv e db = push_event (event_row drv e db) db

abbrev pub name_event : ℕ → ℕ → Str → EventLog
name_event author id name =
    new_event author (valid_id id) null_id EventKind.pr_name_changed
      (record { name = name; comment = [] })

abbrev pub comment_event : ℕ → ℕ → Str → EventLog
comment_event user id comment =
    new_event user (valid_id id) null_id EventKind.pr_commented
      (record { name = []; comment = comment })

abbrev pub delete_event : ℕ → ℕ → ℕ → EventLog
delete_event user id patchset =
    new_event user (valid_id id) (valid_id patchset) EventKind.pr_patchset_deleted no_data

abbrev pub without_patchset : Driver → ℕ → Db → Db
without_patchset drv id db = record (cascade drv id db) {
  patchsets = where_rows (other_patchset id) (cascade drv id db).patchsets;
}

module _ (drv : Driver) (id : ℕ) (db db' : Db) (a : Unit {0}) where
  pub rename_body-ok :
      (author : ℕ) (name : Str)
      → rename_body drv id author name db ≡ ok (a, db')
      → db'
        ≡ with_event drv
            (name_event author id name)
            (record db { requests = map (rename id name) db.requests })
  unfolding rename_body
  rename_body-ok author name h =
      let (db1, first, rest) = >>=-eq-ok (set_name drv id name db) _ h in
      let e1 = set_name-ok drv db id name db1 first in
      let event = name_event author id name in
      let (db2, second, last) = >>=-eq-ok (add_event drv event db1) _ rest in
      let same : db' ≡ db2 = ground (arith, last) in
      same ∙ add_event-ok drv db1 event db2 second ∙ ap (with_event drv event) e1

  pub comment_body-ok :
      (user : ℕ) (comment : Str)
      → comment_body drv id user comment db ≡ ok (a, db')
      → db' ≡ with_event drv (comment_event user id comment) db
  unfolding comment_body
  comment_body-ok user comment h =
      let event = comment_event user id comment in
      let (db1, first, last) = >>=-eq-ok (add_event drv event db) _ h in
      let same : db' ≡ db1 = ground (arith, last) in same ∙ add_event-ok drv db event db1 first

  pub delete_body-ok :
      (user patchset : ℕ)
      → delete_body drv user id patchset db ≡ ok (a, db')
      → db' ≡ with_event drv (delete_event user id patchset) (without_patchset drv patchset db)
  unfolding delete_body
  delete_body-ok user patchset h =
      let (db1, first, rest) = >>=-eq-ok (remove_patchset drv patchset db) _ h in
      let e1 = remove_patchset-ok drv db patchset db1 first in
      let event = delete_event user id patchset in
      let (db2, second, last) = >>=-eq-ok (add_event drv event db1) _ rest in
      let same : db' ≡ db2 = ground (arith, last) in
      same ∙ add_event-ok drv db1 event db2 second ∙ ap (with_event drv event) e1
