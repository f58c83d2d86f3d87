-- ===== src/Pr/Operation.antt =====
-- The operations that write, as one type, and the databases that they can reach.
use patchbin.Base.{
  ℕ, Str, List, [], ◌∷◌, str_eq, Result, ok, err, Error, fail_if, ◌>>◌, Result-cases, >>=-eq-ok,
  ◌≡◌, inl, inr, arith, Bool-cases,
}
use patchbin.Base.Space.{trim_space}
use patchbin.Store.{PatchText, Db, empty_db, Driver}
use patchbin.Store.Statements.{
  add_user, user_row, cascade, other_patchset, patch_elsewhere, event_elsewhere,
}
use patchbin.Store.Effects.{add_user-ok, transaction-rule}
use patchbin.Store.Valid.{
  IsValid, push_user-IsValid, push_event-IsValid, keep_patchsets-IsValid, keep_rows-IsValid,
}
use patchbin.Pr.Queries.{get_user_by_pubkey}
use patchbin.Pr.Users.{upsert_user_by_pubkey, create_user}
use patchbin.Pr.Submit.{
  submit_patch_request, submit_issue, submit_patchset, patch_request_body, request_body,
  patchset_body,
}
use patchbin.Pr.Change.{
  update_patch_request_name, add_comment, delete_patchset_by_id, rename_checks, rename_body,
  comment_checks, comment_body, delete_body,
}
use patchbin.Pr.Stored.{request_body-ok}
use patchbin.Pr.Appended.{patchset_body-ok}
use patchbin.Pr.Changed.{rename_body-ok, comment_body-ok, delete_body-ok}
use patchbin.Pr.Guards.{rename_checks-ok, comment_checks-ok}
use patchbin.Pr.Valid.{
  renamed-IsValid, touch_after-IsValid, then_touch-IsValid, guarded-IsValid, read_request-1,
  submitted-IsValid, appended-IsValid,
}

pub data Operation : Type 0 where
  upsert : Str → Operation
  new_request : ℕ → Str → Str → Result (List PatchText) → Operation
  new_issue : ℕ → Str → Str → Str → Str → Operation
  new_patchset : ℕ → ℕ → Result (List PatchText) → Operation
  set_title : ℕ → Str → Str → Operation
  comment : ℕ → ℕ → Str → Operation
  delete : ℕ → ℕ → ℕ → Operation

-- The database that an operation leaves, whether it succeeds or fails.
unfoldable pub perform : Driver → Operation → Db → Db
perform drv (upsert pubkey) db = (upsert_user_by_pubkey drv pubkey db).1
perform drv (new_request user repo slug patches) db =
    (submit_patch_request drv user repo slug patches db).1
perform drv (new_issue user repo slug title body) db =
    (submit_issue drv user repo slug title body db).1
perform drv (new_patchset request user patches) db = (submit_patchset drv request user patches db).1
perform drv (set_title request pubkey name) db =
    (update_patch_request_name drv request pubkey name db).1
perform drv (comment request user text) db = (add_comment drv request user text db).1
perform drv (delete user request patchset) db =
    (delete_patchset_by_id drv user request patchset db).1

-- The databases that operations can reach from the empty one.
pub data Reached (drv : Driver) : Db → Type 0 where
  start : (db : Db) → db ≡ empty_db → Reached drv db
  next : {db : Db} (op : Operation) → Reached drv db → Reached drv (perform drv op db)

module _ (drv : Driver) (db : Db) (v : IsValid db) where
  create_user-IsValid : (pubkey : Str) → IsValid (create_user drv pubkey db).1
  unfolding create_user
  create_user-IsValid pubkey =
      let steps = (do fail_if (str_eq pubkey []) Error.empty_pubkey; add_user drv pubkey db) in
      elim (Result-cases steps) [
        | inl (e, h) ↦ rw h v
        | inr ((id, db'), h) ↦ rw h (
            let (_, _, added) = >>=-eq-ok (fail_if (str_eq pubkey []) Error.empty_pubkey) _ h in
            let (_, _, e) = add_user-ok drv db pubkey id db' added in
            rw e (push_user-IsValid v (user_row drv pubkey db) (omega arith)))
      ]

  upsert-IsValid : (pubkey : Str) → IsValid (upsert_user_by_pubkey drv pubkey db).1
  unfolding upsert_user_by_pubkey
  upsert-IsValid pubkey = elim (Result-cases (get_user_by_pubkey drv pubkey db)) [
    | inl (e, h) ↦ rw h (create_user-IsValid pubkey)
    | inr (u, h) ↦ rw h v
  ]

  request_body-IsValid :
      (user : ℕ) (repo slug name text : Str) (cs : List PatchText) (id : ℕ) (db' : Db)
      → request_body drv user repo slug name text cs db ≡ ok (id, db')
      → IsValid db'
  request_body-IsValid user repo slug name text cs id db' h =
      let (rows, held, fresh, _, e) = request_body-ok drv user repo slug name text cs db id db' h in
      rw e (submitted-IsValid drv user repo slug name text cs rows db v fresh held)

  patch_request_body-IsValid :
      (patches : Result (List PatchText)) (user : ℕ) (repo slug : Str) (id : ℕ) (db' : Db)
      → patch_request_body drv patches user repo slug db ≡ ok (id, db')
      → IsValid db'
  unfolding patch_request_body
  patch_request_body-IsValid (err e) user repo slug id db' h = absurd (cc)
  patch_request_body-IsValid (ok []) user repo slug id db' h = absurd (cc)
  patch_request_body-IsValid (ok (c ∷ cs)) user repo slug id db' h =
      request_body-IsValid user repo slug c.title c.body (c ∷ cs) id db' h

  patchset_body-IsValid :
      (patches : Result (List PatchText)) (request user : ℕ) (ids : List ℕ) (db' : Db)
      → patchset_body drv patches request user db ≡ ok (ids, db')
      → IsValid db'
  patchset_body-IsValid (err e) request user ids db' h = absurd (unfold patchset_body in cc)
  patchset_body-IsValid (ok cs) request user ids db' h =
      let (rows, held, _, e) = patchset_body-ok drv cs request user db ids db' v h in
      rw e (appended-IsValid drv user request cs rows db v held)

  rename_body-IsValid :
      (id author : ℕ) (name : Str) (a : Unit {0}) (db' : Db)
      → rename_body drv id author name db ≡ ok (a, db')
      → IsValid db'
  rename_body-IsValid id author name a db' h =
      rw (rename_body-ok drv id db db' a author name h)
        (push_event-IsValid (renamed-IsValid id name db v) _ (omega arith))

  comment_body-IsValid :
      (id user : ℕ) (text : Str) (a : Unit {0}) (db' : Db)
      → comment_body drv id user text db ≡ ok (a, db')
      → IsValid db'
  comment_body-IsValid id user text a db' h =
      rw (comment_body-ok drv id db db' a user text h) (push_event-IsValid v _ (omega arith))

  cascade-IsValid : (patchset : ℕ) → IsValid (cascade drv patchset db)
  cascade-IsValid patchset = elim (Bool-cases drv.foreign_keys) [
    | inl e ↦ rw e (keep_rows-IsValid v (patch_elsewhere patchset) (event_elsewhere patchset))
    | inr e ↦ rw e v
  ]

  delete_body-IsValid :
      (user id patchset : ℕ) (a : Unit {0}) (db' : Db)
      → delete_body drv user id patchset db ≡ ok (a, db')
      → IsValid db'
  delete_body-IsValid user id patchset a db' h =
      rw (delete_body-ok drv id db db' a user patchset h) (
        push_event-IsValid
          (keep_patchsets-IsValid (cascade-IsValid patchset) (other_patchset patchset)) _
          (omega arith))

  set_title-IsValid :
      (id : ℕ) (pubkey name : Str) → IsValid (update_patch_request_name drv id pubkey name db).1
  unfolding update_patch_request_name
  set_title-IsValid id pubkey name =
      guarded-IsValid drv id (rename_checks drv id pubkey name db) db v λ body h a db' done.
        let (request, _, _, _, _, _, e) = rename_checks-ok drv id db body pubkey name h in
        rename_body-IsValid id request.user_id name a db' (rw e at done)

  comment-IsValid : (id user : ℕ) (text : Str) → IsValid (add_comment drv id user text db).1
  unfolding add_comment
  comment-IsValid id user text =
      guarded-IsValid drv id (comment_checks drv id user (trim_space text) db) db v
        λ body h a db' done.
          let (_, _, _, e) = comment_checks-ok drv id db body user (trim_space text) h in
          comment_body-IsValid id user (trim_space text) a db' (rw e at done)

  delete-IsValid :
      (user id patchset : ℕ) → IsValid (delete_patchset_by_id drv user id patchset db).1
  unfolding delete_patchset_by_id
  delete-IsValid user id patchset = then_touch-IsValid drv id _ (
      transaction-rule drv (delete_body drv user id patchset) IsValid db v
        (delete_body-IsValid user id patchset))

  new_request-IsValid :
      (user : ℕ) (repo slug : Str) (patches : Result (List PatchText))
      → IsValid (submit_patch_request drv user repo slug patches db).1
  unfolding submit_patch_request
  new_request-IsValid user repo slug patches = rw (read_request-1 drv) (
      transaction-rule drv (patch_request_body drv patches user repo slug) IsValid db v
        (patch_request_body-IsValid patches user repo slug))

  new_issue-IsValid :
      (user : ℕ) (repo slug title body : Str)
      → IsValid (submit_issue drv user repo slug title body db).1
  unfolding submit_issue
  new_issue-IsValid user repo slug title body = elim (Bool-cases (str_eq title [])) [
    | inl e ↦ rw e v
    | inr e ↦ rw e (
        rw (read_request-1 drv) (
          transaction-rule drv (request_body drv user repo slug title body []) IsValid db v
            (request_body-IsValid user repo slug title body [])))
  ]

  new_patchset-IsValid :
      (request user : ℕ) (patches : Result (List PatchText))
      → IsValid (submit_patchset drv request user patches db).1
  unfolding submit_patchset
  new_patchset-IsValid request user patches = touch_after-IsValid drv request _ (
      transaction-rule drv (patchset_body drv patches request user) IsValid db v
        (patchset_body-IsValid patches request user))

  -- From a database that satisfies the invariant, every operation that writes leaves one that does,
  -- whatever the driver answers.
  pub perform-IsValid : (op : Operation) → IsValid (perform drv op db)
  unfolding perform
  perform-IsValid (upsert pubkey) = upsert-IsValid pubkey
  perform-IsValid (new_request user repo slug patches) = new_request-IsValid user repo slug patches
  perform-IsValid (new_issue user repo slug title body) =
      new_issue-IsValid user repo slug title body
  perform-IsValid (new_patchset request user patches) = new_patchset-IsValid request user patches
  perform-IsValid (set_title request pubkey name) = set_title-IsValid request pubkey name
  perform-IsValid (comment request user text) = comment-IsValid request user text
  perform-IsValid (delete user request patchset) = delete-IsValid user request patchset

IsValid-empty_db : IsValid empty_db
IsValid-empty_db = omega arith

-- Every database that operations can reach from the empty one satisfies the invariant: the ids of
-- each table ascend up to the last one given, no two patch requests have the same repository and
-- slug, and no patch names a patchset beyond the last one made.
pub Reached-IsValid : {drv : Driver} {db : Db} → Reached drv db → IsValid db
Reached-IsValid (start db e) = rw e IsValid-empty_db
Reached-IsValid {drv} (next {db} op r) = perform-IsValid drv db (Reached-IsValid r) op
