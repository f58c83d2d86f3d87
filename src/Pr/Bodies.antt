-- ===== src/Pr/Bodies.antt =====
-- What the bodies of the operations of pr.go do to the tables of patchsets and of patches.
use patchbin.Base.{
  ℕ, suc, Str, false, arith, List, [], ◌∷◌, ◌++◌, where_rows, str_eq, Result, ok, err, Error,
  Result-cases, fail_if, ◌>>◌, >>=-eq-ok, ◌≡◌, inl, inr, refl, ap, ◌∙◌,
}
use patchbin.Base.Space.{trim_space}
use patchbin.Store.{PatchText, Patch, Db, Statement, Driver}
use patchbin.Store.Statements.{
  cascade, patchset_row, other_patchset, push_request, request_row, add_user, transaction,
}
use patchbin.Store.Effects.{transaction-rule, add_user-ok}
use patchbin.Store.Valid.{IsValid}
use patchbin.Pr.Queries.{get_user_by_pubkey}
use patchbin.Pr.Users.{upsert_user_by_pubkey, create_user}
use patchbin.Pr.Submit.{request_body, patchset_body}
use patchbin.Pr.Change.{
  update_patch_request_name, add_comment, rename_checks, comment_checks, delete_body, guarded,
}
use patchbin.Pr.Stored.{Holds, request_body-ok}
use patchbin.Pr.Appended.{patchset_body-ok}
use patchbin.Pr.Changed.{rename_body-ok, comment_body-ok, delete_body-ok}
use patchbin.Pr.Guards.{rename_checks-ok, comment_checks-ok}
use patchbin.Pr.Submission.{appended-patches, appended-patchsets}
use patchbin.Pr.Keeps.{Keeps, Keeps-refl, then_touch-Keeps}

-- One patchset and its patches were put at the ends of the tables; `at` is the database at the
-- moment when the patchset was inserted.
pub record Adds (drv : Driver) (request : ℕ) (cs : List PatchText) (db db' : Db) : Type 0 where
  pub user : ℕ
  pub rows : List Patch
  pub at : Db
  pub held : Holds drv user (suc db.last_patchset) db.last_patch cs rows
  pub last : at.last_patchset ≡ db.last_patchset
  pub patches : db'.patches ≡ db.patches ++ rows
  pub patchsets : db'.patchsets ≡ db.patchsets ++ patchset_row drv user request at ∷ []

-- A patchset was taken out, and no patch.
pub record Removes (patchset : ℕ) (db db' : Db) : Type 0 where
  pub patches : db'.patches ≡ db.patches
  pub patchsets : db'.patchsets ≡ where_rows (other_patchset patchset) db.patchsets

module _ (drv : Driver) (db : Db) where
  create_user-Keeps : (pubkey : Str) → Keeps db (create_user drv pubkey db).1
  unfolding create_user
  create_user-Keeps pubkey =
      let steps = (do fail_if (str_eq pubkey []) Error.empty_pubkey; add_user drv pubkey db) in
      elim (Result-cases steps) [
        | inl (e, h) ↦ rw h (Keeps-refl db)
        | inr ((id, db'), h) ↦ rw h (
            let (_, _, added) = >>=-eq-ok (fail_if (str_eq pubkey []) Error.empty_pubkey) _ h in
            let (_, _, e) = add_user-ok drv db pubkey id db' added in
            rw e (record { patches = refl; patchsets = refl }))
      ]

  pub upsert-Keeps : (pubkey : Str) → Keeps db (upsert_user_by_pubkey drv pubkey db).1
  unfolding upsert_user_by_pubkey
  upsert-Keeps pubkey = elim (Result-cases (get_user_by_pubkey drv pubkey db)) [
    | inl (e, h) ↦ rw h (create_user-Keeps pubkey)
    | inr (u, h) ↦ rw h (Keeps-refl db)
  ]

  -- A guarded change whose body leaves the two tables alone.
  guarded-Keeps :
      (id : ℕ) (checks : Result (Db → Result (Unit {0} × Db)))
      → ((body : Db → Result (Unit {0} × Db))
          → checks ≡ ok body
          → (a : Unit {0}) (db' : Db) → body db ≡ ok (a, db')
          → Keeps db db')
      → Keeps db (guarded drv id checks db).1
  guarded-Keeps id (err e) keep = Keeps-refl db
  guarded-Keeps id (ok body) keep =
      let done = transaction-rule drv body (Keeps db) db (Keeps-refl db) (keep body refl) in
      let touched = then_touch-Keeps drv id (transaction drv body db) in
      record {
        patches = touched.patches ∙ done.patches;
        patchsets = touched.patchsets ∙ done.patchsets;
      }

  pub set_title-Keeps :
      (id : ℕ) (pubkey name : Str) → Keeps db (update_patch_request_name drv id pubkey name db).1
  unfolding update_patch_request_name
  set_title-Keeps id pubkey name =
      guarded-Keeps id (rename_checks drv id pubkey name db) λ body h a db' done.
        let (request, _, _, _, _, _, e) = rename_checks-ok drv id db body pubkey name h in
        rw (rename_body-ok drv id db db' a request.user_id name (rw e at done))
          (record { patches = refl; patchsets = refl })

  pub comment-Keeps : (id user : ℕ) (text : Str) → Keeps db (add_comment drv id user text db).1
  unfolding add_comment
  comment-Keeps id user text =
      guarded-Keeps id (comment_checks drv id user (trim_space text) db) λ body h a db' done.
        let (_, _, _, e) = comment_checks-ok drv id db body user (trim_space text) h in
        rw (comment_body-ok drv id db db' a user (trim_space text) (rw e at done))
          (record { patches = refl; patchsets = refl })

  pub request_body-Adds :
      (user : ℕ) (repo slug name text : Str) (cs : List PatchText) (id : ℕ) (db' : Db)
      → request_body drv user repo slug name text cs db ≡ ok (id, db')
      → Adds drv (suc db.last_request) cs db db'
  request_body-Adds user repo slug name text cs id db' h =
      let (rows, held, _, _, e) = request_body-ok drv user repo slug name text cs db id db' h in
      record {
        user = user;
        rows = rows;
        at =
            push_request
              (request_row drv user repo slug name text (drv.now Statement.read_clock db) db) db;
        held = held;
        last = refl;
        patches = ap (λ (d : Db). d.patches) e;
        patchsets = ap (λ (d : Db). d.patchsets) e;
      }

  pub patchset_body-Adds :
      (cs : List PatchText) (request user : ℕ) (ids : List ℕ) (db' : Db)
      → IsValid db
      → patchset_body drv (ok cs) request user db ≡ ok (ids, db')
      → Adds drv request cs db db'
  patchset_body-Adds cs request user ids db' v h =
      let (rows, held, _, e) = patchset_body-ok drv cs request user db ids db' v h in
      record {
        user = user;
        rows = rows;
        at = db;
        held = held;
        last = refl;
        patches = ap (λ (d : Db). d.patches) e ∙ appended-patches drv user request rows cs db;
        patchsets = ap (λ (d : Db). d.patchsets) e ∙ appended-patchsets drv user request rows cs db;
      }

  pub delete_body-Removes :
      (user id patchset : ℕ) (a : Unit {0}) (db' : Db)
      → drv.foreign_keys ≡ false
      → delete_body drv user id patchset db ≡ ok (a, db')
      → Removes patchset db db'
  delete_body-Removes user id patchset a db' off h =
      let e = delete_body-ok drv id db db' a user patchset h in
      let same : cascade drv patchset db ≡ db = ground arith in
      record {
        patches = ap (λ (d : Db). d.patches) e ∙ ap (λ (d : Db). d.patches) same;
        patchsets =
            ap (λ (d : Db). d.patchsets) e
            ∙ ap (λ (d : Db). where_rows (other_patchset patchset) d.patchsets) same;
      }
