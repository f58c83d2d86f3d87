-- ===== src/Pr/Effect.antt =====
-- What each operation of pr.go that writes does to the tables of patchsets and of patches.
use patchbin.Base.{
  ℕ, suc, Str, List, [], ◌∷◌, str_eq, Result, ok, err, ◌⊎◌, inl, inr, ◌∙◌, Bool-cases,
}
use patchbin.Store.{PatchText, Db, Driver}
use patchbin.Store.Statements.{transaction}
use patchbin.Store.Effects.{transaction-rule}
use patchbin.Store.Valid.{IsValid}
use patchbin.Pr.Submit.{
  submit_patch_request, submit_issue, submit_patchset, patch_request_body, request_body,
  patchset_body,
}
use patchbin.Pr.Change.{delete_patchset_by_id, delete_body}
use patchbin.Pr.Valid.{read_request-1}
use patchbin.Pr.Keeps.{Keeps, Keeps-refl, then_touch-Keeps, touch_after-Keeps}
use patchbin.Pr.Operation.{Operation, perform}
use patchbin.Pr.ForeignKeys.{delete_patchset_by_id-fails}
use patchbin.Pr.Bodies.{
  Adds, Removes, upsert-Keeps, set_title-Keeps, comment-Keeps, request_body-Adds,
  patchset_body-Adds, delete_body-Removes,
}

-- What an operation is allowed to do to the two tables.
abbrev pub Effect : Driver → Operation → Db → Db → Type 0
Effect drv (Operation.upsert pubkey) db db' = Keeps db db'
Effect drv (Operation.new_request user repo slug (err e)) db db' = Keeps db db'
Effect drv (Operation.new_request user repo slug (ok cs)) db db' =
    Keeps db db' ⊎ Adds drv (suc db.last_request) cs db db'
Effect drv (Operation.new_issue user repo slug title body) db db' =
    Keeps db db' ⊎ Adds drv (suc db.last_request) [] db db'
Effect drv (Operation.new_patchset request user (err e)) db db' = Keeps db db'
Effect drv (Operation.new_patchset request user (ok cs)) db db' =
    Keeps db db' ⊎ Adds drv request cs db db'
Effect drv (Operation.set_title request pubkey name) db db' = Keeps db db'
Effect drv (Operation.comment request user text) db db' = Keeps db db'
Effect drv (Operation.delete user request patchset) db db' = Keeps db db' ⊎ Removes patchset db db'

-- An effect does not depend on the other tables.
Adds-Keeps :
    (drv : Driver) (request : ℕ) (cs : List PatchText) (db d db' : Db)
    → Keeps db d ⊎ Adds drv request cs db d
    → Keeps d db'
    → Keeps db db' ⊎ Adds drv request cs db db'
Adds-Keeps drv request cs db d db' (inl k) same =
    inl (record { patches = same.patches ∙ k.patches; patchsets = same.patchsets ∙ k.patchsets })
Adds-Keeps drv request cs db d db' (inr a) same = inr (record {
  user = a.user;
  rows = a.rows;
  at = a.at;
  held = a.held;
  last = a.last;
  patches = same.patches ∙ a.patches;
  patchsets = same.patchsets ∙ a.patchsets;
})

Removes-Keeps :
    (patchset : ℕ) (db d db' : Db)
    → Keeps db d ⊎ Removes patchset db d
    → Keeps d db'
    → Keeps db db' ⊎ Removes patchset db db'
Removes-Keeps patchset db d db' (inl k) same =
    inl (record { patches = same.patches ∙ k.patches; patchsets = same.patchsets ∙ k.patchsets })
Removes-Keeps patchset db d db' (inr r) same =
    inr (record { patches = same.patches ∙ r.patches; patchsets = same.patchsets ∙ r.patchsets })

module _ (drv : Driver) (db : Db) (v : IsValid db) where
  new_request-Effect :
      (user : ℕ) (repo slug : Str) (patches : Result (List PatchText))
      → Effect drv
          (Operation.new_request user repo slug patches)
          db
          (submit_patch_request drv user repo slug patches db).1
  unfolding submit_patch_request patch_request_body
  new_request-Effect user repo slug (err e) = rw (read_request-1 drv) (
      transaction-rule drv (patch_request_body drv (err e) user repo slug) (Keeps db) db
        (Keeps-refl db) (λ a db' h. absurd (cc h)))
  new_request-Effect user repo slug (ok []) = rw (read_request-1 drv) (
      transaction-rule drv (patch_request_body drv (ok []) user repo slug)
        (λ d. Keeps db d ⊎ Adds drv (suc db.last_request) [] db d) db (inl (Keeps-refl db))
        (λ a db' h. absurd (cc h)))
  new_request-Effect user repo slug (ok (c ∷ cs)) = rw (read_request-1 drv) (
      transaction-rule drv (patch_request_body drv (ok (c ∷ cs)) user repo slug)
        (λ d. Keeps db d ⊎ Adds drv (suc db.last_request) (c ∷ cs) db d) db (inl (Keeps-refl db))
        (λ id db' h.
          inr (request_body-Adds drv db user repo slug c.title c.body (c ∷ cs) id db' h)))

  new_issue-Effect :
      (user : ℕ) (repo slug title body : Str)
      → Effect drv
          (Operation.new_issue user repo slug title body)
          db
          (submit_issue drv user repo slug title body db).1
  unfolding submit_issue
  new_issue-Effect user repo slug title body = elim (Bool-cases (str_eq title [])) [
    | inl e ↦ rw e (inl (Keeps-refl db))
    | inr e ↦ rw e (
        rw (read_request-1 drv) (
          transaction-rule drv (request_body drv user repo slug title body [])
            (λ d. Keeps db d ⊎ Adds drv (suc db.last_request) [] db d) db (inl (Keeps-refl db))
            (λ id db' h. inr (request_body-Adds drv db user repo slug title body [] id db' h))))
  ]

  new_patchset-Effect :
      (request user : ℕ) (patches : Result (List PatchText))
      → Effect drv
          (Operation.new_patchset request user patches)
          db
          (submit_patchset drv request user patches db).1
  unfolding submit_patchset
  new_patchset-Effect request user (err e) =
      let body = patchset_body drv (err e) request user in
      let same = touch_after-Keeps drv request (transaction drv body db) in
      let done =
        transaction-rule drv body (Keeps db) db (Keeps-refl db)
          (λ a db' h. absurd (unfold patchset_body in cc h)) in
      record { patches = same.patches ∙ done.patches; patchsets = same.patchsets ∙ done.patchsets }
  new_patchset-Effect request user (ok cs) =
      let body = patchset_body drv (ok cs) request user in
      Adds-Keeps drv request cs db _ _
        (transaction-rule drv body (λ d. Keeps db d ⊎ Adds drv request cs db d) db
          (inl (Keeps-refl db))
          (λ ids db' h. inr (patchset_body-Adds drv db cs request user ids db' v h)))
        (touch_after-Keeps drv request (transaction drv body db))

  delete-Effect :
      (user id patchset : ℕ)
      → Effect drv
          (Operation.delete user id patchset)
          db
          (delete_patchset_by_id drv user id patchset db).1
  delete-Effect user id patchset = elim (Bool-cases drv.foreign_keys) [
    | inl fk ↦
        let (e, failed) = delete_patchset_by_id-fails drv user id patchset db fk in
        rw failed (inl (Keeps-refl db))
    | inr off ↦
        let body = delete_body drv user id patchset in
        unfold delete_patchset_by_id in
        Removes-Keeps patchset db _ _
          (transaction-rule drv body (λ d. Keeps db d ⊎ Removes patchset db d) db
            (inl (Keeps-refl db))
            (λ a db' h. inr (delete_body-Removes drv db user id patchset a db' off h)))
          (then_touch-Keeps drv id (transaction drv body db))
  ]

  pub perform-Effect : (op : Operation) → Effect drv op db (perform drv op db)
  unfolding perform
  perform-Effect (Operation.upsert pubkey) = upsert-Keeps drv db pubkey
  perform-Effect (Operation.new_request user repo slug patches) =
      new_request-Effect user repo slug patches
  perform-Effect (Operation.new_issue user repo slug title body) =
      new_issue-Effect user repo slug title body
  perform-Effect (Operation.new_patchset request user patches) =
      new_patchset-Effect request user patches
  perform-Effect (Operation.set_title request pubkey name) =
      set_title-Keeps drv db request pubkey name
  perform-Effect (Operation.comment request user text) = comment-Keeps drv db request user text
  perform-Effect (Operation.delete user request patchset) = delete-Effect user request patchset
