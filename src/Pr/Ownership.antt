-- ===== src/Pr/Ownership.antt =====
-- Who may change a title.
use patchbin.Base.{
  ℕ, Str, [], map, Result, ok, err, Error, Result-cases, ◌≡◌, ◌≢◌, ◌⊎◌, inl, inr, refl, sym, ap,
  ◌∙◌,
}
use patchbin.Store.{User, PatchRequest, Db, Statement, Driver}
use patchbin.Store.Statements.{rename, touch, set_activity}
use patchbin.Store.Effects.{transaction-outcomes, set_activity-ok}
use patchbin.Pr.Queries.{get_patch_request_by_id, get_user_by_id}
use patchbin.Pr.Change.{update_patch_request_name, update_last_activity, rename_checks}
use patchbin.Pr.Changed.{with_event, name_event, rename_body-ok}
use patchbin.Pr.Guards.{rename_checks-ok}

-- The database after a change of title.
abbrev pub retitled : Driver → ℕ → ℕ → Str → Db → Db
retitled drv id author name db =
    with_event drv (name_event author id name)
      (record db { requests = map (rename id name) db.requests })

abbrev pub touched : Driver → ℕ → Db → Db
touched drv id db = record db {
  requests = map (touch id (drv.now Statement.read_clock db)) db.requests;
}

update_last_activity-cases :
    (drv : Driver) (id : ℕ) (db : Db)
    → (update_last_activity drv id db ≡ (ok tt, touched drv id db))
      ⊎ ((e : Error) × (update_last_activity drv id db ≡ (err e, db)))
unfolding update_last_activity
update_last_activity-cases drv id db =
    let now = drv.now Statement.read_clock db in
    elim (Result-cases (set_activity drv id now db)) [
      | inl (e, failed) ↦ inr (e, rw failed refl)
      | inr (d, done) ↦ inl (rw (done, set_activity-ok drv db id now d done) refl)
    ]

-- What a change of title ends in: an error with nothing changed, or the author of the request has this
-- key, the title is not empty, and the change is made, with the activity set or an error where that
-- failed.
abbrev pub IsAuthored : Driver → ℕ → Str → Str → Db → Result (Unit {0}) × Db → Type 0
IsAuthored drv id pubkey name db x =
    ((e : Error) × (x ≡ (err e, db)))
    ⊎ ((request : PatchRequest) × (owner : User) × (get_patch_request_by_id drv id db ≡ ok request)
        × (get_user_by_id drv request.user_id db ≡ ok owner)
        × (owner.pubkey ≡ pubkey)
        × (name ≢ [])
        × ((x ≡ (ok tt, touched drv id (retitled drv id request.user_id name db)))
            ⊎ ((e : Error) × (x ≡ (err e, retitled drv id request.user_id name db)))))

-- Whatever is answered, a title changes only with the key of the request's author, and never to an
-- empty one. Either an error is answered and nothing is changed; or the request was found, its
-- author has this key, the title is filled, and exactly this is changed: this request has the title,
-- one event is logged, and, unless an error is answered, the request's last activity is set.
pub update_patch_request_name-IsAuthored :
    (drv : Driver) (id : ℕ) (pubkey name : Str) (db : Db)
    → IsAuthored drv id pubkey name db (update_patch_request_name drv id pubkey name db)
unfolding update_patch_request_name
update_patch_request_name-IsAuthored drv id pubkey name db =
    elim (Result-cases (rename_checks drv id pubkey name db)) [
      | inl (e, failed) ↦ inl (e, rw failed refl)
      | inr (body, passed) ↦
          let (request, owner, found, found', same, filled, is) =
            rename_checks-ok drv id db body pubkey name passed in
          elim (transaction-outcomes drv body db) [
            | inl (e, failed) ↦ inl (e, rw (passed, failed) refl)
            | inr (u, d, done, ended) ↦
                let changed =
                  rename_body-ok drv id db d u request.user_id name
                    (ap (λ (f : Db → Result (Unit {0} × Db)). f db) (sym is) ∙ done) in
                inr (
                  request,
                  owner,
                  found,
                  found',
                  same,
                  filled,
                  elim (update_last_activity-cases drv id d) [
                    | inl touches ↦
                        inl
                          (rw (passed, ended) touches ∙ ap (λ d. (ok tt, touched drv id d)) changed)
                    | inr (e, fails) ↦
                        inr (e, rw (passed, ended) fails ∙ ap (λ d. (err e, d)) changed)
                  ],
                )
          ]
    ]

abbrev answered : Result (Unit {0}) × Db → Result (Unit {0})
answered x = x.0

-- A title that is changed is not empty, and the session's key is that of the request's author.
pub update_patch_request_name-ok :
    (drv : Driver) (id : ℕ) (pubkey name : Str) (db : Db) (a : Unit {0}) (db' : Db)
    → update_patch_request_name drv id pubkey name db ≡ (ok a, db')
    → (request : PatchRequest) × (owner : User) × (get_patch_request_by_id drv id db ≡ ok request)
      × (get_user_by_id drv request.user_id db ≡ ok owner)
      × (owner.pubkey ≡ pubkey)
      × (name ≢ [])
      × (db' ≡ touched drv id (retitled drv id request.user_id name db))
update_patch_request_name-ok drv id pubkey name db a db' h =
    elim (update_patch_request_name-IsAuthored drv id pubkey name db) [
      | inl (e, failed) ↦ absurd (cc (ap answered (sym h ∙ failed)))
      | inr (request, owner, found, found', same, filled, inr (e, failed)) ↦
          absurd (cc (ap answered (sym h ∙ failed)))
      | inr (request, owner, found, found', same, filled, inl done) ↦ (
        request,
        owner,
        found,
        found',
        same,
        filled,
        ap (λ (x : Result (Unit {0}) × Db). x.1) (sym h ∙ done),
      )
    ]
