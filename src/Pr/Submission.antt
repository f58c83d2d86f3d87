-- ===== src/Pr/Submission.antt =====
-- What a submission promises its user.
use patchbin.Base.{
  ℕ, suc, Str, Bool, true, false, List, [], ◌∷◌, ◌++◌, map, length, any_row, str_eq, Result, ok,
  err, Error, Result-cases, ◌≡◌, inl, inr, refl, sym, ap, ◌∙◌, arith,
}
use patchbin.Store.{PatchRequest, PatchText, written, Patch, Db, Statement, Driver}
use patchbin.Store.Statements.{same_target, patchset_row, set_activity, transaction}
use patchbin.Store.Effects.{transaction-outcomes, transaction-ok, set_activity-ok}
use patchbin.Store.Valid.{IsValid}
use patchbin.Pr.Queries.{get_patch_request_by_id, patches_of}
use patchbin.Pr.Submit.{
  submit_patch_request, submit_issue, submit_patchset, read_request, touch_after, or_keep, titled,
  patch_request_body, request_body, patchset_body,
}
use patchbin.Pr.Stored.{Holds, submitted, request_body-ok}
use patchbin.Pr.Appended.{appended, patchset_body-ok}
use patchbin.Pr.ReadBack.{Steady, patches_of-stored}

read_request-ok :
    (drv : Driver) (x : Result ℕ × Db) (r : PatchRequest) (db' : Db)
    → read_request drv x ≡ (ok r, db')
    → (id : ℕ) × (x ≡ (ok id, db')) × (get_patch_request_by_id drv id db' ≡ ok r)
read_request-ok drv (err e, db) r db' h = absurd (cc (ap (λ (p : Result PatchRequest × Db). p.0) h))
read_request-ok drv (ok id, db) r db' h =
    let same : db ≡ db' = ap (λ (p : Result PatchRequest × Db). p.1) h in
    let found : get_patch_request_by_id drv id db ≡ ok r =
      ap (λ (p : Result PatchRequest × Db). p.0) h in
    (id, (λ i. (ok id, same i)), rw same at found)

pub touched-rows :
    (drv : Driver) (id now : ℕ) (db : Db)
    → ((or_keep db (set_activity drv id now db)).patches ≡ db.patches)
      × ((or_keep db (set_activity drv id now db)).patchsets ≡ db.patchsets)
      × ((or_keep db (set_activity drv id now db)).event_logs ≡ db.event_logs)
touched-rows drv id now db = elim (Result-cases (set_activity drv id now db)) [
  | inl (e, h) ↦ rw h (refl, refl, refl)
  | inr (d, h) ↦ rw h (rw (set_activity-ok drv db id now d h) (refl, refl, refl))
]

pub appended-patches :
    (drv : Driver) (user request : ℕ) (rows : List Patch) (cs : List PatchText) (db : Db)
    → (appended drv user request rows cs db).patches ≡ db.patches ++ rows
appended-patches drv user request rows [] db = refl
appended-patches drv user request rows (c ∷ cs) db = refl

pub appended-patchsets :
    (drv : Driver) (user request : ℕ) (rows : List Patch) (cs : List PatchText) (db : Db)
    → (appended drv user request rows cs db).patchsets
      ≡ db.patchsets ++ patchset_row drv user request db ∷ []
appended-patchsets drv user request rows [] db = refl
appended-patchsets drv user request rows (c ∷ cs) db = refl

-- From a valid database and a clock that does not go back, a patch request that is created has the
-- repository and slug that no request had; the database gains exactly the request (named after the
-- first patch), one patchset, the patches and one event; and the patches of that patchset are read
-- back with the contents that were sent, in their order, except that a base commit that is not marked
-- valid is lost.
pub submit_patch_request-stores :
    (drv : Driver) (user : ℕ) (repo slug : Str) (c : PatchText) (cs : List PatchText) (db : Db)
    (r : PatchRequest) (db' : Db)
    → IsValid db
    → Steady drv
    → submit_patch_request drv user repo slug (ok (c ∷ cs)) db ≡ (ok r, db')
    → (rows : List Patch) × (any_row (same_target repo slug) db.requests ≡ false)
      × (db' ≡ submitted drv user repo slug c.title c.body rows (length (c ∷ cs)) db)
      × (patches_of (suc db.last_patchset) db' ≡ rows)
      × (map (λ (p : Patch). p.content) rows ≡ map written (c ∷ cs))
unfolding submit_patch_request patch_request_body
submit_patch_request-stores drv user repo slug c cs db r db' v steady h =
    let body = patch_request_body drv (ok (c ∷ cs)) user repo slug in
    let (id, x, _) = read_request-ok drv (transaction drv body db) r db' h in
    let done = transaction-ok drv body db id db' x in
    let (rows, held, fresh, _, e) =
      request_body-ok drv user repo slug c.title c.body (c ∷ cs) db id db' done in
    let patches : db'.patches ≡ db.patches ++ rows = ap (λ (d : Db). d.patches) e in
    (
      rows,
      fresh,
      e,
      patches_of-stored drv user (suc db.last_patchset) db.last_patch (c ∷ cs) db.patches rows
          db.last_patchset db' steady v.opened (omega arith) held patches,
      held.same,
    )

-- A transaction whose body cannot succeed.
refused :
    (drv : Driver) (body : Db → Result (ℕ × Db)) (db : Db)
    → ((id : ℕ) (db' : Db) → body db ≡ ok (id, db') → ⊥)
    → (e : Error) × (read_request drv (transaction drv body db) ≡ (err e, db))
refused drv body db never = elim (transaction-outcomes drv body db) [
  | inl (e, failed) ↦ (e, ap (read_request drv) failed)
  | inr (id, db', done, _) ↦ absurd (never id db' done)
]

request_body-fresh :
    (drv : Driver) (user : ℕ) (repo slug name text : Str) (cs : List PatchText) (db : Db) (id : ℕ)
    (db' : Db)
    → request_body drv user repo slug name text cs db ≡ ok (id, db')
    → any_row (same_target repo slug) db.requests ≡ false
request_body-fresh drv user repo slug name text cs db id db' h =
    (request_body-ok drv user repo slug name text cs db id db' h).2

patch_request_body-fresh :
    (drv : Driver) (user : ℕ) (repo slug : Str) (patches : Result (List PatchText)) (db : Db)
    (id : ℕ) (db' : Db)
    → patch_request_body drv patches user repo slug db ≡ ok (id, db')
    → any_row (same_target repo slug) db.requests ≡ false
unfolding patch_request_body
patch_request_body-fresh drv user repo slug (err e) db id db' h = absurd (cc)
patch_request_body-fresh drv user repo slug (ok []) db id db' h = absurd (cc)
patch_request_body-fresh drv user repo slug (ok (c ∷ cs)) db id db' h =
    request_body-fresh drv user repo slug c.title c.body (c ∷ cs) db id db' h

titled-refused :
    (drv : Driver) (user : ℕ) (repo slug title body : Str) (db : Db) (b : Bool)
    → any_row (same_target repo slug) db.requests ≡ true
    → (e : Error) × (titled drv b user repo slug title body db ≡ (err e, db))
titled-refused drv user repo slug title body db true taken = (Error.empty_title, refl)
titled-refused drv user repo slug title body db false taken =
    refused drv (request_body drv user repo slug title body []) db
      λ id db' h. cc (request_body-fresh drv user repo slug title body [] db id db' h)

-- A repository and slug that a request has already are refused: neither a patch request nor an issue
-- is made of them, and the database stays as it was.
pub submit-refuses_target :
    (drv : Driver) (user : ℕ) (repo slug title body : Str) (patches : Result (List PatchText))
    (db : Db)
    → any_row (same_target repo slug) db.requests ≡ true
    → ((e : Error) × (submit_patch_request drv user repo slug patches db ≡ (err e, db)))
      × ((e : Error) × (submit_issue drv user repo slug title body db ≡ (err e, db)))
unfolding submit_patch_request submit_issue
submit-refuses_target drv user repo slug title body patches db taken = (
  refused drv (patch_request_body drv patches user repo slug) db
      (λ id db' h. cc (patch_request_body-fresh drv user repo slug patches db id db' h)),
  titled-refused drv user repo slug title body db (str_eq title []) taken,
)

touch_after-ok :
    (drv : Driver) (id : ℕ) (x : Result (List ℕ) × Db) (ids : List ℕ) (db' : Db)
    → touch_after drv id x ≡ (ok ids, db')
    → (db1 : Db) × (x ≡ (ok ids, db1))
      × (db'.patches ≡ db1.patches)
      × (db'.patchsets ≡ db1.patchsets)
      × (db'.event_logs ≡ db1.event_logs)
touch_after-ok drv id (err e, db) ids db' h = absurd (cc (ap (λ (p : Result (List ℕ) × Db). p.0) h))
touch_after-ok drv id (ok is, db) ids db' h =
    let now = drv.now Statement.read_clock db in
    let same : ◌≡◌ {A = Result (List ℕ)} (ok is) (ok ids) =
      ap (λ (p : Result (List ℕ) × Db). p.0) h in
    let kept = touched-rows drv id now db in
    let left = ap (λ (p : Result (List ℕ) × Db). p.1) h in
    (
      db,
      (λ i. (same i, db)),
      ap (λ (d : Db). d.patches) (sym left) ∙ kept.0,
      ap (λ (d : Db). d.patchsets) (sym left) ∙ kept.1,
      ap (λ (d : Db). d.event_logs) (sym left) ∙ kept.2,
    )

-- The rows that a patchset which is added puts at the ends of the tables.
pub submit_patchset-rows :
    (drv : Driver) (request user : ℕ) (cs : List PatchText) (db : Db) (ids : List ℕ) (db' : Db)
    → IsValid db
    → submit_patchset drv request user (ok cs) db ≡ (ok ids, db')
    → (rows : List Patch) × Holds drv user (suc db.last_patchset) db.last_patch cs rows
      × (length ids ≡ length cs)
      × (db'.patches ≡ db.patches ++ rows)
      × (db'.patchsets ≡ db.patchsets ++ patchset_row drv user request db ∷ [])
unfolding submit_patchset
submit_patchset-rows drv request user cs db ids db' v h =
    let body = patchset_body drv (ok cs) request user in
    let (db1, x, patches, patchsets, _) =
      touch_after-ok drv request (transaction drv body db) ids db' h in
    let done = transaction-ok drv body db ids db1 x in
    let (rows, held, count, e) = patchset_body-ok drv cs request user db ids db1 v done in
    (
      rows,
      held,
      count,
      patches ∙ ap (λ (d : Db). d.patches) e ∙ appended-patches drv user request rows cs db,
      patchsets ∙ ap (λ (d : Db). d.patchsets) e ∙ appended-patchsets drv user request rows cs db,
    )

-- From a valid database and a clock that does not go back, a patchset that is added to a patch request
-- has all the patches that were sent, also those that an earlier patchset has: an id is answered for
-- each, the tables gain one patchset and these patches at their ends, and the patches of the new
-- patchset are read back with the contents that were sent, in their order, except that a base commit
-- that is not marked valid is lost.
pub submit_patchset-stores :
    (drv : Driver) (request user : ℕ) (cs : List PatchText) (db : Db) (ids : List ℕ) (db' : Db)
    → IsValid db
    → Steady drv
    → submit_patchset drv request user (ok cs) db ≡ (ok ids, db')
    → (rows : List Patch) × (length ids ≡ length cs)
      × (db'.patches ≡ db.patches ++ rows)
      × (db'.patchsets ≡ db.patchsets ++ patchset_row drv user request db ∷ [])
      × (patches_of (suc db.last_patchset) db' ≡ rows)
      × (map (λ (p : Patch). p.content) rows ≡ map written cs)
submit_patchset-stores drv request user cs db ids db' v steady h =
    let (rows, held, count, patches, patchsets) =
      submit_patchset-rows drv request user cs db ids db' v h in
    (
      rows,
      count,
      patches,
      patchsets,
      patches_of-stored drv user (suc db.last_patchset) db.last_patch cs db.patches rows
          db.last_patchset db' steady v.opened (omega arith) held patches,
      held.same,
    )

-- A patchset that is refused leaves no trace: the answer is an error only with the database as it was.
pub submit_patchset-atomic :
    (drv : Driver) (request user : ℕ) (patches : Result (List PatchText)) (db : Db) (e : Error)
    (db' : Db)
    → submit_patchset drv request user patches db ≡ (err e, db')
    → db' ≡ db
unfolding submit_patchset
submit_patchset-atomic drv request user patches db e db' h =
    elim (transaction-outcomes drv (patchset_body drv patches request user) db) [
      | inl (e', failed) ↦
          ap (λ (p : Result (List ℕ) × Db). p.1) (sym h ∙ ap (touch_after drv request) failed)
      | inr (ids, d, _, ended) ↦
          absurd (
            cc
              (ap (λ (p : Result (List ℕ) × Db). p.0) (sym h ∙ ap (touch_after drv request) ended)))
    ]
