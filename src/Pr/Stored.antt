-- ===== src/Pr/Stored.antt =====
-- What the submissions write, when they succeed.
use patchbin.Base.{
  ℕ, suc, ◌+◌, ◌≤◌, ◌<◌, Str, false, List, [], ◌∷◌, ◌++◌, map, length, length-append, any_row, ok,
  >>=-eq-ok, ◌≡◌, refl, ap, ◌∙◌, arith, All, append_assoc, append-nil,
}
use mathlib.Core.Path.{subst, subst₂}
use patchbin.Store.{PatchText, written, Patch, EventLog, EventKind, Db, Statement, Driver}
use patchbin.Store.Keys.{Ordered}
use patchbin.Store.Statements.{
  same_target, request_row, patchset_row, patch_row, event_row, push_request, push_patchset,
  push_patch, push_event, add_patch, add_request, add_patchset, add_event,
}
use patchbin.Store.Effects.{add_event-ok}
use patchbin.Pr.Submit.{
  take_patch, collect_patches, same_content, create_patch, create_patches, open_request,
  request_body, new_event, valid_id, no_data,
}

-- The row's time is the one that its insertion read, with the id before it given last.
abbrev pub IsTimed : Driver → Patch → Type 0
IsTimed drv p =
    (d : Db) × (p.created_at ≡ drv.now Statement.insert_patch d) × (p.id ≡ suc d.last_patch)

-- Rows of the patches table that hold the given patches, in order, for one user and patchset.
pub record Holds (drv : Driver) (user_id patchset_id first : ℕ) (contents : List PatchText)
    (rows : List Patch) : Type 0 where
  pub same : map (λ (p : Patch). p.content) rows ≡ map written contents
  pub owned : All (λ (p : Patch). (p.user_id ≡ user_id) × (p.patchset_id ≡ patchset_id)) rows
  pub ordered : Ordered (λ (p : Patch). p.id) first rows (first + length contents)
  -- each time was read just before the row was inserted
  pub timed : All (IsTimed drv) rows

-- The database with more patches.
abbrev pub more_patches : List Patch → ℕ → Db → Db
more_patches rows n db = record db { patches = db.patches ++ rows; last_patch = db.last_patch + n }

create_patch-ok :
    (drv : Driver) (committed : Db) (user_id patchset_id : ℕ) (c : PatchText) (db : Db) (id : ℕ)
    (db' : Db)
    → create_patch drv committed user_id patchset_id c db ≡ ok (id, db')
    → db' ≡ push_patch (patch_row drv user_id patchset_id c db) db
unfolding create_patch add_patch
create_patch-ok drv committed user_id patchset_id c db id db' h = ground arith

pub create_patches-ok :
    (drv : Driver) (committed : Db) (user_id patchset_id : ℕ) (cs : List PatchText) (db db' : Db)
    → create_patches drv committed user_id patchset_id cs db ≡ ok db'
    → (rows : List Patch) × (db' ≡ more_patches rows (length cs) db)
      × Holds drv user_id patchset_id db.last_patch cs rows
unfolding create_patches
create_patches-ok drv committed user_id patchset_id [] db db' h = (
  [],
  ground (arith, append-nil db.patches),
  record { same = refl; owned = tt; ordered = omega arith; timed = tt },
)
create_patches-ok drv committed user_id patchset_id (c ∷ cs) db db' h =
    let ((id, db1), first, rest) =
      >>=-eq-ok (create_patch drv committed user_id patchset_id c db) _ h in
    let row : Patch = patch_row drv user_id patchset_id c db in
    let e = create_patch-ok drv committed user_id patchset_id c db id db1 first in
    let last : db1.last_patch ≡ suc db.last_patch = ap (λ (d : Db). d.last_patch) e in
    let (rows, e', held) = create_patches-ok drv committed user_id patchset_id cs db1 db' rest in
    let count : suc db.last_patch + length cs ≡ db.last_patch + suc (length cs) = omega arith in
    (
      row ∷ rows,
      e' ∙ ap (more_patches rows (length cs)) e ∙ (λ i. record db {
        patches = append_assoc db.patches (row ∷ []) rows i;
        last_patch = count i;
      }),
      record {
        same = ap (λ t. written c ∷ t) held.same;
        owned = ((refl, refl), held.owned);
        ordered = (
          omega arith,
          subst₂ (λ lo hi. Ordered (λ (p : Patch). p.id) lo rows hi) last
              (ap (λ n. n + length cs) last ∙ count) held.ordered,
        );
        timed = ((db, refl, refl), held.timed);
      },
    )

-- The event that a submission logs.
abbrev pub logged : Driver → ℕ → ℕ → ℕ → EventKind → Db → EventLog
logged drv user_id request_id patchset_id kind db =
    event_row drv (new_event user_id (valid_id request_id) (valid_id patchset_id) kind no_data) db

-- The database with a new patch request and its first, empty patchset.
abbrev pub opened : Driver → ℕ → Str → Str → Str → Str → Db → Db
opened drv user_id repo slug name text db =
    let request =
      request_row drv user_id repo slug name text (drv.now Statement.read_clock db) db in
    let db1 = push_request request db in
    push_patchset (patchset_row drv user_id (suc db.last_request) db1) db1

open_request-ok :
    (drv : Driver) (user_id : ℕ) (repo slug name text : Str) (db : Db) (request_id patchset_id : ℕ)
    (db' : Db)
    → open_request drv user_id repo slug name text db ≡ ok (request_id, patchset_id, db')
    → (any_row (same_target repo slug) db.requests ≡ false)
      × (request_id ≡ suc db.last_request)
      × (patchset_id ≡ suc db.last_patchset)
      × (db' ≡ opened drv user_id repo slug name text db)
unfolding open_request add_request add_patchset
open_request-ok drv user_id repo slug name text db request_id patchset_id db' h = ground arith

-- The database after a whole submission: the request, its patchset, its patches and the event.
abbrev pub submitted : Driver → ℕ → Str → Str → Str → Str → List Patch → ℕ → Db → Db
submitted drv user_id repo slug name text rows n db =
    let db1 = more_patches rows n (opened drv user_id repo slug name text db) in
    push_event
      (logged drv user_id (suc db.last_request) (suc db.last_patchset) EventKind.pr_created db1) db1

pub request_body-ok :
    (drv : Driver) (user_id : ℕ) (repo slug name text : Str) (cs : List PatchText) (db : Db)
    (id : ℕ) (db' : Db)
    → request_body drv user_id repo slug name text cs db ≡ ok (id, db')
    → (rows : List Patch) × Holds drv user_id (suc db.last_patchset) db.last_patch cs rows
      × (any_row (same_target repo slug) db.requests ≡ false)
      × (id ≡ suc db.last_request)
      × (db' ≡ submitted drv user_id repo slug name text rows (length cs) db)
unfolding request_body
request_body-ok drv user_id repo slug name text cs db id db' h =
    let ((r, p, db2), first, rest) =
      >>=-eq-ok (open_request drv user_id repo slug name text db) _ h in
    let (fresh, r_is, p_is, e) = open_request-ok drv user_id repo slug name text db r p db2 first in
    let (db3, second, rest1) = >>=-eq-ok (create_patches drv db user_id p cs db2) _ rest in
    let (rows, e1, held) = create_patches-ok drv db user_id p cs db2 db3 second in
    let event = new_event user_id (valid_id r) (valid_id p) EventKind.pr_created no_data in
    let (db4, third, last) = >>=-eq-ok (add_event drv event db3) _ rest1 in
    let e2 = add_event-ok drv db3 event db4 third in
    let e3 : db3 ≡ more_patches rows (length cs) (opened drv user_id repo slug name text db) =
      e1 ∙ ap (more_patches rows (length cs)) e in
    let same : db' ≡ db4 = ground (arith, last) in
    (
      rows,
      subst₂ (λ k n. Holds drv user_id k n cs rows) p_is (ap (λ (d : Db). d.last_patch) e) held,
      fresh,
      ground (arith, last, r_is),
      same ∙ e2 ∙ (λ i.
          push_event (logged drv user_id (r_is i) (p_is i) EventKind.pr_created (e3 i)) (e3 i)),
    )

same_content-above :
    (n k : ℕ) (c : PatchText) (ps : List Patch)
    → All (λ (p : Patch). p.patchset_id ≤ n) ps
    → n < k
    → any_row (same_content k c) ps ≡ false
same_content-above n k c [] h lt = refl
same_content-above n k c (p ∷ ps) (h, hs) lt = ground (arith, same_content-above n k c ps hs lt)

-- The search for an equal patch looks into the committed database, where no patch can belong to the
-- patchset that is being filled: it never finds one.
pub create_patch-add_patch :
    (drv : Driver) (committed : Db) (user_id patchset_id : ℕ) (c : PatchText) (db : Db)
    → All (λ (p : Patch). p.patchset_id ≤ committed.last_patchset) committed.patches
    → committed.last_patchset < patchset_id
    → create_patch drv committed user_id patchset_id c db ≡ add_patch drv user_id patchset_id c db
unfolding create_patch add_patch
create_patch-add_patch drv committed user_id patchset_id c db known lt =
    ground
      (arith, same_content-above committed.last_patchset patchset_id c committed.patches known lt)

take_patch-add_patch :
    (drv : Driver) (user_id patchset_id : ℕ) (c : PatchText) (fin : List ℕ) (db : Db)
    (fin' : List ℕ) (db' : Db)
    → take_patch db fin (add_patch drv user_id patchset_id c db) ≡ ok (fin', db')
    → (fin' ≡ fin ++ suc db.last_patch ∷ [])
      × (db' ≡ push_patch (patch_row drv user_id patchset_id c db) db)
unfolding add_patch
take_patch-add_patch drv user_id patchset_id c fin db fin' db' h = ground arith

-- The loop of `SubmitPatchset` leaves nothing out and stores the patches in order.
pub collect_patches-ok :
    (drv : Driver) (committed : Db) (user_id patchset_id : ℕ) (cs : List PatchText) (fin : List ℕ)
    (db : Db) (fin' : List ℕ) (db' : Db)
    → All (λ (p : Patch). p.patchset_id ≤ committed.last_patchset) committed.patches
    → committed.last_patchset < patchset_id
    → collect_patches drv committed user_id patchset_id cs fin db ≡ ok (fin', db')
    → (rows : List Patch) × (db' ≡ more_patches rows (length cs) db)
      × Holds drv user_id patchset_id db.last_patch cs rows
      × (length fin' ≡ length fin + length cs)
unfolding collect_patches
collect_patches-ok drv committed user_id patchset_id [] fin db fin' db' known lt h = (
  [],
  ground (arith, append-nil db.patches),
  record { same = refl; owned = tt; ordered = omega arith; timed = tt },
  ground arith,
)
collect_patches-ok drv committed user_id patchset_id (c ∷ cs) fin db fin' db' known lt h =
    let row : Patch = patch_row drv user_id patchset_id c db in
    let db1 : Db = push_patch row db in
    let step : collect_patches drv committed user_id patchset_id cs (fin ++ row.id ∷ []) db1
        ≡ ok (fin', db') =
      let ((f, d), first, rest) =
        >>=-eq-ok (take_patch db fin (create_patch drv committed user_id patchset_id c db)) _ h in
      let same = create_patch-add_patch drv committed user_id patchset_id c db known lt in
      let (f_is, d_is) =
        take_patch-add_patch drv user_id patchset_id c fin db f d (rw same at first) in
      rw (f_is, d_is) at rest in
    let (rows, e, held, count) =
      collect_patches-ok drv committed user_id patchset_id cs (fin ++ row.id ∷ []) db1 fin' db'
        known lt step in
    let next : suc db.last_patch + length cs ≡ db.last_patch + suc (length cs) = omega arith in
    (
      row ∷ rows,
      e ∙ (λ i. record db {
        patches = append_assoc db.patches (row ∷ []) rows i;
        last_patch = next i;
      }),
      record {
        same = ap (λ t. written c ∷ t) held.same;
        owned = ((refl, refl), held.owned);
        ordered = (
          omega arith,
          subst (λ hi. Ordered (λ (p : Patch). p.id) row.id rows hi) next held.ordered,
        );
        timed = ((db, refl, refl), held.timed);
      },
      omega (arith, length-append fin (row.id ∷ [])),
    )
