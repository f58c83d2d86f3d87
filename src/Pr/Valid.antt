-- ===== src/Pr/Valid.antt =====
-- Every operation keeps the invariant of the database.
use patchbin.Base.{
  ℕ, suc, ◌≤◌, Str, false, List, [], ◌∷◌, ◌++◌, map, length, any_row, Result, ok, err, Result-cases,
  ◌≡◌, inl, inr, refl, arith, All, All-append,
}
use patchbin.Store.{PatchText, Patch, Db, Statement, Driver}
use patchbin.Store.Keys.{Ordered}
use patchbin.Store.Statements.{same_target, rename, touch, transaction, set_activity}
use patchbin.Store.Effects.{transaction-rule, set_activity-ok}
use patchbin.Store.Valid.{
  IsValid, push_request-IsValid, push_patchset-IsValid, push_event-IsValid, map_requests-IsValid,
}
use patchbin.Pr.Stored.{Holds, more_patches, opened, submitted}
use patchbin.Pr.Submit.{read_request, touch_after}
use patchbin.Pr.Change.{update_last_activity, then_touch, guarded}
use patchbin.Pr.Appended.{appended}

Ordered-join :
    (lo : ℕ) (xs : List Patch) (mid : ℕ) (ys : List Patch) (hi : ℕ)
    → Ordered (λ (p : Patch). p.id) lo xs mid
    → Ordered (λ (p : Patch). p.id) mid ys hi
    → Ordered (λ (p : Patch). p.id) lo (xs ++ ys) hi
Ordered-join lo [] mid [] hi h k = omega arith
Ordered-join lo [] mid (y ∷ ys) hi h (k, ks) = (omega arith, ks)
Ordered-join lo (x ∷ xs) mid ys hi (h, hs) k = (h, Ordered-join x.id xs mid ys hi hs k)

owned-known :
    (user_id k n : ℕ) (rows : List Patch)
    → All (λ (p : Patch). (p.user_id ≡ user_id) × (p.patchset_id ≡ k)) rows
    → k ≤ n
    → All (λ (p : Patch). p.patchset_id ≤ n) rows
owned-known user_id k n [] h le = tt
owned-known user_id k n (p ∷ ps) ((_, h), hs) le = (omega arith, owned-known user_id k n ps hs le)

more_patches-IsValid :
    (drv : Driver) (user_id k : ℕ) (cs : List PatchText) (rows : List Patch) (db : Db)
    → IsValid db
    → k ≤ db.last_patchset
    → Holds drv user_id k db.last_patch cs rows
    → IsValid (more_patches rows (length cs) db)
more_patches-IsValid drv user_id k cs rows db v le held = record {
  users = v.users;
  requests = v.requests;
  targets = v.targets;
  patchsets = v.patchsets;
  patches = Ordered-join 0 db.patches db.last_patch rows _ v.patches held.ordered;
  events = v.events;
  opened =
      All-append _ db.patches rows v.opened
        (owned-known user_id k db.last_patchset rows held.owned le);
}

opened-IsValid :
    (drv : Driver) (user_id : ℕ) (repo slug name text : Str) (db : Db)
    → IsValid db
    → any_row (same_target repo slug) db.requests ≡ false
    → IsValid (opened drv user_id repo slug name text db)
opened-IsValid drv user_id repo slug name text db v fresh =
    push_patchset-IsValid (push_request-IsValid v _ (omega arith) fresh) _ (omega arith)

pub submitted-IsValid :
    (drv : Driver) (user_id : ℕ) (repo slug name text : Str) (cs : List PatchText)
    (rows : List Patch) (db : Db)
    → IsValid db
    → any_row (same_target repo slug) db.requests ≡ false
    → Holds drv user_id (suc db.last_patchset) db.last_patch cs rows
    → IsValid (submitted drv user_id repo slug name text rows (length cs) db)
submitted-IsValid drv user_id repo slug name text cs rows db v fresh held =
    push_event-IsValid
      (more_patches-IsValid drv user_id (suc db.last_patchset) cs rows _
        (opened-IsValid drv user_id repo slug name text db v fresh) (omega arith) held)
      _ (omega arith)

pub appended-IsValid :
    (drv : Driver) (user_id request_id : ℕ) (cs : List PatchText) (rows : List Patch) (db : Db)
    → IsValid db
    → Holds drv user_id (suc db.last_patchset) db.last_patch cs rows
    → IsValid (appended drv user_id request_id rows cs db)
appended-IsValid drv user_id request_id [] rows db v held =
    more_patches-IsValid drv user_id (suc db.last_patchset) [] rows _
      (push_patchset-IsValid v _ (omega arith)) (omega arith) held
appended-IsValid drv user_id request_id (c ∷ cs) rows db v held =
    push_event-IsValid
      (more_patches-IsValid drv user_id (suc db.last_patchset) (c ∷ cs) rows _
        (push_patchset-IsValid v _ (omega arith)) (omega arith) held)
      _ (omega arith)

pub touched-IsValid :
    (id now : ℕ) (db : Db)
    → IsValid db
    → IsValid (record db { requests = map (touch id now) db.requests })
touched-IsValid id now db v =
    map_requests-IsValid v (touch id now) (λ r. ground arith) (λ r. ground arith)
      (λ r. ground arith)

pub renamed-IsValid :
    (id : ℕ) (name : Str) (db : Db)
    → IsValid db
    → IsValid (record db { requests = map (rename id name) db.requests })
renamed-IsValid id name db v =
    map_requests-IsValid v (rename id name) (λ r. ground arith) (λ r. ground arith)
      (λ r. ground arith)

update_last_activity-IsValid :
    (drv : Driver) (id : ℕ) (db : Db) → IsValid db → IsValid (update_last_activity drv id db).1
unfolding update_last_activity
update_last_activity-IsValid drv id db v =
    let now = drv.now Statement.read_clock db in
    elim (Result-cases (set_activity drv id now db)) [
      | inl (e, h) ↦ rw h v
      | inr (db', h) ↦ rw h (rw (set_activity-ok drv db id now db' h) (touched-IsValid id now db v))
    ]

pub then_touch-IsValid :
    (drv : Driver) (id : ℕ) (r : Result (Unit {0}) × Db)
    → IsValid r.1
    → IsValid (then_touch drv id r).1
then_touch-IsValid drv id (err e, db) v = v
then_touch-IsValid drv id (ok _, db) v = update_last_activity-IsValid drv id db v

pub touch_after-IsValid :
    (drv : Driver) (id : ℕ) (r : Result (List ℕ) × Db)
    → IsValid r.1
    → IsValid (touch_after drv id r).1
touch_after-IsValid drv id (err e, db) v = v
touch_after-IsValid drv id (ok ids, db) v =
    let now = drv.now Statement.read_clock db in
    elim (Result-cases (set_activity drv id now db)) [
      | inl (e, h) ↦ rw h v
      | inr (db', h) ↦ rw h (rw (set_activity-ok drv db id now db' h) (touched-IsValid id now db v))
    ]

pub guarded-IsValid :
    (drv : Driver) (id : ℕ) (checks : Result (Db → Result (Unit {0} × Db))) (db : Db)
    → IsValid db
    → ((body : Db → Result (Unit {0} × Db))
        → checks ≡ ok body
        → (a : Unit {0}) (db' : Db) → body db ≡ ok (a, db')
        → IsValid db')
    → IsValid (guarded drv id checks db).1
guarded-IsValid drv id (err e) db v keep = v
guarded-IsValid drv id (ok body) db v keep =
    then_touch-IsValid drv id (transaction drv body db)
      (transaction-rule drv body IsValid db v (keep body refl))

pub read_request-1 : (drv : Driver) (r : Result ℕ × Db) → (read_request drv r).1 ≡ r.1
read_request-1 drv (err e, db) = refl
read_request-1 drv (ok id, db) = refl
