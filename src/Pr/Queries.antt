-- ===== src/Pr/Queries.antt =====
-- The reading operations of pr.go.
use patchbin.Base.{
  ℕ, ◌+◌, ◌*◌, Str, Bool, false, ◌&&◌, ◌||◌, Option, none, some, List, [], ◌∷◌, codes, ◌==◌, ltb,
  leb, str_eq, first_row, any_row, where_rows, last_elem?, Result, ok, err, Error, fail_if, ◌>>=◌,
  ◌>>◌,
}
use mathlib.Core.List.{head?}
use patchbin.Base.Sort.{sort_by, sort_desc_by}
use patchbin.Store.{User, Acl, PatchRequest, Patchset, Patch, EventLog, Db, Statement, Driver}
use patchbin.Store.Statements.{run, same_target}

-- `DB.Get` of one row.
abbrev pub one_row {ℓ} : {A : Type ℓ} → Option A → Result A
one_row none = err Error.no_rows
one_row (some a) = ok a

abbrev pub column_is : Option Str → Str → Bool
column_is none s = false
column_is (some t) s = str_eq t s

-- 14 days, in the unit of the times.
abbrev pub fourteen_days : ℕ
fourteen_days = 14 * 24 * 60 * 60 * 1_000_000_000

-- A row of `acl` bans where its pubkey or its ip_address is the one given.
abbrev pub bans : Str → Str → Acl → Bool
bans pubkey ip a =
    str_eq a.permission (codes "banned") && (column_is a.pubkey pubkey || column_is a.ip_address ip)

abbrev pub patchsets_of : ℕ → Db → List Patchset
patchsets_of request_id db =
    sort_by (λ (p : Patchset). p.created_at)
      (where_rows (λ (p : Patchset). p.patch_request_id == request_id) db.patchsets)

abbrev pub some_patchsets : List Patchset → Result (List Patchset)
some_patchsets [] = err Error.no_patchsets
some_patchsets (p ∷ ps) = ok (p ∷ ps)

-- An element that the code takes by its index: a panic where there is none.
abbrev pub indexed {ℓ} : {A : Type ℓ} → Option A → Result A
indexed none = err Error.panic
indexed (some a) = ok a

abbrev pub patches_of : ℕ → Db → List Patch
patches_of patchset_id db =
    sort_by (λ (p : Patch). p.created_at)
      (sort_by (λ (p : Patch). p.id)
        (where_rows (λ (p : Patch). p.patchset_id == patchset_id) db.patches))

-- `last_activity >= datetime('now', '-14 days')`
abbrev pub is_active : ℕ → PatchRequest → Bool
is_active now r = leb now (r.last_activity + fourteen_days)

-- The join with `app_users` on the author's id.
abbrev pub authored_by : Str → Db → PatchRequest → Bool
authored_by pubkey db r =
    any_row (λ (u : User). u.id == r.user_id && str_eq u.pubkey pubkey) db.users

-- The first row of `ORDER BY created_at DESC` among those that the test selects.
abbrev pub newest : (PatchRequest → Bool) → Db → Option PatchRequest
newest p db = head? (sort_desc_by (λ (r : PatchRequest). r.created_at) (where_rows p db.requests))

-- Events of the user, and those on the user's patch requests.
abbrev pub concerns : ℕ → Db → EventLog → Bool
concerns user_id db e =
    e.user_id == user_id
    || any_row (λ (r : PatchRequest). r.id == e.patch_request_id.int64 && r.user_id == user_id)
        db.requests

module _ (drv : Driver) where
  unfoldable pub is_banned : Str → Str → Db → Result (Unit {0})
  is_banned pubkey ip db = do
    run drv Statement.select_acl db
    fail_if (any_row (bans pubkey ip) db.acl) Error.banned

  unfoldable pub get_users : Db → Result (List User)
  get_users db = do run drv Statement.select_users db; ok db.users

  unfoldable pub get_user_by_id : ℕ → Db → Result User
  get_user_by_id id db = do
    run drv Statement.select_users db
    one_row (first_row (λ (u : User). u.id == id) db.users)

  unfoldable pub get_user_by_pubkey : Str → Db → Result User
  get_user_by_pubkey pubkey db = do
    run drv Statement.select_users db
    one_row (first_row (λ (u : User). str_eq u.pubkey pubkey) db.users)

  unfoldable pub get_patchsets_by_pr_id : ℕ → Db → Result (List Patchset)
  get_patchsets_by_pr_id request_id db = do
    run drv Statement.select_patchsets db
    some_patchsets (patchsets_of request_id db)

  unfoldable pub get_patchset_by_id : ℕ → Db → Result Patchset
  get_patchset_by_id id db = do
    run drv Statement.select_patchsets db
    one_row (first_row (λ (p : Patchset). p.id == id) db.patchsets)

  unfoldable pub get_latest_patchset_by_pr_id : ℕ → Db → Result Patchset
  get_latest_patchset_by_pr_id request_id db = do
    patchsets ← get_patchsets_by_pr_id request_id db
    indexed (last_elem? patchsets)

  unfoldable pub get_patches_by_patchset_id : ℕ → Db → Result (List Patch)
  get_patches_by_patchset_id patchset_id db = do
    run drv Statement.select_patches db
    ok (patches_of patchset_id db)

  unfoldable pub get_patch_requests : Db → Result (List PatchRequest)
  get_patch_requests db = do
    run drv Statement.select_requests db
    ok (sort_desc_by (λ (r : PatchRequest). r.id) db.requests)

  unfoldable pub get_patch_requests_active : Db → Result (List PatchRequest)
  get_patch_requests_active db = do
    run drv Statement.select_requests db
    let now = drv.now Statement.select_requests db
    ok (
        sort_desc_by (λ (r : PatchRequest). r.last_activity)
          (where_rows (is_active now) db.requests))

  unfoldable pub get_patch_requests_inactive : Db → Result (List PatchRequest)
  get_patch_requests_inactive db = do
    run drv Statement.select_requests db
    let now = drv.now Statement.select_requests db
    ok (
        sort_desc_by (λ (r : PatchRequest). r.last_activity)
          (where_rows (λ r. ltb (r.last_activity + fourteen_days) now) db.requests))

  unfoldable pub get_patch_requests_by_repo_name : Str → Db → Result (List PatchRequest)
  get_patch_requests_by_repo_name repo db = do
    run drv Statement.select_requests db
    ok (
        sort_desc_by (λ (r : PatchRequest). r.id)
          (where_rows (λ (r : PatchRequest). str_eq r.repo_name repo) db.requests))

  unfoldable pub get_patch_requests_by_pubkey : Str → Db → Result (List PatchRequest)
  get_patch_requests_by_pubkey pubkey db = do
    run drv Statement.select_requests db
    ok (sort_desc_by (λ (r : PatchRequest). r.id) (where_rows (authored_by pubkey db) db.requests))

  unfoldable pub get_patch_request_by_id : ℕ → Db → Result PatchRequest
  get_patch_request_by_id id db = do
    run drv Statement.select_requests db
    one_row (newest (λ (r : PatchRequest). r.id == id) db)

  unfoldable pub get_patch_request_by_repo_and_slug : Str → Str → Db → Result PatchRequest
  get_patch_request_by_repo_and_slug repo slug db = do
    run drv Statement.select_requests db
    one_row (newest (same_target repo slug) db)

  unfoldable pub get_event_logs : Db → Result (List EventLog)
  get_event_logs db = do
    run drv Statement.select_events db
    ok (sort_desc_by (λ (e : EventLog). e.created_at) db.event_logs)

  unfoldable pub get_event_logs_by_pr_id : ℕ → Db → Result (List EventLog)
  get_event_logs_by_pr_id request_id db = do
    run drv Statement.select_events db
    ok (
        sort_desc_by (λ (e : EventLog). e.created_at)
          (where_rows (λ (e : EventLog). e.patch_request_id.int64 == request_id) db.event_logs))

  unfoldable pub get_event_logs_by_user_id : ℕ → Db → Result (List EventLog)
  get_event_logs_by_user_id user_id db = do
    run drv Statement.select_events db
    ok (
        sort_desc_by (λ (e : EventLog). e.created_at)
          (where_rows (concerns user_id db) db.event_logs))
