-- ===== src/Cli/Reading.antt =====
-- The commands `pull`, `show`, `ls` and `logs` of cli.go. A table is a list of its rows, without the
-- frame and the colors; times are printed by the configuration's layout.
use patchbin.Base.{
  ℕ, ◌+◌, Str, Bool, true, false, not, ◌&&◌, Option, none, some, List, [], ◌∷◌, ◌++◌, map, codes,
  ltb, str_eq, any_row, first_row, length, trim_suffix, ◌==◌, if◌then◌else◌, Result, ok, err, Error,
  ◌>>=◌,
}
use patchbin.Base.Number.{parse_int, format}
use patchbin.Target.{positive_rev, dot_patch, colon}
use patchbin.Store.{User, PatchRequest, Patchset, Patch, EventKind, EventData, EventLog, Db, Driver}
use patchbin.Pr.Queries.{
  fourteen_days, get_user_by_id, get_patchsets_by_pr_id, get_patchset_by_id,
  get_patches_by_patchset_id, get_patch_requests, get_patch_requests_by_repo_name,
  get_patch_request_by_id, get_event_logs, get_event_logs_by_pr_id, get_event_logs_by_user_id,
}
use patchbin.Pr.Users.{upsert_user_by_pubkey}
use patchbin.Resolve.{resolve_target, get_patchset_rev}
use patchbin.CoverLetter.{Layouts, line_end, generate_mbox_with_cover_letter}
use patchbin.Keys.{compute_user_name}
use patchbin.Cli.{with_revision, pr_summary}
use patchbin.Cli.Talk.{named_request}

-- `strings.TrimSuffix(raw, ".patch")` with a revision, if a second argument is a positive number.
abbrev pub pull_revision : Str → Option ℕ → Str
pull_revision raw none = raw
pull_revision raw (some n) = with_revision (trim_suffix raw dot_patch) (some n)

abbrev pub pull_target : Str → List Str → Str
pull_target raw [] = raw
pull_target raw (second ∷ rest) = pull_revision raw (positive_rev (parse_int second))

-- A map from ids to users.
abbrev pub users_at : List (ℕ × User) → ℕ → Option User
users_at users id = elim (first_row (λ (u : ℕ × User). u.0 == id) users) [
  | none ↦ none
  | some u ↦ some u.1
]

-- A user who cannot be loaded stays away.
abbrev pub keep_user : ℕ → List (ℕ × User) → Result User → List (ℕ × User)
keep_user id users (err e) = users
keep_user id users (ok user) = users ++ (id, user) ∷ []

module _ (drv : Driver) where
  unfoldable pub resolve_users : List EventLog → List (ℕ × User) → Db → List (ℕ × User)
  resolve_users [] users db = users
  resolve_users (e ∷ es) users db =
      resolve_users es
        (if any_row (λ (u : ℕ × User). u.0 == e.user_id) users
          then users
          else keep_user e.user_id users (get_user_by_id drv e.user_id db))
        db

  -- What `printCoverLetterForPatchset` prints.
  unfoldable pub print_cover_letter : Layouts → Str → Patchset → Db → Result Str
  print_cover_letter layouts url patchset db = do
    pr ← get_patch_request_by_id drv patchset.patch_request_id db
    patches ← get_patches_by_patchset_id drv patchset.id db
    events ← get_event_logs_by_pr_id drv patchset.patch_request_id db
    let users = resolve_users events [] db
    ok (
        generate_mbox_with_cover_letter layouts pr (map (λ (p : Patch). p.content) patches) events
          (users_at users) url
        ++ line_end)

  unfoldable pub pull : Layouts → Str → List Str → Db → Result Str
  pull layouts url [] db = err Error.missing_target
  pull layouts url (raw ∷ rest) db = do
    found ← resolve_target drv (pull_target raw rest) db
    print_cover_letter layouts url found.1 db

  unfoldable pub show : List Str → Db → Result (Unit {0})
  show [] db = err Error.missing_target
  show (raw ∷ rest) db = do pr ← named_request drv raw db; pr_summary drv pr db

-- The flags of `ls`, and the time it runs at.
pub record Listing : Type 0 where
  pub only_active : Bool
  pub only_inactive : Bool
  pub only_mine : Bool
  pub now : ℕ

-- A request that was active exactly 14 days ago passes both flags.
abbrev pub in_time : Listing → PatchRequest → Bool
in_time flags r =
    not (flags.only_active && ltb (r.last_activity + fourteen_days) flags.now)
    && not (flags.only_inactive && ltb flags.now (r.last_activity + fourteen_days))

abbrev pub by_whom : Listing → Str → Result User → Bool
by_whom flags pubkey (err e) = false
by_whom flags pubkey (ok user) = not (flags.only_mine && not (str_eq user.pubkey pubkey))

pub record Row : Type 0 where
  pub target : Str
  pub patchset_count : ℕ
  pub user_name : Str
  pub last_activity : ℕ
  pub title : Str

abbrev pub full_target : PatchRequest → Str
full_target r = r.repo_name ++ (colon ∷ r.slug)

module _ (drv : Driver) where
  unfoldable pub matching_requests : Listing → Str → Db → List PatchRequest → List PatchRequest
  matching_requests flags pubkey db [] = []
  matching_requests flags pubkey db (r ∷ rs) =
      let rest = matching_requests flags pubkey db rs in
      if in_time flags r && by_whom flags pubkey (get_user_by_id drv r.user_id db)
      then r ∷ rest
      else rest

  -- A nil user is a panic; a request without patchsets is passed over.
  abbrev pub list_row :
      Layouts → PatchRequest → Result User → Result (List Patchset) → Result (List Row)
  list_row layouts r user (err e) = ok []
  list_row layouts r (err e) (ok patchsets) = err Error.panic
  list_row layouts r (ok user) (ok patchsets) = ok (
      record {
        target = full_target r;
        patchset_count = length patchsets;
        user_name = compute_user_name layouts user.pubkey;
        last_activity = r.last_activity;
        title = r.name;
      }
      ∷ [])

  unfoldable pub list_rows : Layouts → Db → List PatchRequest → Result (List Row)
  list_rows layouts db [] = ok []
  list_rows layouts db (r ∷ rs) = do
    row ← list_row layouts r (get_user_by_id drv r.user_id db) (get_patchsets_by_pr_id drv r.id db)
    rows ← list_rows layouts db rs
    ok (row ++ rows)

  abbrev pub listed_requests : List Str → Db → Result (List PatchRequest)
  listed_requests [] db = get_patch_requests drv db
  listed_requests (repo ∷ rest) db =
      if str_eq repo []
      then get_patch_requests drv db
      else get_patch_requests_by_repo_name drv repo db

  unfoldable pub list_requests : Layouts → Listing → Str → List Str → Db → Result (List Row)
  list_requests layouts flags pubkey args db = do
    prs ← listed_requests args db
    list_rows layouts db (matching_requests flags pubkey db prs)

pub record LogRow : Type 0 where
  pub target : Str
  pub patchset : Str
  pub event : EventKind
  pub created_at : ℕ
  pub payload : EventData

abbrev pub dash : Str
dash = codes "-"

abbrev pub request_name : ℕ → Result PatchRequest → Str
request_name id (err e) = codes "#" ++ format id
request_name id (ok pr) = full_target pr

module _ (drv : Driver) where
  abbrev pub revision_name : ℕ → Db → Result Patchset → Str
  revision_name id db (err e) = codes "v" ++ format id
  revision_name id db (ok ps) = codes "v" ++ format (get_patchset_rev drv (some ps) db)

  unfoldable pub log_row : Db → EventLog → LogRow
  log_row db e = record {
    target =
        if e.patch_request_id.valid && ltb 0 e.patch_request_id.int64
        then request_name e.patch_request_id.int64
            (get_patch_request_by_id drv e.patch_request_id.int64 db)
        else dash;
    patchset =
        if e.patchset_id.valid && ltb 0 e.patchset_id.int64
        then revision_name e.patchset_id.int64 db (get_patchset_by_id drv e.patchset_id.int64 db)
        else dash;
    event = e.event;
    created_at = e.created_at;
    payload = e.payload;
  }

  -- `--pubkey` wins over `--pr`.
  unfoldable pub selected_logs : Bool → Str → User → Db → Result (List EventLog)
  selected_logs true target user db = get_event_logs_by_user_id drv user.id db
  selected_logs false [] user db = get_event_logs drv db
  selected_logs false (c ∷ target) user db = do
    found ← resolve_target drv (c ∷ target) db
    get_event_logs_by_pr_id drv found.0.id db

  abbrev pub logs_as : Bool → Str → Result User × Db → Result (List LogRow) × Db
  logs_as mine target (err e, db) = (err e, db)
  logs_as mine target (ok user, db) =
      (do events ← selected_logs mine target user db; ok (map (log_row db) events), db)

  unfoldable pub logs : Bool → Str → Str → Db → Result (List LogRow) × Db
  logs mine target pubkey db = logs_as mine target (upsert_user_by_pubkey drv pubkey db)
