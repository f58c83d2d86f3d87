-- ===== src/Web/Detail.antt =====
-- web_pr_detail.go: the page of a patch request. The rest of it is in `Web.Selected`.
use patchbin.Base.{
  ℕ, suc, Str, true, false, ◌&&◌, Option, none, some, List, [], ◌∷◌, ◌++◌, map, not, ◌==◌, ltb,
  first_row, Result, ok, err, Error, ◌>>=◌,
}
use patchbin.Base.Sort.{sort_by}
use patchbin.Store.{User, PatchRequest, Patchset, Patch, EventLog, Db}
use patchbin.Mbox.{Fragment, File}
use patchbin.Pr.Queries.{
  get_user_by_id, get_patchset_by_id, get_patchsets_by_pr_id, get_patches_by_patchset_id,
  get_event_logs_by_pr_id,
}
use patchbin.RangeDiff.{RangeDiffOutput}
use patchbin.RangeDiff.Patchsets.{diff_patchsets}
use patchbin.SemDiff.{SemanticChange, supports_semantic_diff}
use patchbin.SemDiff.Changes.{
  SemanticSummary, analyzed_name, analyze_semantic_changes, summarize_semantic_changes,
}
use patchbin.DiffHtml.{format_diff_hunk}
use patchbin.Keys.{is_admin, compute_user_name}
use patchbin.Web.Data.{
  UserData, PatchsetData, EventLogData, PatchHunk, PatchFile, PatchData, Site, patch_url, address,
  file_anchor_of, hunk_anchor_of, no_summary, sum_adds, sum_dels,
}

module _ (site : Site) where
  -- A key that cannot be parsed is an error.
  unfoldable pub user_data : User → Result UserData
  user_data user = elim (site.keyring.parse_authorized_key user.pubkey) [
    | none ↦ err Error.io_error
    | some key ↦ ok (record {
      user_id = user.id;
      name = compute_user_name site.layouts user.pubkey;
      admin = is_admin site.keyring key;
      pubkey = user.pubkey;
      created_at = site.layouts.rfc3339 user.created_at;
    })
  ]

  abbrev pub diff_from : Option Patchset → Patchset → Db → Result (List RangeDiffOutput)
  diff_from none patchset db = ok []
  diff_from (some prev) patchset db =
      diff_patchsets site.tools site.choices site.drv (some prev) patchset db

  abbrev pub patchset_data :
      PatchRequest → ℕ → Patchset → List RangeDiffOutput → UserData → PatchsetData
  patchset_data pr rev patchset diff user = record {
    patchset = patchset;
    user = user;
    formatted_id = address pr rev;
    date = site.layouts.rfc3339 patchset.created_at;
    range_diff = diff;
  }

  -- A panic of the comparison ends the request; any other error passes the patchset over.
  abbrev pub shown_patchset :
      PatchRequest
      → ℕ
      → Patchset
      → Result User
      → Result (List RangeDiffOutput)
      → Result (List PatchsetData)
  shown_patchset pr rev patchset (err e) diff = ok []
  shown_patchset pr rev patchset (ok user) (err Error.panic) = err Error.panic
  shown_patchset pr rev patchset (ok user) (err e) = ok []
  shown_patchset pr rev patchset (ok user) (ok diff) =
      user_data user >>= λ data'. ok (patchset_data pr rev patchset diff data' ∷ [])

  -- `prev` is the patchset in front, `rev` counts from 1.
  unfoldable pub patchsets_data :
      PatchRequest → ℕ → Option Patchset → Db → List Patchset → Result (List PatchsetData)
  unfolding user_data
  patchsets_data pr rev prev db [] = ok []
  patchsets_data pr rev prev db (p ∷ ps) = do
    shown ← shown_patchset pr rev p (get_user_by_id site.drv p.user_id db) (diff_from prev p db)
    rest ← patchsets_data pr (suc rev) (some p) db ps
    ok (shown ++ rest)

  -- The patches are read only if a patchset is shown.
  abbrev pub patches_if_any : Patchset → Db → List PatchsetData → Result (List Patch)
  patches_if_any ps db [] = ok []
  patches_if_any ps db (d ∷ ds) = get_patches_by_patchset_id site.drv ps.id db

  unfoldable pub get_all_patch_data :
      PatchRequest → Patchset → Db → Result (List Patch × List PatchsetData)
  unfolding patchsets_data
  get_all_patch_data pr ps db = do
    patchsets ← get_patchsets_by_pr_id site.drv pr.id db
    shown ← patchsets_data pr 1 none db patchsets
    patches ← patches_if_any ps db shown
    ok (patches, shown)

  unfoldable pub hunks_from : ℕ → Str → ℕ → List Fragment → List PatchHunk
  hunks_from id file hunk [] = []
  hunks_from id file hunk (f ∷ fs) =
      record {
        anchor = hunk_anchor_of id file hunk;
        diff_text = format_diff_hunk site.painter file f (hunk_anchor_of id file hunk);
      }
      ∷ hunks_from id file (suc hunk) fs

  abbrev pub with_anchor : ℕ → Str → SemanticChange → SemanticChange
  with_anchor id file c = record c { hunk_anchor = hunk_anchor_of id file c.hunk_index }

  abbrev pub changes_of : ℕ → File → List SemanticChange
  changes_of id f =
      map (with_anchor id (analyzed_name site.grammar f)) (analyze_semantic_changes site.grammar f)

  unfoldable pub patch_file : ℕ → File → PatchFile
  unfolding hunks_from sum_adds sum_dels
  patch_file id f =
      let name = analyzed_name site.grammar f in
      record {
        file = f;
        display_name = name;
        file_anchor = file_anchor_of id name;
        adds = sum_adds f.fragments;
        dels = sum_dels f.fragments;
        hunks = hunks_from id name 0 f.fragments;
        semantic_changes = changes_of id f;
      }

  unfoldable pub summary_of : ℕ → SemanticSummary → List File → SemanticSummary
  summary_of id s [] = s
  summary_of id s (f ∷ fs) =
      let name = analyzed_name site.grammar f in
      summary_of id
        (summarize_semantic_changes s name (supports_semantic_diff name && not f.is_binary)
          (changes_of id f))
        fs

  unfoldable pub get_patch_data : Patch → Result PatchData
  unfolding patch_file summary_of
  get_patch_data patch = do
    (files, preamble) ← site.tools.parse_patch patch.content.raw_text
    header ← site.tools.parse_header preamble
    ok (record {
      patch = patch;
      patch_files = map (patch_file patch.id) files;
      patch_header = header;
      url = patch_url patch;
      formatted_author_date = site.time_format patch.content.author_date;
      semantic_summary = summary_of patch.id no_summary files;
    })

  -- The patchset of an event, with its data if it is shown.
  abbrev pub log_with : EventLog → UserData → Option Patchset → Option PatchsetData → EventLogData
  log_with e user patchset none = record {
    event_log = e;
    user = user;
    patchset = patchset;
    formatted_patchset_id = [];
    date = site.time_format e.created_at;
    range_diff = [];
  }
  log_with e user patchset (some d) = record {
    event_log = e;
    user = user;
    patchset = patchset;
    formatted_patchset_id = d.formatted_id;
    date = site.time_format e.created_at;
    range_diff = d.range_diff;
  }

  unfoldable pub log_of : List PatchsetData → EventLog → UserData → Db → Result EventLogData
  log_of shown e user db = elim (ltb 0 e.patchset_id.int64) [
    | false ↦ ok (log_with e user none none)
    | true ↦
        (get_patchset_by_id site.drv e.patchset_id.int64 db >>= λ patchset. ok (
          log_with e user (some patchset)
            (first_row (λ (d : PatchsetData). d.patchset.id == e.patchset_id.int64) shown)))
  ]

  -- A user who is not there is a nil pointer.
  abbrev pub user_or_panic : Result User → Result User
  user_or_panic (err e) = err Error.panic
  user_or_panic (ok user) = ok user

  unfoldable pub logs_data : List PatchsetData → Db → List EventLog → Result (List EventLogData)
  unfolding user_data log_of
  logs_data shown db [] = ok []
  logs_data shown db (e ∷ es) = do
    user ← user_or_panic (get_user_by_id site.drv e.user_id db)
    data' ← user_data user
    log ← log_of shown e data' db
    rest ← logs_data shown db es
    ok (log ∷ rest)

  -- Oldest first.
  unfoldable pub get_log_data : ℕ → List PatchsetData → Db → Result (List EventLogData)
  unfolding logs_data
  get_log_data id shown db = do
    events ← get_event_logs_by_pr_id site.drv id db
    logs_data shown db (sort_by (λ (e : EventLog). e.created_at) events)
