-- ===== src/Web/Data.antt =====
-- The data that the template of a patch request's page gets, of web_pr_detail.go.
use patchbin.Base.{ℕ, ◌+◌, Str, Bool, Option, List, [], ◌∷◌, ◌++◌, codes}
use patchbin.Base.Number.{format}
use patchbin.Store.{PatchRequest, Patchset, Patch, EventLog, Driver}
use patchbin.Mbox.{Fragment, File, PatchHeader, Tools}
use patchbin.RangeDiff.{RangeDiffOutput, Choices}
use patchbin.CoverLetter.{Layouts}
use patchbin.SemDiff.{SemanticChange, Grammar}
use patchbin.SemDiff.Changes.{SemanticSummary}
use patchbin.DiffHtml.{Painter}
use patchbin.Web.Feeds.{FeedLayouts}
use patchbin.Keys.{Keyring}

pub record UserData : Type 0 where
  pub user_id : ℕ
  pub name : Str
  pub admin : Bool
  pub pubkey : Str
  pub created_at : Str

pub record PatchsetData : Type 0 where
  pub patchset : Patchset
  pub user : UserData
  pub formatted_id : Str
  pub date : Str
  pub range_diff : List RangeDiffOutput

pub record EventLogData : Type 0 where
  pub event_log : EventLog
  pub user : UserData
  pub patchset : Option Patchset
  pub formatted_patchset_id : Str
  pub date : Str
  pub range_diff : List RangeDiffOutput

pub record PatchHunk : Type 0 where
  pub anchor : Str
  pub diff_text : Str

pub record PatchFile : Type 0 where
  pub file : File
  pub display_name : Str
  pub file_anchor : Str
  pub adds : ℕ
  pub dels : ℕ
  pub hunks : List PatchHunk
  pub semantic_changes : List SemanticChange

pub record PatchData : Type 0 where
  pub patch : Patch
  pub patch_files : List PatchFile
  pub patch_header : PatchHeader
  pub url : Str
  pub formatted_author_date : Str
  pub semantic_summary : SemanticSummary

-- What the handlers take from outside.
pub record Site : Type 0 where
  pub drv : Driver
  pub tools : Tools
  pub choices : Choices
  pub layouts : Layouts
  pub feed_layouts : FeedLayouts
  pub keyring : Keyring
  pub grammar : Grammar
  pub painter : Painter
  pub time_format : ℕ → Str
  pub url : Str

abbrev pub patch_url : Patch → Str
patch_url p = codes "patch-" ++ format p.id

-- `repo/slug.rev`
abbrev pub address : PatchRequest → ℕ → Str
address pr rev = pr.repo_name ++ (codes "/" ++ (pr.slug ++ (codes "." ++ format rev)))

abbrev pub file_anchor_of : ℕ → Str → Str
file_anchor_of id file = codes "patch-" ++ (format id ++ (codes "-" ++ file))

unfoldable pub hunk_anchor_of : ℕ → Str → ℕ → Str
hunk_anchor_of id file hunk = file_anchor_of id file ++ (codes "-hunk-" ++ format hunk)

abbrev pub no_summary : SemanticSummary
no_summary = record {
  added = 0;
  modified = 0;
  signature_changed = 0;
  removed = 0;
  analyzed_file_count = 0;
  skipped_files = [];
}

unfoldable pub sum_adds : List Fragment → ℕ
sum_adds [] = 0
sum_adds (f ∷ fs) = f.lines_added + sum_adds fs

unfoldable pub sum_dels : List Fragment → ℕ
sum_dels [] = 0
sum_dels (f ∷ fs) = f.lines_deleted + sum_dels fs
