-- ===== src/RangeDiff.antt =====
-- range_diff.go: the comparison of two patchsets, commit by commit. A size or a cost stays far
-- below 2 ^ 63, since a submission is at most 1 MB.
pub mod Matching
pub mod Output
pub mod Within
pub mod Covered
pub mod Exact
pub mod Patchsets
use patchbin.Base.{
  ℕ, zero, suc, ◌+◌, ◌-◌, ◌*◌, ◌/◌, Str, Bool, true, false, not, ◌&&◌, ◌||◌, ◌++◌, Option, none,
  some, List, [], ◌∷◌, map, codes, ◌==◌, ltb, leb, str_eq, length, get_elem?, take, if◌then◌else◌,
  any_row, first_row, Result, ok, err, Error, ◌>>=◌,
}
use patchbin.Base.Number.{format}
use patchbin.Base.Sort.{sort_by}
use patchbin.Store.{PatchText}
use patchbin.Mbox.{File, Line, Fragment, newline}

-- A `*Patch` with its files.
abbrev pub PatchFiles : Type 0
PatchFiles = PatchText × List File

pub data FileChange : Type 0 where
  added removed changed : FileChange

pub record RangeDiffFile : Type 0 where
  pub old_name : Str
  pub new_name : Str
  pub change : FileChange

pub data DiffType : Type 0 where
  rm add equal changed : DiffType

pub record RangeDiffHeader : Type 0 where
  pub old_idx : ℕ
  pub old_sha : Str
  pub old_author_name : Str
  pub old_author_email : Str
  pub old_title : Str
  pub old_body : Str
  pub new_idx : ℕ
  pub new_sha : Str
  pub new_author_name : Str
  pub new_author_email : Str
  pub new_title : Str
  pub new_body : Str
  pub title : Str
  pub content_equal : Bool
  pub author_changed : Bool
  pub title_changed : Bool
  pub body_changed : Bool

pub record RangeDiffOutput : Type 0 where
  pub header : RangeDiffHeader
  pub order : ℕ
  pub files : List RangeDiffFile
  pub type : DiffType

-- `patchEntry`; `matching` is `none` for -1.
pub record PatchEntry : Type 0 where
  pub patch : PatchFiles
  pub matching : Option ℕ
  pub size : ℕ

-- What is not decided by the code: the assignment of least cost (`ha.Solve`, of oddg's
-- hungarian-algorithm; `none` is a negative index), the order in which a map is iterated, and the order
-- in which `sort.Slice` leaves elements of which neither is less.
pub record Choices : Type 0 where
  pub solve : List (List ℕ) → List (Option ℕ)
  pub iterate : List (Str × File) → List (Str × File)
  pub sort_files : (RangeDiffFile → RangeDiffFile → Bool) → List RangeDiffFile → List RangeDiffFile
  pub sort_outputs :
      (RangeDiffOutput → RangeDiffOutput → Bool) → List RangeDiffOutput → List RangeDiffOutput

-- `NewRangeDiffHeader(nil, b, -1, idx)`
abbrev pub new_header : PatchFiles → ℕ → RangeDiffHeader
new_header (b, files) idx = record {
  old_idx = 0;
  old_sha = [];
  old_author_name = [];
  old_author_email = [];
  old_title = [];
  old_body = [];
  new_idx = idx;
  new_sha = b.commit_sha;
  new_author_name = b.author_name;
  new_author_email = b.author_email;
  new_title = b.title;
  new_body = b.body;
  title = b.title;
  content_equal = false;
  author_changed = false;
  title_changed = false;
  body_changed = false;
}

-- `NewRangeDiffHeader(a, nil, idx, -1)`
abbrev pub old_header : PatchFiles → ℕ → RangeDiffHeader
old_header (a, files) idx = record {
  old_idx = idx;
  old_sha = a.commit_sha;
  old_author_name = a.author_name;
  old_author_email = a.author_email;
  old_title = a.title;
  old_body = a.body;
  new_idx = 0;
  new_sha = [];
  new_author_name = [];
  new_author_email = [];
  new_title = [];
  new_body = [];
  title = a.title;
  content_equal = false;
  author_changed = false;
  title_changed = false;
  body_changed = false;
}

-- `NewRangeDiffHeader` of two patches
abbrev pub both_header : PatchFiles → PatchFiles → ℕ → ℕ → RangeDiffHeader
both_header (a, _) (b, _) old_idx new_idx = record {
  old_idx = old_idx;
  old_sha = a.commit_sha;
  old_author_name = a.author_name;
  old_author_email = a.author_email;
  old_title = a.title;
  old_body = a.body;
  new_idx = new_idx;
  new_sha = b.commit_sha;
  new_author_name = b.author_name;
  new_author_email = b.author_email;
  new_title = b.title;
  new_body = b.body;
  title = if str_eq a.content_sha b.content_sha then a.title else b.title;
  content_equal = str_eq a.content_sha b.content_sha;
  author_changed =
      not (str_eq a.author_name b.author_name) || not (str_eq a.author_email b.author_email);
  title_changed = not (str_eq a.title b.title);
  body_changed = not (str_eq a.body b.body);
}

unfoldable pub truncate_sha : Str → Str
truncate_sha sha = if ltb (length sha) 7 then sha else take 7 sha

-- `hdr.String()`
unfoldable pub print_header : RangeDiffHeader → Str
unfolding truncate_sha
print_header h =
    let new_part =
      format h.new_idx
      ++ (codes ":  " ++ (truncate_sha h.new_sha ++ (codes " " ++ (h.title ++ (newline ∷ []))))) in
    let old_part = format h.old_idx ++ (codes ":  " ++ truncate_sha h.old_sha) in
    if h.old_idx == 0
    then codes "-:  ------- > " ++ new_part
    else (if h.new_idx == 0
        then old_part ++ (codes " < -:  ------- " ++ (h.title ++ (newline ∷ [])))
        else (old_part ++ ((if h.content_equal then codes " = " else codes " ! ") ++ new_part)))
