-- ===== src/Mbox.antt =====
-- util.go: reading a patchset that `git format-patch --stdout` wrote. The parser of diffs and of
-- patch headers (bluekeyes/go-gitdiff) and the digest are the fields of `Tools`.
pub mod Texts
pub mod Context
use mathlib.Core.List.{flat_map}
use patchbin.Base.{
  ltb, ℕ, zero, suc, ◌+◌, Str, Bool, true, false, not, ◌&&◌, ◌||◌, Option, none, some, List, [],
  ◌∷◌, ◌++◌, map, codes, ◌==◌, str_eq, has_prefix, drop, length, take, if◌then◌else◌, any_row,
  Result, ok, err, Error, fail_if, ◌>>=◌, ◌>>◌,
}
use patchbin.Base.Space.{trim_space}
use patchbin.Base.Search.{index_of, split}
use patchbin.Store.{PatchText}

-- gitdiff.LineOp and gitdiff.Line
pub data LineOp : Type 0 where
  op_context op_delete op_add : LineOp

pub record Line : Type 0 where
  pub op : LineOp
  pub line : Str

-- gitdiff.TextFragment
pub record Fragment : Type 0 where
  pub comment : Str
  pub old_position : ℕ
  pub old_lines : ℕ
  pub new_position : ℕ
  pub new_lines : ℕ
  pub lines_added : ℕ
  pub lines_deleted : ℕ
  pub lines : List Line

-- gitdiff.File, without what the code does not read
pub record File : Type 0 where
  pub old_name : Str
  pub new_name : Str
  pub old_mode : ℕ
  pub new_mode : ℕ
  pub is_binary : Bool
  pub fragments : List Fragment

pub record Author : Type 0 where
  pub name : Str
  pub email : Str

-- gitdiff.PatchHeader; `Author` is a pointer
pub record PatchHeader : Type 0 where
  pub author : Option Author
  pub author_date : ℕ
  pub title : Str
  pub body : Str
  pub body_appendix : Str
  pub sha : Str

-- What is not under this repository: `gitdiff.Parse`, `gitdiff.ParsePatchHeader`, `Line.String`,
-- `FileMode.String`, and SHA-256 in hexadecimal.
pub record Tools : Type 0 where
  pub parse_patch : Str → Result (List File × Str)
  pub parse_header : Str → Result PatchHeader
  pub line_string : Line → Str
  pub mode_string : ℕ → Str
  pub sha256_hex : Str → Str

abbrev pub start_of_patch : Str
start_of_patch = codes "From "

abbrev pub base_commit_mark : Str
base_commit_mark = codes "base-commit: "

abbrev pub newline : ℕ
newline = 10

-- `.+` of a regular expression: the text up to the end of the line.
unfoldable pub rest_of_line : Str → Str
rest_of_line [] = []
rest_of_line (c ∷ s) = let rest = rest_of_line s in if c == newline then [] else c ∷ rest

-- The first match of `base-commit: (.+)\s*`; the group is empty if there is none.
unfoldable pub find_base_commit : Str → Str
unfolding rest_of_line
find_base_commit [] = []
find_base_commit (c ∷ s) =
    let here = rest_of_line (drop (length base_commit_mark) (c ∷ s)) in
    let later = find_base_commit s in
    if has_prefix (c ∷ s) base_commit_mark && not (str_eq here []) then here else later

unfoldable pub split_patch_set : Str → List Str
split_patch_set text = split text (newline ∷ start_of_patch)

abbrev pub name_of : PatchHeader → Str
name_of h = elim h.author [ none ↦ [] | some a ↦ a.name ]

abbrev pub email_of : PatchHeader → Str
email_of h = elim h.author [ none ↦ [] | some a ↦ a.email ]

-- Does a line of the fragment name a base commit?
abbrev pub line_has_base : Line → Bool
line_has_base l = not (str_eq (find_base_commit l.line) [])

abbrev pub fragment_has_base : Fragment → Bool
fragment_has_base f = any_row line_has_base f.lines

abbrev pub file_has_base : File → Bool
file_has_base f = any_row fragment_has_base f.fragments

module _ (tools : Tools) where
  -- Only added and deleted lines count.
  unfoldable pub line_content : Line → Str
  line_content l = elim l.op [
    | op_context ↦ []
    | op_delete ↦ tools.line_string l
    | op_add ↦ tools.line_string l
  ]

  unfoldable pub lines_content : List Line → Str
  unfolding line_content
  lines_content [] = []
  lines_content (l ∷ ls) = line_content l ++ lines_content ls

  unfoldable pub fragments_content : List Fragment → Str
  unfolding lines_content
  fragments_content [] = []
  fragments_content (f ∷ fs) = lines_content f.lines ++ fragments_content fs

  -- `"%s->%s %s->%s\n"` and the lines
  unfoldable pub file_content : File → Str
  unfolding fragments_content
  file_content f =
      f.old_name
      ++ (codes "->"
          ++ (f.new_name
              ++ (codes " "
                  ++ (tools.mode_string f.old_mode
                      ++ (codes "->"
                          ++ (tools.mode_string f.new_mode
                              ++ (newline ∷ fragments_content f.fragments)))))))

  unfoldable pub files_content : List File → Str
  unfolding file_content
  files_content [] = []
  files_content (f ∷ fs) = (if file_has_base f then [] else file_content f) ++ files_content fs

  unfoldable pub calc_content_sha : List File → PatchHeader → Str
  unfolding files_content
  calc_content_sha files header = tools.sha256_hex (
      header.title
      ++ (newline
          ∷ (header.body
              ++ (newline
                  ∷ (name_of header
                      ++ (newline ∷ (email_of header ++ (newline ∷ files_content files))))))))

  -- A patch as it is parsed: the columns, and the files.
  abbrev pub patch_of : Str → Str → List File → PatchHeader → PatchText × List File
  patch_of raw text files header = (
    record {
      author_name = elim header.author [ none ↦ codes "Unknown" | some a ↦ a.name ];
      author_email = email_of header;
      author_date = header.author_date;
      title = header.title;
      body = header.body;
      body_appendix = header.body_appendix;
      commit_sha = header.sha;
      content_sha = calc_content_sha files header;
      base_commit_sha = record { string = find_base_commit raw; valid = false };
      raw_text = text;
    },
    files,
  )

  -- One round of the loop: `raw` is the part as it was split off, `text` the part as it is stored.
  unfoldable pub parse_part : Str → Str → Result (PatchText × List File)
  parse_part raw text = do
    (files, preamble) ← tools.parse_patch text
    header ← tools.parse_header preamble
    ok (patch_of raw text files header)

  -- The parts behind the first one lost their "From " when they were split.
  unfoldable pub parse_rest : List Str → Result (List (PatchText × List File))
  parse_rest [] = ok []
  parse_rest (raw ∷ raws) = do
    p ← parse_part raw (start_of_patch ++ raw)
    ps ← parse_rest raws
    ok (p ∷ ps)

  unfoldable pub parse_parts : List Str → Result (List (PatchText × List File))
  parse_parts [] = ok []
  parse_parts (raw ∷ raws) = do p ← parse_part raw raw; ps ← parse_rest raws; ok (p ∷ ps)

  unfoldable pub parse_patchset : Str → Result (List (PatchText × List File))
  parse_patchset text = do
    fail_if (str_eq (trim_space text) []) Error.patchset_empty
    fail_if (not (has_prefix text start_of_patch)) Error.patchset_unrecognized
    parse_parts (split_patch_set text)

-- strings.LastIndex
unfoldable pub last_index_of : Str → Str → Option ℕ
last_index_of [] sub = if has_prefix [] sub then some 0 else none
last_index_of (c ∷ s) sub = elim (last_index_of s sub) [
  | some i ↦ some (suc i)
  | none ↦ if has_prefix (c ∷ s) sub then some 0 else none
]

-- `str[from:to]`, which panics unless `from <= to`.
abbrev pub slice : Str → ℕ → ℕ → Result Str
slice s from to = if ltb to from then err Error.panic else ok (drop from (take to s))

-- The diff of a patch, up to the signature that `git format-patch` writes.
unfoldable pub patch_to_diff : Str → Result Str
unfolding last_index_of
patch_to_diff text = elim (index_of text (codes "diff --git")) [
  | none ↦ err Error.no_diff
  | some i ↦ elim (last_index_of text (codes "-- \n")) [
    | none ↦ ok (drop i text)
    | some j ↦ slice text i j
  ]
]
