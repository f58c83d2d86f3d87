-- ===== src/RangeDiff/Output.antt =====
-- What the comparison shows of each commit, and its text.
use patchbin.Base.{
  ℕ, suc, Str, Bool, true, false, ◌++◌, Option, none, some, List, [], ◌∷◌, map, codes, ltb, str_eq,
  not, get_elem?, any_row, if◌then◌else◌, Result, ok, err, Error, ◌>>=◌, where_rows, first_row,
  ◌||◌, ◌&&◌, ◌==◌,
}
use patchbin.Mbox.{File, Line, Fragment, Tools, newline}
use patchbin.RangeDiff.{
  PatchFiles, PatchEntry, FileChange, RangeDiffFile, DiffType, RangeDiffOutput, Choices, new_header,
  old_header, both_header, print_header,
}
use patchbin.RangeDiff.Matching.{
  entry, sha_of, find_exact_matches, get_correspondences, creation_factor_default,
}

abbrev pub file_change : FileChange → File → RangeDiffFile
file_change c f = record { old_name = f.old_name; new_name = f.new_name; change = c }

unfoldable pub files_added : PatchFiles → List RangeDiffFile
files_added p = map (file_change FileChange.added) p.1

unfoldable pub files_removed : PatchFiles → List RangeDiffFile
files_removed p = map (file_change FileChange.removed) p.1

abbrev pub is_named : Str → Str × File → Bool
is_named name (n, _) = str_eq n name

-- The map from new names to files: the last file of a name stays.
unfoldable pub by_new_name : List File → List (Str × File)
by_new_name [] = []
by_new_name (f ∷ fs) =
    let rest = by_new_name fs in
    if any_row (is_named f.new_name) rest then rest else (f.new_name, f) ∷ rest

-- `a < b` of strings
unfoldable pub str_less : Str → Str → Bool
str_less s [] = false
str_less [] (d ∷ t) = true
str_less (c ∷ s) (d ∷ t) = let rest = str_less s t in ltb c d || ((c == d) && rest)

module _ (tools : Tools) (choices : Choices) where
  unfoldable pub lines_text : List Line → Str
  lines_text [] = []
  lines_text (l ∷ ls) = tools.line_string l ++ lines_text ls

  unfoldable pub fragments_text : List Fragment → Str
  unfolding lines_text
  fragments_text [] = []
  fragments_text (f ∷ fs) = lines_text f.lines ++ fragments_text fs

  -- `fileContent`
  abbrev pub file_text : File → Str
  file_text f = fragments_text f.fragments

  -- The first loop of `filesChanged`
  unfoldable pub changed_or_removed : List (Str × File) → List (Str × File) → List RangeDiffFile
  unfolding fragments_text
  changed_or_removed new_files [] = []
  changed_or_removed new_files ((name, f) ∷ fs) =
      let rest = changed_or_removed new_files fs in
      elim (first_row (is_named name) new_files) [
        | none ↦ record { old_name = f.old_name; new_name = []; change = FileChange.removed } ∷ rest
        | some (_, g) ↦
            if str_eq (file_text f) (file_text g)
            then rest
            else (record {
              old_name = f.old_name;
              new_name = g.new_name;
              change = FileChange.changed;
            }
                ∷ rest)
      ]

  unfoldable pub files_changed : PatchFiles → PatchFiles → List RangeDiffFile
  unfolding by_new_name changed_or_removed str_less
  files_changed (_, olds) (_, news) =
      let old_files = by_new_name olds in
      let new_files = by_new_name news in
      let absent =
        where_rows (λ (p : Str × File). not (any_row (is_named p.0) old_files))
          (choices.iterate new_files) in
      choices.sort_files (λ x y. str_less x.new_name y.new_name)
        (changed_or_removed new_files (choices.iterate old_files)
          ++ map (λ (p : Str × File). file_change FileChange.added p.1) absent)

  -- The commits of `a` that are matched by none of `b`, from the one at `i`.
  unfoldable pub removed_outputs : ℕ → List PatchEntry → List RangeDiffOutput
  unfolding files_removed
  removed_outputs i [] = []
  removed_outputs i (a ∷ olds) =
      let rest = removed_outputs (suc i) olds in
      elim a.matching [
        | none ↦
            record {
              header = old_header a.patch (suc i);
              order = suc i;
              files = files_removed a.patch;
              type = DiffType.rm;
            }
            ∷ rest
        | some _ ↦ rest
      ]

  -- A matching as it is printed: 0 for -1.
  abbrev pub one_based : Option ℕ → ℕ
  one_based none = 0
  one_based (some i) = suc i

  unfoldable pub matched_output : ℕ → PatchEntry → PatchEntry → RangeDiffOutput
  unfolding files_changed
  matched_output i a b =
      let same = str_eq (sha_of b) (sha_of a) in
      record {
        header = both_header a.patch b.patch (suc i) (one_based a.matching);
        order = one_based a.matching;
        files = if same then [] else files_changed a.patch b.patch;
        type = if same then DiffType.equal else DiffType.changed;
      }

  -- A commit that is matched: `a[entryB.Matching]` panics if there is none.
  abbrev pub matched_or_panic : ℕ → PatchEntry → Option PatchEntry → Result RangeDiffOutput
  matched_or_panic i b none = err Error.panic
  matched_or_panic i b (some a) = ok (matched_output i a b)

  -- One commit of `b`
  unfoldable pub output_of : List PatchEntry → ℕ → PatchEntry → Result RangeDiffOutput
  unfolding files_added
  output_of olds j b = elim b.matching [
    | none ↦ ok (record {
      header = new_header b.patch (suc j);
      order = suc j;
      files = files_added b.patch;
      type = DiffType.add;
    })
    | some i ↦ matched_or_panic i b (get_elem? olds i)
  ]

  unfoldable pub other_outputs :
      List PatchEntry → ℕ → List PatchEntry → Result (List RangeDiffOutput)
  unfolding output_of
  other_outputs olds j [] = ok []
  other_outputs olds j (b ∷ news) = do
    o ← output_of olds j b
    os ← other_outputs olds (suc j) news
    ok (o ∷ os)

  unfoldable pub build_output : List PatchEntry → List PatchEntry → Result (List RangeDiffOutput)
  unfolding removed_outputs other_outputs
  build_output olds news = do
    os ← other_outputs olds 0 news
    ok (choices.sort_outputs (λ x y. ltb x.order y.order) (removed_outputs 0 olds ++ os))

  unfoldable pub range_diff : List PatchFiles → List PatchFiles → Result (List RangeDiffOutput)
  unfolding find_exact_matches get_correspondences build_output
  range_diff a b =
      let (olds, news) = find_exact_matches 0 (map entry a) (map entry b) in
      do
        (olds', news') ← get_correspondences choices.solve olds news creation_factor_default
        build_output olds' news'

abbrev pub sign : FileChange → Str
sign FileChange.added = codes "  + "
sign FileChange.removed = codes "  - "
sign FileChange.changed = codes "  ~ "

abbrev pub shown_name : RangeDiffFile → Str
shown_name f = if str_eq f.new_name [] then f.old_name else f.new_name

unfoldable pub print_files : List RangeDiffFile → Str
print_files [] = []
print_files (f ∷ fs) = sign f.change ++ (shown_name f ++ (newline ∷ print_files fs))

unfoldable pub range_diff_to_str : List RangeDiffOutput → Str
unfolding print_header print_files
range_diff_to_str [] = []
range_diff_to_str (d ∷ ds) = print_header d.header ++ (print_files d.files ++ range_diff_to_str ds)
