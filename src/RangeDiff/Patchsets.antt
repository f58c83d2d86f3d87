-- ===== src/RangeDiff/Patchsets.antt =====
-- `DiffPatchsets` of pr.go: the comparison of two stored patchsets.
use patchbin.Base.{Str, Option, none, some, List, [], ◌∷◌, ◌++◌, map, Result, ok, err, ◌>>=◌}
use patchbin.Store.{Patch, Patchset, Db, Driver}
use patchbin.Pr.Queries.{get_patches_by_patchset_id}
use patchbin.Mbox.{File, Tools, start_of_patch}
use patchbin.RangeDiff.{PatchFiles, RangeDiffOutput, Choices}
use patchbin.RangeDiff.Output.{range_diff}

module _ (tools : Tools) where
  abbrev pub files_or_none : Result (List File × Str) → List File
  files_or_none (ok (files, preamble)) = files
  files_or_none (err e) = []

  -- A stored patch with the files that its text is parsed to; a text that cannot be parsed has none.
  abbrev pub with_files : Str → Patch → PatchFiles
  with_files text p = (p.content, files_or_none (tools.parse_patch text))

  -- Behind the first patch "From " is put in front once more, though the stored text has it.
  unfoldable pub all_with_files : List Patch → List PatchFiles
  all_with_files [] = []
  all_with_files (p ∷ ps) =
      with_files p.content.raw_text p
      ∷ map (λ (q : Patch). with_files (start_of_patch ++ q.content.raw_text) q) ps

  -- `prev` is none for `nil`.
  unfoldable pub diff_patchsets :
      Choices → Driver → Option Patchset → Patchset → Db → Result (List RangeDiffOutput)
  unfolding all_with_files
  diff_patchsets choices drv prev next db = do
    patches ← get_patches_by_patchset_id drv next.id db
    elim prev [
      | none ↦ ok []
      | some p ↦ get_patches_by_patchset_id drv p.id db >>= λ older.
          range_diff tools choices (all_with_files older) (all_with_files patches)
    ]
