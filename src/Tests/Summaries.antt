-- ===== src/Tests/Summaries.antt =====
-- Summaries of concrete changes.
use patchbin.Base.{Str, true, false, some, none, List, [], ◌∷◌, codes, ◌≡◌, refl}
use patchbin.Mbox.{LineOp, Fragment, File}
use patchbin.SemDiff.{
  ChangeKind, SemanticChange, Language, Grammar, language_for_file, extension, to_lower,
  language_of,
}
use patchbin.SemDiff.Changes.{
  change, is_edited, hunk_changes, analyzed_name, analyze_semantic_changes, merge_changes_by_entity,
  SemanticSummary, has_content, summarize_semantic_changes,
}
use patchbin.SemDiff.Entities.{DistinctKeys, best_rank, first_hunk, has_key}
use patchbin.SemDiff.Merged.{merge_changes_by_entity-DistinctKeys}
use patchbin.SemDiff.Reported.{
  analyze_semantic_changes-IsComplete, IsCounted, summarize_semantic_changes-IsCounted,
}

-- A function that two hunks touch, the second in its signature.
abbrev touched_twice : List SemanticChange
touched_twice =
    change ChangeKind.modified (codes "f") (codes "go") [] [] 0
    ∷ change ChangeKind.added (codes "f") (codes "up") [] [] 1
    ∷ change ChangeKind.signature_changed (codes "f") (codes "go") (codes "a") (codes "b") 2
    ∷ []

merge_changes_by_entity-DistinctKeys_example :
    DistinctKeys (merge_changes_by_entity touched_twice)
    × ((k : Str)
        → (best_rank k (merge_changes_by_entity touched_twice) ≡ best_rank k touched_twice)
          × (first_hunk k (merge_changes_by_entity touched_twice) ≡ first_hunk k touched_twice))
merge_changes_by_entity-DistinctKeys_example = merge_changes_by_entity-DistinctKeys touched_twice

-- The grammars of a build in which nothing is parsed.
abbrev pub blind : Grammar
blind = record {
  compiles = λ l. true;
  captures = λ l s. none;
  sha256_hex = λ s. s;
  iterate = λ es. es;
}

abbrev added_line : Fragment
added_line = record {
  comment = [];
  old_position = 3;
  old_lines = 0;
  new_position = 3;
  new_lines = 1;
  lines_added = 1;
  lines_deleted = 0;
  lines = record { op = LineOp.op_add; line = codes "y" } ∷ [];
}

abbrev go_file : File
go_file = record {
  old_name = [];
  new_name = codes "a.go";
  old_mode = 0;
  new_mode = 0;
  is_binary = false;
  fragments = added_line ∷ [];
}

go_is_known : language_for_file (analyzed_name blind go_file) ≡ some Language.golang
unfolding language_for_file extension to_lower language_of
go_is_known = refl

one_added_line : is_edited added_line ≡ true
unfolding is_edited
one_added_line = refl

analyze_semantic_changes-IsComplete_example :
    (k : Str) × (has_key k (hunk_changes blind Language.golang 0 added_line) ≡ true)
    × (has_key k (analyze_semantic_changes blind go_file) ≡ true)
analyze_semantic_changes-IsComplete_example =
    analyze_semantic_changes-IsComplete blind go_file Language.golang [] [] added_line go_is_known
      refl refl refl one_added_line

abbrev nothing_yet : SemanticSummary
nothing_yet = record {
  added = 0;
  modified = 0;
  signature_changed = 0;
  removed = 0;
  analyzed_file_count = 0;
  skipped_files = [];
}

summarize_semantic_changes-IsCounted_example :
    IsCounted nothing_yet touched_twice
      (summarize_semantic_changes nothing_yet (codes "a.go") true touched_twice)
    × ((summarize_semantic_changes nothing_yet
          (codes "a.go")
          true
          touched_twice).analyzed_file_count
        ≡ 1)
    × ((summarize_semantic_changes nothing_yet (codes "a.go") true touched_twice).skipped_files
        ≡ [])
    × (has_content (summarize_semantic_changes nothing_yet (codes "a.go") true touched_twice)
        ≡ true)
summarize_semantic_changes-IsCounted_example =
    summarize_semantic_changes-IsCounted nothing_yet (codes "a.go") true touched_twice
