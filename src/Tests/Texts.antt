-- ===== src/Tests/Texts.antt =====
-- Targets, patchsets, cover letters and comparisons of concrete texts.
use mathlib.Core.List.Perm
use patchbin.Base.{
  ℕ, ◌≤◌, Str, false, Option, none, List, [], ◌∷◌, map, codes, length, has_suffix, ok, ◌≡◌, ◌≢◌,
  refl, arith,
}
use patchbin.Base.Space.{
  trim_space, trim_front, space_width, back_space_width, ascii_space, space2, space3,
}
use patchbin.Base.Search.{split, split_from, join, cut_last}
use patchbin.Store.{PatchText}
use patchbin.Target.{Target, print_target, parse_target, split_revision, dot_patch}
use patchbin.Target.RoundTrip.{IsPrintable, parse-print_target}
use patchbin.Target.Accepted.{IsAccepted, parse_target-IsAccepted}
use patchbin.Mbox.{
  LineOp, File, PatchHeader, Tools, newline, parse_patchset, parse_parts, parse_rest, parse_part,
  split_patch_set, find_base_commit, rest_of_line, calc_content_sha, files_content,
}
use patchbin.Mbox.Texts.{raw_texts, join-parse_patchset}
use patchbin.Mbox.Context.{bare_file, calc_content_sha-bare}
use patchbin.CoverLetter.{Layouts, build_discussion, generate_mbox_with_cover_letter}
use patchbin.CoverLetter.Preserved.{HasInserted, piece_of, texts, generate_mbox-HasInserted}
use patchbin.RangeDiff.{PatchFiles, RangeDiffOutput, Choices}
use patchbin.RangeDiff.Output.{range_diff}
use patchbin.RangeDiff.Covered.{IsShown, range_diff-shows}
use patchbin.Base.Number.{pos}
use patchbin.Resolve.{parse_id, get_formatted_patchset_id}
use patchbin.Resolve.Ids.{parse_id-get_formatted_patchset_id}
use patchbin.Tests.{request, patch_text}

abbrev second_revision : Target
second_revision = record { repo = codes "pico"; slug = codes "fix"; rev = 2 }

abbrev latest : Target
latest = record { repo = codes "pico"; slug = codes "fix"; rev = 0 }

second_revision-IsPrintable : IsPrintable second_revision
second_revision-IsPrintable = record {
  repo_filled = λ e. cc;
  repo_plain = refl;
  repo_white = refl;
  repo_colon = refl;
  slug_filled = λ e. cc;
  slug_white = refl;
}

latest-IsPrintable : IsPrintable latest
latest-IsPrintable = record {
  repo_filled = λ e. cc;
  repo_plain = refl;
  repo_white = refl;
  repo_colon = refl;
  slug_filled = λ e. cc;
  slug_white = refl;
}

fix_is_whole : split_revision (codes "fix") ≡ (codes "fix", 0)
unfolding split_revision cut_last
fix_is_whole = refl

latest_has_no_suffix : has_suffix (print_target latest) dot_patch ≡ false
unfolding print_target
latest_has_no_suffix = refl

parse-print_target_example : parse_target (print_target latest) ≡ ok latest
parse-print_target_example =
    parse-print_target latest latest-IsPrintable (omega arith)
      (λ e. (refl, latest_has_no_suffix, fix_is_whole))

second_is_parsed : parse_target (print_target second_revision) ≡ ok second_revision
second_is_parsed =
    parse-print_target second_revision second_revision-IsPrintable (omega arith)
      (λ unrevised. absurd (omega (arith, unrevised)))

parse_target-IsAccepted_example : IsAccepted second_revision
parse_target-IsAccepted_example =
    parse_target-IsAccepted (print_target second_revision) second_revision second_is_parsed

abbrev pub plain_header : PatchHeader
plain_header = record {
  author = none;
  author_date = 0;
  title = [];
  body = [];
  body_appendix = [];
  sha = [];
}

-- A parser that finds no file, and a digest that is the text itself.
abbrev pub simple_tools : Tools
simple_tools = record {
  parse_patch = λ s. ok ([], s);
  parse_header = λ s. ok plain_header;
  line_string = λ l. l.line;
  mode_string = λ m. [];
  sha256_hex = λ s. s;
}

abbrev pub two_patches : Str
two_patches = codes "From a\nFrom b"

abbrev parsed : Str → PatchText × List File
parsed raw = (
  record {
    author_name = codes "Unknown";
    author_email = [];
    author_date = 0;
    title = [];
    body = [];
    body_appendix = [];
    commit_sha = [];
    content_sha = codes "\n\n\n\n";
    base_commit_sha = record { string = []; valid = false };
    raw_text = raw;
  },
  [],
)

pub two_patches_are_parsed :
    parse_patchset simple_tools two_patches
    ≡ ok (parsed (codes "From a") ∷ parsed (codes "From b") ∷ [])
unfolding parse_patchset parse_parts parse_rest parse_part split_patch_set split split_from
    find_base_commit rest_of_line calc_content_sha files_content trim_space trim_front space_width
    back_space_width ascii_space space2 space3
two_patches_are_parsed = refl

join-parse_patchset_example :
    (parsed (codes "From a") ∷ parsed (codes "From b") ∷ [] ≢ [])
    × (join (raw_texts (parsed (codes "From a") ∷ parsed (codes "From b") ∷ [])) (newline ∷ [])
        ≡ two_patches)
join-parse_patchset_example =
    join-parse_patchset simple_tools two_patches
      (parsed (codes "From a") ∷ parsed (codes "From b") ∷ []) two_patches_are_parsed

abbrev pub plain_layouts : Layouts
plain_layouts = record { rfc3339 = λ t. []; rfc1123z = λ t. []; sha256_hex = λ s. s }

abbrev pub both_patches : List (PatchText × List File)
both_patches = parsed (codes "From a") ∷ parsed (codes "From b") ∷ []

generate_mbox-HasInserted_example :
    HasInserted two_patches
      (piece_of plain_layouts request
        (texts both_patches)
        (build_discussion plain_layouts [] (λ id. none))
        (codes "host"))
      (generate_mbox_with_cover_letter plain_layouts request
        (texts both_patches)
        []
        (λ id. none)
        (codes "host"))
generate_mbox-HasInserted_example =
    generate_mbox-HasInserted plain_layouts simple_tools two_patches both_patches request []
      (λ id. none) (codes "host") two_patches_are_parsed

-- A file with a context line and an added line.
abbrev changed_file : File
changed_file = record {
  old_name = codes "f";
  new_name = codes "f";
  old_mode = 0;
  new_mode = 0;
  is_binary = false;
  fragments =
      record {
        comment = [];
        old_position = 3;
        old_lines = 1;
        new_position = 3;
        new_lines = 2;
        lines_added = 1;
        lines_deleted = 0;
        lines =
            record { op = LineOp.op_context; line = codes "x" }
            ∷ record { op = LineOp.op_add; line = codes "y" }
            ∷ [];
      }
      ∷ [];
}

calc_content_sha-bare_example :
    calc_content_sha simple_tools (map bare_file (changed_file ∷ [])) plain_header
    ≡ calc_content_sha simple_tools (changed_file ∷ []) plain_header
unfolding find_base_commit rest_of_line
calc_content_sha-bare_example =
    calc_content_sha-bare simple_tools (changed_file ∷ []) plain_header (refl, tt)

-- An assignment that matches nothing.
abbrev no_matches : List (List ℕ) → List (Option ℕ)
no_matches [] = []
no_matches (row ∷ rows) = none ∷ no_matches rows

abbrev pub plain_choices : Choices
plain_choices = record {
  solve = no_matches;
  iterate = λ fs. fs;
  sort_files = λ less fs. fs;
  sort_outputs = λ less os. os;
}

length-no_matches : (rows : List (List ℕ)) → length rows ≤ length (no_matches rows)
length-no_matches [] = omega arith
length-no_matches (row ∷ rows) = omega (arith, length-no_matches rows)

abbrev pub older : List PatchFiles
older = (patch_text (codes "a"), []) ∷ (patch_text (codes "b"), []) ∷ []

abbrev pub newer : List PatchFiles
newer = (patch_text (codes "b"), []) ∷ (patch_text (codes "c"), []) ∷ []

range_diff-shows_example :
    (os : List RangeDiffOutput) × (range_diff simple_tools plain_choices older newer ≡ ok os)
    × IsShown newer os
range_diff-shows_example =
    range_diff-shows simple_tools plain_choices older newer length-no_matches
      (λ less os. Perm.refl os)

parse_id-get_formatted_patchset_id_example :
    parse_id (get_formatted_patchset_id 12 3) ≡ ok (record { pr_id = pos 12; rev = pos 3 })
parse_id-get_formatted_patchset_id_example =
    parse_id-get_formatted_patchset_id 12 3 (omega arith) (omega arith) (omega arith) (omega arith)
