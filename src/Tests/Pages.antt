-- ===== src/Tests/Pages.antt =====
-- Pages, old addresses, tables of hunks and database files, at concrete inputs.
use patchbin.Base.{ℕ, suc, true, List, [], ◌∷◌, ◌++◌, codes, ok, ◌≡◌, refl, arith}
use patchbin.Base.Number.{pos, format}
use patchbin.Base.Sort.{sort_desc_by}
use patchbin.Store.Upgrade.{Engine, DbFile, IsUpgraded, sqlite_open}
use patchbin.Store.Upgraded.{sqlite_open-IsUpgraded}
use patchbin.Mbox.{LineOp, Line}
use patchbin.Pr.Queries.{get_patch_request_by_id}
use patchbin.DiffHtml.{diff_rows, escape_string}
use patchbin.DiffHtml.Numbers.{
  old_numbers, new_numbers, old_count, new_count, count_from, diff_rows-IsNumbered,
}
use patchbin.SemDiff.{slash, full_stop}
use patchbin.Web.{Response}
use patchbin.Web.Legacy.{redirect_legacy_pr, redirect_legacy_pr-moves}
use patchbin.Tests.{quiet, request, small_db}

abbrev three_lines : List Line
three_lines =
    record { op = LineOp.op_context; line = codes "a" }
    ∷ record { op = LineOp.op_delete; line = codes "b" }
    ∷ record { op = LineOp.op_add; line = codes "c" }
    ∷ []

diff_rows-IsNumbered_example :
    (old_numbers (diff_rows 7 9 three_lines) ≡ count_from 7 (old_count three_lines))
    × (new_numbers (diff_rows 7 9 three_lines) ≡ count_from 9 (new_count three_lines))
diff_rows-IsNumbered_example = diff_rows-IsNumbered 7 9 three_lines

-- The numbers of the old side are 7 and 8.
seven_and_eight : old_numbers (diff_rows 7 9 three_lines) ≡ 7 ∷ 8 ∷ []
unfolding old_numbers diff_rows
seven_and_eight = refl

tags_are_escaped : escape_string (codes "<b>") ≡ codes "&lt;b&gt;"
unfolding escape_string
tags_are_escaped = refl

first_is_there : get_patch_request_by_id quiet 1 small_db ≡ ok request
unfolding get_patch_request_by_id sort_desc_by
first_is_there = refl

redirect_legacy_pr-moves_example :
    (redirect_legacy_pr quiet [] (format 1) small_db ≡ Response.redirect (codes "/pico/fix"))
    × (redirect_legacy_pr quiet [] (format 1 ++ slash ∷ codes "rss") small_db
        ≡ Response.redirect (codes "/pico/fix/rss"))
    × (redirect_legacy_pr quiet [] (format 1 ++ full_stop ∷ codes "2") small_db
        ≡ Response.redirect (codes "/pico/fix.2"))
    × (redirect_legacy_pr quiet []
          (format 1 ++ full_stop ∷ (codes "2" ++ slash ∷ codes "rss"))
          small_db
        ≡ Response.redirect (codes "/pico/fix.2/rss"))
redirect_legacy_pr-moves_example =
    redirect_legacy_pr-moves quiet small_db 1 request (omega arith) first_is_there (codes "2")
      (codes "rss") refl refl

-- A content that counts the scripts that were run.
abbrev counting : Engine ℕ
counting = record {
  connects = true;
  reads_version = true;
  begins = true;
  exec = λ s n. (true, suc n);
  bumps = true;
  commits = true;
}

abbrev old_file : DbFile ℕ
old_file = record { user_version = pos 19; content = 0 }

sqlite_open-IsUpgraded_example : IsUpgraded counting old_file (sqlite_open counting old_file)
sqlite_open-IsUpgraded_example = sqlite_open-IsUpgraded counting old_file
