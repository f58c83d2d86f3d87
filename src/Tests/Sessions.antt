-- ===== src/Tests/Sessions.antt =====
-- Sessions of a small server: a push that is pulled again, and a run of commands.
use patchbin.Base.{Str, [], ◌∷◌, ◌++◌, codes, ok, ◌≡◌, refl, arith}
use patchbin.Base.Space.{
  trim_space, trim_front, space_width, back_space_width, ascii_space, space2, space3,
}
use patchbin.Base.Search.{cut_first, cut_last}
use patchbin.Base.Sort.{sort_by, sort_desc_by}
use patchbin.RateLimit.Window as Window
use patchbin.Target.{parse_target, target_of, split_revision}
use patchbin.Store.{Db, empty_db}
use patchbin.Store.Statements.{
  patchset_row, add_request, add_patchset, add_patch, add_event, set_activity, transaction,
}
use patchbin.Store.Valid.{IsValid}
use patchbin.Pr.Queries.{
  get_patch_request_by_id, get_patch_request_by_repo_and_slug, get_patchsets_by_pr_id,
}
use patchbin.Pr.Submit.{
  submit_patch_request, submit_patchset, patch_request_body, request_body, open_request,
  create_patches, create_patch, patchset_body, collect_patches,
}
use patchbin.Pr.Operation.{perform, Reached, Reached-IsValid}
use patchbin.Resolve.{resolve_target, by_target, of_request}
use patchbin.CoverLetter.{line_end}
use patchbin.CoverLetter.Preserved.{HasInserted, texts}
use patchbin.Cli.{Server}
use patchbin.Cli.Reading.{pull_target, pull}
use patchbin.Cli.Pulled.{pull-pushed}
use patchbin.Cli.Session.{Command, serve, Served, Served-Reached}
use patchbin.Tests.{quiet, request}
use patchbin.Tests.Requests.{quiet-Steady, open_fix, filled_db}
use patchbin.Tests.Texts.{
  simple_tools, two_patches, both_patches, two_patches_are_parsed, plain_layouts,
}

filled_db-IsValid : IsValid filled_db
unfolding perform
filled_db-IsValid =
    Reached-IsValid {drv = quiet} (Reached.next open_fix (Reached.start empty_db refl))

abbrev second_db : Db
second_db = (submit_patchset quiet 1 1 (ok (texts both_patches)) filled_db).1

second_is_added :
    submit_patchset quiet 1 1 (ok (texts both_patches)) filled_db ≡ (ok (3 ∷ 4 ∷ []), second_db)
unfolding submit_patchset patchset_body collect_patches create_patch add_patchset add_patch
    add_event set_activity transaction submit_patch_request patch_request_body request_body
    open_request create_patches add_request get_patch_request_by_id sort_desc_by
second_is_added = refl

request_is_there : get_patch_request_by_id quiet 1 second_db ≡ ok request
unfolding submit_patchset patchset_body collect_patches create_patch add_patchset add_patch
    add_event set_activity transaction submit_patch_request patch_request_body request_body
    open_request create_patches add_request get_patch_request_by_id sort_desc_by
request_is_there = refl

second_is_latest :
    resolve_target quiet (pull_target (codes "pico:fix") []) second_db
    ≡ ok (request, patchset_row quiet 1 1 filled_db)
unfolding submit_patchset patchset_body collect_patches create_patch add_patchset add_patch
    add_event set_activity transaction submit_patch_request patch_request_body request_body
    open_request create_patches add_request get_patch_request_by_id sort_desc_by resolve_target
    by_target of_request parse_target target_of split_revision cut_first cut_last
    get_patch_request_by_repo_and_slug get_patchsets_by_pr_id sort_by trim_space trim_front
    space_width back_space_width ascii_space space2 space3
second_is_latest = refl

pull-pushed_example :
    (piece : Str) × (out : Str) × (pull quiet plain_layouts
        (codes "host")
        (codes "pico:fix" ∷ [])
        second_db
      ≡ ok out)
    × HasInserted (two_patches ++ line_end) piece out
pull-pushed_example =
    pull-pushed quiet plain_layouts (codes "host") simple_tools 1 1 two_patches both_patches
      filled_db (3 ∷ 4 ∷ []) second_db (codes "pico:fix") [] request request filled_db-IsValid
      quiet-Steady (λ s db. refl) two_patches_are_parsed second_is_added request_is_there
      second_is_latest

abbrev fresh : Server
fresh = record {
  limiter = record { max = 2; interval = 10; count = 0; reset_at = 0 };
  db = empty_db;
}

abbrev first_push : Command
first_push = Command.push_command (ok two_patches) (codes "pico:fix" ∷ [])

abbrev issue_behind : Command
issue_behind = Command.issue_command (ok []) [] (codes "pico:bug" ∷ codes "crash" ∷ [])

abbrev pushed : Server
pushed = serve quiet simple_tools 100 5 (codes "key") first_push fresh

abbrev both_done : Server
both_done = serve quiet simple_tools 100 6 (codes "other") issue_behind pushed

Served-Reached_example :
    Reached quiet both_done.db
    × Window.IsValid both_done.limiter
    × (both_done.limiter.max ≡ 2)
    × (both_done.limiter.interval ≡ 10)
Served-Reached_example =
    Served-Reached quiet simple_tools 100 fresh both_done (record { within = omega arith })
      (Reached.start empty_db refl)
      (Served.next 6 (codes "other") issue_behind pushed
        (Served.next 5 (codes "key") first_push fresh Served.begin))
