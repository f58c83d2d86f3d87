-- ===== src/Tests/Commands.antt =====
-- Commands in a small database.
use patchbin.Base.{Str, List, [], ◌∷◌, codes, ok, err, Error, ◌≡◌, refl, arith}
use patchbin.Base.Space.{
  trim_space, trim_front, space_width, back_space_width, ascii_space, space2, space3,
}
use patchbin.Base.Search.{cut_first, cut_last, join}
use patchbin.Base.Sort.{sort_desc_by}
use patchbin.Target.{parse_target, target_of, split_revision}
use patchbin.Store.{Db}
use patchbin.Store.Statements.{set_name, set_activity, add_event, transaction}
use patchbin.Pr.Queries.{
  get_patch_request_by_repo_and_slug, get_patch_request_by_id, get_user_by_id,
}
use patchbin.Pr.Change.{update_patch_request_name, rename_checks, rename_body, update_last_activity}
use patchbin.Cli.Talk.{edit, edit_checks, named_request, edited_title}
use patchbin.Cli.Kept.{IsRetitled, edit-IsRetitled}
use patchbin.Tests.{quiet, small_db}
use patchbin.Store.{empty_db}
use patchbin.Pr.Operation.{Reached, Reached-IsValid}
use patchbin.Tests.Texts.{simple_tools, two_patches}
use patchbin.Cli.{Server, push, remove}
use patchbin.Cli.Commands.{IsSound, IsOwned, push-refused, remove-IsOwned}

-- A cap of two, with one submission counted, and the same with two.
abbrev server : Server
server = record {
  limiter = record { max = 2; interval = 10; count = 1; reset_at = 15 };
  db = empty_db;
}

abbrev busy : Server
busy = record {
  limiter = record { max = 2; interval = 10; count = 2; reset_at = 15 };
  db = small_db;
}

server-IsSound : IsSound server
server-IsSound = record {
  limited = record { within = omega arith };
  stored = Reached-IsValid {drv = quiet} (Reached.start empty_db refl);
}

abbrev fix_args : List Str
fix_args = codes "pico:fix" ∷ []

push-refused_example :
    push quiet simple_tools 100 12 (ok two_patches) (codes "key") fix_args busy
    ≡ (err Error.rate_limited, busy)
push-refused_example =
    push-refused quiet simple_tools 100 12 (ok two_patches) (codes "key") fix_args busy
      (omega arith) (omega arith) (omega arith)

remove-IsOwned_example :
    IsOwned quiet (codes "key") fix_args small_db (remove quiet (codes "key") fix_args small_db)
remove-IsOwned_example = remove-IsOwned quiet (codes "key") fix_args small_db

abbrev edit_args : List Str
edit_args = codes "pico:fix" ∷ codes "b" ∷ []

abbrev edited_db : Db
edited_db = (edit quiet (codes "key") edit_args small_db).1

title_is_edited : edit quiet (codes "key") edit_args small_db ≡ (ok tt, edited_db)
unfolding edit edit_checks named_request edited_title parse_target target_of split_revision
    trim_space trim_front space_width back_space_width ascii_space space2 space3 cut_first cut_last
    join get_patch_request_by_repo_and_slug sort_desc_by update_patch_request_name rename_checks
    rename_body update_last_activity set_name set_activity add_event transaction
    get_patch_request_by_id get_user_by_id
title_is_edited = refl

edit-IsRetitled_example :
    IsRetitled quiet (codes "key") small_db edited_db (edit_checks quiet edit_args small_db)
edit-IsRetitled_example =
    edit-IsRetitled quiet (codes "key") edit_args small_db edited_db tt title_is_edited
