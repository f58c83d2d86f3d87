-- ===== src/Tests/Requests.antt =====
-- Patch requests in a small database.
use patchbin.Base.{
  false, some, List, [], ◌∷◌, ◌++◌, map, codes, any_row, length, ok, err, Error, ◌≡◌, refl, arith,
}
use patchbin.Base.Sort.{sort_by, sort_desc_by}
use patchbin.Store.{Patchset, PatchText, written, Patch, Db, empty_db}
use patchbin.Store.Statements.{
  same_target, patchset_row, add_request, add_patchset, add_patch, add_event, set_activity,
  set_name, transaction,
}
use patchbin.Store.Valid.{IsValid}
use patchbin.Pr.Queries.{
  patches_of, get_patch_request_by_id, get_user_by_id, get_patchsets_by_pr_id,
  get_patch_request_by_repo_and_slug,
}
use patchbin.Pr.Submit.{
  submit_patch_request, submit_issue, submit_patchset, patch_request_body, request_body,
  open_request, create_patches, create_patch, patchset_body, collect_patches,
}
use patchbin.Pr.Change.{
  update_patch_request_name, rename_checks, rename_body, update_last_activity, add_comment,
  delete_patchset_by_id,
}
use patchbin.Pr.Stored.{submitted}
use patchbin.Pr.ReadBack.{Steady}
use patchbin.Pr.Operation.{Operation, perform, Reached, Reached-IsValid}
use patchbin.Pr.History.{histories, append_revision, submit_patchset-appends}
use patchbin.Pr.Recorded.{Revises, Forward, perform-Revises}
use patchbin.Pr.Submission.{
  submit_patch_request-stores, submit-refuses_target, submit_patchset-stores,
  submit_patchset-atomic,
}
use patchbin.Pr.Ownership.{IsAuthored, update_patch_request_name-IsAuthored}
use patchbin.Pr.ForeignKeys.{foreign_keys-refuse}
use patchbin.Target.{Target, print_target}
use patchbin.Target.RoundTrip.{IsPrintable, revised_slug}
use patchbin.Resolve.{resolve_target, get_patchset_rev}
use patchbin.Resolve.Shown.{resolve_target-shown}
use patchbin.Resolve.Found.{IsResolved, resolve_target-IsResolved}
use patchbin.Tests.{quiet, strict, patch_text, owner, request, patchset, small_db}

pub quiet-Steady : Steady quiet
quiet-Steady d d' h = omega arith

abbrev fix_revision : Target
fix_revision = record { repo = codes "pico"; slug = codes "fix"; rev = 1 }

abbrev contents : List PatchText
contents = patch_text (codes "a") ∷ patch_text (codes "b") ∷ []

abbrev pub open_fix : Operation
open_fix = Operation.new_request 1 (codes "pico") (codes "fix") (ok contents)

Reached-IsValid_example :
    IsValid (perform quiet open_fix (perform quiet (Operation.upsert (codes "key")) empty_db))
Reached-IsValid_example = Reached-IsValid (
    Reached.next open_fix
      (Reached.next (Operation.upsert (codes "key")) (Reached.start empty_db refl)))

quiet-Forward : Forward quiet
quiet-Forward = record { steady = quiet-Steady; patchsets = λ d d' le. omega arith }

perform-Revises_example :
    Revises
      (Operation.delete 1 1 1)
      (histories (perform quiet open_fix empty_db))
      (histories (perform quiet (Operation.delete 1 1 1) (perform quiet open_fix empty_db)))
perform-Revises_example =
    perform-Revises quiet-Forward (Reached.next open_fix (Reached.start empty_db refl))
      (Operation.delete 1 1 1)

empty_db-IsValid : IsValid empty_db
empty_db-IsValid = Reached-IsValid {drv = quiet} (Reached.start empty_db refl)

abbrev pub filled_db : Db
filled_db = (submit_patch_request quiet 1 (codes "pico") (codes "fix") (ok contents) empty_db).1

filled_db-IsValid : IsValid filled_db
unfolding submit_patch_request perform
filled_db-IsValid =
    Reached-IsValid {drv = quiet} (Reached.next open_fix (Reached.start empty_db refl))

fix_is_opened :
    submit_patch_request quiet 1 (codes "pico") (codes "fix") (ok contents) empty_db
    ≡ (ok request, filled_db)
unfolding submit_patch_request patch_request_body request_body open_request create_patches
    create_patch add_request add_patchset add_patch add_event transaction get_patch_request_by_id
    sort_desc_by
fix_is_opened = refl

submit_patch_request-stores_example :
    (rows : List Patch) × (any_row (same_target (codes "pico") (codes "fix")) [] ≡ false)
    × (filled_db ≡ submitted quiet 1 (codes "pico") (codes "fix") (codes "a") [] rows 2 empty_db)
    × (patches_of 1 filled_db ≡ rows)
    × (map (λ (p : Patch). p.content) rows ≡ map written contents)
submit_patch_request-stores_example =
    submit_patch_request-stores quiet 1 (codes "pico") (codes "fix") (patch_text (codes "a"))
      (patch_text (codes "b") ∷ []) empty_db request filled_db empty_db-IsValid quiet-Steady
      fix_is_opened

abbrev extended_db : Db
extended_db = (submit_patchset quiet 1 1 (ok contents) empty_db).1

patchset_is_added :
    submit_patchset quiet 1 1 (ok contents) empty_db ≡ (ok (1 ∷ 2 ∷ []), extended_db)
unfolding submit_patchset patchset_body collect_patches create_patch add_patchset add_patch
    add_event set_activity transaction
patchset_is_added = refl

submit_patchset-stores_example :
    (rows : List Patch) × (2 ≡ length contents)
    × (extended_db.patches ≡ [] ++ rows)
    × (extended_db.patchsets ≡ [] ++ patchset_row quiet 1 1 empty_db ∷ [])
    × (patches_of 1 extended_db ≡ rows)
    × (map (λ (p : Patch). p.content) rows ≡ map written contents)
submit_patchset-stores_example =
    submit_patchset-stores quiet 1 1 contents empty_db (1 ∷ 2 ∷ []) extended_db empty_db-IsValid
      quiet-Steady patchset_is_added

submit_patchset-appends_example :
    histories extended_db ≡ append_revision 1 (map written contents) (histories empty_db)
submit_patchset-appends_example =
    submit_patchset-appends quiet 1 1 contents empty_db (1 ∷ 2 ∷ []) extended_db empty_db-IsValid
      quiet-Steady tt patchset_is_added

abbrev retitled_db : Db
retitled_db = (update_patch_request_name quiet 1 (codes "key") (codes "b") small_db).1

title_is_set :
    update_patch_request_name quiet 1 (codes "key") (codes "b") small_db ≡ (ok tt, retitled_db)
unfolding update_patch_request_name rename_checks rename_body update_last_activity set_name
    set_activity add_event transaction get_patch_request_by_id get_user_by_id sort_desc_by
title_is_set = refl

update_patch_request_name-IsAuthored_example :
    IsAuthored quiet 1
      (codes "key")
      (codes "b")
      small_db
      (update_patch_request_name quiet 1 (codes "key") (codes "b") small_db)
update_patch_request_name-IsAuthored_example =
    update_patch_request_name-IsAuthored quiet 1 (codes "key") (codes "b") small_db

request_is_found : get_patch_request_by_id quiet 1 small_db ≡ ok request
unfolding get_patch_request_by_id sort_desc_by
request_is_found = refl

owner_is_found : get_user_by_id quiet 1 small_db ≡ ok owner
unfolding get_user_by_id
owner_is_found = refl

submit-refuses_target_example :
    ((e : Error) × (submit_patch_request quiet 1 (codes "pico") (codes "fix") (ok contents) small_db
        ≡ (err e, small_db)))
    × ((e : Error) × (submit_issue quiet 1 (codes "pico") (codes "fix") (codes "t") [] small_db
          ≡ (err e, small_db)))
submit-refuses_target_example =
    submit-refuses_target quiet 1 (codes "pico") (codes "fix") (codes "t") [] (ok contents) small_db
      refl

empty_is_refused :
    submit_patchset quiet 1 1 (err Error.patchset_empty) small_db
    ≡ (err Error.patchset_empty, small_db)
unfolding submit_patchset patchset_body transaction
empty_is_refused = refl

submit_patchset-atomic_example : small_db ≡ small_db
submit_patchset-atomic_example =
    submit_patchset-atomic quiet 1 1 (err Error.patchset_empty) small_db Error.patchset_empty
      small_db empty_is_refused

foreign_keys-refuse_example :
    ((e : Error) × (delete_patchset_by_id strict 1 1 1 filled_db ≡ (err e, filled_db)))
    × ((e : Error) × (add_comment strict 1 1 (codes "hi") filled_db ≡ (err e, filled_db)))
    × ((e : Error) × (update_patch_request_name strict 1 (codes "key") (codes "b") filled_db
          ≡ (err e, filled_db)))
foreign_keys-refuse_example =
    foreign_keys-refuse strict 1 1 1 (codes "hi") (codes "key") (codes "b") filled_db refl
      filled_db-IsValid

fix_revision-IsPrintable : IsPrintable fix_revision
fix_revision-IsPrintable = record {
  repo_filled = λ e. cc;
  repo_plain = refl;
  repo_white = refl;
  repo_colon = refl;
  slug_filled = λ e. cc;
  slug_white = refl;
}

fix_is_shown : get_patchset_rev quiet (some patchset) small_db ≡ 1
unfolding get_patchset_rev get_patchsets_by_pr_id sort_by
fix_is_shown = refl

fix_is_named :
    get_patch_request_by_repo_and_slug quiet (codes "pico") (codes "fix") small_db ≡ ok request
unfolding get_patch_request_by_repo_and_slug sort_desc_by
fix_is_named = refl

fix_1_is_free :
    get_patch_request_by_repo_and_slug quiet
      (codes "pico")
      (revised_slug fix_revision fix_revision-IsPrintable)
      small_db
    ≡ err Error.no_rows
unfolding get_patch_request_by_repo_and_slug sort_desc_by
fix_1_is_free = refl

resolve_target-shown_example :
    (q : Patchset) × (resolve_target quiet (print_target fix_revision) small_db ≡ ok (request, q))
    × (q.id ≡ 1)
resolve_target-shown_example =
    resolve_target-shown quiet small_db fix_revision fix_revision-IsPrintable request patchset
      Error.no_rows (omega arith) (omega arith) fix_is_shown refl fix_is_named fix_1_is_free

resolve_target-IsResolved_example : IsResolved (resolve_target quiet (codes "pico:fix.1") small_db)
resolve_target-IsResolved_example = resolve_target-IsResolved quiet (codes "pico:fix.1") small_db
