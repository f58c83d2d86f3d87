-- ===== src/Cli/Kept.antt =====
-- What the commands `edit` and `comment` keep, and whom `edit` lets through.
use patchbin.Base.{ℕ, Str, List, [], Result, ok, err, ◌≡◌, ◌≢◌, refl, sym, ap, subst}
use patchbin.RateLimit.Window.{allow-IsValid}
use patchbin.RateLimit.Window as Window
use patchbin.Store.{User, PatchRequest, Db, Driver}
use patchbin.Store.Valid.{IsValid}
use patchbin.Pr.Queries.{get_patch_request_by_id, get_user_by_id}
use patchbin.Pr.Operation.{perform-IsValid}
use patchbin.Pr.Ownership.{update_patch_request_name-ok, touched, retitled}
use patchbin.Cli.{Server}
use patchbin.Cli.Commands.{IsSound}
use patchbin.Cli.Posts.{send_comment-keeps, send_comment-limiter}
use patchbin.Cli.Talk.{send_comment, edit_with, edit_checks, edit}

module _ (drv : Driver) where
  -- A comment keeps the counter within the cap and the invariant of the tables, whatever is sent, and
  -- whether it succeeds or fails.
  send_comment-IsSound :
      (max_bytes now : ℕ) (stdin : Result Str) (pubkey : Str) (args : List Str) (s : Server)
      → IsSound s
      → IsSound (send_comment drv max_bytes now stdin pubkey args s).1
  send_comment-IsSound max_bytes now stdin pubkey args s v = record {
    limited =
        subst Window.IsValid (sym (send_comment-limiter drv max_bytes stdin pubkey now args s))
          (allow-IsValid now s.limiter v.limited).0;
    stored =
        send_comment-keeps drv IsValid (λ db v op. perform-IsValid drv db v op) max_bytes now stdin
          pubkey args s v.stored;
  }

  -- The command's request and title, the request's author with this key, and the new title.
  abbrev pub IsRetitled : Str → Db → Db → Result (PatchRequest × Str) → Type 0
  IsRetitled pubkey db db' checks =
      (pr : PatchRequest) × (title : Str) × (request : PatchRequest) × (owner : User) × (checks
        ≡ ok (pr, title))
      × (get_patch_request_by_id drv pr.id db ≡ ok request)
      × (get_user_by_id drv request.user_id db ≡ ok owner)
      × (owner.pubkey ≡ pubkey)
      × (title ≢ [])
      × (db' ≡ touched drv pr.id (retitled drv pr.id request.user_id title db))

  edit_with-IsRetitled :
      (pubkey : Str) (db db' : Db) (r : Result (PatchRequest × Str)) (a : Unit {0})
      → edit_with drv pubkey db r ≡ (ok a, db')
      → IsRetitled pubkey db db' r
  edit_with-IsRetitled pubkey db db' (err e) a h =
      absurd (cc (ap (λ (x : Result (Unit {0}) × Db). x.0) h))
  edit_with-IsRetitled pubkey db db' (ok (pr, title)) a h =
      let (request, owner, found, found', same, filled, kept) =
        update_patch_request_name-ok drv pr.id pubkey title db a db' h in
      (pr, title, request, owner, refl, found, found', same, filled, kept)

  -- The command `edit` succeeds only with the key of the author of the request that is named, and then
  -- exactly this is changed: this request has the title, which is not empty, and its last activity
  -- set, and one event is logged.
  pub edit-IsRetitled :
      (pubkey : Str) (args : List Str) (db db' : Db) (a : Unit {0})
      → edit drv pubkey args db ≡ (ok a, db')
      → IsRetitled pubkey db db' (edit_checks drv args db)
  unfolding edit
  edit-IsRetitled pubkey args db db' a h =
      edit_with-IsRetitled pubkey db db' (edit_checks drv args db) a h
