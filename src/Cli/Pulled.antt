-- ===== src/Cli/Pulled.antt =====
-- The command `pull` of cli.go behind a push.
use patchbin.Base.{
  ℕ, suc, Str, false, Option, List, [], ◌∷◌, ◌++◌, map, where_rows, ◌==◌, ok, ◌≡◌, refl, sym, ap,
  ◌∙◌, append_assoc,
}
use patchbin.Base.Sort.{sort_desc_by}
use patchbin.Store.{
  User, PatchRequest, PatchText, written, Patchset, Patch, EventLog, Db, Statement, Driver,
}
use patchbin.Store.Statements.{patchset_row}
use patchbin.Store.Valid.{IsValid}
use patchbin.Mbox.{Tools, File, parse_patchset}
use patchbin.Pr.Queries.{
  patches_of, get_patch_request_by_id, get_patches_by_patchset_id, get_event_logs_by_pr_id,
}
use patchbin.Pr.Submit.{submit_patchset}
use patchbin.Pr.ReadBack.{Steady}
use patchbin.Pr.Submission.{submit_patchset-stores}
use patchbin.Resolve.{resolve_target}
use patchbin.CoverLetter.{
  Layouts, line_end, has_cover_letter, following, build_discussion, generate_mbox_with_cover_letter,
}
use patchbin.CoverLetter.Preserved.{HasInserted, piece_of, texts, generate_mbox-HasInserted}
use patchbin.Cli.Reading.{pull_target, users_at, resolve_users, print_cover_letter, pull}

-- No statement fails.
abbrev pub Readable : Driver → Type 0
Readable drv = (s : Statement) (db : Db) → drv.fails s db ≡ false

-- The base commit that is lost does not stand in the mbox.
following-written : (cs : List PatchText) → following (map written cs) ≡ following cs
unfolding following
following-written [] = refl
following-written (c ∷ cs) = ap (λ s. line_end ++ (c.raw_text ++ s)) (following-written cs)

generate_mbox-written :
    (layouts : Layouts) (pr : PatchRequest) (cs : List PatchText) (events : List EventLog)
    (users : ℕ → Option User) (url : Str)
    → generate_mbox_with_cover_letter layouts pr (map written cs) events users url
      ≡ generate_mbox_with_cover_letter layouts pr cs events users url
unfolding generate_mbox_with_cover_letter following has_cover_letter
generate_mbox-written layouts pr [] events users url = refl
generate_mbox-written layouts pr (c ∷ cs) events users url = rw (following-written cs) refl

-- `text` with `piece` put in, and a line end behind it.
HasInserted-append :
    (text piece mbox : Str)
    → HasInserted text piece mbox
    → HasInserted (text ++ line_end) piece (mbox ++ line_end)
HasInserted-append text piece mbox (before, after, whole, split) = (
  before,
  after ++ line_end,
  sym (append_assoc before after line_end) ∙ ap (λ s. s ++ line_end) whole,
  ap (λ s. s ++ line_end) split
      ∙ append_assoc before (piece ++ after) line_end
      ∙ ap (λ s. before ++ s) (append_assoc piece after line_end),
)

module _ (drv : Driver) (layouts : Layouts) (url : Str) where
  print_cover_letter-ok :
      (patchset : Patchset) (db : Db) (pr : PatchRequest)
      → Readable drv
      → get_patch_request_by_id drv patchset.patch_request_id db ≡ ok pr
      → (events : List EventLog) × (print_cover_letter drv layouts url patchset db
          ≡ ok (
              generate_mbox_with_cover_letter layouts pr
                (map (λ (p : Patch). p.content) (patches_of patchset.id db))
                events
                (users_at (resolve_users drv events [] db))
                url
              ++ line_end))
  unfolding print_cover_letter get_patches_by_patchset_id get_event_logs_by_pr_id
  print_cover_letter-ok patchset db pr readable found = (
    sort_desc_by (λ (e : EventLog). e.created_at)
        (where_rows (λ (e : EventLog). e.patch_request_id.int64 == patchset.patch_request_id)
          db.event_logs),
    rw (found, readable Statement.select_patches db, readable Statement.select_events db) refl,
  )

  -- From a valid database, with a clock that does not go back and a driver on which no statement
  -- fails: once a text that parses is stored as a patchset of a request that is found by its id, every
  -- `pull` whose target is resolved to this patchset prints the text as it was pushed, with one piece
  -- (the cover letter or its references) put in and a line end behind it.
  pub pull-pushed :
      (tools : Tools) (request user : ℕ) (text : Str) (ps : List (PatchText × List File)) (db : Db)
      (ids : List ℕ) (db' : Db) (target : Str) (rest : List Str) (pr named : PatchRequest)
      → IsValid db
      → Steady drv
      → Readable drv
      → parse_patchset tools text ≡ ok ps
      → submit_patchset drv request user (ok (texts ps)) db ≡ (ok ids, db')
      → get_patch_request_by_id drv request db' ≡ ok pr
      → resolve_target drv (pull_target target rest) db'
        ≡ ok (named, patchset_row drv user request db)
      → (piece : Str) × (out : Str) × (pull drv layouts url (target ∷ rest) db' ≡ ok out)
        × HasInserted (text ++ line_end) piece out
  unfolding pull
  pull-pushed tools request user text ps db ids db' target rest pr named v steady readable parsed
        stored found resolved =
      let (rows, _, _, _, own, same) =
        submit_patchset-stores drv request user (texts ps) db ids db' v steady stored in
      let (events, printed) =
        print_cover_letter-ok (patchset_row drv user request db) db' pr readable found in
      let users = users_at (resolve_users drv events [] db') in
      let contents : map (λ (p : Patch). p.content) (patches_of (suc db.last_patchset) db')
          ≡ map written (texts ps) =
        ap (map (λ (p : Patch). p.content)) own ∙ same in
      let mbox = generate_mbox_with_cover_letter layouts pr (texts ps) events users url in
      (
        piece_of layouts pr (texts ps) (build_discussion layouts events users) url,
        mbox ++ line_end,
        rw resolved (
            printed
            ∙ ap
                (λ cs.
                  ok (generate_mbox_with_cover_letter layouts pr cs events users url ++ line_end))
                contents
            ∙ ap (λ m. ok (m ++ line_end))
                (generate_mbox-written layouts pr (texts ps) events users url)),
        HasInserted-append text _ mbox
            (generate_mbox-HasInserted layouts tools text ps pr events users url parsed),
      )
