-- ===== src/Web/Raw.antt =====
-- The address of a raw patchset and the command `pull`.
use patchbin.Base.{Str, [], ◌∷◌, ◌++◌, ok, ◌≡◌, ap}
use patchbin.Store.{PatchRequest, Patchset, Db}
use patchbin.Target.{colon}
use patchbin.Pr.Queries.{
  get_patch_request_by_id, get_patches_by_patchset_id, get_event_logs_by_pr_id,
}
use patchbin.Resolve.{resolve_target}
use patchbin.CoverLetter.{line_end}
use patchbin.Cli.Reading.{pull, print_cover_letter}
use patchbin.Web.{Response}
use patchbin.Web.Data.{Site}
use patchbin.Web.Selected.{Page, raw_page}
use patchbin.Web.Shown.{or_status-page}

-- The text of a page, or else what is given.
abbrev text_of : Str → Response Page → Str
text_of m (Response.page (Page.mbox x)) = x
text_of m r = m

-- Where a target is resolved to a request and a patchset of this request: the text that the web server
-- sends for its address with ".patch" is the one that `pull` prints for it, but for a line end.
pub raw_page-pull :
    (site : Site) (repo slug : Str) (db : Db) (pr : PatchRequest) (ps : Patchset) (m : Str)
    → resolve_target site.drv (repo ++ (colon ∷ slug)) db ≡ ok (pr, ps)
    → get_patch_request_by_id site.drv ps.patch_request_id db ≡ ok pr
    → raw_page site repo slug db ≡ Response.page (Page.mbox m)
    → pull site.drv site.layouts site.url ((repo ++ (colon ∷ slug)) ∷ []) db ≡ ok (m ++ line_end)
unfolding raw_page pull print_cover_letter
raw_page-pull site repo slug db pr ps m resolved found shown =
    let (patches, stored, h1) =
      or_status-page 404 (get_patches_by_patchset_id site.drv ps.id db) _ (Page.mbox m)
        (rw resolved at shown) in
    let (events, logged, h2) =
      or_status-page 404 (get_event_logs_by_pr_id site.drv ps.patch_request_id db) _ (Page.mbox m)
        h1 in
    rw (resolved, found, stored, logged) (ap (λ t. ok (t ++ line_end)) (ap (text_of m) h2))
