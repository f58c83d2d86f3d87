-- ===== src/Web/Selected.antt =====
-- web_pr_detail.go: the answer of `createPrDetail` to an address `/{repo}/{slug...}`.
use patchbin.Base.{
  ℕ, zero, suc, ◌+◌, Str, Bool, true, false, ◌&&◌, Option, none, some, List, [], ◌∷◌, ◌++◌, map,
  codes, ◌==◌, leb, str_eq, take, drop, get_elem?, has_suffix, trim_suffix, if◌then◌else◌, Result,
  ok, err, Error,
}
use patchbin.Base.Number.{ℤ, pos, negsuc, max_int64, parse_int, format}
use patchbin.Base.Search.{index_of}
use patchbin.Target.{colon, dot_patch}
use patchbin.Store.{PatchRequest, Patchset, Patch, Db}
use patchbin.Pr.Queries.{get_user_by_id, get_patches_by_patchset_id, get_event_logs_by_pr_id}
use patchbin.Resolve.{resolve_target, get_patchset_rev}
use patchbin.CoverLetter.{generate_mbox_with_cover_letter}
use patchbin.Cli.Reading.{resolve_users, users_at}
use patchbin.Web.{Response}
use patchbin.Web.Legacy.{redirect_legacy_pr}
use patchbin.Web.Feeds.{FeedItem, repo_rss_handler, render_pr_rss}
use patchbin.Web.Data.{Site, UserData, PatchsetData, EventLogData, PatchData, address}
use patchbin.Web.Detail.{user_data, get_all_patch_data, get_patch_data, get_log_data}

pub record PrDetailData : Type 0 where
  pub pr : PatchRequest
  pub user : UserData
  pub patchset : Patchset
  pub formatted_patchset_id : Str
  pub patches : List Patch
  pub patch : PatchData
  pub prev_url : Str
  pub next_url : Str
  pub logs : List EventLogData

pub data Page : Type 0 where
  detail : PrDetailData → Page
  mbox : Str → Page
  feed : List FeedItem → Page

abbrev pub as_feed : Response (List FeedItem) → Response Page
as_feed (Response.status n) = Response.status n
as_feed (Response.redirect to) = Response.redirect to
as_feed (Response.page items) = Response.page (Page.feed items)
as_feed Response.panicked = Response.panicked

abbrev pub as_redirect : Response Str → Response Page
as_redirect (Response.status n) = Response.status n
as_redirect (Response.redirect to) = Response.redirect to
as_redirect (Response.page text) = Response.page (Page.mbox text)
as_redirect Response.panicked = Response.panicked

abbrev pub is_panic : Error → Bool
is_panic Error.panic = true
is_panic e = false

-- An error is answered by a status; a panic ends the request.
abbrev pub or_status {ℓ} : {A : Type ℓ} → ℕ → Result A → (A → Response Page) → Response Page
or_status n (ok a) next = next a
or_status n (err e) next = if is_panic e then Response.panicked else Response.status n

abbrev pub is_digit : ℕ → Bool
is_digit c = leb b'0' c && leb c b'9'

unfoldable pub all_digits : Str → Bool
all_digits [] = true
all_digits (c ∷ s) = is_digit c && all_digits s

abbrev pub without_plus : Str → Str
without_plus [] = []
without_plus (c ∷ s) = if c == b'+' then s else (c ∷ s)

-- What strconv.ParseInt gives beside an error: the largest number for one that is too large, else 0.
abbrev pub on_error : Str → ℕ
on_error [] = 0
on_error (c ∷ s) = if all_digits (c ∷ s) then max_int64 else 0

-- Only a number above zero counts.
abbrev pub number_of : Str → Option ℤ → ℕ
number_of text (some (pos n)) = n
number_of text (some (negsuc n)) = 0
number_of text none = on_error (without_plus text)

-- The slug and the number behind "/patches/", 0 without one.
unfoldable pub split_patch : Str → Str × ℕ
unfolding all_digits
split_patch path = elim (index_of path (codes "/patches/")) [
  | none ↦ (path, 0)
  | some i ↦ (take i path, number_of (drop (i + 9) path) (parse_int (drop (i + 9) path)))
]

-- The place of a patch, counted from `n` on.
unfoldable pub patch_place : ℕ → ℕ → List Patch → Option ℕ
patch_place id n [] = none
patch_place id n (p ∷ ps) =
    let rest = patch_place id (suc n) ps in if p.id == id then some n else rest

-- No route names a value `patchID` of the path, which would be looked at next.
-- Without a number the first patch is selected; a number that no patch has is not found.
unfoldable pub selected_place : ℕ → List Patch → Option ℕ
unfolding patch_place
selected_place zero ps = some 0
selected_place (suc n) ps = patch_place (suc n) 0 ps

abbrev pub page_address : PatchRequest → ℕ → Str
page_address pr zero = pr.repo_name ++ (codes "/" ++ pr.slug)
page_address pr (suc n) = address pr (suc n)

-- The link to a patch, empty without one.
abbrev pub link_to : Str → Option Patch → Str
link_to page none = []
link_to page (some p) = codes "/" ++ (page ++ (codes "/patches/" ++ format p.id))

-- The patch in front of a place.
abbrev pub place_before : ℕ → List Patch → Option Patch
place_before zero ps = none
place_before (suc n) ps = get_elem? ps n

module _ (site : Site) where
  abbrev pub detail_page :
      PatchRequest
      → Patchset
      → UserData
      → List Patch
      → ℕ
      → PatchData
      → Db
      → List EventLogData
      → Response Page
  detail_page pr ps user patches place patch db logs =
      let page = page_address pr (get_patchset_rev site.drv (some ps) db) in
      Response.page (
        Page.detail (record {
          pr = pr;
          user = user;
          patchset = ps;
          formatted_patchset_id = page;
          patches = patches;
          patch = patch;
          prev_url = link_to page (place_before place patches);
          next_url = link_to page (get_elem? patches (suc place));
          logs = logs;
        }))

  -- `aps.Patches[selectedIdx]` is a panic where there is none.
  abbrev pub selected_page :
      PatchRequest
      → Patchset
      → UserData
      → List Patch
      → List PatchsetData
      → Db
      → ℕ
      → Option Patch
      → Response Page
  selected_page pr ps user patches shown db place none = Response.panicked
  selected_page pr ps user patches shown db place (some selected) =
      or_status 422 (get_patch_data site selected) λ patch.
        or_status 422 (get_log_data site pr.id shown db)
          λ logs. detail_page pr ps user patches place patch db logs

  abbrev pub placed_page :
      PatchRequest
      → Patchset
      → UserData
      → List Patch
      → List PatchsetData
      → Db
      → Option ℕ
      → Response Page
  placed_page pr ps user patches shown db none = Response.status 404
  placed_page pr ps user patches shown db (some place) =
      selected_page pr ps user patches shown db place (get_elem? patches place)

  abbrev pub with_patches :
      ℕ → PatchRequest → Patchset → UserData → Db → List Patch × List PatchsetData → Response Page
  with_patches id pr ps user db ([], shown) = Response.status 404
  with_patches id pr ps user db (p ∷ patches, shown) =
      placed_page pr ps user (p ∷ patches) shown db (selected_place id (p ∷ patches))

  unfoldable pub pr_page : Str → ℕ → Str → Db → Response Page
  unfolding selected_place
  pr_page repo id slug db =
      or_status 404 (resolve_target site.drv (repo ++ (colon ∷ slug)) db) λ found.
        or_status 404 (get_user_by_id site.drv found.0.user_id db) λ author.
          or_status 422 (user_data site author) λ user.
            or_status 422 (get_all_patch_data site found.0 found.1 db)
              λ all. with_patches id found.0 found.1 user db all

  -- The raw patchset of an address that ends in ".patch".
  unfoldable pub raw_page : Str → Str → Db → Response Page
  raw_page repo slug db =
      or_status 404 (resolve_target site.drv (repo ++ (colon ∷ slug)) db) λ found.
        or_status 404 (get_patches_by_patchset_id site.drv found.1.id db) λ patches.
          or_status 404 (get_event_logs_by_pr_id site.drv found.1.patch_request_id db) λ events.
            Response.page (
              Page.mbox (
                generate_mbox_with_cover_letter site.layouts found.0
                  (map (λ (p : Patch). p.content) patches) events
                  (users_at (resolve_users site.drv events [] db)) site.url))

  unfoldable pub feed_page : Str → Str → Db → Response Page
  feed_page repo slug db =
      or_status 404 (resolve_target site.drv (repo ++ (colon ∷ slug)) db)
        λ found. as_feed (render_pr_rss site.drv site.layouts site.feed_layouts site.url found.0 db)

  unfoldable pub create_pr_detail : Str → Str → Db → Response Page
  unfolding pr_page raw_page feed_page split_patch
  create_pr_detail repo slug db =
      if str_eq repo (codes "prs")
      then as_redirect (redirect_legacy_pr site.drv [] slug db)
      else if str_eq slug (codes "rss")
      then as_feed (repo_rss_handler site.drv site.layouts site.feed_layouts site.url repo db)
      else if has_suffix slug dot_patch
      then raw_page repo (trim_suffix slug dot_patch) db
      else if has_suffix slug (codes "/rss")
      then feed_page repo (trim_suffix slug (codes "/rss")) db
      else pr_page repo (split_patch slug).1 (split_patch slug).0 db
