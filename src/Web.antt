-- ===== src/Web.antt =====
-- web.go: what the handlers of the web server answer. A page is the data that its template gets; how a
-- template or a feed is written out is not modelled.
pub mod Legacy
pub mod Feeds
pub mod Data
pub mod Detail
pub mod Selected
pub mod Shown
pub mod Raw
pub mod Server
pub mod Patterns
pub mod Routed
use patchbin.Base.{
  ℕ, Str, Bool, true, false, Option, none, some, List, [], ◌∷◌, map, codes, length, str_eq,
  if◌then◌else◌, Result, ok, err, Error,
}
use patchbin.Base.Number.{format}
use patchbin.Store.{PatchRequest, Patchset, Db, Driver}
use patchbin.Pr.Queries.{
  get_patchsets_by_pr_id, get_patch_requests_active, get_patch_requests_inactive,
  get_patch_requests_by_repo_name,
}

-- A status without a page, a redirection that is permanent, a page, or a panic.
pub data Response (P : Type 0) : Type 0 where
  status : ℕ → Response P
  redirect : Str → Response P
  page : P → Response P
  panicked : Response P

pub data TabStatus : Type 0 where
  tab_active tab_inactive : TabStatus

pub record PrListItem : Type 0 where
  pub id : ℕ
  pub slug : Str
  pub name : Str
  pub repo_name : Str
  pub formatted_date : Str
  pub num_patchsets : ℕ

-- `len(patchsets)`, 0 where they could not be read.
abbrev pub count_or_0 : Result (List Patchset) → ℕ
count_or_0 (err e) = 0
count_or_0 (ok patchsets) = length patchsets

module _ (drv : Driver) (time_format : ℕ → Str) where
  abbrev pub list_item : Db → PatchRequest → PrListItem
  list_item db pr = record {
    id = pr.id;
    slug = pr.slug;
    name = pr.name;
    repo_name = pr.repo_name;
    formatted_date = time_format pr.created_at;
    num_patchsets = count_or_0 (get_patchsets_by_pr_id drv pr.id db);
  }

  abbrev pub list_page : Db → Result (List PatchRequest) → Response (List PrListItem)
  list_page db (err e) = status 500
  list_page db (ok prs) = page (map (list_item db) prs)

  unfoldable pub pr_list_handler : TabStatus → Db → Response (List PrListItem)
  pr_list_handler TabStatus.tab_inactive db = list_page db (get_patch_requests_inactive drv db)
  pr_list_handler TabStatus.tab_active db = list_page db (get_patch_requests_active drv db)

  -- `/prs` was the list of all repositories.
  unfoldable pub repo_pr_list_handler : Str → Db → Response (List PrListItem)
  repo_pr_list_handler repo db =
      if str_eq repo (codes "prs")
      then redirect (codes "/active")
      else list_page db (get_patch_requests_by_repo_name drv repo db)
