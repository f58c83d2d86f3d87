-- ===== src/Web/Shown.antt =====
-- The patch and the links of a page of web_pr_detail.go.
use patchbin.Base.{
  ℕ, zero, suc, ◌+◌, Str, Bool, true, false, Option, none, some, List, [], ◌∷◌, get_elem?, ◌==◌,
  ==_iff, Result, ok, err, Bool-cases, inl, inr, if◌then◌else◌, ◌≡◌, ◌≢◌, refl, sym, ap, >>=-eq-ok,
  ◌++◌, ◌∙◌, subst, arith,
}
use patchbin.Store.{PatchRequest, Patchset, Patch, Db}
use patchbin.Resolve.{resolve_target}
use patchbin.Target.{colon}
use patchbin.Pr.Queries.{get_user_by_id}
use patchbin.Web.{Response}
use patchbin.Web.Data.{Site, UserData, PatchsetData, PatchData}
use patchbin.Web.Detail.{user_data, get_all_patch_data, get_patch_data, get_log_data}
use patchbin.Web.Selected.{
  Page, PrDetailData, is_panic, or_status, patch_place, selected_place, link_to, place_before,
  selected_page, placed_page, with_patches, pr_page,
}

not_page :
    (b : Bool) (n : ℕ) (p : Page)
    → (if b then Response.panicked else Response.status n) ≢ Response.page p
not_page true n p h = cc h
not_page false n p h = cc h

pub or_status-page {ℓ} :
    {A : Type ℓ} (n : ℕ) (r : Result A) (next : A → Response Page) (p : Page)
    → or_status n r next ≡ Response.page p
    → (a : A) × (r ≡ ok a) × (next a ≡ Response.page p)
or_status-page n (ok a) next p h = (a, refl, h)
or_status-page n (err e) next p h = absurd (not_page (is_panic e) n p h)

-- The patch at the place of an id has this id.
patch_place-some :
    (id n place : ℕ) (ps : List Patch)
    → patch_place id n ps ≡ some place
    → (k : ℕ) × (p : Patch) × (place ≡ n + k) × (get_elem? ps k ≡ some p) × (p.id ≡ id)
unfolding patch_place
patch_place-some id n place [] h = absurd (cc h)
patch_place-some id n place (p ∷ ps) h = elim (Bool-cases (p.id == id)) [
  | inl e ↦
      let same : ◌≡◌ {A = Option ℕ} (some n) (some place) = rw e at h in
      (0, p, ground (arith, same), refl, (==_iff p.id id).0 e)
  | inr e ↦
      let (k, q, at, found, same) = patch_place-some id (suc n) place ps (rw e at h) in
      (suc k, q, omega arith, found, same)
]

-- The patch with this id, or the first one for 0.
abbrev pub IsAsked : ℕ → ℕ → Patch → Type 0
IsAsked zero place p = place ≡ 0
IsAsked (suc n) place p = p.id ≡ suc n

selected_place-IsAsked :
    (id place : ℕ) (ps : List Patch) (p : Patch)
    → selected_place id ps ≡ some place
    → get_elem? ps place ≡ some p
    → IsAsked id place p
unfolding selected_place
selected_place-IsAsked zero place ps p h found = ground (arith, h)
selected_place-IsAsked (suc n) place ps p h found =
    let (k, q, at, found', same) = patch_place-some (suc n) 0 place ps h in
    let there : place ≡ k = omega arith in
    let one : ◌≡◌ {A = Option Patch} (some q) (some p) =
      sym found' ∙ ap (get_elem? ps) (sym there) ∙ found in
    let which : q ≡ p = cc one in ap (λ (x : Patch). x.id) (sym which) ∙ same

get_patch_data-patch :
    (site : Site) (p : Patch) (d : PatchData) → get_patch_data site p ≡ ok d → d.patch ≡ p
unfolding get_patch_data
get_patch_data-patch site p d h =
    let ((files, preamble), parsed, h1) =
      >>=-eq-ok (site.tools.parse_patch p.content.raw_text) _ h in
    let (header, read, h2) = >>=-eq-ok (site.tools.parse_header preamble) _ h1 in
    sym (ap patch_in h2)
  where
    patch_in : Result PatchData → Patch
    patch_in (ok x) = x.patch
    patch_in (err e) = p

-- The data of a page, or else what is given.
abbrev detail_of : PrDetailData → Response Page → PrDetailData
detail_of d (Response.page (Page.detail x)) = x
detail_of d r = d

-- The page shows the patch that was asked for, out of the patches of its patchset, and the links
-- lead to those in front of it and behind it.
abbrev pub IsShown : ℕ → PrDetailData → Type 0
IsShown id d =
    (place : ℕ) × (get_elem? d.patches place ≡ some d.patch.patch)
    × IsAsked id place d.patch.patch
    × (d.prev_url ≡ link_to d.formatted_patchset_id (place_before place d.patches))
    × (d.next_url ≡ link_to d.formatted_patchset_id (get_elem? d.patches (suc place)))

module _ (site : Site) (db : Db) (pr : PatchRequest) (ps : Patchset) (user : UserData)
    (shown : List PatchsetData) where
  selected_page-IsShown :
      (id place : ℕ) (patches : List Patch) (o : Option Patch) (d : PrDetailData)
      → get_elem? patches place ≡ o
      → selected_place id patches ≡ some place
      → selected_page site pr ps user patches shown db place o ≡ Response.page (Page.detail d)
      → IsShown id d
  selected_page-IsShown id place patches none d at chosen h = absurd (cc h)
  selected_page-IsShown id place patches (some p) d at chosen h =
      let (patch, parsed, h1) = or_status-page 422 (get_patch_data site p) _ (Page.detail d) h in
      let (logs, logged, h2) =
        or_status-page 422 (get_log_data site pr.id shown db) _ (Page.detail d) h1 in
      let whole = ap (detail_of d) h2 in
      let mine : patch.patch ≡ p = get_patch_data-patch site p patch parsed in
      subst (IsShown id) whole (
        place,
        at ∙ ap some (sym mine),
        subst (IsAsked id place) (sym mine) (selected_place-IsAsked id place patches p chosen at),
        refl,
        refl,
      )

  placed_page-IsShown :
      (id : ℕ) (patches : List Patch) (o : Option ℕ) (d : PrDetailData)
      → selected_place id patches ≡ o
      → placed_page site pr ps user patches shown db o ≡ Response.page (Page.detail d)
      → IsShown id d
  placed_page-IsShown id patches none d chosen h = absurd (cc h)
  placed_page-IsShown id patches (some place) d chosen h =
      selected_page-IsShown id place patches (get_elem? patches place) d refl chosen h

  with_patches-IsShown :
      (id : ℕ) (patches : List Patch) (d : PrDetailData)
      → with_patches site id pr ps user db (patches, shown) ≡ Response.page (Page.detail d)
      → IsShown id d
  with_patches-IsShown id [] d h = absurd (cc h)
  with_patches-IsShown id (p ∷ patches) d h =
      placed_page-IsShown id (p ∷ patches) (selected_place id (p ∷ patches)) d refl h

-- Every page of a patch request that is shown for an address with the number `id` of a patch (0 without
-- one) shows the patch with that id, or the first one, out of the patches in its list; the link back
-- leads to the patch in front of it and the other one to the patch behind it, where there are such.
pub pr_page-IsShown :
    (site : Site) (repo slug : Str) (id : ℕ) (db : Db) (d : PrDetailData)
    → pr_page site repo id slug db ≡ Response.page (Page.detail d)
    → IsShown id d
unfolding pr_page
pr_page-IsShown site repo slug id db d h =
    let (found, resolved, h1) =
      or_status-page 404 (resolve_target site.drv (repo ++ (colon ∷ slug)) db) _ (Page.detail d)
        h in
    let (author, known, h2) =
      or_status-page 404 (get_user_by_id site.drv found.0.user_id db) _ (Page.detail d) h1 in
    let (user, parsed, h3) = or_status-page 422 (user_data site author) _ (Page.detail d) h2 in
    let (all, read, h4) =
      or_status-page 422 (get_all_patch_data site found.0 found.1 db) _ (Page.detail d) h3 in
    with_patches-IsShown site db found.0 found.1 user all.1 id all.0 d h4
