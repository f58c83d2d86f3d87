-- ===== src/Resolve.antt =====
-- util.go: finding a patch request and a patchset from what a user writes. The interface
-- `GitPatchRequest` is its one implementation, `PrCmd`.
pub mod Found
pub mod Ids
pub mod Shown
use patchbin.Base.{
  has_prefix, drop, ℕ, zero, suc, ◌-◌, Str, Bool, true, false, not, ◌||◌, Option, none, some, List,
  [], ◌∷◌, ◌++◌, codes, ◌==◌, ltb, str_eq, length, get_elem?, last_elem?, trim_suffix, trim_prefix,
  if◌then◌else◌, Result, ok, err, Error, fail_if, ◌>>=◌, ◌>>◌,
}
use patchbin.Base.Space.{trim_space}
use patchbin.Base.Search.{cut_first}
use patchbin.Base.Number.{ℤ, pos, negsuc, parse_int, format}
use patchbin.Store.{PatchRequest, Patchset, Db, Driver, Statement}
use patchbin.Store.Statements.{run}
use patchbin.Pr.Queries.{indexed, get_patchsets_by_pr_id, get_patch_request_by_repo_and_slug}
use patchbin.Target.{Target, parse_target, colon, dot, dot_patch}

-- Any error of `r` is reported as `e`.
abbrev pub or_error {ℓ} : {A : Type ℓ} → Error → Result A → Result A
or_error e (ok a) = ok a
or_error e (err _) = err e

-- `patchsets[rev-1]`, or the last one for 0.
abbrev pub pick_revision : ℕ → List Patchset → Result Patchset
pick_revision zero patchsets = indexed (last_elem? patchsets)
pick_revision (suc n) patchsets =
    if ltb (length patchsets) (suc n)
    then err Error.no_such_revision
    else indexed (get_elem? patchsets n)

module _ (drv : Driver) where
  -- The patchset of a request that was found.
  unfoldable pub of_request : ℕ → PatchRequest → Db → Result (PatchRequest × Patchset)
  of_request rev pr db = do
    patchsets ← or_error Error.no_patchsets (get_patchsets_by_pr_id drv pr.id db)
    patchset ← pick_revision rev patchsets
    ok (pr, patchset)

  -- The second try, with the revision split off.
  unfoldable pub by_target : Target → Db → Result (PatchRequest × Patchset)
  unfolding of_request
  by_target target db = do
    pr ←
        or_error Error.pr_not_found
          (get_patch_request_by_repo_and_slug drv target.repo target.slug db)
    of_request target.rev pr db

  abbrev pub first_or_second : Target → Db → Result PatchRequest → Result (PatchRequest × Patchset)
  first_or_second target db (ok pr) = of_request 0 pr db
  first_or_second target db (err e) = by_target target db

  -- `rawParts[1]`
  abbrev pub full_slug : Str → Result Str
  full_slug raw = indexed (cut_first colon (trim_suffix (trim_space raw) dot_patch)).1

  unfoldable pub resolve_target : Str → Db → Result (PatchRequest × Patchset)
  unfolding of_request by_target
  resolve_target raw db = do
    target ← parse_target raw
    slug ← full_slug raw
    first_or_second target db (get_patch_request_by_repo_and_slug drv target.repo slug db)

pub record ParsedId : Type 0 where
  pub pr_id : ℤ
  pub rev : ℤ

abbrev pub number_or : Error → Option ℤ → Result ℤ
number_or e none = err e
number_or e (some n) = ok n

-- The text behind the prefix, cut at its first dot.
abbrev pub id_of : Str × Option Str → Result ParsedId
id_of (id_text, none) = do
  id ← number_or Error.bad_pr_id (parse_int id_text)
  ok (record { pr_id = id; rev = pos 0 })
id_of (id_text, some rev_text) = do
  id ← number_or Error.bad_pr_id (parse_int id_text)
  rev ← number_or Error.bad_revision (parse_int (trim_prefix rev_text (codes "v")))
  ok (record { pr_id = id; rev = rev })

unfoldable pub parse_id : Str → Result ParsedId
parse_id raw = do
  let trimmed = trim_space raw
  fail_if (str_eq trimmed []) Error.empty_id
  id_of (cut_first dot (trim_prefix trimmed (codes "pr-")))

-- The place of a patchset among those of its request, from 1 on; 0 if it is not there.
unfoldable pub place_of : ℕ → ℕ → List Patchset → ℕ
place_of id n [] = 0
place_of id n (p ∷ ps) = let rest = place_of id (suc n) ps in if p.id == id then n else rest

abbrev pub place_or_0 : ℕ → Result (List Patchset) → ℕ
place_or_0 id (ok patchsets) = place_of id 1 patchsets
place_or_0 id (err _) = 0

-- `nil` is none.
unfoldable pub get_patchset_rev : Driver → Option Patchset → Db → ℕ
unfolding place_of
get_patchset_rev drv none db = 0
get_patchset_rev drv (some p) db =
    place_or_0 p.id (get_patchsets_by_pr_id drv p.patch_request_id db)

unfoldable pub get_formatted_patchset_id : ℕ → ℕ → Str
get_formatted_patchset_id pr rev =
    if (pr == 0) || (rev == 0) then [] else format pr ++ (dot ∷ format rev)

-- `patchsets[rev-1]`, or the last one for 0; a revision that is not there is refused.
abbrev pub pick_parsed : ℤ → List Patchset → Result Patchset
pick_parsed (pos n) patchsets = pick_revision n patchsets
pick_parsed (negsuc n) patchsets = err Error.no_such_revision

abbrev pub patchsets_of_id : Driver → ℤ → Db → Result (List Patchset)
patchsets_of_id drv (pos id) db = get_patchsets_by_pr_id drv id db
patchsets_of_id drv (negsuc id) db = run drv Statement.select_patchsets db >> err Error.no_patchsets

-- No id is negative, so a negative number selects no row.
unfoldable pub get_patchset_by_parsed_id : Driver → ParsedId → Db → Result Patchset
get_patchset_by_parsed_id drv parsed db = do
  patchsets ← patchsets_of_id drv parsed.pr_id db
  pick_parsed parsed.rev patchsets

-- `strings.Replace(prID, "pr-", "", 1)`: the first "pr-" is left out, wherever it stands.
unfoldable pub without_first : Str → Str → Str
without_first [] sub = []
without_first (c ∷ s) sub =
    let rest = without_first s sub in
    if has_prefix (c ∷ s) sub then drop (length sub) (c ∷ s) else c ∷ rest

unfoldable pub get_pr_id : Str → Result ℤ
unfolding without_first
get_pr_id text = number_or Error.bad_number (parse_int (without_first text (codes "pr-")))
