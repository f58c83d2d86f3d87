-- ===== src/Resolve/Found.antt =====
-- What ResolveTarget finds, and that it never panics.
use patchbin.Base.{
  ℕ, zero, suc, ◌-◌, ◌<◌, Str, Option, none, some, List, [], ◌∷◌, ◌==◌, ltb, ==_iff, length,
  get_elem?, where_rows, trim_suffix, str_eq, Bool-cases, All, Result, ok, err, Error, Result-cases,
  >>=-eq-ok, fail_if, ◌>>=◌, ◌≡◌, ◌≢◌, refl, sym, subst, ◌∙◌, inl, inr, arith,
}
use patchbin.Base.Space.{trim_space}
use patchbin.Base.Search.{cut_first}
use patchbin.Base.Sort.{All-sort_by}
use patchbin.Store.{PatchRequest, Patchset, Db, Driver, Statement}
use patchbin.Store.Statements.{run}
use patchbin.Pr.Queries.{
  indexed, get_patchsets_by_pr_id, get_patch_request_by_repo_and_slug, patchsets_of, some_patchsets,
}
use patchbin.Target.{Target, parse_target, target_of, has_white, colon, dot_patch}
use patchbin.Resolve.{
  pick_revision, of_request, by_target, first_or_second, full_slug, resolve_target,
}

-- A request with a patchset of its own, or an error that is reported.
abbrev pub IsResolved : Result (PatchRequest × Patchset) → Type 0
IsResolved (ok (pr, patchset)) = patchset.patch_request_id ≡ pr.id
IsResolved (err e) = e ≢ Error.panic

-- The patchsets of one request.
AllOf : ℕ → List Patchset → Type 0
AllOf id = All (λ (p : Patchset). p.patch_request_id ≡ id)

where_rows-AllOf :
    (id : ℕ) (ps : List Patchset)
    → AllOf id (where_rows (λ (p : Patchset). p.patch_request_id == id) ps)
unfolding AllOf
where_rows-AllOf id [] = tt
where_rows-AllOf id (p ∷ ps) = elim (Bool-cases (p.patch_request_id == id)) [
  | inl h ↦ rw h ((==_iff p.patch_request_id id).0 h, where_rows-AllOf id ps)
  | inr h ↦ rw h (where_rows-AllOf id ps)
]

get_elem?-found :
    (id n : ℕ) (ps : List Patchset) (pr : PatchRequest)
    → pr.id ≡ id
    → n < length ps
    → AllOf id ps
    → IsResolved (indexed (get_elem? ps n) >>= λ p. ok (pr, p))
unfolding AllOf
get_elem?-found id n [] pr same below h = absurd (omega (arith, below))
get_elem?-found id zero (p ∷ ps) pr same below (here, h) = here ∙ sym same
get_elem?-found id (suc n) (p ∷ ps) pr same below (here, h) =
    get_elem?-found id n ps pr same (omega arith) h

pick_revision-found :
    (rev : ℕ) (pr : PatchRequest) (ps : List Patchset)
    → ps ≢ []
    → AllOf pr.id ps
    → IsResolved (pick_revision rev ps >>= λ p. ok (pr, p))
pick_revision-found rev pr [] filled h = absurd (filled refl)
pick_revision-found zero pr (p ∷ ps) filled h =
    get_elem?-found pr.id (length (p ∷ ps) - 1) (p ∷ ps) pr refl (omega arith) h
pick_revision-found (suc n) pr (p ∷ ps) filled h =
    elim (Bool-cases (ltb (length (p ∷ ps)) (suc n))) [
      | inl over ↦ rw over (λ same. cc)
      | inr within ↦ rw within (get_elem?-found pr.id n (p ∷ ps) pr refl (ground (arith, within)) h)
    ]

-- What the parser of targets says no to is reported.
target_of-reported : (c : Str × Option Str) (e : Error) → target_of c ≡ err e → e ≢ Error.panic
unfolding target_of
target_of-reported (repo, none) e h = λ same. cc
target_of-reported (repo, some part) e h = λ same. ground (arith, h, same)

parse_target-reported : (raw : Str) (e : Error) → parse_target raw ≡ err e → e ≢ Error.panic
unfolding parse_target
parse_target-reported raw e h =
    let u = trim_space raw in
    elim (Bool-cases (str_eq u [])) [
      | inl empty ↦ λ same. ground (arith, empty, same)
      | inr filled ↦ elim (Bool-cases (has_white u)) [
        | inl w ↦ λ same. ground (arith, filled, w, same)
        | inr w ↦
            target_of-reported (cut_first colon (trim_suffix u dot_patch)) e
              (ground (arith, filled, w))
      ]
    ]

full_slug-cut :
    (c : Str × Option Str) (t : Target)
    → target_of c ≡ ok t
    → (slug : Str) × (indexed c.1 ≡ ok slug)
unfolding target_of
full_slug-cut (repo, none) t h = cc
full_slug-cut (repo, some part) t h = (part, refl)

full_slug-ok :
    (drv : Driver) (raw : Str) (t : Target)
    → parse_target raw ≡ ok t
    → (slug : Str) × (full_slug drv raw ≡ ok slug)
unfolding parse_target
full_slug-ok drv raw t h =
    let u = trim_space raw in
    let (_, _, rest) = >>=-eq-ok (fail_if (str_eq u []) Error.empty_target) _ h in
    let (_, _, last) = >>=-eq-ok (fail_if (has_white u) Error.target_whitespace) _ rest in
    full_slug-cut (cut_first colon (trim_suffix u dot_patch)) t last

module _ (drv : Driver) where
  get_patchsets-AllOf :
      (id : ℕ) (db : Db) (ps : List Patchset)
      → get_patchsets_by_pr_id drv id db ≡ ok ps
      → (ps ≢ []) × AllOf id ps
  unfolding get_patchsets_by_pr_id AllOf
  get_patchsets-AllOf id db ps h =
      let (_, _, rest) = >>=-eq-ok (run drv Statement.select_patchsets db) _ h in
      let (same, filled) = some_patchsets-ok (patchsets_of id db) ps rest in
      (
        filled,
        subst (AllOf id) same
            (All-sort_by (λ (p : Patchset). p.created_at) _ _ (where_rows-AllOf id db.patchsets)),
      )
    where
      some_patchsets-ok :
          (qs ps : List Patchset) → some_patchsets qs ≡ ok ps → (qs ≡ ps) × (ps ≢ [])
      some_patchsets-ok [] ps h = cc
      some_patchsets-ok (q ∷ qs) ps h = (cc, λ none_left. cc)

  of_request-IsResolved :
      (rev : ℕ) (pr : PatchRequest) (db : Db) → IsResolved (of_request drv rev pr db)
  unfolding of_request
  of_request-IsResolved rev pr db = elim (Result-cases (get_patchsets_by_pr_id drv pr.id db)) [
    | inl (e, h) ↦ rw h (λ same. cc)
    | inr (ps, h) ↦
        let (filled, own) = get_patchsets-AllOf pr.id db ps h in
        rw h (pick_revision-found rev pr ps filled own)
  ]

  by_target-IsResolved : (t : Target) (db : Db) → IsResolved (by_target drv t db)
  unfolding by_target
  by_target-IsResolved t db =
      elim (Result-cases (get_patch_request_by_repo_and_slug drv t.repo t.slug db)) [
        | inl (e, h) ↦ rw h (λ same. cc)
        | inr (pr, h) ↦ rw h (of_request-IsResolved t.rev pr db)
      ]

  first_or_second-IsResolved :
      (t : Target) (db : Db) (r : Result PatchRequest) → IsResolved (first_or_second drv t db r)
  first_or_second-IsResolved t db (ok pr) = of_request-IsResolved 0 pr db
  first_or_second-IsResolved t db (err e) = by_target-IsResolved t db

  -- Whatever text, database and driver, ResolveTarget does not panic, and a patchset that it finds
  -- belongs to the patch request that it finds.
  pub resolve_target-IsResolved : (raw : Str) (db : Db) → IsResolved (resolve_target drv raw db)
  unfolding resolve_target
  resolve_target-IsResolved raw db = elim (Result-cases (parse_target raw)) [
    | inl (e, h) ↦ rw h (parse_target-reported raw e h)
    | inr (t, h) ↦
        let (slug, found) = full_slug-ok drv raw t h in
        rw h (
          rw found (
            first_or_second-IsResolved t db
              (get_patch_request_by_repo_and_slug drv t.repo slug db)))
  ]
