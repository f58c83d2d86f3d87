-- ===== src/Resolve/Shown.antt =====
-- The revision that getPatchsetRev of util.go counts for a patchset, and ResolveTarget on it.
use patchbin.Base.{
  ℕ, zero, suc, ◌+◌, ◌≤◌, ◌<◌, false, some, List, [], ◌∷◌, ◌==◌, ltb, ==_iff, length, get_elem?,
  Bool-cases, ok, err, Error, Result-cases, ◌≡◌, ap, ◌∙◌, inl, inr, refl, arith,
}
use patchbin.Base.Number.{max_int64}
use patchbin.Store.{PatchRequest, Patchset, Db, Driver}
use patchbin.Pr.Queries.{indexed, get_patchsets_by_pr_id, get_patch_request_by_repo_and_slug}
use patchbin.Target.{Target, print_target, parse_target}
use patchbin.Target.RoundTrip.{
  IsPrintable, revised_slug, parse-print_target, cut_first-print_revision,
}
use patchbin.Resolve.{
  pick_revision, of_request, by_target, full_slug, resolve_target, place_of, get_patchset_rev,
}

-- The place that is counted for an id holds a patchset with that id.
place_of-found :
    (id n m : ℕ) (ps : List Patchset)
    → place_of id (suc n) ps ≡ suc m
    → (k : ℕ) × (q : Patchset) × (m ≡ n + k)
      × (get_elem? ps k ≡ some q)
      × (q.id ≡ id)
      × (suc k ≤ length ps)
unfolding place_of
place_of-found id n m [] h = absurd (omega (arith, h))
place_of-found id n m (p ∷ ps) h = elim (Bool-cases (p.id == id)) [
  | inl here ↦ (0, p, omega (arith, rw here at h), refl, (==_iff p.id id).0 here, omega arith)
  | inr elsewhere ↦
      let (k, q, place, found, same, below) = place_of-found id (suc n) m ps (rw elsewhere at h) in
      (suc k, q, omega (arith, place), found, same, omega (arith, below))
]

pick_revision-place :
    (m : ℕ) (ps : List Patchset) (q : Patchset)
    → get_elem? ps m ≡ some q
    → suc m ≤ length ps
    → pick_revision (suc m) ps ≡ ok q
pick_revision-place m ps q found below =
    let within : ltb (length ps) (suc m) ≡ false = ground arith in rw within (ap indexed found)

positive : (n : ℕ) → 0 < n → (m : ℕ) × (n ≡ suc m)
positive zero h = absurd (omega arith)
positive (suc m) h = (m, refl)

module _ (drv : Driver) (db : Db) where
  -- The revision that is counted is picked again.
  of_request-shown :
      (pr : PatchRequest) (p : Patchset) (m : ℕ)
      → get_patchset_rev drv (some p) db ≡ suc m
      → p.patch_request_id ≡ pr.id
      → (q : Patchset) × (of_request drv (suc m) pr db ≡ ok (pr, q)) × (q.id ≡ p.id)
  unfolding get_patchset_rev of_request
  of_request-shown pr p m h same =
      elim (Result-cases (get_patchsets_by_pr_id drv p.patch_request_id db)) [
        | inl (e, failed) ↦ absurd (omega (arith, rw failed at h))
        | inr (ps, done) ↦
            let (k, q, place, found, id, below) = place_of-found p.id 0 m ps (rw done at h) in
            let at : m ≡ k = omega (arith, place) in
            let picked : pick_revision (suc m) ps ≡ ok q =
              rw at (pick_revision-place k ps q found below) in
            let read : get_patchsets_by_pr_id drv pr.id db ≡ ok ps = rw same at done in
            (q, rw (read, picked) refl, id)
      ]

  -- A patchset with a revision is found by what is shown of it: by a printable target that names its
  -- request and the revision that is counted for it, provided that this is an int64 and that no
  -- request has the slug with the revision at its end.
  pub resolve_target-shown :
      (t : Target) (v : IsPrintable t) (pr : PatchRequest) (p : Patchset) (e : Error)
      → 0 < t.rev
      → t.rev ≤ max_int64
      → get_patchset_rev drv (some p) db ≡ t.rev
      → p.patch_request_id ≡ pr.id
      → get_patch_request_by_repo_and_slug drv t.repo t.slug db ≡ ok pr
      → get_patch_request_by_repo_and_slug drv t.repo (revised_slug t v) db ≡ err e
      → (q : Patchset) × (resolve_target drv (print_target t) db ≡ ok (pr, q)) × (q.id ≡ p.id)
  unfolding resolve_target by_target
  resolve_target-shown t v pr p e h fits shown same named other =
      let (m, rev) = positive t.rev h in
      let (q, found, id) = of_request-shown pr p m (shown ∙ rev) same in
      let whole = λ (none_left : t.rev ≡ 0). absurd (omega arith) in
      let parsed : parse_target (print_target t) ≡ ok t = parse-print_target t v fits whole in
      let slug : full_slug drv (print_target t) ≡ ok (revised_slug t v) =
        ap (λ c. indexed c.1) (cut_first-print_revision t v h) in
      (q, rw (parsed, slug, other, named, rev) found, id)
