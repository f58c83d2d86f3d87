-- ===== src/Store/Valid.antt =====
-- The invariant of the database.
use patchbin.Base.{
  ℕ, ◌≤◌, ◌<◌, Str, Bool, false, ◌&&◌, List, [], ◌∷◌, ◌++◌, map, any_row, where_rows, str_eq,
  str_eq_iff, ◌≡◌, refl, arith, All, All-append, Bool-cases, inl, inr,
}
use patchbin.Store.{User, PatchRequest, Patchset, Patch, EventLog, Db}
use patchbin.Store.Keys.{Ordered, Ordered-append, Ordered-where_rows, Ordered-map}
use patchbin.Store.Statements.{
  same_target, push_user, push_request, push_patchset, push_patch, push_event,
}

-- No two rows have the same repository and slug.
abbrev pub DistinctTargets : List PatchRequest → Type 0
DistinctTargets [] = Unit
DistinctTargets (r ∷ rs) =
    (any_row (same_target r.repo_name r.slug) rs ≡ false) × DistinctTargets rs

pub record IsValid (db : Db) : Type 0 where
  pub users : Ordered (λ (u : User). u.id) 0 db.users db.last_user
  pub requests : Ordered (λ (r : PatchRequest). r.id) 0 db.requests db.last_request
  pub targets : DistinctTargets db.requests
  pub patchsets : Ordered (λ (p : Patchset). p.id) 0 db.patchsets db.last_patchset
  pub patches : Ordered (λ (p : Patch). p.id) 0 db.patches db.last_patch
  pub events : Ordered (λ (e : EventLog). e.id) 0 db.event_logs db.last_event
  -- no patch names a patchset beyond the last one made
  pub opened : All (λ (p : Patch). p.patchset_id ≤ db.last_patchset) db.patches

same_target-sym :
    (r : PatchRequest) (repo slug : Str)
    → same_target repo slug r ≡ false
    → (str_eq repo r.repo_name && str_eq slug r.slug) ≡ false
same_target-sym r repo slug h = ground (
  arith,
  str_eq_iff r.repo_name repo,
  str_eq_iff r.slug slug,
  str_eq_iff repo r.repo_name,
  str_eq_iff slug r.slug,
)

any_row-append {ℓ} :
    {A : Type ℓ} (p : A → Bool) (xs : List A) (x : A)
    → any_row p xs ≡ false
    → p x ≡ false
    → any_row p (xs ++ x ∷ []) ≡ false
any_row-append p [] x h k = ground arith
any_row-append p (y ∷ ys) x h k = ground (arith, any_row-append p ys x)

DistinctTargets-append :
    (rs : List PatchRequest) (r : PatchRequest)
    → DistinctTargets rs
    → any_row (same_target r.repo_name r.slug) rs ≡ false
    → DistinctTargets (rs ++ r ∷ [])
DistinctTargets-append [] r h fresh = (refl, tt)
DistinctTargets-append (x ∷ xs) r (h, hs) fresh = (
  any_row-append _ xs r h (same_target-sym x r.repo_name r.slug (ground arith)),
  DistinctTargets-append xs r hs (ground arith),
)

-- A change that keeps the targets of the rows keeps them distinct.
any_row-map :
    (f : PatchRequest → PatchRequest)
    → ((r : PatchRequest) → (f r).repo_name ≡ r.repo_name)
    → ((r : PatchRequest) → (f r).slug ≡ r.slug)
    → (repo slug : Str) (rs : List PatchRequest)
    → any_row (same_target repo slug) (map f rs) ≡ any_row (same_target repo slug) rs
any_row-map f repo_kept slug_kept repo slug [] = refl
any_row-map f repo_kept slug_kept repo slug (r ∷ rs) =
    cc (repo_kept r, slug_kept r, any_row-map f repo_kept slug_kept repo slug rs)

pub DistinctTargets-map :
    (f : PatchRequest → PatchRequest)
    → ((r : PatchRequest) → (f r).repo_name ≡ r.repo_name)
    → ((r : PatchRequest) → (f r).slug ≡ r.slug)
    → (rs : List PatchRequest) → DistinctTargets rs
    → DistinctTargets (map f rs)
DistinctTargets-map f repo_kept slug_kept [] h = tt
DistinctTargets-map f repo_kept slug_kept (r ∷ rs) (h, hs) = (
  rw (repo_kept, slug_kept, any_row-map f repo_kept slug_kept) h,
  DistinctTargets-map f repo_kept slug_kept rs hs,
)

All-raise :
    (n m : ℕ) (ps : List Patch)
    → n ≤ m
    → All (λ (p : Patch). p.patchset_id ≤ n) ps
    → All (λ (p : Patch). p.patchset_id ≤ m) ps
All-raise n m [] le h = tt
All-raise n m (p ∷ ps) le (h, hs) = (omega arith, All-raise n m ps le hs)

All-where_rows :
    (p : Patch → Bool) (n : ℕ) (ps : List Patch)
    → All (λ (p : Patch). p.patchset_id ≤ n) ps
    → All (λ (p : Patch). p.patchset_id ≤ n) (where_rows p ps)
All-where_rows p n [] h = tt
All-where_rows p n (x ∷ xs) (h, hs) = elim (Bool-cases (p x)) [
  | inl e ↦ rw e (h, All-where_rows p n xs hs)
  | inr e ↦ rw e (All-where_rows p n xs hs)
]

module _ {db : Db} (v : IsValid db) where
  pub push_user-IsValid : (u : User) → db.last_user < u.id → IsValid (push_user u db)
  push_user-IsValid u h = record {
    users = Ordered-append (λ (u : User). u.id) 0 db.users db.last_user u v.users h;
    requests = v.requests;
    targets = v.targets;
    patchsets = v.patchsets;
    patches = v.patches;
    events = v.events;
    opened = v.opened;
  }

  pub push_request-IsValid :
      (r : PatchRequest)
      → db.last_request < r.id
      → any_row (same_target r.repo_name r.slug) db.requests ≡ false
      → IsValid (push_request r db)
  push_request-IsValid r h fresh = record {
    users = v.users;
    requests =
        Ordered-append (λ (r : PatchRequest). r.id) 0 db.requests db.last_request r v.requests h;
    targets = DistinctTargets-append db.requests r v.targets fresh;
    patchsets = v.patchsets;
    patches = v.patches;
    events = v.events;
    opened = v.opened;
  }

  pub push_patchset-IsValid :
      (p : Patchset) → db.last_patchset < p.id → IsValid (push_patchset p db)
  push_patchset-IsValid p h = record {
    users = v.users;
    requests = v.requests;
    targets = v.targets;
    patchsets =
        Ordered-append (λ (p : Patchset). p.id) 0 db.patchsets db.last_patchset p v.patchsets h;
    patches = v.patches;
    events = v.events;
    opened = All-raise db.last_patchset p.id db.patches (omega arith) v.opened;
  }

  pub push_patch-IsValid :
      (p : Patch)
      → db.last_patch < p.id
      → p.patchset_id ≤ db.last_patchset
      → IsValid (push_patch p db)
  push_patch-IsValid p h known = record {
    users = v.users;
    requests = v.requests;
    targets = v.targets;
    patchsets = v.patchsets;
    patches = Ordered-append (λ (p : Patch). p.id) 0 db.patches db.last_patch p v.patches h;
    events = v.events;
    opened = All-append _ db.patches (p ∷ []) v.opened (known, tt);
  }

  pub push_event-IsValid : (e : EventLog) → db.last_event < e.id → IsValid (push_event e db)
  push_event-IsValid e h = record {
    users = v.users;
    requests = v.requests;
    targets = v.targets;
    patchsets = v.patchsets;
    patches = v.patches;
    events = Ordered-append (λ (e : EventLog). e.id) 0 db.event_logs db.last_event e v.events h;
    opened = v.opened;
  }

  -- A change of the patch requests that keeps ids and targets.
  pub map_requests-IsValid :
      (f : PatchRequest → PatchRequest)
      → ((r : PatchRequest) → (f r).id ≡ r.id)
      → ((r : PatchRequest) → (f r).repo_name ≡ r.repo_name)
      → ((r : PatchRequest) → (f r).slug ≡ r.slug)
      → IsValid (record db { requests = map f db.requests })
  map_requests-IsValid f id_kept repo_kept slug_kept = record {
    users = v.users;
    requests = Ordered-map _ f id_kept 0 db.requests db.last_request v.requests;
    targets = DistinctTargets-map f repo_kept slug_kept db.requests v.targets;
    patchsets = v.patchsets;
    patches = v.patches;
    events = v.events;
    opened = v.opened;
  }

  pub keep_patchsets-IsValid :
      (p : Patchset → Bool) → IsValid (record db { patchsets = where_rows p db.patchsets })
  keep_patchsets-IsValid p = record {
    users = v.users;
    requests = v.requests;
    targets = v.targets;
    patchsets =
        Ordered-where_rows (λ (p : Patchset). p.id) p 0 db.patchsets db.last_patchset v.patchsets;
    patches = v.patches;
    events = v.events;
    opened = v.opened;
  }

  pub keep_rows-IsValid :
      (p : Patch → Bool) (q : EventLog → Bool)
      → IsValid
          (record db { patches = where_rows p db.patches; event_logs = where_rows q db.event_logs })
  keep_rows-IsValid p q = record {
    users = v.users;
    requests = v.requests;
    targets = v.targets;
    patchsets = v.patchsets;
    patches = Ordered-where_rows (λ (p : Patch). p.id) p 0 db.patches db.last_patch v.patches;
    events = Ordered-where_rows (λ (e : EventLog). e.id) q 0 db.event_logs db.last_event v.events;
    opened = All-where_rows p db.last_patchset db.patches v.opened;
  }
