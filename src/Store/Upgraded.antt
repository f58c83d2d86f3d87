-- ===== src/Store/Upgraded.antt =====
-- What an upgrade of a database file by sqliteUpgrade of sqlite.go runs and keeps.
use patchbin.Base.{
  ℕ, zero, suc, ◌+◌, ◌-◌, ◌≤◌, Bool, true, false, some, List, [], ◌∷◌, ◌++◌, length, length-append,
  get_elem?, append_assoc, Result, ok, err, Bool-cases, inl, inr, ◌≡◌, refl, sym, ap, subst, ◌∙◌,
  if◌then◌else◌, arith,
}
use patchbin.Base.Number.{ℤ, pos, negsuc}
use patchbin.Store.Upgrade.{
  Script, sqlite_migrations, migration_count, DbFile, Tx, Engine, is_current, is_newer, ran,
  exec_at, then_next, migrate, run_scripts, bump, commit, rolled_back, upgrade_steps,
  sqlite_upgrade, sqlite_open, Lacks, Ran, IsUpgraded,
}

module _ {ℓ} {A : Type ℓ} where
  split_at :
      (n : ℕ) (xs : List A)
      → n ≤ length xs
      → (done : List A) × (rest : List A) × (xs ≡ done ++ rest) × (length done ≡ n)
  split_at zero xs h = ([], xs, refl, refl)
  split_at (suc n) [] h = absurd (omega (arith, h))
  split_at (suc n) (x ∷ xs) h =
      let (done, rest, e, count) = split_at n xs (omega (arith, h)) in
      (x ∷ done, rest, ap (λ l. x ∷ l) e, ap suc count)

  get_elem?-behind : (xs ys : List A) (x : A) → get_elem? (xs ++ x ∷ ys) (length xs) ≡ some x
  get_elem?-behind [] ys x = refl
  get_elem?-behind (y ∷ xs) ys x = get_elem?-behind xs ys x

is_current-version : (v : ℤ) → is_current v ≡ true → v ≡ pos migration_count
is_current-version (negsuc n) h = absurd (cc h)
is_current-version (pos n) h = let same : n ≡ 21 = ground arith in ap pos same

module _ {ℓ} {T : Type ℓ} (engine : Engine T) where
  -- The scripts ran in the transaction, or one failed; nothing is committed.
  abbrev IsStepped : List Script → Tx T → Result (Unit {0}) × Tx T → Type ℓ
  IsStepped scripts tx (err e, tx') = tx'.committed ≡ tx.committed
  IsStepped scripts tx (ok a, tx') =
      (tx'.committed ≡ tx.committed) × Ran engine scripts tx.working.content tx'.working.content

  one_more :
      (s : Script) (rest : List Script) (tx : Tx T) (x : Bool × T)
      (next : Tx T → Result (Unit {0}) × Tx T)
      → ((tx1 : Tx T) → IsStepped rest tx1 (next tx1))
      → engine.exec s tx.working.content ≡ x
      → IsStepped (s ∷ rest) tx (then_next engine next (ran engine tx x))
  one_more s rest tx (false, t) next h e = refl
  one_more s rest tx (true, t) next h e = later (next tx1) (h tx1)
    where
      tx1 : Tx T
      tx1 = record tx { working = record { user_version = tx.working.user_version; content = t } }

      later : (y : Result (Unit {0}) × Tx T) → IsStepped rest tx1 y → IsStepped (s ∷ rest) tx y
      later (err e', tx') kept = kept
      later (ok a, tx') (kept, runs) = (kept, (t, e, runs))

  migrate-IsStepped :
      (done rest : List Script)
      → sqlite_migrations ≡ done ++ rest
      → (tx : Tx T) → IsStepped rest tx (migrate engine (length rest) (length done) tx)
  unfolding migrate
  migrate-IsStepped done [] at tx = (refl, refl)
  migrate-IsStepped done (s ∷ rest) at tx =
      let found : get_elem? sqlite_migrations (length done) ≡ some s =
        ap (λ (l : List Script). get_elem? l (length done)) at ∙ get_elem?-behind done rest s in
      let count : length (done ++ s ∷ []) ≡ suc (length done) =
        omega (arith, length-append done (s ∷ [])) in
      subst
        (λ o. IsStepped (s ∷ rest) tx (
          then_next engine (migrate engine (length rest) (suc (length done)))
            (exec_at engine o tx)))
        (sym found)
        (one_more s rest tx (engine.exec s tx.working.content)
          (migrate engine (length rest) (suc (length done)))
          (λ tx1.
            subst (λ i. IsStepped rest tx1 (migrate engine (length rest) i tx1)) count
              (migrate-IsStepped (done ++ s ∷ []) rest (at ∙ sym (append_assoc done (s ∷ []) rest))
                tx1))
          refl)

  -- The scripts that the version lacks ran in the transaction, or the upgrade failed.
  abbrev IsScripted : ℤ → Tx T → Result (Unit {0}) × Tx T → Type ℓ
  IsScripted v tx (err e, tx') = tx'.committed ≡ tx.committed
  IsScripted v tx (ok a, tx') =
      (tx'.committed ≡ tx.committed)
      × ((scripts : List Script) × Lacks v scripts
          × Ran engine scripts tx.working.content tx'.working.content)

  scripted :
      (v : ℤ) (scripts : List Script) (tx : Tx T) (x : Result (Unit {0}) × Tx T)
      → Lacks v scripts
      → IsStepped scripts tx x
      → IsScripted v tx x
  scripted v scripts tx (err e, tx') lacks kept = kept
  scripted v scripts tx (ok a, tx') lacks (kept, runs) = (kept, (scripts, lacks, runs))

  run_scripts-IsScripted :
      (v : ℤ) (tx : Tx T) → is_newer v ≡ false → IsScripted v tx (run_scripts engine v tx)
  unfolding run_scripts
  run_scripts-IsScripted (negsuc n) tx known = refl
  run_scripts-IsScripted (pos zero) tx known =
      scripted (pos zero) (Script.schema ∷ []) tx (exec_at engine (some Script.schema) tx) refl
        (only (engine.exec Script.schema tx.working.content) refl)
    where
      only :
          (x : Bool × T)
          → engine.exec Script.schema tx.working.content ≡ x
          → IsStepped (Script.schema ∷ []) tx (ran engine tx x)
      only (false, t) e = refl
      only (true, t) e = (refl, (t, e, refl))
  run_scripts-IsScripted (pos (suc n)) tx known =
      let (done, rest, at, count) = split_at (suc n) sqlite_migrations (ground arith) in
      let whole : 21 ≡ length done + length rest =
        ap (λ (l : List Script). length l) at ∙ length-append done rest in
      let left : length rest ≡ migration_count - suc n = omega (arith, whole, count) in
      scripted (pos (suc n)) rest tx (migrate engine (migration_count - suc n) (suc n) tx)
        (done, at, count)
        (subst (λ k. IsStepped rest tx (migrate engine k (suc n) tx)) left
          (subst (λ i. IsStepped rest tx (migrate engine (length rest) i tx)) count
            (migrate-IsStepped done rest at tx)))

  current :
      (f : DbFile T)
      → engine.reads_version ≡ true
      → is_current f.user_version ≡ true
      → sqlite_upgrade engine f ≡ (ok tt, f)
  unfolding sqlite_upgrade
  current f reads same = rw (reads, same) refl

  -- The version is set and the whole committed, or all is taken back.
  ended :
      (f : DbFile T) (tx : Tx T) (x : Result (Unit {0}) × Tx T)
      → engine.reads_version ≡ true
      → tx.committed ≡ f
      → tx.working ≡ f
      → IsScripted f.user_version tx x
      → IsUpgraded engine f
          (rolled_back engine (then_next engine (commit engine) (then_next engine (bump engine) x)))
  unfolding bump commit sqlite_upgrade
  ended f tx (err e, tx') reads old begun kept = kept ∙ old
  ended f tx (ok a, tx') reads old begun (kept, (scripts, lacks, runs)) =
      elim (Bool-cases engine.bumps) [
        | inr refused ↦ rw refused (kept ∙ old)
        | inl bumped ↦ elim (Bool-cases engine.commits) [
          | inr refused ↦ rw (bumped, refused) (kept ∙ old)
          | inl committed ↦
              rw (bumped, committed)
                (
                  refl,
                  (
                    scripts,
                    lacks,
                    subst (λ (g : DbFile T). Ran engine scripts g.content tx'.working.content) begun
                        runs,
                  ),
                  current _ reads refl,
                )
        ]
      ]

  either :
      (b : Bool) (f : DbFile T) (x y : Result (Unit {0}) × DbFile T)
      → (b ≡ true → IsUpgraded engine f x)
      → (b ≡ false → IsUpgraded engine f y)
      → IsUpgraded engine f (if b then x else y)
  either true f x y h k = h refl
  either false f x y h k = k refl

  up_to_date :
      (f : DbFile T)
      → engine.reads_version ≡ true
      → is_current f.user_version ≡ true
      → IsUpgraded engine f (ok tt, f)
  up_to_date f reads same =
      let at = is_current-version f.user_version same in
      (
        at,
        ([], subst (λ v. Lacks v []) (sym at) (sqlite_migrations, refl, refl), refl),
        current f reads same,
      )

  -- Whatever SQLite answers: opening a database upgrades it in one piece. If it succeeds, the version
  -- becomes the number of migrations, and it was neither negative nor newer; the scripts that a file
  -- of the old version lacks (the whole schema for version 0, else the migrations behind as many
  -- first ones as the version says) ran to their ends, in order, and made its content; and another
  -- upgrade changes nothing. If it fails, the file is as it was.
  pub sqlite_open-IsUpgraded : (f : DbFile T) → IsUpgraded engine f (sqlite_open engine f)
  unfolding sqlite_open sqlite_upgrade upgrade_steps
  sqlite_open-IsUpgraded f =
      let tx : Tx T = record { committed = f; working = f } in
      either engine.connects f _ _
        (λ c.
          either engine.reads_version f _ _
            (λ reads.
              either (is_current f.user_version) f _ _ (λ same. up_to_date f reads same)
                (λ other.
                  either (is_newer f.user_version) f _ _ (λ newer. refl)
                    (λ known.
                      either engine.begins f _ _
                        (λ b.
                          ended f tx (run_scripts engine f.user_version tx) reads refl refl
                            (run_scripts-IsScripted f.user_version tx known))
                        (λ b. refl))))
            (λ r. refl))
        (λ c. refl)
