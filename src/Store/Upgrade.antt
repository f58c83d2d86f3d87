-- ===== src/Store/Upgrade.antt =====
-- SqliteOpen and sqliteUpgrade of sqlite.go: bringing an old database file up to date, over a
-- transaction's own copy of the file. What the scripts do to the tables is SQLite's, the argument
-- `Engine`.
use patchbin.Base.{
  ℕ, zero, suc, ◌-◌, Bool, true, false, Option, none, some, List, [], ◌∷◌, ◌++◌, length, get_elem?,
  ◌==◌, ltb, if◌then◌else◌, Result, ok, err, Error, ◌≡◌,
}
use patchbin.Base.Number.{ℤ, pos, negsuc}

-- `sqliteSchema`, or the text at a place of `sqliteMigrations`.
pub data Script : Type 0 where
  schema : Script
  migration : ℕ → Script

abbrev pub sqlite_migrations : List Script
sqlite_migrations =
    Script.migration 0
    ∷ Script.migration 1
    ∷ Script.migration 2
    ∷ Script.migration 3
    ∷ Script.migration 4
    ∷ Script.migration 5
    ∷ Script.migration 6
    ∷ Script.migration 7
    ∷ Script.migration 8
    ∷ Script.migration 9
    ∷ Script.migration 10
    ∷ Script.migration 11
    ∷ Script.migration 12
    ∷ Script.migration 13
    ∷ Script.migration 14
    ∷ Script.migration 15
    ∷ Script.migration 16
    ∷ Script.migration 17
    ∷ Script.migration 18
    ∷ Script.migration 19
    ∷ Script.migration 20
    ∷ []

-- `len(sqliteMigrations)`
abbrev pub migration_count : ℕ
migration_count = length sqlite_migrations

-- A database file: `PRAGMA user_version`, an `int`, and what is in it.
pub record DbFile {ℓ} (T : Type ℓ) : Type ℓ where
  pub user_version : ℤ
  pub content : T

-- A transaction: the file as it was last committed, and as the statements have left it so far.
pub record Tx {ℓ} (T : Type ℓ) : Type ℓ where
  pub committed : DbFile T
  pub working : DbFile T

-- The steps that SQLite may refuse, and for a script whether it ran to its end and what it made of the
-- content until then.
pub record Engine {ℓ} (T : Type ℓ) : Type ℓ where
  pub connects : Bool
  pub reads_version : Bool
  pub begins : Bool
  pub exec : Script → T → Bool × T
  pub bumps : Bool
  pub commits : Bool

abbrev pub is_current : ℤ → Bool
is_current (pos n) = n == migration_count
is_current (negsuc n) = false

abbrev pub is_newer : ℤ → Bool
is_newer (pos n) = ltb migration_count n
is_newer (negsuc n) = false

module _ {ℓ} {T : Type ℓ} (engine : Engine T) where
  -- `tx.Exec` of a script
  abbrev pub ran : Tx T → Bool × T → Result (Unit {0}) × Tx T
  ran tx (done, t) = (
    if done then ok tt else err Error.io_error,
    record tx { working = record { user_version = tx.working.user_version; content = t } },
  )

  -- An element of the list, and a panic where it has none.
  abbrev pub exec_at : Option Script → Tx T → Result (Unit {0}) × Tx T
  exec_at none tx = (err Error.panic, tx)
  exec_at (some s) tx = ran tx (engine.exec s tx.working.content)

  -- The first error ends the transaction.
  abbrev pub then_next :
      (Tx T → Result (Unit {0}) × Tx T) → Result (Unit {0}) × Tx T → Result (Unit {0}) × Tx T
  then_next next (err e, tx) = (err e, tx)
  then_next next (ok _, tx) = next tx

  -- The rounds of the loop from `i` on, as many as are left.
  unfoldable pub migrate : ℕ → ℕ → Tx T → Result (Unit {0}) × Tx T
  migrate zero i tx = (ok tt, tx)
  migrate (suc left) i tx =
      then_next (migrate left (suc i)) (exec_at (get_elem? sqlite_migrations i) tx)

  -- The scripts for the version that was read. The loop begins at the version, and a place below 0 is
  -- out of range.
  unfoldable pub run_scripts : ℤ → Tx T → Result (Unit {0}) × Tx T
  unfolding migrate
  run_scripts (negsuc n) tx = (err Error.panic, tx)
  run_scripts (pos zero) tx = exec_at (some Script.schema) tx
  run_scripts (pos (suc n)) tx = migrate (migration_count - suc n) (suc n) tx

  -- `PRAGMA user_version = `
  unfoldable pub bump : Tx T → Result (Unit {0}) × Tx T
  bump tx =
      if engine.bumps
      then (
        ok tt,
        record tx {
          working = record { user_version = pos migration_count; content = tx.working.content };
        },
      )
      else (err Error.io_error, tx)

  unfoldable pub commit : Tx T → Result (Unit {0}) × Tx T
  commit tx =
      if engine.commits
      then (ok tt, record { committed = tx.working; working = tx.working })
      else (err Error.io_error, tx)

  -- The deferred `tx.Rollback()`, on every way out; behind a commit it has nothing to take back.
  abbrev pub rollback : Tx T → Tx T
  rollback tx = record { committed = tx.committed; working = tx.committed }

  abbrev pub rolled_back : Result (Unit {0}) × Tx T → Result (Unit {0}) × DbFile T
  rolled_back (r, tx) = (r, (rollback tx).working)

  unfoldable pub upgrade_steps : ℤ → Tx T → Result (Unit {0}) × Tx T
  unfolding run_scripts bump commit
  upgrade_steps version tx = then_next commit (then_next bump (run_scripts version tx))

  unfoldable pub sqlite_upgrade : DbFile T → Result (Unit {0}) × DbFile T
  unfolding upgrade_steps
  sqlite_upgrade f =
      if engine.reads_version
      then (if is_current f.user_version
          then (ok tt, f)
          else if is_newer f.user_version
          then (err Error.bad_number, f)
          else if engine.begins
          then rolled_back (upgrade_steps f.user_version (record { committed = f; working = f }))
          else (err Error.io_error, f))
      else (err Error.io_error, f)

  unfoldable pub sqlite_open : DbFile T → Result (Unit {0}) × DbFile T
  unfolding sqlite_upgrade
  sqlite_open f = if engine.connects then sqlite_upgrade f else (err Error.io_error, f)

-- The scripts that a file of this version lacks: the schema for a new one, else the migrations behind
-- the first ones, as many as the version says.
abbrev pub Lacks : ℤ → List Script → Type 0
Lacks (negsuc n) scripts = ⊥
Lacks (pos zero) scripts = scripts ≡ Script.schema ∷ []
Lacks (pos (suc n)) scripts =
    (done : List Script) × (sqlite_migrations ≡ done ++ scripts) × (length done ≡ suc n)

-- Each of the scripts ran to its end, one after another.
abbrev pub Ran {ℓ} : {T : Type ℓ} → Engine T → List Script → T → T → Type ℓ
Ran engine [] t t' = t' ≡ t
Ran {T = T} engine (s ∷ scripts) t t' =
    (t1 : T) × (engine.exec s t ≡ (true, t1)) × Ran engine scripts t1 t'

-- A file that is opened is up to date, by the scripts that it lacked, and another upgrade leaves it
-- alone. One that could not be opened is as it was.
abbrev pub IsUpgraded {ℓ} :
    {T : Type ℓ} → Engine T → DbFile T → Result (Unit {0}) × DbFile T → Type ℓ
IsUpgraded engine f (err e, f') = f' ≡ f
IsUpgraded engine f (ok a, f') =
    (f'.user_version ≡ pos migration_count)
    × ((scripts : List Script) × Lacks f.user_version scripts
        × Ran engine scripts f.content f'.content)
    × (sqlite_upgrade engine f' ≡ (ok tt, f'))
