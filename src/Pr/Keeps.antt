-- ===== src/Pr/Keeps.antt =====
-- The tables of patchsets and of patches, and what pr.go runs behind a transaction.
use patchbin.Base.{ℕ, List, Result, ok, err, Result-cases, ◌≡◌, inl, inr, refl}
use patchbin.Store.{Db, Statement, Driver}
use patchbin.Store.Statements.{set_activity}
use patchbin.Store.Effects.{set_activity-ok}
use patchbin.Pr.Submit.{touch_after}
use patchbin.Pr.Change.{then_touch, update_last_activity}
use patchbin.Pr.Submission.{touched-rows}

-- Both tables are as they were.
pub record Keeps (db db' : Db) : Type 0 where
  pub patches : db'.patches ≡ db.patches
  pub patchsets : db'.patchsets ≡ db.patchsets

pub Keeps-refl : (db : Db) → Keeps db db
Keeps-refl db = record { patches = refl; patchsets = refl }

pub then_touch-Keeps :
    (drv : Driver) (id : ℕ) (x : Result (Unit {0}) × Db) → Keeps x.1 (then_touch drv id x).1
unfolding update_last_activity
then_touch-Keeps drv id (err e, db) = Keeps-refl db
then_touch-Keeps drv id (ok _, db) =
    let now = drv.now Statement.read_clock db in
    elim (Result-cases (set_activity drv id now db)) [
      | inl (e, h) ↦ rw h (Keeps-refl db)
      | inr (d, h) ↦
          rw h
            (rw (set_activity-ok drv db id now d h) (record { patches = refl; patchsets = refl }))
    ]

pub touch_after-Keeps :
    (drv : Driver) (id : ℕ) (x : Result (List ℕ) × Db) → Keeps x.1 (touch_after drv id x).1
touch_after-Keeps drv id (err e, db) = Keeps-refl db
touch_after-Keeps drv id (ok ids, db) =
    let kept = touched-rows drv id (drv.now Statement.read_clock db) db in
    record { patches = kept.0; patchsets = kept.1 }
