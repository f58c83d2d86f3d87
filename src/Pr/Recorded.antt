-- ===== src/Pr/Recorded.antt =====
-- The tables of pr.go against their abstract view: the operations that write, as steps on the histories
-- of the patch requests.
use patchbin.Base.{
  ℕ, suc, ◌≤◌, Str, List, [], ◌∷◌, map, ok, err, ◌≡◌, ◌⊎◌, inl, inr, refl, sym, arith, All,
  All-append,
}
use patchbin.Store.{PatchText, written, Patchset, Db, Statement, Driver}
use patchbin.Store.Statements.{other_patchset}
use patchbin.Store.Valid.{IsValid}
use patchbin.Pr.ReadBack.{Steady}
use patchbin.Pr.Keeps.{Keeps}
use patchbin.Pr.Operation.{Operation, perform, Reached, Reached-IsValid}
use patchbin.Pr.Bodies.{Adds}
use patchbin.Pr.Effect.{Effect, perform-Effect}
use patchbin.Pr.Removed.{Loses, histories-Keeps, Removes-Loses}
use patchbin.Pr.History.{
  Histories, append_revision, histories, histories-appended, bounded, All-where_rows,
}

-- The abstract steps: what an operation may do to the histories.
pub data Revises : Operation → Histories → Histories → Type 0 where
  stays : {op : Operation} {h h' : Histories} → h' ≡ h → Revises op h h'
  requests :
      {user : ℕ} {repo slug : Str} {cs : List PatchText} {h h' : Histories} (request : ℕ)
      → h' ≡ append_revision request (map written cs) h
      → Revises (Operation.new_request user repo slug (ok cs)) h h'
  reports :
      {user : ℕ} {repo slug title body : Str} {h h' : Histories} (request : ℕ)
      → h' ≡ append_revision request [] h
      → Revises (Operation.new_issue user repo slug title body) h h'
  revises :
      {request user : ℕ} {cs : List PatchText} {h h' : Histories}
      → h' ≡ append_revision request (map written cs) h
      → Revises (Operation.new_patchset request user (ok cs)) h h'
  removes :
      {user request patchset : ℕ} {h h' : Histories}
      → Loses h h'
      → Revises (Operation.delete user request patchset) h h'

-- The clock does not go back from one patchset to a later one, nor from one patch to a later one.
pub record Forward (drv : Driver) : Type 0 where
  pub steady : Steady drv
  pub patchsets :
      (d d' : Db)
      → d.last_patchset ≤ d'.last_patchset
      → drv.now Statement.insert_patchset d ≤ drv.now Statement.insert_patchset d'

-- The patchset's time is the one that its insertion read.
abbrev pub IsDated : Driver → Patchset → Type 0
IsDated drv p =
    (d : Db) × (p.created_at ≡ drv.now Statement.insert_patchset d) × (p.id ≡ suc d.last_patchset)

dated-le :
    (drv : Driver) (at : Db) (n : ℕ) (ps : List Patchset)
    → Forward drv
    → n ≡ at.last_patchset
    → All (λ (p : Patchset). p.id ≤ n) ps
    → All (IsDated drv) ps
    → All (λ (p : Patchset). p.created_at ≤ drv.now Statement.insert_patchset at) ps
dated-le drv at n [] fwd last h ds = tt
dated-le drv at n (p ∷ ps) fwd last (h, hs) ((d, now, id), ds) =
    (rw now (fwd.patchsets d at (omega arith)), dated-le drv at n ps fwd last hs ds)

module _ (drv : Driver) (db : Db) (v : IsValid db) (fwd : Forward drv)
    (dated : All (IsDated drv) db.patchsets) where
  Adds-appends :
      (request : ℕ) (cs : List PatchText) (db' : Db)
      → Adds drv request cs db db'
      → histories db' ≡ append_revision request (map written cs) (histories db)
  Adds-appends request cs db' a =
      histories-appended drv request a.user cs a.rows a.at db db' v fwd.steady
        (dated-le drv a.at db.last_patchset db.patchsets fwd (sym a.last)
          (bounded 0 db.last_patchset db.patchsets v.patchsets) dated)
        a.held a.last a.patches a.patchsets

  Revises-or :
      (op : Operation) (request : ℕ) (cs : List PatchText) (db' : Db)
      → (histories db' ≡ append_revision request (map written cs) (histories db)
          → Revises op (histories db) (histories db'))
      → Keeps db db' ⊎ Adds drv request cs db db'
      → Revises op (histories db) (histories db')
  Revises-or op request cs db' adds (inl k) = Revises.stays (histories-Keeps db db' k)
  Revises-or op request cs db' adds (inr a) = adds (Adds-appends request cs db' a)

  -- What an operation does to the tables is a step on the histories.
  Effect-Revises :
      (op : Operation) (db' : Db) → Effect drv op db db' → Revises op (histories db) (histories db')
  Effect-Revises (Operation.upsert pubkey) db' e = Revises.stays (histories-Keeps db db' e)
  Effect-Revises (Operation.new_request user repo slug (err x)) db' e =
      Revises.stays (histories-Keeps db db' e)
  Effect-Revises (Operation.new_request user repo slug (ok cs)) db' e =
      Revises-or _ (suc db.last_request) cs db' (λ h. Revises.requests (suc db.last_request) h) e
  Effect-Revises (Operation.new_issue user repo slug title body) db' e =
      Revises-or _ (suc db.last_request) [] db' (λ h. Revises.reports (suc db.last_request) h) e
  Effect-Revises (Operation.new_patchset request user (err x)) db' e =
      Revises.stays (histories-Keeps db db' e)
  Effect-Revises (Operation.new_patchset request user (ok cs)) db' e =
      Revises-or _ request cs db' (λ h. Revises.revises h) e
  Effect-Revises (Operation.set_title request pubkey name) db' e =
      Revises.stays (histories-Keeps db db' e)
  Effect-Revises (Operation.comment request user text) db' e =
      Revises.stays (histories-Keeps db db' e)
  Effect-Revises (Operation.delete user request patchset) db' (inl k) =
      Revises.stays (histories-Keeps db db' k)
  Effect-Revises (Operation.delete user request patchset) db' (inr r) =
      elim (Removes-Loses patchset db db' v r) [
        | inl same ↦ Revises.stays same
        | inr l ↦ Revises.removes l
      ]

  patchsets-IsDated-Adds :
      (request : ℕ) (cs : List PatchText) (db' : Db)
      → Keeps db db' ⊎ Adds drv request cs db db'
      → All (IsDated drv) db'.patchsets
  patchsets-IsDated-Adds request cs db' (inl k) = rw k.patchsets dated
  patchsets-IsDated-Adds request cs db' (inr a) =
      rw a.patchsets (All-append (IsDated drv) db.patchsets _ dated ((a.at, refl, refl), tt))

  Effect-IsDated :
      (op : Operation) (db' : Db) → Effect drv op db db' → All (IsDated drv) db'.patchsets
  Effect-IsDated (Operation.upsert pubkey) db' e = rw e.patchsets dated
  Effect-IsDated (Operation.new_request user repo slug (err x)) db' e = rw e.patchsets dated
  Effect-IsDated (Operation.new_request user repo slug (ok cs)) db' e =
      patchsets-IsDated-Adds (suc db.last_request) cs db' e
  Effect-IsDated (Operation.new_issue user repo slug title body) db' e =
      patchsets-IsDated-Adds (suc db.last_request) [] db' e
  Effect-IsDated (Operation.new_patchset request user (err x)) db' e = rw e.patchsets dated
  Effect-IsDated (Operation.new_patchset request user (ok cs)) db' e =
      patchsets-IsDated-Adds request cs db' e
  Effect-IsDated (Operation.set_title request pubkey name) db' e = rw e.patchsets dated
  Effect-IsDated (Operation.comment request user text) db' e = rw e.patchsets dated
  Effect-IsDated (Operation.delete user request patchset) db' (inl k) = rw k.patchsets dated
  Effect-IsDated (Operation.delete user request patchset) db' (inr r) =
      rw r.patchsets (All-where_rows (IsDated drv) (other_patchset patchset) db.patchsets dated)

-- Every patchset of a database that is reached was dated by the clock.
Reached-IsDated :
    {drv : Driver} {db : Db} → Forward drv → Reached drv db → All (IsDated drv) db.patchsets
Reached-IsDated fwd (Reached.start db e) = rw e tt
Reached-IsDated {drv} fwd (Reached.next {db} op r) =
    let v = Reached-IsValid r in
    Effect-IsDated drv db v fwd (Reached-IsDated fwd r) op (perform drv op db)
      (perform-Effect drv db v op)

-- With a clock that does not go back, and in every database that operations reach: what an operation
-- does, whether it succeeds or fails, is on the histories of the patch requests a step that belongs to
-- it. A new request or issue appends at most one revision, to the history of one request; a new
-- patchset appends at most one, to that of its request; what is appended are the contents that were
-- sent (but for base commits that are not marked valid). A removal takes at most one revision out of
-- one history. Every other operation, and a submission that is not parsed, changes no history.
pub perform-Revises :
    {drv : Driver} {db : Db}
    → Forward drv
    → Reached drv db
    → (op : Operation) → Revises op (histories db) (histories (perform drv op db))
perform-Revises {drv} {db} fwd r op =
    let v = Reached-IsValid r in
    Effect-Revises drv db v fwd (Reached-IsDated fwd r) op (perform drv op db)
      (perform-Effect drv db v op)
