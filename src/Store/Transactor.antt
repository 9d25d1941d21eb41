-- ===== src/Store/Transactor.antt =====
-- Transactions: `InTransaction` of internal/infra/database/transactor, which is `BeginTxFunc` of
-- pgx around the closure of a use case.
use marketplace_simulator_pr.Common.{◌+◌, ◌≡◌, refl, inl, inr, none, some, Option-cases, arith}
use marketplace_simulator_pr.Errors.{Error, Result, ok, err, plain}
use marketplace_simulator_pr.Store.World.{World, Platform, M, counted}

-- A rollback restores the tables. Sequences, ids and what happened outside stay.
abbrev pub rolled_back : World → World → World
rolled_back before after = record after { tables = before.tables; xid = after.xid + 1 }

abbrev pub nothing : World → Unit {0} × World
nothing w = (tt, w)

-- `COMMIT`: where it fails the transaction counts as rolled back.
unfoldable pub commit {ℓ} : {A : Type ℓ} → Platform → World → A → World → Result A × World
commit p start a w = elim (p.fault w.calls) [
  | some m ↦ (err (plain m), rolled_back start (counted w))
  | none ↦ (ok a, record w { calls = w.calls + 1; xid = w.xid + 1 })
]

-- What `BeginTxFunc` does when the closure has returned.
unfoldable pub finish {ℓ} : {A : Type ℓ} → Platform → World → Result A × World → Result A × World
unfolding commit
finish p start (ok a, w) = commit p start a w
finish p start (err e, w) = (err e, rolled_back start w)

unfoldable pub in_transaction {ℓ} : {A : Type ℓ} → Platform → M A → M A
in_transaction p body w = elim (p.fault w.calls) [
  | some m ↦ (err (plain m), counted w)
  | none ↦ finish p (counted w) (body (counted w))
]

finish_atomic {ℓ} :
    {A : Type ℓ} (p : Platform) (start : World) (r : Result A × World) {e : Error}
    → (finish p start r).0 ≡ err e
    → (finish p start r).1.tables ≡ start.tables
unfolding finish commit
finish_atomic p start (ok a, w) h = ground arith
finish_atomic p start (err x, w) h = refl

-- A transaction that returns an error leaves every table as it was, whatever its closure did
-- before it failed and wherever the failure came from.
pub in_transaction_atomic {ℓ} :
    {A : Type ℓ} (p : Platform) (body : M A) (w : World) {e : Error}
    → (in_transaction p body w).0 ≡ err e
    → (in_transaction p body w).1.tables ≡ w.tables
unfolding in_transaction
in_transaction_atomic p body w {e} h =
    ground (arith, finish_atomic p (counted w) (body (counted w)) {e = e})

finish-ok {ℓ} :
    {A : Type ℓ} (p : Platform) (start : World) (r : Result A × World) {a : A} {w' : World}
    → finish p start r ≡ (ok a, w')
    → (w₁ : World) × (r ≡ (ok a, w₁)) × (w' ≡ record w₁ { calls = w₁.calls + 1; xid = w₁.xid + 1 })
unfolding finish commit
finish-ok p start (ok b, w) h = (w, ground arith, ground arith)
finish-ok p start (err x, w) h = cc

-- A transaction that succeeds ran its closure to the end and committed what that left.
pub in_transaction-ok {ℓ} :
    {A : Type ℓ} (p : Platform) (body : M A) (w : World) {a : A} {w' : World}
    → in_transaction p body w ≡ (ok a, w')
    → (w₁ : World) × (body (counted w) ≡ (ok a, w₁))
      × (w' ≡ record w₁ { calls = w₁.calls + 1; xid = w₁.xid + 1 })
unfolding in_transaction
in_transaction-ok p body w h = elim (Option-cases (p.fault w.calls)) [
  | inl calm ↦ finish-ok p (counted w) (body (counted w)) (ground arith)
  | inr (m, down) ↦ absurd (ground arith)
]
