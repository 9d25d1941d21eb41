-- ===== src/Usecases/Atomic.antt =====
-- All or nothing: a use case that returns an error has changed no table.
use marketplace_simulator_pr.Common.{ℕ, ◌≡◌, refl, ◌∙◌, Option, List, String, arith, inl, inr}
use marketplace_simulator_pr.Errors.{Error, Result, err, Result-cases}
use marketplace_simulator_pr.Store.World.{World, Tables, Platform, M, ◌>>=◌, lift, wrapped, query}
use marketplace_simulator_pr.Store.Transactor.{in_transaction, in_transaction_atomic}
use marketplace_simulator_pr.Usecases.Repository.{ReadProductRepository}

-- A call that never changes a table.
abbrev pub IsReadOnly : {A : Type 0} → M A → Type 0
IsReadOnly m = (w : World) → (m w).1.tables ≡ w.tables

-- A call that changes no table when it fails.
abbrev pub IsAtomic : {A : Type 0} → M A → Type 0
IsAtomic m = (w : World) (e : Error) → (m w).0 ≡ err e → (m w).1.tables ≡ w.tables

pub lift-IsReadOnly : {A : Type 0} (r : Result A) → IsReadOnly (lift r)
lift-IsReadOnly r w = refl

pub wrapped-IsReadOnly :
    {A : Type 0} (prefix : String) (m : M A) → IsReadOnly m → IsReadOnly (wrapped prefix m)
wrapped-IsReadOnly prefix m h w = h w

pub wrapped-IsAtomic :
    {A : Type 0} (prefix : String) (m : M A) → IsAtomic m → IsAtomic (wrapped prefix m)
wrapped-IsAtomic prefix m h w e f = elim (Result-cases (m w).0) [
  | inl (a, r) ↦ absurd (ground arith)
  | inr (x, r) ↦ h w x r
]

pub bind-IsReadOnly :
    {A : Type 0} {B : Type 0} (m : M A) (f : A → M B)
    → IsReadOnly m
    → ((a : A) → IsReadOnly (f a))
    → IsReadOnly (m >>= f)
bind-IsReadOnly m f h k w = elim (Result-cases (m w).0) [
  | inl (a, r) ↦ rw (r, ◌>>=◌) (k a (m w).1 ∙ h w)
  | inr (x, r) ↦ rw (r, ◌>>=◌) (h w)
]

pub bind-IsAtomic :
    {A : Type 0} {B : Type 0} (m : M A) (f : A → M B)
    → IsReadOnly m
    → ((a : A) → IsAtomic (f a))
    → IsAtomic (m >>= f)
bind-IsAtomic m f h k w e g = elim (Result-cases (m w).0) [
  | inl (a, r) ↦ rw (r, ◌>>=◌) (k a (m w).1 e (rw (r, ◌>>=◌) at g) ∙ h w)
  | inr (x, r) ↦ rw (r, ◌>>=◌) (h w)
]

pub in_transaction-IsAtomic :
    {A : Type 0} (p : Platform) (body : M A) → IsAtomic (in_transaction p body)
in_transaction-IsAtomic p body w e h = in_transaction_atomic p body w h

pub query-IsReadOnly :
    {A : Type 0} (p : Platform) (rows : Tables → List A) → IsReadOnly (query p rows)
query-IsReadOnly p rows w = ground arith

-- What the use cases ask of their repository of products.
pub record ReadsOnly (repo : ReadProductRepository) : Type 0 where
  pub by_sku : (sku : ℕ) (tx : Option ℕ) → IsReadOnly (repo.get_by_sku sku tx)
  pub by_skus : (skus : List ℕ) → IsReadOnly (repo.get_by_skus skus)
