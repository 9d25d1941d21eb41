-- ===== src/Usecases/Skus.antt =====
-- Which SKUs the table of products has: no use case changes that, whether it succeeds or fails.
use marketplace_simulator_pr.Common.{
  ℕ, ◌+◌, ◌≡◌, refl, ◌∙◌, ap, List, [], ◌∷◌, arith, inl, inr, Option-cases,
}
use marketplace_simulator_pr.Errors.{Result-cases}
use marketplace_simulator_pr.Models.{Product, NewEvent}
use marketplace_simulator_pr.Store.World.{World, Tables, Platform, M, wrapped, counted, ◌>>=◌}
use marketplace_simulator_pr.Store.Products.{update_one, update_batch, check_affected, update}
use marketplace_simulator_pr.Store.Products.Rows.{row_skus, row_skus-written}
use marketplace_simulator_pr.Store.Reservations.{insert_reservation, delete_by_ids}
use marketplace_simulator_pr.Store.Outbox.ProductEvents.{create_event}
use marketplace_simulator_pr.Store.Outbox.CacheUpdates.{create_update}
use marketplace_simulator_pr.Store.Transactor.{in_transaction, finish, commit}
use marketplace_simulator_pr.Usecases.Repository.{create_events, create_updates}
use marketplace_simulator_pr.Usecases.Atomic.{IsReadOnly}

abbrev pub KeepsSkus : {A : Type 0} → M A → Type 0
KeepsSkus m = (w : World) → row_skus (m w).1.products ≡ row_skus w.products

pub IsReadOnly-KeepsSkus : {A : Type 0} (m : M A) → IsReadOnly m → KeepsSkus m
IsReadOnly-KeepsSkus m h w = ap (λ (t : Tables). row_skus t.products) (h w)

pub bind-KeepsSkus :
    {A : Type 0} {B : Type 0} (m : M A) (f : A → M B)
    → KeepsSkus m
    → ((a : A) → KeepsSkus (f a))
    → KeepsSkus (m >>= f)
bind-KeepsSkus m f h k w = elim (Result-cases (m w).0) [
  | inl (a, r) ↦ rw (r, ◌>>=◌) (k a (m w).1 ∙ h w)
  | inr (x, r) ↦ rw (r, ◌>>=◌) (h w)
]

pub in_transaction-KeepsSkus :
    {A : Type 0} (p : Platform) (body : M A) → KeepsSkus body → KeepsSkus (in_transaction p body)
unfolding in_transaction finish commit
in_transaction-KeepsSkus p body h w =
    let inner = h (counted w) in
    elim (Option-cases (p.fault w.calls)) [
      | inr (m, down) ↦ ground (arith, down)
      | inl calm ↦ elim (Result-cases (body (counted w)).0) [
        | inl (a, r) ↦ ground (arith, calm, r, inner)
        | inr (e, r) ↦ ground (arith, calm, r, inner)
      ]
    ]

module _ (p : Platform) where
  update_one-KeepsSkus : (x : Product) → KeepsSkus (update_one p x)
  unfolding update_one
  update_one-KeepsSkus x w = ground (arith, row_skus-written w.xid x w.products)

  update_batch-KeepsSkus : (n : ℕ) (xs : List Product) → KeepsSkus (update_batch p n xs)
  unfolding update_batch
  update_batch-KeepsSkus n [] = λ w. refl
  update_batch-KeepsSkus n (x ∷ xs) =
      bind-KeepsSkus (wrapped "ProductPgxTxRepository.Update" (update_one p x))
        (λ m. update_batch p (n + m) xs) (update_one-KeepsSkus x)
        λ m. update_batch-KeepsSkus (n + m) xs

  pub update-KeepsSkus : (xs : List Product) → KeepsSkus (update p xs)
  unfolding update check_affected
  update-KeepsSkus xs =
      bind-KeepsSkus (update_batch p 0 xs) (check_affected xs) (update_batch-KeepsSkus 0 xs)
        λ n w. ground arith

  pub create_events-KeepsSkus : (es : List NewEvent) → KeepsSkus (create_events p es)
  unfolding create_events create_event
  create_events-KeepsSkus [] = λ w. refl
  create_events-KeepsSkus (e ∷ es) =
      bind-KeepsSkus (wrapped "Execute: save outbox_record" (create_event p e))
        (λ _. create_events p es) (λ w. ground arith) λ _. create_events-KeepsSkus es

  pub create_updates-KeepsSkus : (skus : List ℕ) → KeepsSkus (create_updates p skus)
  unfolding create_updates create_update
  create_updates-KeepsSkus [] = λ w. refl
  create_updates-KeepsSkus (k ∷ ks) =
      bind-KeepsSkus (wrapped "Execute: save cache_update_outbox" (create_update p k))
        (λ _. create_updates p ks) (λ w. ground arith) λ _. create_updates-KeepsSkus ks

  pub delete_by_ids-KeepsSkus : (ids : List ℕ) → KeepsSkus (delete_by_ids p ids)
  unfolding delete_by_ids
  delete_by_ids-KeepsSkus ids w = ground arith

  pub insert_reservation-KeepsSkus : (sku n : ℕ) → KeepsSkus (insert_reservation p sku n)
  unfolding insert_reservation
  insert_reservation-KeepsSkus sku n w = ground arith
