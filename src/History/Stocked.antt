-- ===== src/History/Stocked.antt =====
-- What holds of the tables between two calls: the reserved count of a product is the sum of its
-- reservations, and there is at least as much of the product.
use marketplace_simulator_pr.Common.{
  ℕ, ◌+◌, ◌≤◌, ◌<◌, ◌≡◌, refl, false, not, some, List, [], ◌∷◌, ◌++◌, arith, ◌==◌, contains, select,
  Distinct, Bool-cases, Option-cases, inl, inr, ==→eq, subst,
}
use mathlib.Core.Option
use marketplace_simulator_pr.Models.{Reservation, u32_mod}
use marketplace_simulator_pr.Store.World.{ProductRow, Tables}
use marketplace_simulator_pr.Store.Products.Rows.{row_skus, find_row, find_row_absent}
use marketplace_simulator_pr.Usecases.Reads.{HasWords}
use marketplace_simulator_pr.Usecases.Reservation.Sums.{total, is_reserved}

-- A row against the reservations of its SKU.
abbrev pub IsBacked : ℕ → List Reservation → ProductRow → Type 0
IsBacked k reservations r =
    (r.reserved_count ≡ total k reservations) × (r.reserved_count ≤ r.count) × (r.count < u32_mod)

pub record IsStocked (t : Tables) : Type 0 where
  pub distinct : Distinct (row_skus t.products)
  pub backed :
      (k : ℕ) (r : ProductRow) → find_row k t.products ≡ some r → IsBacked k t.reservations r

-- The counts fit, row by row.
pub HasWords-rows :
    (rows : List ProductRow)
    → Distinct (row_skus rows)
    → ((k : ℕ) (r : ProductRow) → find_row k rows ≡ some r → r.count < u32_mod)
    → HasWords rows
HasWords-rows [] d at = tt
HasWords-rows (r ∷ rows) d at = (
  at r.sku r (ground arith),
  HasWords-rows rows d.1 λ k q e. elim (Bool-cases (k == r.sku)) [
    | inl here ↦
        let gone = find_row_absent r.sku rows d.0 in
        absurd (ground (arith, gone, ==→eq k r.sku here))
    | inr later ↦ at k q (ground arith)
  ],
)

pub IsStocked-HasWords : (t : Tables) → IsStocked t → HasWords t.products
IsStocked-HasWords t s = HasWords-rows t.products s.distinct λ k r e. (s.backed k r e).2

-- A change that keeps the SKUs keeps the invariant, if each row that it leaves is backed.
pub IsStocked-changed :
    (t t' : Tables) (f : ℕ → ProductRow → ProductRow)
    → IsStocked t
    → row_skus t'.products ≡ row_skus t.products
    → ((k : ℕ) → find_row k t'.products ≡ Option.map (f k) (find_row k t.products))
    → ((k : ℕ) (r : ProductRow)
        → find_row k t.products ≡ some r
        → IsBacked k t'.reservations (f k r))
    → IsStocked t'
IsStocked-changed t t' f s same at backed = record {
  distinct = rw same s.distinct;
  backed = λ k r e. elim (Option-cases (find_row k t.products)) [
    | inl gone ↦ absurd (ground (arith, at k))
    | inr (q, there) ↦
        let is : f k q ≡ r = ground (arith, at k) in
        subst (IsBacked k t'.reservations) is (backed k q there)
  ];
}

pub total-append : (k : ℕ) (rs qs : List Reservation) → total k (rs ++ qs) ≡ total k rs + total k qs
total-append k [] qs = omega arith
total-append k (r ∷ rs) qs = ground (arith, total-append k rs qs)

-- Reservations split by their ids.
pub total_split :
    (k : ℕ) (ids : List ℕ) (rs : List Reservation)
    → total k (select (λ r. contains r.id ids) rs)
        + total k (select (λ r. not (contains r.id ids)) rs)
      ≡ total k rs
total_split k ids [] = omega arith
total_split k ids (r ∷ rs) = ground (arith, total_split k ids rs)

pub total_unreserved : (k : ℕ) (rs : List Reservation) → is_reserved k rs ≡ false → total k rs ≡ 0
total_unreserved k [] h = refl
total_unreserved k (r ∷ rs) h = ground (arith, total_unreserved k rs)
