-- ===== src/Usecases/Reservation/Items.antt =====
-- The loop of `Reserve` over its items, on products alone: it adds to each product what its item
-- asks for, and goes through only if every product has that much left.
use marketplace_simulator_pr.Common.{
  ℕ, ◌+◌, ◌<◌, ◌≤◌, ◌≡◌, refl, ◌≢◌, false, Option, none, some, List, [], ◌∷◌, arith, ◌==◌,
  if◌then◌else◌, contains, Distinct, Option-cases, Bool-cases, inl, inr, All, ◌∙◌,
}
use mathlib.Core.Option
use marketplace_simulator_pr.Common.Int.{◌-ℤ◌}
use marketplace_simulator_pr.Errors.{ok, Result-cases}
use marketplace_simulator_pr.Models.{Product, add32, u32_mod}
use marketplace_simulator_pr.Store.Products.Rows.{skus_of}
use marketplace_simulator_pr.Usecases.Repository.{pointee, modify}
use marketplace_simulator_pr.Usecases.Pointers.{skus-modify, pointee-modify}
use marketplace_simulator_pr.Usecases.Reservation.Reserve.{
  ReserveItem, item_skus, add_reserved, reserve_item, reserve_items,
}

abbrev pub find_item : ℕ → List ReserveItem → Option ReserveItem
find_item k [] = none
find_item k (i ∷ is) = if k == i.sku then some i else find_item k is

-- A product with the reservation of its item, in arithmetic that does not wrap.
abbrev pub with_item : Option ReserveItem → Product → Product
with_item none x = x
with_item (some i) x = record x { reserved_count = x.reserved_count + i.delta }

-- An item that its product can still serve.
abbrev pub CanServe : List Product → ReserveItem → Type 0
CanServe xs i = (x : Product) × (pointee i.sku xs ≡ some x) × (x.reserved_count + i.delta ≤ x.count)

-- Counts are `uint32`.
abbrev pub IsWord : Product → Type 0
IsWord x = x.count < u32_mod

abbrev pub AreWords : List Product → Type 0
AreWords xs = (k : ℕ) (x : Product) → pointee k xs ≡ some x → IsWord x

pub reserve_item-ok :
    (i : ReserveItem) (xs xs' : List Product)
    → reserve_item i xs ≡ ok xs'
    → CanServe xs i × (xs' ≡ modify i.sku (add_reserved i.delta) xs)
unfolding reserve_item ◌-ℤ◌
reserve_item-ok i xs xs' h = elim (Option-cases (pointee i.sku xs)) [
  | inl e ↦ absurd (ground arith)
  | inr (x, e) ↦ ((x, e, ground arith), ground arith)
]

AreWords-modify :
    (k d : ℕ) (xs : List Product) → AreWords xs → AreWords (modify k (add_reserved d) xs)
AreWords-modify k d xs h j y e = elim (Option-cases (pointee j xs)) [
  | inl absent ↦ absurd (ground (arith, pointee-modify j k (add_reserved d) xs (λ x. refl), absent))
  | inr (x, there) ↦ ground (arith, pointee-modify j k (add_reserved d) xs (λ x. refl), h j x there)
]

CanServe-modify :
    (k d : ℕ) (xs : List Product) (i : ReserveItem)
    → i.sku ≢ k
    → CanServe (modify k (add_reserved d) xs) i
    → CanServe xs i
CanServe-modify k d xs i ne (x, e, room) =
    (x, ground (arith, pointee-modify i.sku k (add_reserved d) xs (λ x. refl)), room)

All-CanServe :
    (k d : ℕ) (xs : List Product) (is : List ReserveItem)
    → contains k (item_skus is) ≡ false
    → All (CanServe (modify k (add_reserved d) xs)) is
    → All (CanServe xs) is
All-CanServe k d xs [] h c = tt
All-CanServe k d xs (i ∷ is) h c =
    (CanServe-modify k d xs i (ground arith) c.0, All-CanServe k d xs is (ground arith) c.1)

find_item_absent :
    (k : ℕ) (is : List ReserveItem) → contains k (item_skus is) ≡ false → find_item k is ≡ none
find_item_absent k [] h = refl
find_item_absent k (i ∷ is) h = ground (arith, find_item_absent k is)

-- One item, on the product of SKU `k`.
with_one :
    (k : ℕ) (i : ReserveItem) (is : List ReserveItem) (xs : List Product)
    → contains i.sku (item_skus is) ≡ false
    → CanServe xs i
    → AreWords xs
    → Option.map (with_item (find_item k is)) (pointee k (modify i.sku (add_reserved i.delta) xs))
      ≡ Option.map (with_item (find_item k (i ∷ is))) (pointee k xs)
unfolding add32
with_one k i is xs fresh (x, e, room) words = elim (Bool-cases (k == i.sku)) [
  | inl here ↦ ground (
    arith,
    pointee-modify k i.sku (add_reserved i.delta) xs (λ x. refl),
    find_item_absent k is,
    words i.sku x e,
  )
  | inr other ↦ rw (pointee-modify k i.sku (add_reserved i.delta) xs (λ x. refl), other)
]

-- The loop on items with distinct SKUs.
pub reserve_items-ok :
    (is : List ReserveItem) (xs xs' : List Product)
    → reserve_items is xs ≡ ok xs'
    → Distinct (item_skus is)
    → AreWords xs
    → All (CanServe xs) is
      × (skus_of xs' ≡ skus_of xs)
      × ((k : ℕ) → pointee k xs' ≡ Option.map (with_item (find_item k is)) (pointee k xs))
unfolding reserve_items
reserve_items-ok [] xs xs' h d words = (tt, ground arith, λ k. ground arith)
reserve_items-ok (i ∷ is) xs xs' h d words = elim (Result-cases (reserve_item i xs)) [
  | inr (x, e) ↦ absurd (ground arith)
  | inl (xs₁, e) ↦
      let (serve, eq) = reserve_item-ok i xs xs₁ e in
      let h' : reserve_items is (modify i.sku (add_reserved i.delta) xs) ≡ ok xs' = ground arith in
      let (serves, same, at) =
        reserve_items-ok is (modify i.sku (add_reserved i.delta) xs) xs' h' d.1
          (AreWords-modify i.sku i.delta xs words) in
      (
        (serve, All-CanServe i.sku i.delta xs is d.0 serves),
        same ∙ skus-modify i.sku (add_reserved i.delta) xs (λ x. refl),
        λ k. at k ∙ with_one k i is xs d.0 serve words,
      )
]
