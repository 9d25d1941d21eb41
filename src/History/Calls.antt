-- ===== src/History/Calls.antt =====
-- Each method and each tick of the expiry job, whatever fails in it, keeps the tables stocked.
use marketplace_simulator_pr.Common.{
  ℕ, ◌≡◌, refl, Option, none, List, [], ◌∷◌, arith, Distinct, inl, inr,
}
use marketplace_simulator_pr.Common.Int.{ℤ}
use marketplace_simulator_pr.Errors.{Error, ok, err, Result-cases}
use marketplace_simulator_pr.Models.{Reservation}
use marketplace_simulator_pr.Events.{Headers}
use marketplace_simulator_pr.Store.World.{World, Tables, Platform}
use marketplace_simulator_pr.Store.Products.{get_by_sku, get_by_skus}
use marketplace_simulator_pr.Store.Reservations.{get_expired}
use marketplace_simulator_pr.Usecases.Reads.{database}
use marketplace_simulator_pr.Usecases.Product
use marketplace_simulator_pr.Usecases.Product.{UpdateCount, update_skus, increase_count}
use marketplace_simulator_pr.Usecases.Reservation.Reserve.{item_skus, reserve}
use marketplace_simulator_pr.Usecases.Reservation.Sums.{IsRange}
use marketplace_simulator_pr.Grpc.Service.{
  Stock, check_products, check_ids, to_updates, to_items, get_product_method, increase_method,
  reserve_method, release_method, confirm_method,
}
use marketplace_simulator_pr.Grpc.Requests.{stock_skus, check_products-ok}
use marketplace_simulator_pr.Jobs.Expiry.{cutoff_of, tick_expiry, release_expired, ids_of}
use marketplace_simulator_pr.History.Stocked.{IsStocked}
use marketplace_simulator_pr.History.Changes.{
  HasRoom, reserve-IsStocked, increase_count-IsStocked, release-IsStocked, confirm-IsStocked,
}
use marketplace_simulator_pr.History.Untouched.{KeepsStock}

item_skus-to_items : (stocks : List Stock) → item_skus (to_items stocks) ≡ stock_skus stocks
item_skus-to_items [] = refl
item_skus-to_items (s ∷ stocks) = ground (arith, item_skus-to_items stocks)

update_skus-to_updates : (stocks : List Stock) → update_skus (to_updates stocks) ≡ stock_skus stocks
update_skus-to_updates [] = refl
update_skus-to_updates (s ∷ stocks) = ground (arith, update_skus-to_updates stocks)

-- The invariant looks at products and reservations only.
pub kept :
    (t t' : Tables)
    → IsStocked t
    → t'.products ≡ t.products
    → t'.reservations ≡ t.reservations
    → IsStocked t'
kept t t' s ep er = record { distinct = rw ep s.distinct; backed = rw (ep, er) s.backed }

module _ (p : Platform) (headers : Headers) (w : World) where
  reserve_method_world :
      (stocks done : List Stock)
      → check_products stocks ≡ ok done
      → (reserve_method p (database p) headers stocks w).1
        ≡ (reserve p (database p) headers (to_items done) w).1
  unfolding reserve_method
  reserve_method_world stocks done h = ground (arith, h)

  increase_method_world :
      (stocks done : List Stock)
      → check_products stocks ≡ ok done
      → (increase_method p (database p) headers stocks w).1
        ≡ (increase_count p (database p) headers (to_updates done) w).1
  unfolding increase_method
  increase_method_world stocks done h = ground (arith, h)

  refused_world :
      (stocks : List Stock) {e : Error}
      → check_products stocks ≡ err e
      → ((reserve_method p (database p) headers stocks w).1 ≡ w)
        × ((increase_method p (database p) headers stocks w).1 ≡ w)
  unfolding reserve_method increase_method
  refused_world stocks h = ground (arith, h)

pub get_product_method-KeepsStock :
    (p : Platform) (sku : ℕ) (tx : Option ℕ)
    → KeepsStock (get_product_method p (database p) [] sku tx)
unfolding get_product_method Product.get_product database get_by_sku get_by_skus
get_product_method-KeepsStock p sku tx w = ground arith

module _ (p : Platform) (w : World) (range : IsRange p) (whole : (n : ℕ) → p.cut n ≡ none)
    (s : IsStocked w.tables) where
  pub reserve_method-IsStocked :
      (headers : Headers) (stocks : List Stock)
      → IsStocked (reserve_method p (database p) headers stocks w).1.tables
  reserve_method-IsStocked headers stocks = elim (Result-cases (check_products stocks)) [
    | inr (e, refused) ↦ rw ((refused_world p headers w stocks refused).0) s
    | inl (done, accepted) ↦
        let (same, _, d) = check_products-ok stocks done accepted in
        let distinct : Distinct (item_skus (to_items done)) = rw (item_skus-to_items, same) d in
        rw (reserve_method_world p headers w stocks done accepted)
          (reserve-IsStocked p headers (to_items done) w distinct s)
  ]

  pub increase_method-IsStocked :
      (headers : Headers) (stocks : List Stock)
      → HasRoom w.products (to_updates stocks)
      → IsStocked (increase_method p (database p) headers stocks w).1.tables
  increase_method-IsStocked headers stocks room = elim (Result-cases (check_products stocks)) [
    | inr (e, refused) ↦ rw ((refused_world p headers w stocks refused).1) s
    | inl (done, accepted) ↦
        let (same, _, d) = check_products-ok stocks done accepted in
        let distinct : Distinct (update_skus (to_updates done)) =
          rw (update_skus-to_updates, same) d in
        rw (increase_method_world p headers w stocks done accepted) (
          increase_count-IsStocked p headers w range whole s (to_updates done) distinct
            (rw same room))
  ]

  pub release_method-IsStocked :
      (headers : Headers) (ids : List ℕ)
      → IsStocked (release_method p (database p) headers ids w).1.tables
  unfolding release_method check_ids
  release_method-IsStocked headers [] = s
  release_method-IsStocked headers (id ∷ ids) =
      release-IsStocked p headers w range whole s (id ∷ ids)

  pub confirm_method-IsStocked :
      (headers : Headers) (ids : List ℕ)
      → IsStocked (confirm_method p (database p) headers ids w).1.tables
  unfolding confirm_method check_ids
  confirm_method-IsStocked headers [] = s
  confirm_method-IsStocked headers (id ∷ ids) =
      confirm-IsStocked p headers w range whole s (id ∷ ids)

get_expired-KeepsStock : (p : Platform) (cutoff : ℕ) → KeepsStock (get_expired p cutoff)
unfolding get_expired
get_expired-KeepsStock p cutoff w = ground arith

release_expired-IsStocked :
    (p : Platform) (w : World)
    → IsRange p
    → ((n : ℕ) → p.cut n ≡ none)
    → IsStocked w.tables
    → (headers : Headers) (rs : List Reservation)
    → IsStocked (release_expired p (database p) headers rs w).1.tables
unfolding release_expired
release_expired-IsStocked p w range whole s headers [] = s
release_expired-IsStocked p w range whole s headers (r ∷ rs) =
    release-IsStocked p headers w range whole s (ids_of (r ∷ rs))

-- A tick whose read fails ends there, and one whose read succeeds goes on to the release.
tick_expiry_world :
    (p : Platform) (w : World) (headers : Headers) (ttl : ℤ)
    → ((e : Error)
        → (get_expired p (cutoff_of ttl w.now) w).0 ≡ err e
        → (tick_expiry p (database p) headers ttl w).1 ≡ (get_expired p (cutoff_of ttl w.now) w).1)
      × ((rs : List Reservation)
          → (get_expired p (cutoff_of ttl w.now) w).0 ≡ ok rs
          → (tick_expiry p (database p) headers ttl w).1
            ≡ (release_expired p
                (database p)
                headers
                rs
                (get_expired p (cutoff_of ttl w.now) w).1).1)
unfolding tick_expiry
tick_expiry_world p w headers ttl =
    (λ e failed. ground (arith, failed), λ rs read. ground (arith, read))

pub tick_expiry-IsStocked :
    (p : Platform) (w : World)
    → IsRange p
    → ((n : ℕ) → p.cut n ≡ none)
    → IsStocked w.tables
    → (headers : Headers) (ttl : ℤ) → IsStocked (tick_expiry p (database p) headers ttl w).1.tables
tick_expiry-IsStocked p w range whole s headers ttl =
    let found = get_expired p (cutoff_of ttl w.now) w in
    let same = get_expired-KeepsStock p (cutoff_of ttl w.now) w in
    let s₁ = kept w.tables found.1.tables s same.0 same.1 in
    elim (Result-cases found.0) [
      | inr (e, failed) ↦ rw ((tick_expiry_world p w headers ttl).0 e failed) s₁
      | inl (rs, read) ↦
          rw ((tick_expiry_world p w headers ttl).1 rs read)
            (release_expired-IsStocked p found.1 range whole s₁ headers rs)
    ]
