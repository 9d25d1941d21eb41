-- ===== src/History/Steps.antt =====
-- The service, with Redis switched off, as a relation of steps.
use marketplace_simulator_pr.Common.{ℕ, false, ◌≡◌, Option, List, []}
use marketplace_simulator_pr.Common.Int.{ℤ}
use marketplace_simulator_pr.Events.{Headers}
use marketplace_simulator_pr.Store.World.{World, Platform}
use marketplace_simulator_pr.Usecases.Reads.{database}
use marketplace_simulator_pr.Cache.Redis.{Json}
use marketplace_simulator_pr.Grpc.Service.{
  Stock, to_updates, get_product_method, increase_method, reserve_method, release_method,
  confirm_method,
}
use marketplace_simulator_pr.Jobs.Expiry.{tick_expiry}
use marketplace_simulator_pr.Jobs.ProductEvents.{tick_product_events}
use marketplace_simulator_pr.Jobs.CacheUpdates.{tick_cache_updates}
use marketplace_simulator_pr.Jobs.Loops.{signed_tick}
use marketplace_simulator_pr.History.Changes.{HasRoom}

-- What may happen to the service in the world `w`: a call of one of its methods, with any answer, a
-- tick of one of its jobs, or that time passes.
pub data Step (p : Platform) (w : World) (w' : World) : Type 0 where
  get_product :
      (sku : ℕ) (tx : Option ℕ)
      → w' ≡ (get_product_method p (database p) [] sku tx w).1
      → Step p w w'
  increase_product_count :
      (headers : Headers) (stocks : List Stock)
      → w' ≡ (increase_method p (database p) headers stocks w).1
      → Step p w w'
  reserve_product :
      (headers : Headers) (stocks : List Stock)
      → w' ≡ (reserve_method p (database p) headers stocks w).1
      → Step p w w'
  release_reservation :
      (headers : Headers) (ids : List ℕ)
      → w' ≡ (release_method p (database p) headers ids w).1
      → Step p w w'
  confirm_reservation :
      (headers : Headers) (ids : List ℕ)
      → w' ≡ (confirm_method p (database p) headers ids w).1
      → Step p w w'
  expire :
      (headers : Headers) (ttl : ℤ)
      → w' ≡ (tick_expiry p (database p) headers ttl w).1
      → Step p w w'
  send_events :
      (size limit : ℤ) → w' ≡ (signed_tick p (tick_product_events p) size limit w).1 → Step p w w'
  refresh_cache :
      (json : Json) (size limit : ℤ)
      → w' ≡ (signed_tick p (tick_cache_updates p json false (database p)) size limit w).1
      → Step p w w'
  pass : (later : ℕ) → w' ≡ record w { now = later } → Step p w w'

pub data Reach (p : Platform) (start : World) : World → Type 0 where
  here : Reach p start start
  next : {w w' : World} → Reach p start w → Step p w w' → Reach p start w'

-- No increase that was asked for is more than the row's count has room for.
abbrev pub Fits : (p : Platform) (w w' : World) → Step p w w' → Type 0
Fits p w w' (increase_product_count headers stocks e) = HasRoom w.products (to_updates stocks)
Fits p w w' _ = Unit

abbrev pub AllFit : (p : Platform) (start : World) {w : World} → Reach p start w → Type 0
AllFit p start here = Unit
AllFit p start (next {w} {w'} before step) = AllFit p start before × Fits p w w' step
