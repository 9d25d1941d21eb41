-- ===== src/History/Reached.antt =====
-- Any history of the service keeps its tables stocked.
use marketplace_simulator_pr.Common.{ℕ, false, inl, inr, Option-cases, ◌≤◌, ◌≡◌, none, some, []}
use marketplace_simulator_pr.Common.Int.{ℤ, pos, negsuc}
use marketplace_simulator_pr.Store.World.{M, ProductRow, World, Platform}
use marketplace_simulator_pr.Store.Products.Rows.{find_row}
use marketplace_simulator_pr.Usecases.Reads.{database}
use marketplace_simulator_pr.Usecases.Reservation.Sums.{total, IsRange}
use marketplace_simulator_pr.Cache.Repository.Freshness.{database-ReadsOnly}
use marketplace_simulator_pr.Grpc.Service.{get_product_method}
use marketplace_simulator_pr.Jobs.ProductEvents.{tick_product_events}
use marketplace_simulator_pr.Jobs.CacheUpdates.{tick_cache_updates}
use marketplace_simulator_pr.Jobs.Loops.{signed_tick}
use marketplace_simulator_pr.History.Stocked.{IsStocked}
use marketplace_simulator_pr.History.Untouched.{
  KeepsStock, tick_product_events-KeepsStock, tick_cache_updates-KeepsStock,
}
use marketplace_simulator_pr.History.Steps.{
  Step, Reach, Fits, AllFit, get_product, increase_product_count, reserve_product,
  release_reservation, confirm_reservation, expire, send_events, refresh_cache, pass, here, next,
}
use marketplace_simulator_pr.History.Calls.{
  kept, get_product_method-KeepsStock, reserve_method-IsStocked, increase_method-IsStocked,
  release_method-IsStocked, confirm_method-IsStocked, tick_expiry-IsStocked,
}

signed_tick-IsStocked :
    (p : Platform) (tick : ℕ → ℤ → M ℕ)
    → ((size : ℕ) (limit : ℤ) → KeepsStock (tick size limit))
    → (size limit : ℤ) (w : World) → IsStocked w.tables
    → IsStocked (signed_tick p tick size limit w).1.tables
unfolding signed_tick
signed_tick-IsStocked p tick keeps (pos size) limit w s =
    let same = keeps size limit w in kept w.tables (tick size limit w).1.tables s same.0 same.1
signed_tick-IsStocked p tick keeps (negsuc size) limit w s = elim (Option-cases (p.fault w.calls)) [
  | inl calm ↦ rw (calm, signed_tick) s
  | inr (m, down) ↦ rw (down, signed_tick) s
]

Step-IsStocked :
    (p : Platform) (w w' : World)
    → IsRange p
    → ((n : ℕ) → p.cut n ≡ none)
    → IsStocked w.tables
    → (step : Step p w w') → Fits p w w' step
    → IsStocked w'.tables
Step-IsStocked p w w' range whole s (get_product sku tx e) _ =
    let same = get_product_method-KeepsStock p sku tx w in
    rw e (kept w.tables (get_product_method p (database p) [] sku tx w).1.tables s same.0 same.1)
Step-IsStocked p w w' range whole s (increase_product_count headers stocks e) room =
    rw e (increase_method-IsStocked p w range whole s headers stocks room)
Step-IsStocked p w w' range whole s (reserve_product headers stocks e) _ =
    rw e (reserve_method-IsStocked p w range whole s headers stocks)
Step-IsStocked p w w' range whole s (release_reservation headers ids e) _ =
    rw e (release_method-IsStocked p w range whole s headers ids)
Step-IsStocked p w w' range whole s (confirm_reservation headers ids e) _ =
    rw e (confirm_method-IsStocked p w range whole s headers ids)
Step-IsStocked p w w' range whole s (expire headers ttl e) _ =
    rw e (tick_expiry-IsStocked p w range whole s headers ttl)
Step-IsStocked p w w' range whole s (send_events size limit e) _ = rw e (
    signed_tick-IsStocked p (tick_product_events p) (λ n m. tick_product_events-KeepsStock p n m)
      size limit w s)
Step-IsStocked p w w' range whole s (refresh_cache json size limit e) _ = rw e (
    signed_tick-IsStocked p (tick_cache_updates p json false (database p))
      (λ n m. tick_cache_updates-KeepsStock p json false (database p) (database-ReadsOnly p) n m)
      size limit w s)
Step-IsStocked p w w' range whole s (pass later e) _ = rw e s

pub Reach-IsStocked :
    (p : Platform) (start : World) {w : World}
    → IsRange p
    → ((n : ℕ) → p.cut n ≡ none)
    → IsStocked start.tables
    → (reach : Reach p start w) → AllFit p start reach
    → IsStocked w.tables
Reach-IsStocked p start range whole s here _ = s
Reach-IsStocked p start range whole s (next {w} {w'} before step) fit =
    Step-IsStocked p w w' range whole (Reach-IsStocked p start range whole s before fit.0) step
      fit.1

-- The stock is never oversold. Start from tables that are stocked, on a platform whose `range`
-- meets each key once and whose queries are not cut short, with Redis switched off. After any
-- calls and ticks, in any order and whatever of them fails, as long as no increase that is asked
-- for makes a count wrap: the reserved count of each row is the sum of the reservations of its
-- SKU, and it is at most the count.
pub reached_backed :
    (p : Platform) (start : World) {w : World} (k : ℕ) (r : ProductRow)
    → IsRange p
    → ((n : ℕ) → p.cut n ≡ none)
    → IsStocked start.tables
    → (reach : Reach p start w) → AllFit p start reach
    → find_row k w.products ≡ some r
    → (r.reserved_count ≡ total k w.reservations) × (r.reserved_count ≤ r.count)
reached_backed p start k r range whole s reach fit there =
    let (sum, room, _) = (Reach-IsStocked p start range whole s reach fit).backed k r there in
    (sum, room)
