-- ===== src/Tests/Cached.antt =====
-- Runs of what writes to Redis and of what builds events, on concrete data.
use marketplace_simulator_pr.Common.{
  true, ℕ, ◌≡◌, refl, none, some, List, [], ◌∷◌, ◌==◌, if◌then◌else◌, arith,
}
use marketplace_simulator_pr.Common.Int.{pos}
use marketplace_simulator_pr.Errors.{Result, ok, err, plain}
use marketplace_simulator_pr.Models.{Product, NewEvent, CachedProduct, from_model}
use marketplace_simulator_pr.Events.{format_uint, digits, build_records, build_all, build_record}
use marketplace_simulator_pr.Store.World.{World}
use marketplace_simulator_pr.Store.Products.{to_product}
use marketplace_simulator_pr.Store.Outbox.{
  pending, sorted, insert_sorted, comes_first, first_of_key, deleted,
}
use marketplace_simulator_pr.Usecases.Reads.{database}
use marketplace_simulator_pr.Store.Products.Rows.{find_product}
use marketplace_simulator_pr.Usecases.Repository.{snapshot, plan_events}
use marketplace_simulator_pr.Usecases.Told.{Tells, plan_events-Tells}
use marketplace_simulator_pr.Usecases.Built.{find_event}
use marketplace_simulator_pr.Cache.Redis.{Json, cache_get, cache_set, cache_delete}
use marketplace_simulator_pr.Cache.Redis.Stored.{cache_get-cache_set}
use marketplace_simulator_pr.Jobs.CacheUpdates.{tick_cache_updates}
use marketplace_simulator_pr.Jobs.CacheTick.{tick_cache_updates-fresh}
use marketplace_simulator_pr.Tests.{
  stale, calm, shop, tea, milk, tea_read, tea_reserved, calm-IsRange,
}

-- A JSON that writes the SKU and knows the two products of the shop.
abbrev decode_sku : List ℕ → Result CachedProduct
decode_sku [] = err (plain [])
decode_sku (sku ∷ _) =
    if sku == 7 then ok (from_model (to_product tea)) else ok (from_model (to_product milk))

abbrev by_sku : Json
by_sku = record { encode = λ c. ok (c.sku ∷ []); decode = decode_sku }

cache_get-cache_set_example :
    ((cache_get calm by_sku 7 (cache_set calm by_sku (to_product tea) shop).1).0
      ≡ ok (some (to_product tea)))
    × ((cache_get calm by_sku 7 (cache_delete calm by_sku 7 shop).1).0 ≡ ok none)
unfolding from_model
cache_get-cache_set_example =
    cache_get-cache_set calm by_sku (to_product tea) 7 shop (λ n. refl) (7 ∷ [], refl, refl)
      (omega arith) (omega arith)

abbrev outdated : World
outdated = record shop { tables = record shop.tables { cache_updates = stale ∷ [] } }

tick_cache_updates-fresh_example :
    let (r, w) = tick_cache_updates calm by_sku true (database calm) 10 (pos 3) outdated in
    (r ≡ ok 1)
    × (w.cache_updates ≡ [])
    × ((cache_get calm by_sku 7 w).0 ≡ ok (some (to_product tea)))
unfolding from_model pending sorted insert_sorted comes_first first_of_key deleted
tick_cache_updates-fresh_example =
    tick_cache_updates-fresh calm by_sku 10 (pos 3) outdated 7 tea (λ n. refl) (λ n. refl)
      (λ n. refl) calm-IsRange
      (((7 ∷ [], refl, refl), omega arith), (((8 ∷ [], refl, refl), omega arith), tt))
      ((tea, refl), tt) refl refl

-- The event of the tea when two more are reserved.
abbrev tea_event : NewEvent
tea_event = record { key = b'7' ∷ []; content = []; headers = [] }

plan_events-Tells_example :
    (e : NewEvent) × (find_event (format_uint 7) (tea_event ∷ []) ≡ some e)
    × ((old : Product) × (find_product 7 (tea_read ∷ []) ≡ some old)
        × Tells calm [] old tea_reserved e)
unfolding plan_events build_records build_all build_record snapshot format_uint digits
plan_events-Tells_example =
    plan_events-Tells calm [] "" (tea_read ∷ []) (tea_reserved ∷ []) (tea_reserved ∷ [])
      (tea_event ∷ []) 7 tea_reserved calm-IsRange (refl, tt) (refl, tt) (omega arith, tt)
      ((omega arith, omega arith), tt) ((omega arith, omega arith), tt) (omega arith) refl refl
