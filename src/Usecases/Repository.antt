-- ===== src/Usecases/Repository.antt =====
-- What the use cases share: the interface of the repository they read products from, the Go maps of
-- product pointers, and the loops that fill the outboxes (transactor.go and helpers.go of
-- internal/usecases/product and internal/usecases/reservation).
use marketplace_simulator_pr.Common.{
  ℕ, Option, none, some, List, [], ◌∷◌, ◌==◌, if◌then◌else◌, Map, keys, values, entries_at,
  contains, String,
}
use marketplace_simulator_pr.Models.{Product, NewEvent}
use marketplace_simulator_pr.Errors.{Result, ok, err, wrap_err}
use marketplace_simulator_pr.Events.{Headers, build_records}
use marketplace_simulator_pr.Store.World.{Platform, M, ◌>>◌, pure, wrapped}
use marketplace_simulator_pr.Store.Products.Rows.{skus_of}
use marketplace_simulator_pr.Store.Outbox.ProductEvents.{create_event}
use marketplace_simulator_pr.Store.Outbox.CacheUpdates.{create_update}

-- `ReadProductRepository`
pub record ReadProductRepository : Type 0 where
  pub get_by_sku : ℕ → Option ℕ → M (Option Product)
  pub get_by_skus : List ℕ → M (List Product)

-- The slice of `*models.Product` is the store of the pointers. The map from SKUs to pointers is
-- filled by a loop over the slice, so the pointer of a SKU is to the last element that has it:
-- `pointee` reads through the map, and `modify` writes through it.
unfoldable pub pointee : ℕ → List Product → Option Product
pointee k [] = none
pointee k (x ∷ xs) = elim (pointee k xs) [
  | some y ↦ some y
  | none ↦ if k == x.sku then some x else none
]

unfoldable pub modify : ℕ → (Product → Product) → List Product → List Product
modify k f [] = []
modify k f (x ∷ xs) =
    if contains k (skus_of xs) then x ∷ modify k f xs else (if k == x.sku then f x else x) ∷ xs

-- `getProductMapSnapshot`: a copy of what the pointers point to.
unfoldable pub snapshot : List Product → Map Product
snapshot [] = []
snapshot (x ∷ xs) = if contains x.sku (skus_of xs) then snapshot xs else (x.sku, x) ∷ snapshot xs

-- `slices.Collect(maps.Values(productMap))`, once the loop has written through the pointers.
unfoldable pub map_values : Platform → List Product → List Product
unfolding snapshot
map_values p xs = values (entries_at (p.visit 1 (keys (snapshot xs))) (snapshot xs))

-- The records of the change from `before` to `after`, which go into the transaction with `after`.
unfoldable pub plan_events :
    Platform
    → Headers
    → String
    → List Product
    → List Product
    → Result (List Product × List NewEvent)
unfolding snapshot
plan_events p headers prefix before after =
    elim (wrap_err prefix (build_records p headers (snapshot before) (snapshot after))) [
      | ok events ↦ ok (after, events)
      | err e ↦ err e
    ]

-- `for _, rec := range outboxRecords { txProductEvents.Create(…) }`
unfoldable pub create_events : Platform → List NewEvent → M (Unit {0})
create_events p [] = pure tt
create_events p (e ∷ es) = do
  wrapped "Execute: save outbox_record" (create_event p e)
  create_events p es

-- `for … { txCacheUpdates.Create(ctx, sku) }`
unfoldable pub create_updates : Platform → List ℕ → M (Unit {0})
create_updates p [] = pure tt
create_updates p (sku ∷ skus) = do
  wrapped "Execute: save cache_update_outbox" (create_update p sku)
  create_updates p skus
