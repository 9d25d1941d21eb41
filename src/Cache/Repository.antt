-- ===== src/Cache/Repository.antt =====
-- `CachedProductRepository`: internal/infra/cache/product/cached_product_repository.go.
pub mod Freshness
use marketplace_simulator_pr.Common.{
  ℕ, Bool, true, false, Option, none, some, List, [], ◌∷◌, ◌++◌, leb, if◌then◌else◌,
}
use marketplace_simulator_pr.Errors.{Result, ok, err}
use marketplace_simulator_pr.Models.{Product}
use marketplace_simulator_pr.Store.World.{World, Platform, M, ◌>>=◌, ◌>>◌, pure}
use marketplace_simulator_pr.Usecases.Repository.{ReadProductRepository}
use marketplace_simulator_pr.Cache.Redis.{Json, cache_get}

-- An error that is only logged, and counts as a miss.
abbrev pub or_miss : M (Option Product) → M (Option Product)
or_miss m w = let (r, w') = m w in elim r [ ok found ↦ (ok found, w') | err e ↦ (ok none, w') ]

-- `go r.cache.Set(context.Background(), product)`: the write that a goroutine will make.
abbrev pub spawn_set : Product → M (Unit {0})
spawn_set x w = (ok tt, record w { spawned = w.spawned ++ x ∷ [] })

abbrev pub spawn_sets : List Product → M (Unit {0})
spawn_sets xs w = (ok tt, record w { spawned = w.spawned ++ xs })

-- `txId == nil || productFromCache.TransactionId >= *txId`
abbrev pub is_fresh : Option ℕ → Product → Bool
is_fresh none x = true
is_fresh (some t) x = leb t x.transaction_id

-- A hit that is fresh enough.
abbrev pub usable : Option ℕ → Option Product → Option Product
usable tx none = none
usable tx (some x) = if is_fresh tx x then some x else none

-- What the loop of `GetBySkus` does with a look into the cache.
abbrev pub sort_out : ℕ → Option Product → List Product × List ℕ → List Product × List ℕ
sort_out sku (some x) (hits, missed) = (x ∷ hits, missed)
sort_out sku none (hits, missed) = (hits, sku ∷ missed)

module _ (p : Platform) (json : Json) (db : ReadProductRepository) where
  -- `GetBySku` from the point where the cache has not helped.
  unfoldable pub remember : Bool → Option Product → M (Option Product)
  remember true (some x) = spawn_set x >> pure (some x)
  remember _ found = pure found

  unfoldable pub from_db : Bool → ℕ → M (Option Product)
  unfolding remember
  from_db enabled sku = db.get_by_sku sku none >>= remember enabled

  unfoldable pub or_from_db : ℕ → Option Product → M (Option Product)
  unfolding from_db
  or_from_db sku (some x) = pure (some x)
  or_from_db sku none = from_db true sku

  -- `GetBySku`; `enabled` is `r.cache != nil`.
  unfoldable pub cached_get_by_sku : Bool → ℕ → Option ℕ → M (Option Product)
  unfolding from_db or_from_db
  cached_get_by_sku false sku tx = from_db false sku
  cached_get_by_sku true sku tx =
      or_miss (cache_get p json sku) >>= λ found. or_from_db sku (usable tx found)

  -- The loop over the SKUs: what the cache had, and what it had not, each in the order of the loop.
  unfoldable pub look_up : List ℕ → M (List Product × List ℕ)
  look_up [] = pure ([], [])
  look_up (sku ∷ skus) = or_miss (cache_get p json sku) >>= λ found.
      look_up skus >>= λ rest. pure (sort_out sku found rest)

  unfoldable pub add_missed : List Product × List ℕ → M (List Product)
  add_missed (hits, []) = pure hits
  add_missed (hits, (sku ∷ skus)) =
      db.get_by_skus (sku ∷ skus) >>= λ rows. spawn_sets rows >> pure (hits ++ rows)

  -- `GetBySkus`
  unfoldable pub cached_get_by_skus : Bool → List ℕ → M (List Product)
  unfolding look_up add_missed
  cached_get_by_skus false skus = db.get_by_skus skus
  cached_get_by_skus true skus = look_up skus >>= add_missed

  -- The decorator, as the use cases see it.
  unfoldable pub cached : Bool → ReadProductRepository
  cached enabled = record {
    get_by_sku = cached_get_by_sku enabled;
    get_by_skus = cached_get_by_skus enabled;
  }
