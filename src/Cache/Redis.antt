-- ===== src/Cache/Redis.antt =====
-- `CacheClient` and `ProductCache`: internal/infra/cache/client.go and
-- internal/infra/cache/product/product_cache.go. Tracing and metrics are left out.
pub mod Stored
use marketplace_simulator_pr.Common.{ℕ, ◌+◌, Option, none, some, List, ◌∷◌, if◌then◌else◌}
use marketplace_simulator_pr.Errors.{Result, ok, err, plain}
use marketplace_simulator_pr.Models.{Product, CachedProduct, from_model}
use marketplace_simulator_pr.Events.{format_uint}
use marketplace_simulator_pr.Store.World.{World, Platform, M, ◌>>=◌, pure, lift, wrapped}
use marketplace_simulator_pr.Store.Outbox.{eq_text}

-- encoding/json on `CachedProduct`.
pub record Json : Type 0 where
  pub encode : CachedProduct → Result (List ℕ)
  pub decode : List ℕ → Result CachedProduct

abbrev pub asked : World → World
asked w = record w { redis_calls = w.redis_calls + 1 }

-- A call of the Redis client: it fails, or reads or changes what Redis holds.
abbrev pub redis_call {ℓ} : {A : Type ℓ} → Platform → (World → A × World) → M A
redis_call p run w = elim (p.redis_fault w.redis_calls) [
  | some m ↦ (err (plain m), asked w)
  | none ↦ let (a, w') = run (asked w) in (ok a, w')
]

abbrev pub store_value : List ℕ → List ℕ → World → Unit {0} × World
store_value key value w =
    (tt, record w { redis = λ k. if eq_text k key then some value else w.redis k })

abbrev pub drop_value : List ℕ → World → Unit {0} × World
drop_value key w = (tt, record w { redis = λ k. if eq_text k key then none else w.redis k })

-- `cacheKey`: "product:" and the SKU.
unfoldable pub cache_key : ℕ → List ℕ
cache_key sku = b'p' ∷ b'r' ∷ b'o' ∷ b'd' ∷ b'u' ∷ b'c' ∷ b't' ∷ b':' ∷ format_uint sku

abbrev pub to_model : CachedProduct → Product
to_model c = record {
  sku = c.sku;
  price = c.price;
  name = c.name;
  count = c.count;
  reserved_count = c.reserved_count;
  transaction_id = c.transaction_id;
}

abbrev pub to_models : Option CachedProduct → Option Product
to_models none = none
to_models (some c) = some (to_model c)

-- A failure that is only logged.
abbrev pub logged : M (Unit {0}) → M (Unit {0})
logged m w = let (_, w') = m w in (ok tt, w')

module _ (p : Platform) (json : Json) where
  -- The value of a key, decoded; a key that is not there is no error.
  unfoldable pub decode_found : Option (List ℕ) → Result (Option CachedProduct)
  decode_found none = ok none
  decode_found (some value) = elim (json.decode value) [ ok c ↦ ok (some c) | err e ↦ err e ]

  -- `CacheClient.Get`
  unfoldable pub client_get : List ℕ → M (Option CachedProduct)
  unfolding decode_found
  client_get key = redis_call p (λ w. (w.redis key, w)) >>= λ found. lift (decode_found found)

  -- `CacheClient.Set`; that an entry expires is left out.
  unfoldable pub client_set : List ℕ → CachedProduct → M (Unit {0})
  client_set key c = lift (json.encode c) >>= λ value. redis_call p (store_value key value)

  -- `CacheClient.Delete`
  unfoldable pub client_delete : List ℕ → M (Unit {0})
  client_delete key = redis_call p (drop_value key)

  -- `ProductCache.Get`
  unfoldable pub cache_get : ℕ → M (Option Product)
  unfolding client_get cache_key
  cache_get sku =
      wrapped "ProductCache.Get" (client_get (cache_key sku)) >>= λ found. pure (to_models found)

  -- `ProductCache.Set`
  unfoldable pub cache_set : Product → M (Unit {0})
  unfolding client_set cache_key from_model
  cache_set x = logged (client_set (cache_key x.sku) (from_model x))

  -- `ProductCache.Delete`
  unfoldable pub cache_delete : ℕ → M (Unit {0})
  unfolding client_delete cache_key
  cache_delete sku = logged (client_delete (cache_key sku))
