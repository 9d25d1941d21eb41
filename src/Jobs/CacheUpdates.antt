-- ===== src/Jobs/CacheUpdates.antt =====
-- `CacheUpdateOutboxJob`: internal/jobs/cache_update_outbox.go. The test whether
-- the job's cache is nil never fires, since app.go gives it an interface that holds a pointer;
-- `has_cache` is whether that pointer is one to a cache.
use marketplace_simulator_pr.Common.{
  ℕ, Bool, true, false, Option, none, some, List, [], ◌∷◌, Map, insert,
}
use marketplace_simulator_pr.Common.Int.{ℤ}
use marketplace_simulator_pr.Errors.{Message, error_text, ok, err, plain, lit}
use marketplace_simulator_pr.Models.{Product, CacheUpdateRecord}
use marketplace_simulator_pr.Store.World.{Platform, M, ◌>>=◌, ◌>>◌, pure, fail}
use marketplace_simulator_pr.Store.Outbox.CacheUpdates.{
  get_pending, delete_batch, increment_retry, mark_dead_letter,
}
use marketplace_simulator_pr.Usecases.Repository.{ReadProductRepository}
use marketplace_simulator_pr.Cache.Redis.{Json, cache_set}
use marketplace_simulator_pr.Jobs.Batch.{BatchResult, OutboxRepository, tick}

unfoldable pub updates_repository : Platform → OutboxRepository ℕ
updates_repository p = record {
  get_pending = get_pending p;
  delete_batch = delete_batch p;
  increment_retry = increment_retry p;
  mark_dead_letter = mark_dead_letter p;
}

abbrev pub succeed : ℕ → BatchResult → BatchResult
succeed id result = record result { success_records = id ∷ result.success_records }

-- `j.cache.Set(ctx, product)` reads the product's fields and the cache's: a nil product, or a nil
-- cache, stops the whole tick by a panic.
abbrev pub set_found : Platform → Json → Bool → Option Product → M (Unit {0})
set_found p json true (some x) = cache_set p json x
set_found p json false (some x) = fail (plain (lit "nil pointer dereference" ∷ []))
set_found p json has_cache none = fail (plain (lit "nil pointer dereference" ∷ []))

-- `processBatch`, with the reasons so far; its error is the panic.
unfoldable pub refresh_all :
    Platform
    → Json
    → Bool
    → ReadProductRepository
    → List CacheUpdateRecord
    → Map Message
    → M BatchResult
refresh_all p json has_cache repo [] failed =
    pure (record { success_records = []; failed_record_reasons = failed })
refresh_all p json has_cache repo (r ∷ rs) failed = λ w.
    let (found, w') = repo.get_by_sku r.body none w in
    elim found [
      | err e ↦ refresh_all p json has_cache repo rs (insert r.record_id (error_text e) failed) w'
      | ok product ↦
          (set_found p json has_cache product
              >> (refresh_all p json has_cache repo rs failed >>= λ result.
                  pure (succeed r.record_id result)))
            w'
    ]

-- `tick`
unfoldable pub tick_cache_updates : Platform → Json → Bool → ReadProductRepository → ℕ → ℤ → M ℕ
unfolding updates_repository refresh_all
tick_cache_updates p json has_cache repo =
    tick p (updates_repository p) (λ records. refresh_all p json has_cache repo records [])
