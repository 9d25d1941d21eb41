-- ===== src/Store/Outbox/CacheUpdates.antt =====
-- `outbox.cache_updates`: internal/infra/database/repository/cache_update_outbox.go.
use marketplace_simulator_pr.Common.{ℕ, ◌+◌, List, [], ◌∷◌, ◌++◌, ◌==◌, leb, not, select, length}
use marketplace_simulator_pr.Errors.{Message}
use marketplace_simulator_pr.Models.{CacheUpdateRecord}
use marketplace_simulator_pr.Store.World.{World, Platform, M, ◌>>=◌, ◌>>◌, wrapped, query, exec}
use marketplace_simulator_pr.Store.Outbox.{
  pending, deleted, retried, can_retry, check_integer, buried, new_entry, complete,
}

-- `GetPending`
unfoldable pub get_pending : Platform → ℕ → M (List CacheUpdateRecord)
unfolding pending
get_pending p limit =
    wrapped "CacheUpdateOutboxRepository.GetPending"
      (query p (λ t. pending ◌==◌ leb limit t.cache_updates) >>= complete)

-- `CountPending`
unfoldable pub count_pending : Platform → M ℕ
count_pending p =
    wrapped "CacheUpdateOutboxRepository.CountPending"
      (exec p (λ w. (length (select (λ e. not e.is_dead_letter) w.cache_updates), w)))

-- `CountDeadLetters`
unfoldable pub count_dead_letters : Platform → M ℕ
count_dead_letters p =
    wrapped "CacheUpdateOutboxRepository.CountDeadLetters"
      (exec p (λ w. (length (select (λ e. e.is_dead_letter) w.cache_updates), w)))

abbrev pub on_updates : (List CacheUpdateRecord → List CacheUpdateRecord) → World → Unit {0} × World
on_updates f w = (tt, record w { tables = record w.tables { cache_updates = f w.cache_updates } })

-- `DeleteBatch`
unfoldable pub delete_batch : Platform → List ℕ → M (Unit {0})
delete_batch p ids =
    wrapped "CacheUpdateOutboxRepository.DeleteBatch" (exec p (on_updates (deleted ids)))

-- `IncrementRetry`
unfoldable pub increment_retry : Platform → ℕ → M (Unit {0})
increment_retry p id w =
    wrapped "CacheUpdateOutboxRepository.IncrementRetry"
      (exec p (on_updates (retried id)) >> check_integer (can_retry id w.cache_updates)) w

-- `MarkDeadLetter`
unfoldable pub mark_dead_letter : Platform → ℕ → Message → M (Unit {0})
mark_dead_letter p id reason =
    wrapped "CacheUpdateOutboxRepository.MarkDeadLetter"
      (exec p (λ w. on_updates (buried w.now id reason) w))

abbrev pub add_update : Platform → ℕ → World → Unit {0} × World
add_update p sku w = (
  tt,
  record w {
    tables = record w.tables {
      cache_updates = w.cache_updates ++ new_entry p w.now w.drawn sku ∷ [];
    };
    drawn = w.drawn + 1;
  },
)

-- `Create` of the repository on a transaction
unfoldable pub create_update : Platform → ℕ → M (Unit {0})
create_update p sku = wrapped "CacheUpdateOutboxTxRepository.Create" (exec p (add_update p sku))
