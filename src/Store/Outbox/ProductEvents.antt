-- ===== src/Store/Outbox/ProductEvents.antt =====
-- `outbox.product_events`: internal/infra/database/repository/product_events_outbox.go.
use marketplace_simulator_pr.Common.{
  ℕ, ◌+◌, Bool, List, [], ◌∷◌, ◌++◌, true, false, not, select, length,
}
use marketplace_simulator_pr.Errors.{Message}
use marketplace_simulator_pr.Models.{NewEvent, EventRecord}
use marketplace_simulator_pr.Store.World.{World, Platform, M, ◌>>=◌, ◌>>◌, wrapped, query, exec}
use marketplace_simulator_pr.Store.Outbox.{
  leb_text, eq_text, pending, deleted, retried, can_retry, check_integer, buried, new_entry,
  complete,
}

abbrev pub same_key : NewEvent → NewEvent → Bool
same_key a b = eq_text a.key b.key

abbrev pub key_before : NewEvent → NewEvent → Bool
key_before a b = leb_text a.key b.key

-- `GetPending`
unfoldable pub get_pending : Platform → ℕ → M (List EventRecord)
unfolding pending
get_pending p limit =
    wrapped "ProductEventsOutboxRepository.GetPending"
      (query p (λ t. pending same_key key_before limit t.product_events) >>= complete)

abbrev pub flag_is : Bool → Bool → Bool
flag_is true b = b
flag_is false b = not b

-- `GetCount`
unfoldable pub get_count : Platform → Bool → M ℕ
get_count p dead =
    wrapped "ProductEventsOutboxRepository.GetCount"
      (exec p (λ w. (length (select (λ e. flag_is dead e.is_dead_letter) w.product_events), w)))

abbrev pub on_events : (List EventRecord → List EventRecord) → World → Unit {0} × World
on_events f w = (tt, record w { tables = record w.tables { product_events = f w.product_events } })

-- `DeleteBatch`
unfoldable pub delete_batch : Platform → List ℕ → M (Unit {0})
delete_batch p ids =
    wrapped "ProductEventsOutboxRepository.DeleteBatch" (exec p (on_events (deleted ids)))

-- `IncrementRetry`
unfoldable pub increment_retry : Platform → ℕ → M (Unit {0})
increment_retry p id w =
    wrapped "ProductEventsOutboxRepository.IncrementRetry"
      (exec p (on_events (retried id)) >> check_integer (can_retry id w.product_events)) w

-- `MarkDeadLetter`
unfoldable pub mark_dead_letter : Platform → ℕ → Message → M (Unit {0})
mark_dead_letter p id reason =
    wrapped "ProductEventsOutboxRepository.MarkDeadLetter"
      (exec p (λ w. on_events (buried w.now id reason) w))

abbrev pub add_event : Platform → NewEvent → World → Unit {0} × World
add_event p event w = (
  tt,
  record w {
    tables = record w.tables {
      product_events = w.product_events ++ new_entry p w.now w.drawn event ∷ [];
    };
    drawn = w.drawn + 1;
  },
)

-- `Create` of the repository on a transaction
unfoldable pub create_event : Platform → NewEvent → M (Unit {0})
create_event p event = wrapped "ProductEventsOutboxTxRepository.Create" (exec p (add_event p event))
