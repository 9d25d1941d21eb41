-- ===== src/Jobs/ProductEvents.antt =====
-- `ProductEventsOutboxJob`: internal/jobs/product_events_outbox.go.
use marketplace_simulator_pr.Common.{ℕ, List, [], ◌∷◌, ◌==◌, if◌then◌else◌, Map, insert, length}
use marketplace_simulator_pr.Common.Int.{ℤ}
use marketplace_simulator_pr.Errors.{Message, error_text, Result, ok, err}
use marketplace_simulator_pr.Models.{NewEvent, EventRecord, EventData, EventMessage}
use marketplace_simulator_pr.Store.World.{Platform, M}
use marketplace_simulator_pr.Store.Outbox.ProductEvents.{
  get_pending, delete_batch, increment_retry, mark_dead_letter,
}
use marketplace_simulator_pr.Kafka.{publish_batch}
use marketplace_simulator_pr.Jobs.Batch.{BatchResult, OutboxRepository, tick}

unfoldable pub events_repository : Platform → OutboxRepository NewEvent
events_repository p = record {
  get_pending = get_pending p;
  delete_batch = delete_batch p;
  increment_retry = increment_retry p;
  mark_dead_letter = mark_dead_letter p;
}

abbrev pub to_message : EventRecord → EventData → EventMessage
to_message r content = record {
  key = content.new.sku;
  headers = r.body.headers;
  body = record { record_id = r.record_id; event = content };
}

-- The loop over the records: the messages to publish, and the records that do not decode.
unfoldable pub decode_all :
    Platform → List EventRecord → Map Message → List EventMessage × Map Message
decode_all p [] failed = ([], failed)
decode_all p (r ∷ rs) failed = elim (p.unmarshal r.body.content) [
  | ok content ↦
      let (events, failed') = decode_all p rs failed in (to_message r content ∷ events, failed')
  | err e ↦ decode_all p rs (insert r.record_id (error_text e) failed)
]

abbrev pub message_ids : List EventMessage → List ℕ
message_ids [] = []
message_ids (m ∷ ms) = m.body.record_id ∷ message_ids ms

unfoldable pub fail_all : Message → List ℕ → Map Message → Map Message
fail_all reason [] failed = failed
fail_all reason (id ∷ ids) failed = fail_all reason ids (insert id reason failed)

-- What becomes of the messages that were given to Kafka.
unfoldable pub published_result : List EventMessage → Map Message → Result (Unit {0}) → BatchResult
unfolding fail_all
published_result events failed (ok _) = record {
  success_records = message_ids events;
  failed_record_reasons = failed;
}
published_result events failed (err e) = record {
  success_records = [];
  failed_record_reasons = fail_all (error_text e) (message_ids events) failed;
}

unfoldable pub publish_decoded : Platform → ℕ → List EventMessage × Map Message → M BatchResult
unfolding published_result
publish_decoded p records (events, failed) w =
    if length failed == records
    then (ok (record { success_records = []; failed_record_reasons = failed }), w)
    else (let (r, w') = publish_batch p events w in (ok (published_result events failed r), w'))

-- `processBatch`
unfoldable pub process_batch : Platform → List EventRecord → M BatchResult
unfolding decode_all publish_decoded
process_batch p records = publish_decoded p (length records) (decode_all p records [])

-- `tick`
unfoldable pub tick_product_events : Platform → ℕ → ℤ → M ℕ
unfolding events_repository
tick_product_events p = tick p (events_repository p) (process_batch p)
