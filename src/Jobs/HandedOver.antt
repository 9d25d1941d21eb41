-- ===== src/Jobs/HandedOver.antt =====
-- What a batch of product events hands over to Kafka.
use marketplace_simulator_pr.Common.{
  ℕ, ◌≡◌, sym, ◌∙◌, ap, true, List, [], ◌∷◌, ◌++◌, arith, inl, inr, Option-cases, Bool-cases,
  contains, ◌==◌, Map, ==→eq, length,
}
use mathlib.Core.List.{append_assoc}
use marketplace_simulator_pr.Errors.{Message, ok, Result-cases}
use marketplace_simulator_pr.Models.{EventRecord, EventMessage, KafkaMessage}
use marketplace_simulator_pr.Store.World.{World, Platform, lift, >>=-ok}
use marketplace_simulator_pr.Kafka.{to_kafka, to_kafka_all, write_messages, publish_batch}
use marketplace_simulator_pr.Jobs.Batch.{BatchResult}
use marketplace_simulator_pr.Jobs.ProductEvents.{
  message_ids, decode_all, published_result, publish_decoded, process_batch,
}

-- Record `k` was handed over: a message of the record, as the producer encodes it, is among those
-- of the writes to Kafka that returned no error.
pub record IsHandedOver (p : Platform) (k : ℕ) (sent : List KafkaMessage) : Type 0 where
  pub message : EventMessage
  pub encoded : KafkaMessage
  pub before : List KafkaMessage
  pub after : List KafkaMessage
  pub of_record : message.body.record_id ≡ k
  pub encodes : to_kafka p message ≡ ok encoded
  pub is_there : sent ≡ before ++ encoded ∷ after

to_kafka_all-IsHandedOver :
    (p : Platform) (k : ℕ) (events : List EventMessage) (ms : List KafkaMessage)
    → to_kafka_all p events ≡ ok ms
    → contains k (message_ids events) ≡ true
    → IsHandedOver p k ms
unfolding to_kafka_all
to_kafka_all-IsHandedOver p k [] ms h c = absurd (ground arith)
to_kafka_all-IsHandedOver p k (e ∷ es) ms h c = elim (Result-cases (to_kafka p e)) [
  | inr (x, r) ↦ absurd (ground arith)
  | inl (m, r) ↦ elim (Result-cases (to_kafka_all p es)) [
    | inr (x, rs) ↦ absurd (ground arith)
    | inl (rest, rs) ↦ elim (Bool-cases (k == e.body.record_id)) [
      | inl here ↦ record {
        message = e;
        encoded = m;
        before = [];
        after = rest;
        of_record = sym (==→eq k e.body.record_id here);
        encodes = r;
        is_there = ground arith;
      }
      | inr later ↦
          let there = to_kafka_all-IsHandedOver p k es rest rs (ground arith) in
          record {
            message = there.message;
            encoded = there.encoded;
            before = m ∷ there.before;
            after = there.after;
            of_record = there.of_record;
            encodes = there.encodes;
            is_there = ground (arith, there.is_there);
          }
    ]
  ]
]

IsHandedOver-append :
    (p : Platform) (k : ℕ) (old sent : List KafkaMessage)
    → IsHandedOver p k sent
    → IsHandedOver p k (old ++ sent)
IsHandedOver-append p k old sent there = record {
  message = there.message;
  encoded = there.encoded;
  before = old ++ there.before;
  after = there.after;
  of_record = there.of_record;
  encodes = there.encodes;
  is_there =
      ap (λ t. old ++ t) there.is_there
      ∙ sym (append_assoc old there.before (there.encoded ∷ there.after));
}

write_messages-ok :
    (p : Platform) (ms : List KafkaMessage) (w w' : World)
    → write_messages p ms w ≡ (ok tt, w')
    → w'.handed_over ≡ w.handed_over ++ ms
unfolding write_messages
write_messages-ok p ms w w' h = elim (Option-cases (p.kafka_fault w.kafka_calls)) [
  | inl calm ↦ ground arith
  | inr (x, down) ↦ absurd (ground arith)
]

-- The messages of a write that returned no error.
publish_batch-IsHandedOver :
    (p : Platform) (k : ℕ) (events : List EventMessage) (w w' : World)
    → publish_batch p events w ≡ (ok tt, w')
    → contains k (message_ids events) ≡ true
    → IsHandedOver p k w'.handed_over
unfolding publish_batch write_messages
publish_batch-IsHandedOver p k events w w' h c =
    let (ms, w₁, h₁, k₁) = >>=-ok (lift (to_kafka_all p events)) (write_messages p) w h in
    let encoded : (to_kafka_all p events ≡ ok ms) × (w₁ ≡ w) = ground arith in
    let there = to_kafka_all-IsHandedOver p k events ms encoded.0 c in
    let more : w'.handed_over ≡ w₁.handed_over ++ ms = write_messages-ok p ms w₁ w' k₁ in
    rw more (IsHandedOver-append p k w₁.handed_over ms there)

publish_batch-rows :
    (p : Platform) (events : List EventMessage) (w : World)
    → (publish_batch p events w).1.product_events ≡ w.product_events
unfolding publish_batch write_messages
publish_batch-rows p events w = ground arith

publish_decoded-IsHandedOver :
    (p : Platform) (k n : ℕ) (events : List EventMessage) (failed : Map Message) (w w' : World)
    (result : BatchResult)
    → publish_decoded p n (events, failed) w ≡ (ok result, w')
    → (contains k result.success_records ≡ true → IsHandedOver p k w'.handed_over)
      × (w'.product_events ≡ w.product_events)
unfolding publish_decoded published_result
publish_decoded-IsHandedOver p k n events failed w w' result h =
    elim (Bool-cases (length failed == n)) [
      | inl all_failed ↦ (λ c. absurd (ground arith), ground arith)
      | inr some_left ↦ (
        λ c. elim (Result-cases (publish_batch p events w).0) [
          | inl (u, sent) ↦ publish_batch-IsHandedOver p k events w w' (ground arith) (ground arith)
          | inr (e, lost) ↦ absurd (ground arith)
        ],
        ground (arith, publish_batch-rows p events w),
      )
    ]

-- A batch that reports record `k` as done has handed it over, and touched no record.
pub process_batch-IsHandedOver :
    (p : Platform) (k : ℕ) (records : List EventRecord) (w w' : World) (result : BatchResult)
    → process_batch p records w ≡ (ok result, w')
    → (contains k result.success_records ≡ true → IsHandedOver p k w'.handed_over)
      × (w'.product_events ≡ w.product_events)
unfolding process_batch
process_batch-IsHandedOver p k records w w' result h =
    publish_decoded-IsHandedOver p k (length records) (decode_all p records []).0
      (decode_all p records []).1 w w' result h

-- A batch always has a result.
pub process_batch-total :
    (p : Platform) (records : List EventRecord) (w : World)
    → (result : BatchResult) × ((process_batch p records w).0 ≡ ok result)
unfolding process_batch publish_decoded
process_batch-total p records w =
    elim (Bool-cases (length (decode_all p records []).1 == length records)) [
      | inl all_failed ↦ (
        record { success_records = []; failed_record_reasons = (decode_all p records []).1 },
        ground arith,
      )
      | inr some_left ↦
          let (events, failed) = decode_all p records [] in
          (published_result events failed (publish_batch p events w).0, ground arith)
    ]
