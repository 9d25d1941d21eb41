-- ===== src/Jobs/Loops/HandingOver.antt =====
-- What leaves the outbox over a whole run of the product event job.
use marketplace_simulator_pr.Common.{
  ℕ, ◌≡◌, refl, sym, ◌∙◌, ap, String, Option, List, [], ◌∷◌, ◌++◌, arith, ◌⊎◌, inl, inr, Bool-cases,
  Option-cases, contains, length, ◌==◌,
}
use mathlib.Core.List.{append-nil, append_assoc}
use marketplace_simulator_pr.Common.Int.{ℤ, pos, negsuc}
use marketplace_simulator_pr.Errors.{Result-cases}
use marketplace_simulator_pr.Config.{OutboxConfig}
use marketplace_simulator_pr.Models.{EventRecord, EventMessage, KafkaMessage}
use marketplace_simulator_pr.Store.World.{World, Platform}
use marketplace_simulator_pr.Kafka.{to_kafka_all, write_messages, publish_batch}
use marketplace_simulator_pr.Jobs.Batch.{process_and_account, tick}
use marketplace_simulator_pr.Jobs.ProductEvents.{
  events_repository, decode_all, publish_decoded, process_batch, tick_product_events,
}
use marketplace_simulator_pr.Jobs.Kept.{record_ids, IsKept, account-Keeps}
use marketplace_simulator_pr.Jobs.HandedOver.{IsHandedOver, process_batch-total}
use marketplace_simulator_pr.Jobs.HandingOver.{get_pending-rows, tick_product_events_hands_over}
use marketplace_simulator_pr.Store.Outbox.ProductEvents.{get_pending}
use marketplace_simulator_pr.Jobs.Loops.{Round, signed_tick, run_product_events}
use marketplace_simulator_pr.Jobs.Loops.Keeps.{Keeps, run_outbox-Keeps}

-- The messages that were handed over only grow.
abbrev Grows : List KafkaMessage → List KafkaMessage → Type 0
Grows old new = (more : List KafkaMessage) × (new ≡ old ++ more)

publish_batch-Grows :
    (p : Platform) (es : List EventMessage) (w : World)
    → Grows w.handed_over (publish_batch p es w).1.handed_over
unfolding publish_batch write_messages
publish_batch-Grows p es w = elim (Result-cases (to_kafka_all p es)) [
  | inr (e, bad) ↦ ([], ground (arith, bad, append-nil w.handed_over))
  | inl (ms, fine) ↦ elim (Option-cases (p.kafka_fault w.kafka_calls)) [
    | inl calm ↦ (ms, ground (arith, fine, calm))
    | inr (m, down) ↦ ([], ground (arith, fine, down, append-nil w.handed_over))
  ]
]

process_batch-Grows :
    (p : Platform) (rs : List EventRecord) (w : World)
    → Grows w.handed_over (process_batch p rs w).1.handed_over
unfolding process_batch publish_decoded
process_batch-Grows p rs w = elim (Bool-cases (length (decode_all p rs []).1 == length rs)) [
  | inl all_failed ↦ ([], ground (arith, all_failed, append-nil w.handed_over))
  | inr some_left ↦
      let (more, e) = publish_batch-Grows p (decode_all p rs []).0 w in
      (more, ground (arith, some_left, e))
]

process_and_account-Grows :
    (p : Platform) (limit : ℤ) (records : List EventRecord) (w : World)
    → Grows w.handed_over
        (process_and_account p
          (events_repository p)
          (process_batch p)
          limit
          records
          w).1.handed_over
unfolding process_and_account
process_and_account-Grows p limit [] w = ([], sym (append-nil w.handed_over))
process_and_account-Grows p limit (r ∷ rs) w =
    let (result, fine) = process_batch-total p (r ∷ rs) w in
    let w₁ = (process_batch p (r ∷ rs) w).1 in
    let (more, e) = process_batch-Grows p (r ∷ rs) w in
    let same = (account-Keeps p 0 result.success_records limit (r ∷ rs) result refl w₁).1 in
    (more, ground (arith, fine, same, e))

tick-Grows :
    (p : Platform) (size : ℕ) (limit : ℤ) (w : World)
    → Grows w.handed_over (tick_product_events p size limit w).1.handed_over
unfolding tick_product_events tick events_repository
tick-Grows p size limit w =
    let w₁ = (get_pending p size w).1 in
    let same = (get_pending-rows p size w).1 in
    elim (Result-cases (get_pending p size w).0) [
      | inr (e, failed) ↦ ([], ground (arith, failed, same, append-nil w.handed_over))
      | inl (records, read) ↦
          let (more, e) = process_and_account-Grows p limit records w₁ in
          (more, ground (arith, read, same, e))
    ]

IsHandedOver-Grows :
    (p : Platform) (k : ℕ) (old new : List KafkaMessage)
    → Grows old new
    → IsHandedOver p k old
    → IsHandedOver p k new
IsHandedOver-Grows p k old new (more, e) there = record {
  message = there.message;
  encoded = there.encoded;
  before = there.before;
  after = there.after ++ more;
  of_record = there.of_record;
  encodes = there.encodes;
  is_there =
      e
      ∙ ap (λ t. t ++ more) there.is_there
      ∙ append_assoc there.before (there.encoded ∷ there.after) more;
}

-- Record `k` waits in the outbox, or was handed over to Kafka.
abbrev pub IsWaitingOrSent : Platform → ℕ → World → Type 0
IsWaitingOrSent p k w = IsKept k w ⊎ IsHandedOver p k w.handed_over

tick-IsWaitingOrSent :
    (p : Platform) (k : ℕ) (size limit : ℤ)
    → Keeps (IsWaitingOrSent p k) (signed_tick p (tick_product_events p) size limit)
unfolding signed_tick
tick-IsWaitingOrSent p k (negsuc size) limit w safe = elim (Option-cases (p.fault w.calls)) [
  | inl calm ↦ rw (calm, signed_tick) safe
  | inr (m, down) ↦ rw (down, signed_tick) safe
]
tick-IsWaitingOrSent p k (pos size) limit w (inr sent) = inr (
    IsHandedOver-Grows p k w.handed_over (tick_product_events p size limit w).1.handed_over
      (tick-Grows p size limit w) sent)
tick-IsWaitingOrSent p k (pos size) limit w (inl kept) =
    elim (Bool-cases
      (contains k (record_ids (tick_product_events p size limit w).1.product_events))) [
        | inl still ↦ inl still
        | inr gone ↦ inr (tick_product_events_hands_over p size limit w k kept gone)
      ]

-- No event leaves the outbox unsent. However long the loop of the product event job runs, with
-- whatever configurations and whatever calls of the database and of Kafka that fail: a record that
-- was in the outbox at the start is there at the end, or a message that carries its id, encoded as
-- the producer encodes it, was in a write to Kafka that returned no error.
pub run_product_events-IsWaitingOrSent :
    (parse : String → Option ℤ) (p : Platform) (rounds : List (Round OutboxConfig)) (w : World)
    (k : ℕ)
    → IsKept k w
    → IsWaitingOrSent p k (run_product_events parse p rounds w).1
unfolding run_product_events
run_product_events-IsWaitingOrSent parse p rounds w k kept =
    run_outbox-Keeps parse (IsWaitingOrSent p k) (signed_tick p (tick_product_events p))
      (tick-IsWaitingOrSent p k) rounds 0 w (inl kept)
