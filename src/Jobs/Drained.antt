-- ===== src/Jobs/Drained.antt =====
-- On a platform where nothing fails, each tick of the product event job makes the outbox smaller.
use marketplace_simulator_pr.Common.{
  ℕ, suc, ◌-◌, ◌≤◌, ◌≡◌, refl, ap, subst, false, none, List, [], ◌∷◌, arith, contains, length, All,
  Map,
}
use marketplace_simulator_pr.Common.Int.{ℤ}
use marketplace_simulator_pr.Errors.{Message, ok}
use marketplace_simulator_pr.Models.{EventRecord, EventMessage, EventBody, EventData, KafkaMessage}
use marketplace_simulator_pr.Events.{format_uint}
use marketplace_simulator_pr.Store.World.{World, Platform, counted}
use marketplace_simulator_pr.Store.Outbox.{pending, deleted}
use marketplace_simulator_pr.Store.Outbox.Pending.{
  entry_ids, live, All-pending, pending-some, pending_none, live-deleted_lt, All-deleted,
}
use marketplace_simulator_pr.Store.Outbox.ProductEvents.{
  get_pending, delete_batch, same_key, key_before,
}
use marketplace_simulator_pr.Usecases.Reservation.Sums.{IsRange}
use marketplace_simulator_pr.Kafka.{to_kafka, to_kafka_all, write_messages, publish_batch}
use marketplace_simulator_pr.Jobs.Batch.{
  BatchResult, handle_all, account, process_and_account, tick,
}
use marketplace_simulator_pr.Jobs.ProductEvents.{
  events_repository, message_ids, decode_all, published_result, publish_decoded, process_batch,
  tick_product_events,
}
use marketplace_simulator_pr.Jobs.HandedOver.{process_batch-IsHandedOver}

-- A platform where no call of the database or of Kafka fails and every body of a message has a
-- text.
pub record IsCalm (p : Platform) : Type 0 where
  pub database : (n : ℕ) → p.fault n ≡ none
  pub whole : (n : ℕ) → p.cut n ≡ none
  pub kafka : (n : ℕ) → p.kafka_fault n ≡ none
  pub encodes : (b : EventBody) → (text : List ℕ) × (p.marshal_body b ≡ ok text)
  pub range : IsRange p

-- The content of a record is the text of an event's data.
abbrev pub Decodes : Platform → EventRecord → Type 0
Decodes p r = (data_of : EventData) × (p.unmarshal r.body.content ≡ ok data_of)

decode_all-ids :
    (p : Platform) (rs : List EventRecord) (failed : Map Message)
    → All (Decodes p) rs
    → (message_ids (decode_all p rs failed).0 ≡ entry_ids rs)
      × ((decode_all p rs failed).1 ≡ failed)
unfolding decode_all
decode_all-ids p [] failed h = (refl, refl)
decode_all-ids p (r ∷ rs) failed ((content, fine), h) =
    let (ids, same) = decode_all-ids p rs failed h in
    (ground (arith, fine, ids), ground (arith, fine, same))

-- A `range` over an empty map meets no key.
pub visit_none : (p : Platform) → IsRange p → p.visit 4 [] ≡ []
visit_none p range = go (p.visit 4 []) (range 4 [] tt).1
  where
    go : (ks : List ℕ) → ((k : ℕ) → contains k ks ≡ false) → ks ≡ []
    go [] h = refl
    go (k ∷ ks) h = absurd (ground (arith, h k))

module _ (p : Platform) (calm : IsCalm p) where
  to_kafka-ok : (e : EventMessage) → (m : KafkaMessage) × (to_kafka p e ≡ ok m)
  unfolding to_kafka
  to_kafka-ok e =
      let (text, fine) = calm.encodes e.body in
      (
        record { key = format_uint e.key; content = text; headers = e.headers },
        ground (arith, fine),
      )

  to_kafka_all-ok :
      (es : List EventMessage) → (ms : List KafkaMessage) × (to_kafka_all p es ≡ ok ms)
  unfolding to_kafka_all
  to_kafka_all-ok [] = ([], refl)
  to_kafka_all-ok (e ∷ es) =
      let (m, one) = to_kafka-ok e in
      let (ms, rest) = to_kafka_all-ok es in (m ∷ ms, ground (arith, one, rest))

  publish_batch-ok : (es : List EventMessage) (w : World) → (publish_batch p es w).0 ≡ ok tt
  unfolding publish_batch write_messages
  publish_batch-ok es w =
      let (ms, fine) = to_kafka_all-ok es in ground (arith, fine, calm.kafka w.kafka_calls)

  -- A batch that decodes is sent whole.
  process_batch-sent :
      (r : EventRecord) (rs : List EventRecord) (w : World)
      → All (Decodes p) (r ∷ rs)
      → (process_batch p (r ∷ rs) w).0
        ≡ ok (record { success_records = entry_ids (r ∷ rs); failed_record_reasons = [] })
  unfolding process_batch publish_decoded published_result
  process_batch-sent r rs w h =
      let (ids, no_failure) = decode_all-ids p (r ∷ rs) [] h in
      ground (arith, ids, no_failure, publish_batch-ok (decode_all p (r ∷ rs) []).0 w)

  account-deletes :
      (limit : ℤ) (rs : List EventRecord) (ids : List ℕ) (w : World)
      → let result : BatchResult = record { success_records = ids; failed_record_reasons = [] } in
        ((account p (events_repository p) limit rs result w).0 ≡ ok (length rs))
        × ((account p (events_repository p) limit rs result w).1.product_events
            ≡ deleted ids w.product_events)
  unfolding account handle_all events_repository delete_batch
  account-deletes limit rs ids w = (
    ground (arith, visit_none p calm.range, calm.database w.calls),
    ground (arith, visit_none p calm.range, calm.database w.calls),
  )

  get_pending-calm :
      (size : ℕ) (w : World)
      → get_pending p size w ≡ (ok (pending same_key key_before size w.product_events), counted w)
  unfolding get_pending
  get_pending-calm size w = ground (arith, calm.database w.calls, calm.whole w.calls)

  process_and_account-drains :
      (limit : ℤ) (r : EventRecord) (rs : List EventRecord) (w : World)
      → All (Decodes p) (r ∷ rs)
      → let run = process_and_account p (events_repository p) (process_batch p) limit (r ∷ rs) w in
        (run.0 ≡ ok (length (r ∷ rs)))
        × (run.1.product_events ≡ deleted (entry_ids (r ∷ rs)) w.product_events)
  unfolding process_and_account
  process_and_account-drains limit r rs w h =
      let w₁ = (process_batch p (r ∷ rs) w).1 in
      let sent = process_batch-sent r rs w h in
      let (done, left) = account-deletes limit (r ∷ rs) (entry_ids (r ∷ rs)) w₁ in
      let kept : w₁.product_events ≡ w.product_events =
        (process_batch-IsHandedOver p 0 (r ∷ rs) w w₁ _ (ap (λ q. (q, w₁)) sent)).1 in
      (ground (arith, sent, done), ground (arith, sent, left, kept))

  -- The tick, by what there is to send.
  tick-sends :
      (size : ℕ) (limit : ℤ) (w : World) (records : List EventRecord)
      → pending same_key key_before size w.product_events ≡ records
      → tick_product_events p size limit w
        ≡ process_and_account p (events_repository p) (process_batch p) limit records (counted w)
  unfolding tick_product_events tick events_repository
  tick-sends size limit w records e = ground (arith, get_pending-calm size w, e)

  -- A tick takes one live record out of the outbox at least, if there is one; what is left decodes.
  pub tick_product_events_drains :
      (size : ℕ) (limit : ℤ) (w : World)
      → All (Decodes p) w.product_events
      → let (r, w') = tick_product_events p (suc size) limit w in
        ((n : ℕ) × (r ≡ ok n))
        × All (Decodes p) w'.product_events
        × (length (live w'.product_events) ≤ length (live w.product_events) - 1)
  unfolding process_and_account
  tick_product_events_drains size limit w h = by_live (live w.product_events) refl
    where
      by_live :
          (alive : List EventRecord)
          → live w.product_events ≡ alive
          → let (r, w') = tick_product_events p (suc size) limit w in
            ((n : ℕ) × (r ≡ ok n))
            × All (Decodes p) w'.product_events
            × (length (live w'.product_events) ≤ length (live w.product_events) - 1)
      by_live [] none_live =
          let empty = pending_none same_key key_before (suc size) w.product_events none_live in
          rw (tick-sends (suc size) limit w [] empty) ((0, refl), h, rw none_live (omega arith))
      by_live (e ∷ more) some_live =
          let (r, rs, is, among) =
            pending-some same_key key_before size w.product_events e more some_live in
          let good : All (Decodes p) (r ∷ rs) =
            subst (All (Decodes p)) is
              (All-pending same_key key_before (Decodes p) (suc size) w.product_events h) in
          let (done, left) = process_and_account-drains limit r rs (counted w) good in
          let fewer =
            live-deleted_lt r.record_id (entry_ids (r ∷ rs)) w.product_events (ground arith)
              among in
          rw (tick-sends (suc size) limit w (r ∷ rs) is) (
            (length (r ∷ rs), done),
            rw left (All-deleted (Decodes p) (entry_ids (r ∷ rs)) w.product_events h),
            rw left (omega (arith, fewer)),
          )
