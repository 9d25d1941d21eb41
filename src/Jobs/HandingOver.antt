-- ===== src/Jobs/HandingOver.antt =====
-- A record leaves the outbox of product events only after its message was handed over to Kafka.
use marketplace_simulator_pr.Common.{
  ℕ, ◌≡◌, refl, sym, true, false, List, [], ◌∷◌, arith, inl, inr, Bool-cases, contains, subst,
}
use marketplace_simulator_pr.Common.Int.{ℤ}
use marketplace_simulator_pr.Errors.{Result-cases}
use marketplace_simulator_pr.Models.{EventRecord}
use marketplace_simulator_pr.Store.World.{World, Platform}
use marketplace_simulator_pr.Store.Outbox.ProductEvents.{get_pending}
use marketplace_simulator_pr.Jobs.Batch.{process_and_account, tick}
use marketplace_simulator_pr.Jobs.ProductEvents.{
  events_repository, process_batch, tick_product_events,
}
use marketplace_simulator_pr.Jobs.Kept.{record_ids, IsKept, account-Keeps}
use marketplace_simulator_pr.Jobs.HandedOver.{
  IsHandedOver, process_batch-IsHandedOver, process_batch-total,
}

pub get_pending-rows :
    (p : Platform) (limit : ℕ) (w : World)
    → ((get_pending p limit w).1.product_events ≡ w.product_events)
      × ((get_pending p limit w).1.handed_over ≡ w.handed_over)
unfolding get_pending
get_pending-rows p limit w = (ground arith, ground arith)

process_and_account-IsHandedOver :
    (p : Platform) (k : ℕ) (limit : ℤ) (records : List EventRecord) (w : World)
    → IsKept k w
    → contains k (
        record_ids
          (process_and_account p
            (events_repository p)
            (process_batch p)
            limit
            records
            w).1.product_events)
      ≡ false
    → IsHandedOver p k
        (process_and_account p
          (events_repository p)
          (process_batch p)
          limit
          records
          w).1.handed_over
unfolding process_and_account
process_and_account-IsHandedOver p k limit [] w kept gone = absurd (ground arith)
process_and_account-IsHandedOver p k limit (r ∷ rs) w kept gone =
    let (result, done) = process_batch-total p (r ∷ rs) w in
    let w₁ = (process_batch p (r ∷ rs) w).1 in
    let (sent, rows) = process_batch-IsHandedOver p k (r ∷ rs) w w₁ result (ground arith) in
    let counted_in = account-Keeps p k result.success_records limit (r ∷ rs) result refl w₁ in
    elim (Bool-cases (contains k result.success_records)) [
      | inl reported ↦
          let same_messages : (process_and_account p (events_repository p) (process_batch p) limit
                (r ∷ rs) w).1.handed_over
              ≡ w₁.handed_over =
            ground (arith, counted_in.1) in
          subst (IsHandedOver p k) (sym same_messages) (sent reported)
      | inr not_reported ↦ absurd (ground (arith, counted_in.0 not_reported))
    ]

-- Whatever calls fail during a tick, of the database or of Kafka: for a record that was in the
-- outbox of product events before the tick and is not there after it, a message that carries its
-- id, encoded as the producer encodes it, was in a write to Kafka that returned no error.
pub tick_product_events_hands_over :
    (p : Platform) (batch_size : ℕ) (limit : ℤ) (w : World) (k : ℕ)
    → contains k (record_ids w.product_events) ≡ true
    → contains k (record_ids (tick_product_events p batch_size limit w).1.product_events) ≡ false
    → IsHandedOver p k (tick_product_events p batch_size limit w).1.handed_over
unfolding tick_product_events tick events_repository
tick_product_events_hands_over p batch_size limit w k kept gone =
    let w₁ = (get_pending p batch_size w).1 in
    let rows = (get_pending-rows p batch_size w).0 in
    elim (Result-cases (get_pending p batch_size w).0) [
      | inr (e, failed) ↦ absurd (ground (arith, rows))
      | inl (records, read) ↦
          let ran : tick_product_events p batch_size limit w
              ≡ process_and_account p (events_repository p) (process_batch p) limit records w₁ =
            ground arith in
          rw ran
            (process_and_account-IsHandedOver p k limit records w₁ (rw rows kept) (rw ran at gone))
    ]
