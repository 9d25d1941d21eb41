-- ===== src/History/Untouched.antt =====
-- The ticks of the outbox jobs and the reads touch neither products nor reservations.
use marketplace_simulator_pr.Common.{
  ℕ, ◌≡◌, refl, ◌∙◌, ap, Option, none, some, List, [], ◌∷◌, arith, Bool, true, false, Bool-cases,
  inl, inr, Map, insert, keys, length,
}
use marketplace_simulator_pr.Common.Int.{ℤ}
use marketplace_simulator_pr.Errors.{Message, error_text, Result-cases}
use marketplace_simulator_pr.Models.{Product, Entry, EventRecord, CacheUpdateRecord}
use marketplace_simulator_pr.Store.World.{World, Tables, Platform, M, pure, ◌>>=◌, ◌>>◌}
use marketplace_simulator_pr.Store.Outbox.ProductEvents
use marketplace_simulator_pr.Store.Outbox.CacheUpdates
use marketplace_simulator_pr.Usecases.Repository.{ReadProductRepository}
use marketplace_simulator_pr.Usecases.Atomic.{IsReadOnly, ReadsOnly}
use marketplace_simulator_pr.Cache.Redis.{Json, logged, cache_set, client_set}
use marketplace_simulator_pr.Kafka.{publish_batch, write_messages}
use marketplace_simulator_pr.Jobs.Batch.{
  BatchResult, OutboxRepository, by_id, is_last_try, retry_count_of, reason_of, handle_failed,
  handle_all, account, process_and_account, tick,
}
use marketplace_simulator_pr.Jobs.ProductEvents.{
  events_repository, process_batch, publish_decoded, tick_product_events,
}
use marketplace_simulator_pr.Jobs.CacheUpdates.{
  updates_repository, succeed, set_found, refresh_all, tick_cache_updates,
}

abbrev pub KeepsStock : {A : Type 0} → M A → Type 0
KeepsStock m =
    (w : World) → ((m w).1.products ≡ w.products) × ((m w).1.reservations ≡ w.reservations)

pub IsReadOnly-KeepsStock : {A : Type 0} (m : M A) → IsReadOnly m → KeepsStock m
IsReadOnly-KeepsStock m h w =
    (ap (λ (t : Tables). t.products) (h w), ap (λ (t : Tables). t.reservations) (h w))

bind-KeepsStock :
    {A : Type 0} {B : Type 0} (m : M A) (f : A → M B)
    → KeepsStock m
    → ((a : A) → KeepsStock (f a))
    → KeepsStock (m >>= f)
bind-KeepsStock m f h k w = elim (Result-cases (m w).0) [
  | inl (a, r) ↦ rw (r, ◌>>=◌) ((k a (m w).1).0 ∙ (h w).0, (k a (m w).1).1 ∙ (h w).1)
  | inr (x, r) ↦ rw (r, ◌>>=◌) (h w)
]

-- A repository of an outbox that leaves the stock alone.
record OutboxOnly {A : Type 0} (repo : OutboxRepository A) : Type 0 where
  pending : (n : ℕ) → KeepsStock (repo.get_pending n)
  delete : (ids : List ℕ) → KeepsStock (repo.delete_batch ids)
  retry : (id : ℕ) → KeepsStock (repo.increment_retry id)
  bury : (id : ℕ) (reason : Message) → KeepsStock (repo.mark_dead_letter id reason)

module _ {A : Type 0} (p : Platform) (repo : OutboxRepository A) (only : OutboxOnly repo)
    (process : List (Entry A) → M BatchResult)
    (keeps : (records : List (Entry A)) → KeepsStock (process records)) where
  handle_failed-KeepsStock :
      (limit : ℤ) (records : Map (Entry A)) (reasons : Map Message) (id : ℕ)
      → KeepsStock (handle_failed repo limit records reasons id)
  unfolding handle_failed
  handle_failed-KeepsStock limit records reasons id w =
      elim (Bool-cases (is_last_try limit (retry_count_of id records))) [
        | inl last ↦ rw last (only.bury id (reason_of id reasons) w)
        | inr more ↦ rw more (only.retry id w)
      ]

  handle_all-KeepsStock :
      (limit : ℤ) (records : Map (Entry A)) (reasons : Map Message) (ids : List ℕ)
      → KeepsStock (handle_all repo limit records reasons ids)
  unfolding handle_all
  handle_all-KeepsStock limit records reasons [] = λ w. (refl, refl)
  handle_all-KeepsStock limit records reasons (id ∷ ids) =
      bind-KeepsStock (handle_failed repo limit records reasons id)
        (λ _. handle_all repo limit records reasons ids)
        (handle_failed-KeepsStock limit records reasons id)
        λ _. handle_all-KeepsStock limit records reasons ids

  account-KeepsStock :
      (limit : ℤ) (records : List (Entry A)) (result : BatchResult)
      → KeepsStock (account p repo limit records result)
  unfolding account
  account-KeepsStock limit records result =
      let reasons = result.failed_record_reasons in
      let ids = p.visit 4 (keys reasons) in
      bind-KeepsStock (handle_all repo limit (by_id records []) reasons ids)
        (λ _. logged (repo.delete_batch result.success_records) >> pure (length records))
        (handle_all-KeepsStock limit (by_id records []) reasons ids)
        λ _.
          bind-KeepsStock (logged (repo.delete_batch result.success_records))
            (λ _. pure (length records)) (λ w. only.delete result.success_records w)
            λ _ w. (refl, refl)

  process_and_account-KeepsStock :
      (limit : ℤ) (records : List (Entry A))
      → KeepsStock (process_and_account p repo process limit records)
  unfolding process_and_account
  process_and_account-KeepsStock limit [] = λ w. (refl, refl)
  process_and_account-KeepsStock limit (e ∷ es) =
      bind-KeepsStock (process (e ∷ es)) (account p repo limit (e ∷ es)) (keeps (e ∷ es))
        (account-KeepsStock limit (e ∷ es))

  tick-KeepsStock : (size : ℕ) (limit : ℤ) → KeepsStock (tick p repo process size limit)
  unfolding tick
  tick-KeepsStock size limit w = elim (Result-cases (repo.get_pending size w).0) [
    | inl (records, read) ↦
        let before = only.pending size w in
        let after = process_and_account-KeepsStock limit records (repo.get_pending size w).1 in
        rw (read, tick) (after.0 ∙ before.0, after.1 ∙ before.1)
    | inr (e, failed) ↦ rw (failed, tick) (only.pending size w)
  ]

module _ (p : Platform) where
  events_repository-OutboxOnly : OutboxOnly (events_repository p)
  unfolding events_repository ProductEvents.get_pending ProductEvents.delete_batch
      ProductEvents.increment_retry ProductEvents.mark_dead_letter
  events_repository-OutboxOnly = record {
    pending = λ n w. ground arith;
    delete = λ ids w. ground arith;
    retry = λ id w. ground arith;
    bury = λ id reason w. ground arith;
  }

  process_batch-KeepsStock : (records : List EventRecord) → KeepsStock (process_batch p records)
  unfolding process_batch publish_decoded publish_batch write_messages
  process_batch-KeepsStock records w = ground arith

  pub tick_product_events-KeepsStock :
      (size : ℕ) (limit : ℤ) → KeepsStock (tick_product_events p size limit)
  unfolding tick_product_events
  tick_product_events-KeepsStock =
      tick-KeepsStock p (events_repository p) events_repository-OutboxOnly (process_batch p)
        process_batch-KeepsStock

  updates_repository-OutboxOnly : OutboxOnly (updates_repository p)
  unfolding updates_repository CacheUpdates.get_pending CacheUpdates.delete_batch
      CacheUpdates.increment_retry CacheUpdates.mark_dead_letter
  updates_repository-OutboxOnly = record {
    pending = λ n w. ground arith;
    delete = λ ids w. ground arith;
    retry = λ id w. ground arith;
    bury = λ id reason w. ground arith;
  }

  set_found-KeepsStock :
      (json : Json) (has_cache : Bool) (found : Option Product)
      → KeepsStock (set_found p json has_cache found)
  unfolding cache_set client_set
  set_found-KeepsStock json true (some x) w = ground arith
  set_found-KeepsStock json false (some x) w = (refl, refl)
  set_found-KeepsStock json true none w = (refl, refl)
  set_found-KeepsStock json false none w = (refl, refl)

  module _ (json : Json) (has_cache : Bool) (repo : ReadProductRepository)
      (reads : ReadsOnly repo) where
    refresh_all-KeepsStock :
        (records : List CacheUpdateRecord) (failed : Map Message)
        → KeepsStock (refresh_all p json has_cache repo records failed)
    unfolding refresh_all
    refresh_all-KeepsStock [] failed = λ w. (refl, refl)
    refresh_all-KeepsStock (r ∷ rs) failed = λ w.
        let w₁ = (repo.get_by_sku r.body none w).1 in
        let read =
          IsReadOnly-KeepsStock (repo.get_by_sku r.body none) (reads.by_sku r.body none) w in
        elim (Result-cases (repo.get_by_sku r.body none w).0) [
          | inl (found, e) ↦
              let after =
                bind-KeepsStock (set_found p json has_cache found)
                  (λ _. refresh_all p json has_cache repo rs failed >>= λ result.
                    pure (succeed r.record_id result))
                  (set_found-KeepsStock json has_cache found)
                  (λ _.
                    bind-KeepsStock (refresh_all p json has_cache repo rs failed)
                      (λ result. pure (succeed r.record_id result))
                      (refresh_all-KeepsStock rs failed) λ result w. (refl, refl))
                  w₁ in
              rw (e, refresh_all) (after.0 ∙ read.0, after.1 ∙ read.1)
          | inr (x, e) ↦
              let after = refresh_all-KeepsStock rs (insert r.record_id (error_text x) failed) w₁ in
              rw (e, refresh_all) (after.0 ∙ read.0, after.1 ∙ read.1)
        ]

    pub tick_cache_updates-KeepsStock :
        (size : ℕ) (limit : ℤ) → KeepsStock (tick_cache_updates p json has_cache repo size limit)
    unfolding tick_cache_updates
    tick_cache_updates-KeepsStock =
        tick-KeepsStock p (updates_repository p) updates_repository-OutboxOnly
          (λ records. refresh_all p json has_cache repo records [])
          λ records. refresh_all-KeepsStock records []
