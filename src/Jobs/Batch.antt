-- ===== src/Jobs/Batch.antt =====
-- What the ticks of product_events_outbox.go and cache_update_outbox.go have in common: the batch's
-- result, and what becomes of the records of the batch.
use marketplace_simulator_pr.Common.{
  ℕ, ◌+◌, ◌-◌, ◌%◌, ◌^◌, Bool, none, some, List, [], ◌∷◌, ltb, not, if◌then◌else◌, Map, lookup,
  insert, keys, length,
}
use marketplace_simulator_pr.Common.Int.{ℤ, pos, negsuc, ltb_ℤ}
use marketplace_simulator_pr.Errors.{Message, ok, err}
use marketplace_simulator_pr.Models.{Entry}
use marketplace_simulator_pr.Store.World.{Platform, M, ◌>>=◌, ◌>>◌, pure}
use marketplace_simulator_pr.Cache.Redis.{logged}

-- `ProcessBatchResult`
pub record BatchResult : Type 0 where
  pub success_records : List ℕ
  pub failed_record_reasons : Map Message

-- The operations of an outbox's repository that a job uses: `OutboxRepository` of each job.
pub record OutboxRepository (A : Type 0) : Type 0 where
  pub get_pending : ℕ → M (List (Entry A))
  pub delete_batch : List ℕ → M (Unit {0})
  pub increment_retry : ℕ → M (Unit {0})
  pub mark_dead_letter : ℕ → Message → M (Unit {0})

-- `int32(n)`
abbrev pub as_int32 : ℕ → ℤ
as_int32 n = let m = n % (2 ^ 32) in if ltb m (2 ^ 31) then pos m else negsuc (2 ^ 32 - m - 1)

-- `record.RetryCount+1 >= maxRetryCount`
abbrev pub is_last_try : ℤ → ℕ → Bool
is_last_try limit retry_count = not (ltb_ℤ (as_int32 (retry_count + 1)) limit)

abbrev pub reason_of : ℕ → Map Message → Message
reason_of id reasons = elim (lookup id reasons) [ none ↦ [] | some reason ↦ reason ]

module _ {A : Type 0} where
  -- `outboxRecordsMap`
  unfoldable pub by_id : List (Entry A) → Map (Entry A) → Map (Entry A)
  by_id [] m = m
  by_id (e ∷ es) m = by_id es (insert e.record_id e m)

  -- A missing key reads as the zero record.
  abbrev pub retry_count_of : ℕ → Map (Entry A) → ℕ
  retry_count_of id m = elim (lookup id m) [ none ↦ 0 | some e ↦ e.retry_count ]

  module _ (repo : OutboxRepository A) (limit : ℤ) (records : Map (Entry A))
      (reasons : Map Message) where
    -- One round of the loop over the failed records.
    unfoldable pub handle_failed : ℕ → M (Unit {0})
    handle_failed id =
        if is_last_try limit (retry_count_of id records)
        then logged (repo.mark_dead_letter id (reason_of id reasons))
        else logged (repo.increment_retry id)

    unfoldable pub handle_all : List ℕ → M (Unit {0})
    unfolding handle_failed
    handle_all [] = pure tt
    handle_all (id ∷ ids) = handle_failed id >> handle_all ids

  -- The tick from the point where the batch was processed.
  unfoldable pub account : Platform → OutboxRepository A → ℤ → List (Entry A) → BatchResult → M ℕ
  unfolding handle_all by_id
  account p repo limit records result =
      handle_all repo limit (by_id records []) result.failed_record_reasons
        (p.visit 4 (keys result.failed_record_reasons))
      >> (logged (repo.delete_batch result.success_records) >> pure (length records))

  unfoldable pub process_and_account :
      Platform → OutboxRepository A → (List (Entry A) → M BatchResult) → ℤ → List (Entry A) → M ℕ
  unfolding account
  process_and_account p repo process limit [] = pure 0
  process_and_account p repo process limit (e ∷ es) =
      process (e ∷ es) >>= account p repo limit (e ∷ es)

  -- `tick`: what it returns is how many records it had; an error of the repository is logged.
  unfoldable pub tick :
      Platform → OutboxRepository A → (List (Entry A) → M BatchResult) → ℕ → ℤ → M ℕ
  unfolding process_and_account
  tick p repo process batch_size limit w =
      let (r, w') = repo.get_pending batch_size w in
      elim r [
        | ok records ↦ process_and_account p repo process limit records w'
        | err e ↦ (ok 0, w')
      ]
