-- ===== src/Jobs/Failures.antt =====
-- What the loop over the failed records of a tick does to each record of the outbox.
use marketplace_simulator_pr.Common.{
  ℕ, ◌≡◌, refl, sym, ◌∙◌, ap, Bool, true, false, Option, none, some, List, [], ◌∷◌, arith, inl, inr,
  Bool-cases, contains, ◌==◌, if◌then◌else◌, Map, ==→eq, Distinct,
}
use mathlib.Core.Option
use marketplace_simulator_pr.Common.Int.{ℤ}
use marketplace_simulator_pr.Errors.{Message, ok}
use marketplace_simulator_pr.Models.{Entry, EventRecord}
use marketplace_simulator_pr.Store.World.{World, Platform}
use marketplace_simulator_pr.Store.Outbox.{next_count, retried, buried}
use marketplace_simulator_pr.Store.Outbox.ProductEvents.{increment_retry, mark_dead_letter}
use marketplace_simulator_pr.Cache.Redis.{logged}
use marketplace_simulator_pr.Jobs.Batch.{
  handle_failed, handle_all, reason_of, is_last_try, retry_count_of,
}
use marketplace_simulator_pr.Jobs.ProductEvents.{events_repository}

abbrev pub find_entry : {A : Type 0} → ℕ → List (Entry A) → Option (Entry A)
find_entry k [] = none
find_entry k (e ∷ es) = if k == e.record_id then some e else find_entry k es

-- A record after a failure: a dead letter with the reason where that was the last try, and with one
-- more try behind it otherwise.
abbrev pub failed_entry : {A : Type 0} → ℕ → Message → Bool → Entry A → Entry A
failed_entry now reason true e = record e {
  is_dead_letter = true;
  marked_as_dead_letter_at = some now;
  dead_letter_reason = some reason;
}
failed_entry now reason false e = record e { retry_count = next_count e.retry_count }

abbrev pub after_failure : {A : Type 0} → ℕ → Message → Bool → Bool → Entry A → Entry A
after_failure now reason failed last e = if failed then failed_entry now reason last e else e

find_entry-retried :
    {A : Type 0} (k id now : ℕ) (reason : Message) (es : List (Entry A))
    → find_entry k (retried id es)
      ≡ Option.map (after_failure now reason (k == id) false) (find_entry k es)
unfolding retried
find_entry-retried k id now reason [] = refl
find_entry-retried k id now reason (e ∷ es) =
    ground (arith, find_entry-retried k id now reason es, ==→eq k e.record_id)

find_entry-buried :
    {A : Type 0} (k id now : ℕ) (reason : Message) (es : List (Entry A))
    → find_entry k (buried now id reason es)
      ≡ Option.map (after_failure now reason (k == id) true) (find_entry k es)
unfolding buried
find_entry-buried k id now reason [] = refl
find_entry-buried k id now reason (e ∷ es) =
    ground (arith, find_entry-buried k id now reason es, ==→eq k e.record_id)

module _ (p : Platform) (calm : (n : ℕ) → p.fault n ≡ none) (limit : ℤ) (records : Map EventRecord)
    (reasons : Map Message) where
  mark_dead_letter_lem :
      (id : ℕ) (reason : Message) (w : World)
      → let (r, w') = logged (mark_dead_letter p id reason) w in
        (r ≡ ok tt)
        × (w'.now ≡ w.now)
        × (w'.product_events ≡ buried w.now id reason w.product_events)
  unfolding mark_dead_letter
  mark_dead_letter_lem id reason w =
      (refl, ground (arith, calm w.calls), ground (arith, calm w.calls))

  increment_retry_lem :
      (id : ℕ) (w : World)
      → let (r, w') = logged (increment_retry p id) w in
        (r ≡ ok tt) × (w'.now ≡ w.now) × (w'.product_events ≡ retried id w.product_events)
  unfolding increment_retry
  increment_retry_lem id w = (refl, ground (arith, calm w.calls), ground (arith, calm w.calls))

  handle_failed_lem :
      (id k : ℕ) (w : World)
      → let (r, w') = handle_failed (events_repository p) limit records reasons id w in
        (r ≡ ok tt)
        × (w'.now ≡ w.now)
        × (find_entry k w'.product_events
            ≡ Option.map
                (after_failure w.now
                  (reason_of id reasons)
                  (k == id)
                  (is_last_try limit (retry_count_of id records)))
                (find_entry k w.product_events))
  unfolding handle_failed events_repository
  handle_failed_lem id k w = elim (Bool-cases (is_last_try limit (retry_count_of id records))) [
    | inl last ↦
        let (r, now, events) = mark_dead_letter_lem id (reason_of id reasons) w in
        rw last (
          r,
          now,
          ap (find_entry k) events
              ∙ find_entry-buried k id w.now (reason_of id reasons) w.product_events,
        )
    | inr more ↦
        let (r, now, events) = increment_retry_lem id w in
        rw more (
          r,
          now,
          ap (find_entry k) events
              ∙ find_entry-retried k id w.now (reason_of id reasons) w.product_events,
        )
  ]

  -- No record is met twice.
  once :
      (k id now : ℕ) (ids : List ℕ) (o : Option EventRecord)
      → contains id ids ≡ false
      → Option.map
          (after_failure now
            (reason_of k reasons)
            (contains k ids)
            (is_last_try limit (retry_count_of k records)))
          (Option.map
            (after_failure now
              (reason_of id reasons)
              (k == id)
              (is_last_try limit (retry_count_of id records)))
            o)
        ≡ Option.map
            (after_failure now
              (reason_of k reasons)
              (contains k (id ∷ ids))
              (is_last_try limit (retry_count_of k records)))
            o
  once k id now ids none fresh = refl
  once k id now ids (some e) fresh = elim (Bool-cases (k == id)) [
    | inr other ↦ rw other refl
    | inl here ↦
        let same : id ≡ k = sym (==→eq k id here) in
        let later : contains k ids ≡ false = rw (← same) fresh in rw (here, same, later) refl
  ]

  -- What the loop does to a record.
  pub handle_all_lem :
      (ids : List ℕ) (k : ℕ) (w : World)
      → Distinct ids
      → find_entry k (handle_all (events_repository p) limit records reasons ids w).1.product_events
        ≡ Option.map
            (after_failure w.now
              (reason_of k reasons)
              (contains k ids)
              (is_last_try limit (retry_count_of k records)))
            (find_entry k w.product_events)
  unfolding handle_all
  handle_all_lem [] k w d = ground arith
  handle_all_lem (id ∷ ids) k w d =
      let w₁ = (handle_failed (events_repository p) limit records reasons id w).1 in
      let (r, now, one) = handle_failed_lem id k w in
      let ih = handle_all_lem ids k w₁ d.1 in
      let opened : handle_all (events_repository p) limit records reasons (id ∷ ids) w
          ≡ handle_all (events_repository p) limit records reasons ids w₁ =
        ground (arith, r) in
      ap (λ v. find_entry k v.1.product_events) opened
      ∙ ih
      ∙ ap
          (λ now.
            Option.map
              (after_failure now (reason_of k reasons) (contains k ids)
                (is_last_try limit (retry_count_of k records)))
              (find_entry k w₁.product_events))
          now
      ∙ ap
          (Option.map (
            after_failure w.now (reason_of k reasons) (contains k ids)
              (is_last_try limit (retry_count_of k records))))
          one
      ∙ once k id w.now ids (find_entry k w.product_events) d.0
