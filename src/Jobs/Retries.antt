-- ===== src/Jobs/Retries.antt =====
-- What becomes of the records that a tick of the product event job could not send.
use marketplace_simulator_pr.Common.{
  ℕ, ◌+◌, ◌≡◌, refl, ◌∙◌, ap, Bool, true, false, Option, none, some, List, [], ◌∷◌, arith, inl, inr,
  Bool-cases, contains, ◌==◌, if◌then◌else◌, Map, ==→eq, Distinct, ltb, ◌%◌, ◌<◌, ◌^◌, leb, lookup,
  insert, lookup-insert,
}
use mathlib.Core.Option
use marketplace_simulator_pr.Common.Int.{pos}
use marketplace_simulator_pr.Errors.{Message}
use marketplace_simulator_pr.Models.{EventRecord}
use marketplace_simulator_pr.Store.World.{World, Platform}
use marketplace_simulator_pr.Store.Outbox.Pending.{entry_ids}
use marketplace_simulator_pr.Jobs.Batch.{handle_all, reason_of, is_last_try, retry_count_of, by_id}
use marketplace_simulator_pr.Jobs.ProductEvents.{events_repository}
use marketplace_simulator_pr.Jobs.Failures.{find_entry, after_failure, handle_all_lem}

by_id-absent :
    (k : ℕ) (es : List EventRecord) (m : Map EventRecord)
    → contains k (entry_ids es) ≡ false
    → lookup k (by_id es m) ≡ lookup k m
unfolding by_id
by_id-absent k [] m h = refl
by_id-absent k (e ∷ es) m h =
    by_id-absent k es (insert e.record_id e m) (ground arith)
    ∙ lookup-insert k e.record_id e m
    ∙ ground arith

by_id-find_entry :
    (k : ℕ) (es : List EventRecord) (m : Map EventRecord) (e : EventRecord)
    → Distinct (entry_ids es)
    → find_entry k es ≡ some e
    → lookup k (by_id es m) ≡ some e
unfolding by_id
by_id-find_entry k [] m e d h = absurd (ground arith)
by_id-find_entry k (f ∷ es) m e d h = elim (Bool-cases (k == f.record_id)) [
  | inl here ↦
      let is : k ≡ f.record_id = ==→eq k f.record_id here in
      let later : contains k (entry_ids es) ≡ false = rw is d.0 in
      by_id-absent k es (insert f.record_id f m) later
      ∙ lookup-insert k f.record_id f m
      ∙ ground arith
  | inr other ↦ by_id-find_entry k es (insert f.record_id f m) e d.1 (ground arith)
]

is_last_try_lem : (m n : ℕ) → n + 1 < 2 ^ 31 → is_last_try (pos m) n ≡ leb m (n + 1)
is_last_try_lem m n small =
    let whole : (n + 1) % (2 ^ 32) ≡ n + 1 = omega (arith, small) in
    let positive : ltb (n + 1) (2 ^ 31) ≡ true = ground (arith, small) in
    rw (whole, positive) (ground arith)

reason_of_lem :
    (k : ℕ) (reasons : Map Message) (reason : Message)
    → lookup k reasons ≡ some reason
    → reason_of k reasons ≡ reason
reason_of_lem k reasons reason why = ground (arith, why)

marked :
    (now : ℕ) (reasons : Map Message) (k : ℕ) (ids : List ℕ) (last dead : Bool)
    (o : Option EventRecord) (stored : EventRecord) (reason : Message)
    → last ≡ dead
    → contains k ids ≡ true
    → lookup k reasons ≡ some reason
    → o ≡ some stored
    → stored.retry_count + 1 < 2 ^ 31
    → Option.map (after_failure now (reason_of k reasons) (contains k ids) last) o
      ≡ some (
          if dead
          then (record stored {
            is_dead_letter = true;
            marked_as_dead_letter_at = some now;
            dead_letter_reason = some reason;
          })
          else (record stored { retry_count = stored.retry_count + 1 }))
marked now reasons k ids true dead o stored reason is failed why there small =
    rw (failed, reason_of_lem k reasons reason why, there, ← is) refl
marked now reasons k ids false dead o stored reason is failed why there small =
    let counts : ltb (stored.retry_count + 1) (2 ^ 31) ≡ true = ground (arith, small) in
    rw (failed, reason_of_lem k reasons reason why, there, ← is, counts) refl

unmarked :
    (now : ℕ) (reason : Message) (failed last : Bool) (o : Option EventRecord)
    → failed ≡ false
    → Option.map (after_failure now reason failed last) o ≡ o
unmarked now reason failed last none is = refl
unmarked now reason failed last (some e) is = rw is refl

-- The loop over the records of a batch that failed. The batch has distinct ids, the loop meets
-- each id once, the limit is `m`, and the database answers. Record `k` of the batch is among those
-- that failed, with a reason, and it had `e.retry_count` tries before, few enough for an `int32`:
-- where this try makes them `m` or more, it becomes a dead letter with that reason, at the time of
-- the tick, and otherwise it has one more try counted, if that fits an `int32`. A record `j` that
-- did not fail is as it was.
pub handle_all_marks :
    (p : Platform) (m : ℕ) (batch : List EventRecord) (reasons : Map Message) (ids : List ℕ)
    (k j : ℕ) (e stored : EventRecord) (reason : Message) (w : World)
    → ((n : ℕ) → p.fault n ≡ none)
    → Distinct (entry_ids batch)
    → Distinct ids
    → find_entry k batch ≡ some e
    → e.retry_count + 1 < 2 ^ 31
    → lookup k reasons ≡ some reason
    → contains k ids ≡ true
    → contains j ids ≡ false
    → find_entry k w.product_events ≡ some stored
    → stored.retry_count + 1 < 2 ^ 31
    → let w' = (handle_all (events_repository p) (pos m) (by_id batch []) reasons ids w).1 in
      (find_entry k w'.product_events
        ≡ some (
            if leb m (e.retry_count + 1)
            then (record stored {
              is_dead_letter = true;
              marked_as_dead_letter_at = some w.now;
              dead_letter_reason = some reason;
            })
            else (record stored { retry_count = stored.retry_count + 1 })))
      × (find_entry j w'.product_events ≡ find_entry j w.product_events)
handle_all_marks p m batch reasons ids k j e stored reason w calm db di there small why failed fine
      kept room =
    let records = by_id batch [] in
    let found = by_id-find_entry k batch [] e db there in
    let last : is_last_try (pos m) (retry_count_of k records) ≡ leb m (e.retry_count + 1) =
      ap (λ o. is_last_try (pos m) (elim o [ none ↦ 0 | some f ↦ f.retry_count ])) found
      ∙ is_last_try_lem m e.retry_count small in
    (
      handle_all_lem p calm (pos m) records reasons ids k w di
          ∙ marked w.now reasons k ids (is_last_try (pos m) (retry_count_of k records))
              (leb m (e.retry_count + 1)) (find_entry k w.product_events) stored reason last failed
              why kept room,
      handle_all_lem p calm (pos m) records reasons ids j w di
          ∙ unmarked w.now (reason_of j reasons) (contains j ids)
              (is_last_try (pos m) (retry_count_of j records)) (find_entry j w.product_events) fine,
    )
