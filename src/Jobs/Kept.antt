-- ===== src/Jobs/Kept.antt =====
-- Which records of the outbox of product events a tick leaves there.
use marketplace_simulator_pr.Common.{
  ℕ, ◌≡◌, refl, ◌∙◌, true, false, List, [], ◌∷◌, arith, inl, inr, Bool-cases, contains, ◌==◌, Map,
  keys, ==→eq, length,
}
use marketplace_simulator_pr.Common.Int.{ℤ}
use marketplace_simulator_pr.Errors.{Message, Result-cases}
use marketplace_simulator_pr.Models.{Entry, EventRecord}
use marketplace_simulator_pr.Store.World.{World, Platform, M, ◌>>=◌, ◌>>◌, pure}
use marketplace_simulator_pr.Store.Outbox.{deleted, retried, buried}
use marketplace_simulator_pr.Store.Outbox.ProductEvents.{
  delete_batch, increment_retry, mark_dead_letter,
}
use marketplace_simulator_pr.Cache.Redis.{logged}
use marketplace_simulator_pr.Jobs.Batch.{
  BatchResult, by_id, handle_failed, handle_all, account, reason_of, is_last_try, retry_count_of,
}
use marketplace_simulator_pr.Jobs.ProductEvents.{events_repository}

abbrev pub record_ids : {A : Type 0} → List (Entry A) → List ℕ
record_ids [] = []
record_ids (e ∷ es) = e.record_id ∷ record_ids es

record_ids-retried :
    {A : Type 0} (id : ℕ) (es : List (Entry A)) → record_ids (retried id es) ≡ record_ids es
unfolding retried
record_ids-retried id [] = refl
record_ids-retried id (e ∷ es) = ground (arith, record_ids-retried id es)

record_ids-buried :
    {A : Type 0} (now id : ℕ) (reason : Message) (es : List (Entry A))
    → record_ids (buried now id reason es) ≡ record_ids es
unfolding buried
record_ids-buried now id reason [] = refl
record_ids-buried now id reason (e ∷ es) = ground (arith, record_ids-buried now id reason es)

contains-deleted :
    {A : Type 0} (k : ℕ) (ids : List ℕ) (es : List (Entry A))
    → contains k (record_ids es) ≡ true
    → contains k ids ≡ false
    → contains k (record_ids (deleted ids es)) ≡ true
unfolding deleted
contains-deleted k ids [] h g = h
contains-deleted k ids (e ∷ es) h g = elim (Bool-cases (k == e.record_id)) [
  | inl here ↦
      let same : k ≡ e.record_id = ==→eq k e.record_id here in
      let stays : contains e.record_id ids ≡ false = rw (← same) g in rw (stays, here) refl
  | inr later ↦ ground (arith, contains-deleted k ids es)
]

-- Record `k` is in the outbox.
abbrev pub IsKept : ℕ → World → Type 0
IsKept k w = contains k (record_ids w.product_events) ≡ true

-- A call after which record `k`, unless it is one of `done`, is still there if it was, and the
-- messages handed over are as they were.
abbrev pub Keeps : {A : Type 0} → ℕ → List ℕ → M A → Type 0
Keeps k done m =
    (w : World)
    → (contains k done ≡ false → IsKept k w → IsKept k (m w).1)
      × ((m w).1.handed_over ≡ w.handed_over)

bind-Keeps :
    {A : Type 0} {B : Type 0} (k : ℕ) (done : List ℕ) (m : M A) (f : A → M B)
    → Keeps k done m
    → ((a : A) → Keeps k done (f a))
    → Keeps k done (m >>= f)
bind-Keeps k done m f h g w = elim (Result-cases (m w).0) [
  | inl (a, r) ↦
      rw (r, ◌>>=◌) (λ out kept. (g a (m w).1).0 out ((h w).0 out kept), (g a (m w).1).1 ∙ (h w).1)
  | inr (x, r) ↦ rw (r, ◌>>=◌) (h w)
]

module _ (p : Platform) (k : ℕ) (done : List ℕ) where
  mark_dead_letter-Keeps :
      (id : ℕ) (reason : Message) → Keeps k done (logged (mark_dead_letter p id reason))
  unfolding mark_dead_letter
  mark_dead_letter-Keeps id reason w =
      (λ out kept. ground (arith, record_ids-buried w.now id reason w.product_events), ground arith)

  increment_retry-Keeps : (id : ℕ) → Keeps k done (logged (increment_retry p id))
  unfolding increment_retry
  increment_retry-Keeps id w =
      (λ out kept. ground (arith, record_ids-retried id w.product_events), ground arith)

  delete_batch-Keeps : Keeps k done (logged (delete_batch p done))
  unfolding delete_batch
  delete_batch-Keeps w =
      (λ out kept. ground (arith, contains-deleted k done w.product_events), ground arith)

  handle_failed-Keeps :
      (limit : ℤ) (records : Map EventRecord) (reasons : Map Message) (id : ℕ)
      → Keeps k done (handle_failed (events_repository p) limit records reasons id)
  unfolding handle_failed events_repository
  handle_failed-Keeps limit records reasons id w =
      elim (Bool-cases (is_last_try limit (retry_count_of id records))) [
        | inl last ↦ rw last (mark_dead_letter-Keeps id (reason_of id reasons) w)
        | inr more ↦ rw more (increment_retry-Keeps id w)
      ]

  handle_all-Keeps :
      (limit : ℤ) (records : Map EventRecord) (reasons : Map Message) (ids : List ℕ)
      → Keeps k done (handle_all (events_repository p) limit records reasons ids)
  unfolding handle_all
  handle_all-Keeps limit records reasons [] = λ w. (λ out kept. kept, refl)
  handle_all-Keeps limit records reasons (id ∷ ids) =
      bind-Keeps k done (handle_failed (events_repository p) limit records reasons id)
        (λ _. handle_all (events_repository p) limit records reasons ids)
        (handle_failed-Keeps limit records reasons id)
        λ _. handle_all-Keeps limit records reasons ids

  pub account-Keeps :
      (limit : ℤ) (records : List EventRecord) (result : BatchResult)
      → done ≡ result.success_records
      → Keeps k done (account p (events_repository p) limit records result)
  unfolding account events_repository
  account-Keeps limit records result all =
      let repo = events_repository p in
      let reasons = result.failed_record_reasons in
      bind-Keeps k done
        (handle_all repo limit (by_id records []) reasons (p.visit 4 (keys reasons)))
        (λ _. logged (delete_batch p result.success_records) >> pure (length records))
        (handle_all-Keeps limit (by_id records []) reasons (p.visit 4 (keys reasons)))
        λ _.
          bind-Keeps k done (logged (delete_batch p result.success_records))
            (λ _. pure (length records)) (rw (← all) delete_batch-Keeps)
            λ _ w. (λ out kept. kept, refl)
