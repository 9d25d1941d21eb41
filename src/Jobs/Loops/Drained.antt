-- ===== src/Jobs/Loops/Drained.antt =====
-- Where nothing fails, the loop of the product event job empties the outbox.
use marketplace_simulator_pr.Common.{
  ℕ, suc, ◌-◌, ◌≤◌, ◌≡◌, refl, ap, String, true, false, Option, List, [], ◌∷◌, arith, length, All,
}
use marketplace_simulator_pr.Common.Int.{ℤ, pos}
use marketplace_simulator_pr.Errors.{ok}
use marketplace_simulator_pr.Config.{OutboxConfig}
use marketplace_simulator_pr.Models.{EventRecord}
use marketplace_simulator_pr.Store.World.{World, Platform}
use marketplace_simulator_pr.Store.Outbox.Pending.{live}
use marketplace_simulator_pr.Jobs.ProductEvents.{tick_product_events}
use marketplace_simulator_pr.Jobs.Drained.{IsCalm, Decodes, tick_product_events_drains}
use marketplace_simulator_pr.Jobs.Loops.{
  Round, to_int32, signed_tick, outbox_interval, run_outbox, run_product_events,
}

-- A round that ticks, with a batch of one record at least.
abbrev pub IsActive : Round OutboxConfig → Type 0
IsActive r =
    (r.stopped ≡ false)
    × (r.config.enabled ≡ true)
    × (size : ℕ) × (r.config.batch_size ≡ pos (suc size))

-- A round that ticks without a panic, and the rounds after it.
run_outbox-round :
    (parse : String → Option ℤ) (p : Platform) (r : Round OutboxConfig)
    (rs : List (Round OutboxConfig)) (last n : ℕ) (w : World) (waits : List ℤ)
    → (active : IsActive r)
    → let run = tick_product_events p (suc active.2) (to_int32 r.config.max_retries) w in
      (run.0 ≡ ok n)
      → (run_outbox parse (signed_tick p (tick_product_events p)) rs n run.1).0 ≡ ok waits
      → run_outbox parse (signed_tick p (tick_product_events p)) (r ∷ rs) last w ≡ (
        ok (outbox_interval parse r.config last ∷ waits),
        (run_outbox parse (signed_tick p (tick_product_events p)) rs n run.1).1,
      )
unfolding run_outbox signed_tick
run_outbox-round parse p r rs last n w waits (going, on, size, batch) fine rest =
    ground (arith, going, on, batch, fine, rest)

module _ (parse : String → Option ℤ) (p : Platform) (calm : IsCalm p) where
  run_outbox_drains :
      (rounds : List (Round OutboxConfig)) (last : ℕ) (w : World)
      → All IsActive rounds
      → All (Decodes p) w.product_events
      → let (r, w') = run_outbox parse (signed_tick p (tick_product_events p)) rounds last w in
        ((waits : List ℤ) × (r ≡ ok waits) × (length waits ≡ length rounds))
        × (length (live w'.product_events) ≤ length (live w.product_events) - length rounds)
  unfolding run_outbox
  run_outbox_drains [] last w active h = (([], refl, refl), omega arith)
  run_outbox_drains (r ∷ rs) last w (now, active) h =
      let (going, on, size, batch) = now in
      let limit = to_int32 r.config.max_retries in
      let run = tick_product_events p (suc size) limit w in
      let ((n, fine), good, fewer) = tick_product_events_drains p calm size limit w h in
      let ((waits, rest, all), left) = run_outbox_drains rs n run.1 active good in
      rw (run_outbox-round parse p r rs last n w waits now fine rest) (
        (outbox_interval parse r.config last ∷ waits, refl, ap suc all),
        omega (arith, fewer, left),
      )

  -- The outbox empties. On a platform where no call of the database or of Kafka fails and every
  -- body of a message has a text, and from an outbox whose records decode: as many rounds as there
  -- are live records, or more, each one switched on and with a batch of one record at least, run
  -- to their end and leave no live record.
  pub run_product_events_drains :
      (rounds : List (Round OutboxConfig)) (w : World)
      → All IsActive rounds
      → All (Decodes p) w.product_events
      → length (live w.product_events) ≤ length rounds
      → let (r, w') = run_product_events parse p rounds w in
        ((waits : List ℤ) × (r ≡ ok waits) × (length waits ≡ length rounds))
        × (live w'.product_events ≡ [])
  unfolding run_product_events
  run_product_events_drains rounds w active h enough =
      let (ended, left) = run_outbox_drains rounds 0 w active h in
      (ended, length_zero _ (omega (arith, left, enough)))
    where
      length_zero : (es : List EventRecord) → length es ≤ 0 → es ≡ []
      length_zero [] h = refl
      length_zero (e ∷ es) h = absurd (omega arith)
