-- ===== src/Jobs/Loops.antt =====
-- The loops that run the jobs, `Run` of product_events_outbox.go, cache_update_outbox.go,
-- reservation_expiry.go and outbox_monitor.go. A loop is given its rounds: what the configuration
-- is when it is read, and which branch of the select is taken. It ends with the round that finds
-- the context done, or goes on after the rounds that are given. It returns the intervals that it
-- set out to wait.
pub mod Keeps
pub mod HandingOver
pub mod Drained
use marketplace_simulator_pr.Common.{
  ℕ, ◌-◌, ◌+◌, ◌*◌, ◌%◌, ◌^◌, String, Bool, true, false, Option, none, some, List, [], ◌∷◌, ltb,
  if◌then◌else◌,
}
use marketplace_simulator_pr.Common.Int.{ℤ, pos, negsuc}
use marketplace_simulator_pr.Errors.{ok, err, plain, lit}
use marketplace_simulator_pr.Events.{Headers}
use marketplace_simulator_pr.Config.{OutboxConfig, ReservationExpiryConfig, MonitorConfig}
use marketplace_simulator_pr.Store.World.{World, Platform, M, ◌>>=◌, ◌>>◌, pure, counted}
use marketplace_simulator_pr.Usecases.Repository.{ReadProductRepository}
use marketplace_simulator_pr.Cache.Redis.{Json, logged}
use marketplace_simulator_pr.Jobs.Batch.{as_int32}
use marketplace_simulator_pr.Jobs.ProductEvents.{tick_product_events}
use marketplace_simulator_pr.Jobs.CacheUpdates.{tick_cache_updates}
use marketplace_simulator_pr.Jobs.Expiry.{tick_expiry}
use marketplace_simulator_pr.Jobs.Monitor.{PoolStat, Collector, tick_monitor}

pub record Round (C : Type 0) : Type 0 where
  pub config : C
  pub stopped : Bool  -- the select takes `<-ctx.Done()`

-- Nanoseconds.
abbrev pub millisecond : ℕ
millisecond = 1000000

abbrev pub second : ℕ
second = 1000 * millisecond

-- `int32(n)` of an `int`.
abbrev pub to_int32 : ℤ → ℤ
to_int32 (pos n) = as_int32 n
to_int32 (negsuc n) = as_int32 (2 ^ 32 - 1 - n % 2 ^ 32)

-- The tick of an outbox with a batch size of either sign. With a negative one `GetPending` stops by
-- a panic where it makes room for the records, unless its query fails at once: the tick then
-- returns 0.
unfoldable pub signed_tick : Platform → (ℕ → ℤ → M ℕ) → ℤ → ℤ → M ℕ
signed_tick p tick (pos size) limit = tick size limit
signed_tick p tick (negsuc size) limit = λ w. elim (p.fault w.calls) [
  | some m ↦ (ok 0, counted w)
  | none ↦ (err (plain (lit "makeslice: cap out of range" ∷ [])), counted w)
]

-- `parse` is `time.ParseDuration`.
module _ (parse : String → Option ℤ) where
  abbrev pub duration_or : ℤ → String → ℤ
  duration_or default text = elim (parse text) [ none ↦ default | some d ↦ d ]

  -- What the loop of an outbox waits, after a tick that had `last` records.
  unfoldable pub outbox_interval : OutboxConfig → ℕ → ℤ
  outbox_interval cfg last =
      if ltb 0 last
      then duration_or (pos 0) cfg.active_interval
      else duration_or (pos (100 * millisecond)) cfg.idle_interval

  -- `Run` of the two outbox jobs, after a tick that had `last` records.
  unfoldable pub run_outbox : (ℤ → ℤ → M ℕ) → List (Round OutboxConfig) → ℕ → M (List ℤ)
  unfolding outbox_interval
  run_outbox tick [] last = pure []
  run_outbox tick (r ∷ rs) last = elim r.stopped [
    | true ↦ pure (outbox_interval r.config last ∷ [])
    | false ↦
        (elim r.config.enabled [
          | true ↦ tick r.config.batch_size (to_int32 r.config.max_retries)
          | false ↦ pure 0
        ])
        >>= λ n. run_outbox tick rs n >>= λ waits. pure (outbox_interval r.config last ∷ waits)
  ]

  unfoldable pub run_product_events : Platform → List (Round OutboxConfig) → M (List ℤ)
  unfolding signed_tick run_outbox
  run_product_events p rounds = run_outbox (signed_tick p (tick_product_events p)) rounds 0

  unfoldable pub run_cache_updates :
      Platform → Json → Bool → ReadProductRepository → List (Round OutboxConfig) → M (List ℤ)
  unfolding signed_tick run_outbox
  run_cache_updates p json has_cache repo rounds =
      run_outbox (signed_tick p (tick_cache_updates p json has_cache repo)) rounds 0

  -- A round of the expiry job that was not stopped; the error of a tick is only logged.
  unfoldable pub expiry_round :
      Platform → ReadProductRepository → Headers → ReservationExpiryConfig → M (Unit {0})
  expiry_round p repo headers cfg = elim cfg.enabled [
    | false ↦ pure tt
    | true ↦ elim (parse cfg.ttl) [
      | none ↦ pure tt
      | some ttl ↦ logged (tick_expiry p repo headers ttl)
    ]
  ]

  -- `Run` of the expiry job
  unfoldable pub run_expiry :
      Platform → ReadProductRepository → Headers → List (Round ReservationExpiryConfig) → M (List ℤ)
  unfolding expiry_round
  run_expiry p repo headers [] = pure []
  run_expiry p repo headers (r ∷ rs) = elim r.stopped [
    | true ↦ pure (duration_or (pos second) r.config.job_interval ∷ [])
    | false ↦
        expiry_round p repo headers r.config
        >> (run_expiry p repo headers rs >>= λ waits.
            pure (duration_or (pos second) r.config.job_interval ∷ waits))
  ]

-- `Run` of the metrics collector, with what the pool tells in each round.
unfoldable pub run_monitor :
    Platform → List (Round MonitorConfig × PoolStat) → Collector × World → Collector × World
run_monitor p [] s = s
run_monitor p ((r, stat) ∷ rs) (c, w) = elim r.stopped [
  | true ↦ (c, w)
  | false ↦ elim r.config.enabled [
    | true ↦ run_monitor p rs (tick_monitor p stat c w)
    | false ↦ run_monitor p rs (c, w)
  ]
]
