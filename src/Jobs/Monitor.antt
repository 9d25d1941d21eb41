-- ===== src/Jobs/Monitor.antt =====
-- `MetricCollectorJob`: internal/jobs/outbox_monitor.go. A gauge that could not be read keeps its
-- value.
use marketplace_simulator_pr.Common.{ℕ, ◌-◌, ◌/◌, true, false, ltb, if◌then◌else◌}
use marketplace_simulator_pr.Errors.{ok, err}
use marketplace_simulator_pr.Store.World.{World, Platform, M}
use marketplace_simulator_pr.Store.Outbox.ProductEvents.{get_count}
use marketplace_simulator_pr.Store.Outbox.CacheUpdates.{count_pending, count_dead_letters}

-- What the pool of pgx tells of itself. Its two totals, of acquired connections and of the time
-- that took, only grow.
pub record PoolStat : Type 0 where
  pub acquired_conns : ℕ
  pub idle_conns : ℕ
  pub total_conns : ℕ
  pub max_conns : ℕ
  pub acquire_count : ℕ
  pub acquire_duration : ℕ

-- The gauges: `MetricCollectorMetrics`.
pub record Gauges : Type 0 where
  pub events_pending : ℕ
  pub events_dead_letter : ℕ
  pub updates_pending : ℕ
  pub updates_dead_letter : ℕ
  pub acquired : ℕ
  pub idle : ℕ
  pub total_open : ℕ
  pub limit : ℕ
  pub avg_acquire_duration : ℕ

-- The job's own state, with its gauges.
pub record Collector : Type 0 where
  pub gauges : Gauges
  pub prev_acquire_count : ℕ
  pub prev_acquire_duration : ℕ

-- A count is set where it was read.
abbrev pub set_count : (ℕ → Gauges → Gauges) → M ℕ → Gauges × World → Gauges × World
set_count set count (g, w) =
    let (r, w') = count w in elim r [ ok n ↦ (set n g, w') | err e ↦ (g, w') ]

unfoldable pub collect_counts : Platform → Gauges × World → Gauges × World
collect_counts p start =
    let pending = set_count (λ n g. record g { events_pending = n }) (get_count p false) start in
    let dead = set_count (λ n g. record g { events_dead_letter = n }) (get_count p true) pending in
    let updates = set_count (λ n g. record g { updates_pending = n }) (count_pending p) dead in
    set_count (λ n g. record g { updates_dead_letter = n }) (count_dead_letters p) updates

-- The part on the pool.
unfoldable pub collect_pool : PoolStat → Collector → Collector
collect_pool stat c =
    let g = record c.gauges {
      acquired = stat.acquired_conns;
      idle = stat.idle_conns;
      total_open = stat.total_conns;
      limit = stat.max_conns;
    } in
    let count = stat.acquire_count - c.prev_acquire_count in
    let duration = stat.acquire_duration - c.prev_acquire_duration in
    record {
      gauges = if ltb 0 count then (record g { avg_acquire_duration = duration / count }) else g;
      prev_acquire_count = stat.acquire_count;
      prev_acquire_duration = stat.acquire_duration;
    }

-- `tick`
unfoldable pub tick_monitor : Platform → PoolStat → Collector → World → Collector × World
unfolding collect_counts collect_pool
tick_monitor p stat c w =
    let (g, w') = collect_counts p (c.gauges, w) in
    (collect_pool stat (record c { gauges = g }), w')
