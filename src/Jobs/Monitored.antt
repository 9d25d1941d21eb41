-- ===== src/Jobs/Monitored.antt =====
-- What the gauges of the metrics collector show after a tick.
use marketplace_simulator_pr.Common.{
  ℕ, ◌==◌, if◌then◌else◌, ◌+◌, ◌-◌, ◌/◌, ◌∙◌, ap, ◌≡◌, refl, none, List, arith, select, length,
}
use marketplace_simulator_pr.Models.{Entry}
use marketplace_simulator_pr.Store.World.{World, Platform, counted}
use marketplace_simulator_pr.Store.Outbox.Pending.{live}
use marketplace_simulator_pr.Store.Outbox.ProductEvents.{get_count}
use marketplace_simulator_pr.Store.Outbox.CacheUpdates.{count_pending, count_dead_letters}
use marketplace_simulator_pr.Jobs.Monitor.{
  PoolStat, Gauges, Collector, collect_counts, collect_pool, tick_monitor,
}

-- The dead letters.
abbrev pub dead : {A : Type 0} → List (Entry A) → List (Entry A)
dead es = select (λ e. e.is_dead_letter) es

collect_counts_lem :
    (p : Platform) (g : Gauges) (w : World)
    → ((n : ℕ) → p.fault n ≡ none)
    → collect_counts p (g, w) ≡ (
      record g {
        events_pending = length (live w.product_events);
        events_dead_letter = length (dead w.product_events);
        updates_pending = length (live w.cache_updates);
        updates_dead_letter = length (dead w.cache_updates);
      },
      counted (counted (counted (counted w))),
    )
unfolding collect_counts get_count count_pending count_dead_letters
collect_counts_lem p g w calm =
    ground
      (arith, calm w.calls, calm (w.calls + 1), calm (w.calls + 1 + 1), calm (w.calls + 1 + 1 + 1))

collect_pool_average :
    (stat : PoolStat) (c : Collector) (n d : ℕ)
    → stat.acquire_count ≡ c.prev_acquire_count + n
    → stat.acquire_duration ≡ c.prev_acquire_duration + d
    → (collect_pool stat c).gauges.avg_acquire_duration
      ≡ (if n == 0 then c.gauges.avg_acquire_duration else d / n)
unfolding collect_pool
collect_pool_average stat c n d e f =
    let count : stat.acquire_count - c.prev_acquire_count ≡ n = omega (arith, e) in
    let duration : stat.acquire_duration - c.prev_acquire_duration ≡ d = omega (arith, f) in
    rw (count, duration) (ground arith)

-- Where the database answers, the gauges of both outboxes show how many records are live and how
-- many are dead letters. The gauges of the pool show its acquired, idle and open connections and
-- its limit. The totals of the pool have grown by `n` connections and `d` nanoseconds since the
-- last tick: the average shows `d / n`, and is as it was where `n` is 0. The job remembers both
-- totals for the next tick. The tables are as they were.
pub tick_monitor_counts :
    (p : Platform) (stat : PoolStat) (c : Collector) (n d : ℕ) (w : World)
    → ((n : ℕ) → p.fault n ≡ none)
    → stat.acquire_count ≡ c.prev_acquire_count + n
    → stat.acquire_duration ≡ c.prev_acquire_duration + d
    → let (c', w') = tick_monitor p stat c w in
      (c'.gauges.events_pending ≡ length (live w.product_events))
      × (c'.gauges.events_dead_letter ≡ length (dead w.product_events))
      × (c'.gauges.updates_pending ≡ length (live w.cache_updates))
      × (c'.gauges.updates_dead_letter ≡ length (dead w.cache_updates))
      × (c'.gauges.acquired ≡ stat.acquired_conns)
      × (c'.gauges.idle ≡ stat.idle_conns)
      × (c'.gauges.total_open ≡ stat.total_conns)
      × (c'.gauges.limit ≡ stat.max_conns)
      × (c'.gauges.avg_acquire_duration ≡ (if n == 0 then c.gauges.avg_acquire_duration else d / n))
      × (c'.prev_acquire_count ≡ stat.acquire_count)
      × (c'.prev_acquire_duration ≡ stat.acquire_duration)
      × (w'.tables ≡ w.tables)
unfolding tick_monitor collect_counts collect_pool
tick_monitor_counts p stat c n d w calm grown lasted =
    let counts = collect_counts_lem p c.gauges w calm in
    let now = record c { gauges = (collect_counts p (c.gauges, w)).0 } in
    let kept : now.gauges.avg_acquire_duration ≡ c.gauges.avg_acquire_duration =
      ap (λ q. q.0.avg_acquire_duration) counts in
    (
      ground (arith, counts),
      ground (arith, counts),
      ground (arith, counts),
      ground (arith, counts),
      ground arith,
      ground arith,
      ground arith,
      ground arith,
      collect_pool_average stat now n d grown lasted
          ∙ ap (λ avg. if n == 0 then avg else d / n) kept,
      refl,
      refl,
      ground (arith, counts),
    )
