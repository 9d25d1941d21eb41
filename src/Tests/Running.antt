-- ===== src/Tests/Running.antt =====
-- Runs of the loops of the jobs, and of what keeps the configuration up to date.
use marketplace_simulator_pr.Common.{
  All, ◌≤◌, ℕ, zero, suc, ◌≡◌, ◌↔◌, ◌+◌, length, refl, String, true, false, Option, none, some,
  List, [], ◌∷◌, arith,
}
use marketplace_simulator_pr.Common.Int.{ℤ, pos, negsuc}
use marketplace_simulator_pr.Errors.{Result, ok, err, plain, lit}
use marketplace_simulator_pr.Config.{
  Config, ConfigStore, OutboxConfig, ReservationExpiryConfig, EtcdConfig, load, new_config_store,
}
use marketplace_simulator_pr.Store.Outbox.Pending.{live}
use marketplace_simulator_pr.Jobs.Drained.{IsCalm}
use marketplace_simulator_pr.Jobs.Monitor.{PoolStat, Collector, tick_monitor}
use marketplace_simulator_pr.Jobs.Monitored.{tick_monitor_counts}
use marketplace_simulator_pr.Jobs.Loops.{
  Round, run_product_events, run_cache_updates, run_expiry, run_outbox, signed_tick, expiry_round,
}
use marketplace_simulator_pr.Jobs.Batch.{tick, process_and_account}
use marketplace_simulator_pr.Jobs.CacheUpdates.{updates_repository, refresh_all, tick_cache_updates}
use marketplace_simulator_pr.Store.Outbox.CacheUpdates
use marketplace_simulator_pr.Store.Products.{get_by_sku, get_by_skus}
use marketplace_simulator_pr.Jobs.Loops.HandingOver.{
  IsWaitingOrSent, run_product_events-IsWaitingOrSent,
}
use marketplace_simulator_pr.Jobs.Loops.Drained.{run_product_events_drains}
use marketplace_simulator_pr.Usecases.Reads.{database}
use marketplace_simulator_pr.Etcd.{Yaml, Etcd, answered, lost}
use marketplace_simulator_pr.Etcd.Restart.{
  tracing_section, warns, warn_if_restart_required, warn_if_restart_required_exact,
}
use marketplace_simulator_pr.Etcd.Watching.{
  put_event, delete_event, Received, closed, failed, events, Watcher, watch, Follows, watch-Follows,
}
use marketplace_simulator_pr.App.{StartCalls, start_with, start_config, run_watcher}
use marketplace_simulator_pr.App.Limits.{effective, configured, effective-run_watcher}
use marketplace_simulator_pr.App.Started.{start_with_agree, start_config_keeps}
use marketplace_simulator_pr.Models.{EventRecord}
use marketplace_simulator_pr.Store.Outbox.{
  pending, sorted, insert_sorted, comes_first, first_of_key,
}
use marketplace_simulator_pr.Store.Outbox.ProductEvents.{get_pending}
use marketplace_simulator_pr.Store.Outbox.Ordered.{Differ, no_older, get_pending-in_order}
use marketplace_simulator_pr.Tests.{stale, one_event, calm, shop, waiting, no_json, calm-IsRange}

calm-IsCalm : IsCalm calm
calm-IsCalm = record {
  database = λ n. refl;
  whole = λ n. refl;
  kafka = λ n. refl;
  encodes = λ b. (b.record_id ∷ [], refl);
  range = calm-IsRange;
}

-- No text is a duration, so the loops fall back on their defaults.
abbrev no_duration : String → Option ℤ
no_duration text = none

abbrev outbox_on : OutboxConfig
outbox_on = record {
  enabled = true;
  idle_interval = "";
  active_interval = "";
  batch_size = pos 10;
  max_retries = pos 3;
}

abbrev two_rounds : List (Round OutboxConfig)
two_rounds =
    record { config = outbox_on; stopped = false }
    ∷ record { config = outbox_on; stopped = false }
    ∷ []

abbrev expiry_on : ReservationExpiryConfig
expiry_on = record { enabled = true; ttl = "5m"; job_interval = "1s" }

run_product_events-IsWaitingOrSent_example :
    IsWaitingOrSent calm 90 (run_product_events no_duration calm two_rounds waiting).1
run_product_events-IsWaitingOrSent_example =
    run_product_events-IsWaitingOrSent no_duration calm two_rounds waiting 90 refl

-- A negative batch size stops the loop by a panic.
run_product_events_negative :
    let cfg : OutboxConfig = record outbox_on { batch_size = negsuc 0 } in
    (run_product_events no_duration calm (record { config = cfg; stopped = false } ∷ []) waiting).0
    ≡ err (plain (lit "makeslice: cap out of range" ∷ []))
unfolding run_product_events run_outbox signed_tick
run_product_events_negative = refl

-- Without Redis the loop of the cache updates stops by a panic at the first record.
run_cache_updates_without_cache :
    (run_cache_updates no_duration calm no_json false
      (database calm)
      two_rounds
      (record shop { tables = record shop.tables { cache_updates = stale ∷ [] } })).0
    ≡ err (plain (lit "nil pointer dereference" ∷ []))
unfolding run_cache_updates run_outbox signed_tick tick_cache_updates tick process_and_account
    updates_repository CacheUpdates.get_pending refresh_all database get_by_sku get_by_skus pending
    sorted insert_sorted comes_first first_of_key
run_cache_updates_without_cache = refl

-- A time to live that is no duration lets nothing expire.
run_expiry_unread :
    (run_expiry no_duration calm
      (database calm)
      []
      (record { config = expiry_on; stopped = false } ∷ [])
      shop).1
    ≡ shop
unfolding run_expiry expiry_round
run_expiry_unread = refl

run_product_events_drains_example :
    let (r, w) = run_product_events no_duration calm two_rounds waiting in
    ((waits : List ℤ) × (r ≡ ok waits) × (length waits ≡ 2)) × (live w.product_events ≡ [])
run_product_events_drains_example =
    run_product_events_drains no_duration calm calm-IsCalm two_rounds waiting
      ((refl, refl, 9, refl), ((refl, refl, 9, refl), tt)) ((_, refl), tt) (omega arith)

abbrev etcd_on : EtcdConfig
etcd_on = record { enabled = true; endpoints = []; dial_timeout = "5s"; config_key = "/config" }

abbrev plain_config : Config
plain_config = record {
  http_server = record { host = ""; port = "8080" };
  grpc_server = record { host = "localhost"; port = "8082" };
  database = record { user = "u"; password = "p"; host = "h"; port = "5432"; name = "n" };
  authorization = record { enabled = false; admin_user = "admin" };
  logging = record { log_request_body = true; log_response_body = true };
  kafka = record { brokers = "k" ∷ []; product_events_topic = "t"; write_timeout = "5s" };
  tracing = record { enabled = true; otlp_endpoint = "o" };
  rate_limiter = record { enabled = true; rps = 100; burst = pos 20 };
  jobs = record {
    reservation_expiry = expiry_on;
    product_events_outbox = outbox_on;
    product_events_outbox_monitor = record { enabled = true; job_interval = "10s" };
    cache_update_outbox = outbox_on;
  };
  redis = none;
  etcd = some etcd_on;
}

-- The configuration with the rate limiter off, and one that does not trace.
abbrev unlimited : Config
unlimited = record plain_config {
  rate_limiter = record { enabled = false; rps = 0; burst = pos 0 };
}

abbrev untraced : Config
untraced = record plain_config { tracing = record { enabled = false; otlp_endpoint = "o" } }

-- A YAML of two texts: one for the configuration that limits and one for the other.
abbrev decode_two : List ℕ → Result Config
decode_two [] = ok unlimited
decode_two (zero ∷ _) = err (plain [])
decode_two (suc n ∷ _) = ok plain_config

abbrev two_texts : Yaml
two_texts = record { encode = λ c. ok (1 ∷ []); decode = decode_two }

abbrev changes : List Received
changes =
    events (put_event [] ∷ delete_event ∷ [])
    ∷ failed []
    ∷ events (put_event (0 ∷ []) ∷ put_event (1 ∷ []) ∷ [])
    ∷ closed
    ∷ []

effective-run_watcher_example :
    effective (run_watcher two_texts (new_config_store plain_config) changes).state
    ≡ configured
        (load
          (run_watcher two_texts (new_config_store plain_config) changes).config_store).rate_limiter
effective-run_watcher_example =
    effective-run_watcher two_texts (new_config_store plain_config) changes

-- A watcher that counts the calls of its callback.
abbrev count_call : Config → ℕ → ℕ
count_call c n = n + 1

abbrev fresh : Watcher ℕ
fresh = record { config_store = new_config_store plain_config; state = 0; warnings = [] }

watch-Follows_example :
    Follows count_call
      (unlimited ∷ plain_config ∷ [])
      fresh
      (watch count_call two_texts changes fresh)
watch-Follows_example = watch-Follows count_call two_texts changes fresh

warn_if_restart_required_exact_example :
    (warns tracing_section (warn_if_restart_required plain_config untraced) ≡ false)
    ↔ (plain_config.tracing ≡ untraced.tracing)
warn_if_restart_required_exact_example =
    warn_if_restart_required_exact tracing_section plain_config untraced

abbrev nothing_held : Etcd
nothing_held = record { held = λ key. none }

abbrev all_answer : StartCalls
all_answer = record { connects = true; read_ending = answered; seed_ending = answered }

start_with_agree_example :
    let (s, e) = start_with two_texts all_answer etcd_on plain_config nothing_held in
    let (s', e') = start_with two_texts all_answer etcd_on untraced e in
    (load s ≡ plain_config) × (load s' ≡ plain_config) × (e' ≡ e)
start_with_agree_example =
    start_with_agree two_texts etcd_on etcd_on plain_config untraced nothing_held (1 ∷ []) refl refl
      refl refl refl refl

-- A start whose read of the key fails.
start_config_keeps_example :
    (s : ConfigStore) × (start_config two_texts
        (record all_answer { read_ending = lost [] false })
        untraced
        (record { held = λ key. some (1 ∷ []) })
      ≡ some (s, record { held = λ key. some (1 ∷ []) }))
    × (load s ≡ untraced)
start_config_keeps_example =
    start_config_keeps two_texts (record all_answer { read_ending = lost [] false }) etcd_on
      untraced (record { held = λ key. some (1 ∷ []) }) (1 ∷ []) refl refl

get_pending-in_order_example :
    let rs : List EventRecord = one_event ∷ [] in
    All (λ r. r.is_dead_letter ≡ false) rs
    × (length rs ≤ 10)
    × Differ rs
    × All (λ r. All (λ e. no_older r e ≡ true) (live waiting.product_events)) rs
unfolding get_pending pending sorted insert_sorted comes_first first_of_key
get_pending-in_order_example =
    get_pending-in_order calm 10 waiting (get_pending calm 10 waiting).1 (one_event ∷ []) refl

abbrev pool_now : PoolStat
pool_now = record {
  acquired_conns = 2;
  idle_conns = 1;
  total_conns = 3;
  max_conns = 4;
  acquire_count = 10;
  acquire_duration = 50;
}

abbrev blank : Collector
blank = record {
  gauges = record {
    events_pending = 0;
    events_dead_letter = 0;
    updates_pending = 0;
    updates_dead_letter = 0;
    acquired = 0;
    idle = 0;
    total_open = 0;
    limit = 0;
    avg_acquire_duration = 0;
  };
  prev_acquire_count = 0;
  prev_acquire_duration = 0;
}

tick_monitor_counts_example :
    let (c, w) = tick_monitor calm pool_now blank waiting in
    (c.gauges.events_pending ≡ 1)
    × (c.gauges.events_dead_letter ≡ 0)
    × (c.gauges.updates_pending ≡ 0)
    × (c.gauges.updates_dead_letter ≡ 0)
    × (c.gauges.acquired ≡ 2)
    × (c.gauges.idle ≡ 1)
    × (c.gauges.total_open ≡ 3)
    × (c.gauges.limit ≡ 4)
    × (c.gauges.avg_acquire_duration ≡ 5)
    × (c.prev_acquire_count ≡ 10)
    × (c.prev_acquire_duration ≡ 50)
    × (w.tables ≡ waiting.tables)
tick_monitor_counts_example =
    tick_monitor_counts calm pool_now blank 10 50 waiting (λ n. refl) refl refl
