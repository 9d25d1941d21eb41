-- ===== src/App.antt =====
-- What `NewApp` and `Run` decide: internal/app/app.go. The construction of the clients, of the
-- servers and of the routes is left out.
pub mod Started
pub mod Limits
use marketplace_simulator_pr.Common.{
  ℕ, Bool, true, false, Option, none, some, String, List, [], if◌then◌else◌,
}
use marketplace_simulator_pr.Common.Int.{ℤ, pos}
use marketplace_simulator_pr.Errors.{Error, Message}
use marketplace_simulator_pr.Config.{
  Config, ConfigStore, EtcdConfig, RateLimiterConfig, RedisConfig, new_config_store, load, store,
}
use marketplace_simulator_pr.Etcd.{Yaml, Etcd, Ending, read_from_etcd, seed_if_absent}
use marketplace_simulator_pr.Etcd.Watching.{Received, Watcher, watch}
use marketplace_simulator_pr.Store.World.{Platform}
use marketplace_simulator_pr.Usecases.Repository.{ReadProductRepository}
use marketplace_simulator_pr.Usecases.Reads.{database}
use marketplace_simulator_pr.Cache.Redis.{Json}
use marketplace_simulator_pr.Cache.Repository.{cached}

-- How the calls of etcd at the start go: whether `NewClient` gives a client, and how the read and
-- the seeding end.
pub record StartCalls : Type 0 where
  pub connects : Bool
  pub read_ending : Ending
  pub seed_ending : Ending

-- The branches on what was read; an error of the seeding is only logged.
unfoldable pub take_read :
    Yaml
    → StartCalls
    → String
    → Config
    → Etcd
    → Option Config × Bool × Option Error
    → ConfigStore × Etcd
take_read yaml calls key cfg e (found_cfg, found, some failure) = (new_config_store cfg, e)
take_read yaml calls key cfg e (some etcd_cfg, true, none) =
    (store etcd_cfg (new_config_store cfg), e)
take_read yaml calls key cfg e (none, true, none) = (new_config_store cfg, e)
take_read yaml calls key cfg e (found_cfg, false, none) =
    let (failure, e') = seed_if_absent yaml calls.seed_ending key cfg e in
    (new_config_store cfg, e')

unfoldable pub start_with : Yaml → StartCalls → EtcdConfig → Config → Etcd → ConfigStore × Etcd
unfolding take_read
start_with yaml calls etcd cfg e =
    if etcd.enabled
    then (if calls.connects
        then take_read yaml calls etcd.config_key cfg e
            (read_from_etcd yaml calls.read_ending etcd.config_key e)
        else (new_config_store cfg, e))
    else (new_config_store cfg, e)

-- `NewApp` up to the line that loads the current configuration. `cfg.Etcd` is read without a test
-- that it is not nil: `none` is the panic.
unfoldable pub start_config : Yaml → StartCalls → Config → Etcd → Option (ConfigStore × Etcd)
unfolding start_with
start_config yaml calls cfg e = elim cfg.etcd [
  | none ↦ none
  | some etcd ↦ some (start_with yaml calls etcd cfg e)
]

-- The repository that the use cases read from: with a cache if Redis is switched on. `Redis` is
-- read without a test that it is not nil: `none` is the panic.
unfoldable pub product_repository : Platform → Json → Config → Option ReadProductRepository
product_repository p json cfg = elim cfg.redis [
  | none ↦ none
  | some redis ↦ some (cached p json (database p) redis.enabled)
]

-- golang.org/x/time/rate: a limit is infinite, or so many events a second.
pub data Limit : Type 0 where
  infinite : Limit
  per_second : ℕ → Limit

pub record Limiter : Type 0 where
  pub limit : Limit
  pub burst : ℤ

-- `rate.NewLimiter` at the start, as the configuration has it.
unfoldable pub new_limiter : RateLimiterConfig → Limiter
new_limiter r =
    if r.enabled
    then (record { limit = per_second r.rps; burst = r.burst })
    else (record { limit = infinite; burst = pos 0 })

-- `applyDynamicConfig`
unfoldable pub apply_dynamic_config : Config → Limiter → Limiter
apply_dynamic_config new l =
    if new.rate_limiter.enabled
    then (record { limit = per_second new.rate_limiter.rps; burst = new.rate_limiter.burst })
    else (record l { limit = infinite })

-- `NewApp` makes the limiter from the current configuration, and `Run` watches the key from there
-- on.
unfoldable pub run_watcher : Yaml → ConfigStore → List Received → Watcher Limiter
unfolding new_limiter
run_watcher yaml s rs =
    watch apply_dynamic_config yaml rs
      (record { config_store = s; state = new_limiter (load s).rate_limiter; warnings = [] })
