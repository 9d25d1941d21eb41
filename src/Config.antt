-- ===== src/Config.antt =====
-- The configuration: internal/infra/config/config.go and internal/infra/config/store.go. A duration
-- is a text until it is used, and an `rps` is the 64 bits of its float64.
use marketplace_simulator_pr.Common.{ℕ, String, Bool, Option, List}
use marketplace_simulator_pr.Common.Int.{ℤ}

-- `HttpServer` and `GrpcServer` have the same fields.
pub record Server : Type 0 where
  pub host : String
  pub port : String

pub record DatabaseConfig : Type 0 where
  pub user : String
  pub password : String
  pub host : String
  pub port : String
  pub name : String

-- `Authorization`
pub record AuthConfig : Type 0 where
  pub enabled : Bool
  pub admin_user : String

pub record LoggingConfig : Type 0 where
  pub log_request_body : Bool
  pub log_response_body : Bool

pub record KafkaConfig : Type 0 where
  pub brokers : List String
  pub product_events_topic : String
  pub write_timeout : String

pub record TracingConfig : Type 0 where
  pub enabled : Bool
  pub otlp_endpoint : String

pub record RateLimiterConfig : Type 0 where
  pub enabled : Bool
  pub rps : ℕ
  pub burst : ℤ

pub record ReservationExpiryConfig : Type 0 where
  pub enabled : Bool
  pub ttl : String
  pub job_interval : String

-- `ProductEventsOutboxConfig`; `CacheUpdateOutboxConfig` has the same fields.
pub record OutboxConfig : Type 0 where
  pub enabled : Bool
  pub idle_interval : String
  pub active_interval : String
  pub batch_size : ℤ
  pub max_retries : ℤ

abbrev pub CacheUpdateOutboxConfig : Type 0
CacheUpdateOutboxConfig = OutboxConfig

-- `ProductEventsOutboxMonitorConfig`
pub record MonitorConfig : Type 0 where
  pub enabled : Bool
  pub job_interval : String

pub record JobsConfig : Type 0 where
  pub reservation_expiry : ReservationExpiryConfig
  pub product_events_outbox : OutboxConfig
  pub product_events_outbox_monitor : MonitorConfig
  pub cache_update_outbox : CacheUpdateOutboxConfig

pub record RedisConfig : Type 0 where
  pub enabled : Bool
  pub redis_addr : String
  pub ttl : String

pub record EtcdConfig : Type 0 where
  pub enabled : Bool
  pub endpoints : List String
  pub dial_timeout : String
  pub config_key : String

-- `Config`; the pointers `Redis` and `Etcd` are nil where the text has no such section.
pub record Config : Type 0 where
  pub http_server : Server
  pub grpc_server : Server
  pub database : DatabaseConfig
  pub authorization : AuthConfig
  pub logging : LoggingConfig
  pub kafka : KafkaConfig
  pub tracing : TracingConfig
  pub rate_limiter : RateLimiterConfig
  pub jobs : JobsConfig
  pub redis : Option RedisConfig
  pub etcd : Option EtcdConfig

-- `ConfigStore`: the configuration that its pointer shows now.
pub record ConfigStore : Type 0 where
  pub ptr : Config

-- `NewConfigStore`, `Load` and `Store`
abbrev pub new_config_store : Config → ConfigStore
new_config_store cfg = record { ptr = cfg }

abbrev pub load : ConfigStore → Config
load s = s.ptr

abbrev pub store : Config → ConfigStore → ConfigStore
store cfg s = record s { ptr = cfg }
