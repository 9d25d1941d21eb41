-- ===== src/Etcd/Restart.antt =====
-- `warnIfRestartRequired`, and that it warns of the sections that differ and of no others.
use text.Mathlib.Text.{◌==◌ as str_eq}
use text.Mathlib.TextEquality.{eq_iff}
use marketplace_simulator_pr.Common.{
  ◌≡◌, ◌↔◌, refl, sym, ◌∙◌, ap, String, Bool, true, false, not, ◌&&◌, ◌||◌, List, [], ◌∷◌, ◌++◌,
  if◌then◌else◌, Bool-cases, inl, inr, arith,
}
use marketplace_simulator_pr.Config.{Server, DatabaseConfig, TracingConfig, KafkaConfig, Config}

-- What a warning is about.
pub data Section : Type 0 where
  database_section grpc_section http_section tracing_section kafka_section : Section

-- `!=` on the structs, field by field, and `slices.Equal`.
abbrev pub bool_eq : Bool → Bool → Bool
bool_eq true b = b
bool_eq false b = not b

abbrev pub same_server : Server → Server → Bool
same_server a b = str_eq a.host b.host && str_eq a.port b.port

abbrev pub same_database : DatabaseConfig → DatabaseConfig → Bool
same_database a b =
    str_eq a.user b.user
    && (str_eq a.password b.password
        && (str_eq a.host b.host && (str_eq a.port b.port && str_eq a.name b.name)))

abbrev pub same_tracing : TracingConfig → TracingConfig → Bool
same_tracing a b = bool_eq a.enabled b.enabled && str_eq a.otlp_endpoint b.otlp_endpoint

abbrev pub same_texts : List String → List String → Bool
same_texts [] [] = true
same_texts (x ∷ xs) (y ∷ ys) = str_eq x y && same_texts xs ys
same_texts _ _ = false

abbrev pub kafka_changed : KafkaConfig → KafkaConfig → Bool
kafka_changed a b =
    not (str_eq a.product_events_topic b.product_events_topic)
    || (not (str_eq a.write_timeout b.write_timeout) || not (same_texts a.brokers b.brokers))

abbrev pub warn : Bool → Section → List Section
warn changed s = if changed then s ∷ [] else []

-- `warnIfRestartRequired`: the warnings, in their order.
unfoldable pub warn_if_restart_required : Config → Config → List Section
warn_if_restart_required old new =
    warn (not (same_database old.database new.database)) database_section
    ++ (warn (not (same_server old.grpc_server new.grpc_server)) grpc_section
        ++ (warn (not (same_server old.http_server new.http_server)) http_section
            ++ (warn (not (same_tracing old.tracing new.tracing)) tracing_section
                ++ warn (kafka_changed old.kafka new.kafka) kafka_section)))

abbrev is_section : Section → Section → Bool
is_section database_section database_section = true
is_section grpc_section grpc_section = true
is_section http_section http_section = true
is_section tracing_section tracing_section = true
is_section kafka_section kafka_section = true
is_section _ _ = false

-- Whether there is a warning about a section.
abbrev pub warns : Section → List Section → Bool
warns s [] = false
warns s (t ∷ ts) = is_section s t || warns s ts

-- The two configurations agree in a section.
abbrev pub Unchanged : Section → Config → Config → Type 0
Unchanged database_section old new = old.database ≡ new.database
Unchanged grpc_section old new = old.grpc_server ≡ new.grpc_server
Unchanged http_section old new = old.http_server ≡ new.http_server
Unchanged tracing_section old new = old.tracing ≡ new.tracing
Unchanged kafka_section old new = old.kafka ≡ new.kafka

str_same : (a b : String) → str_eq a b ≡ true → a ≡ b
str_same a b = (eq_iff a b).0

str_refl : (a : String) → str_eq a a ≡ true
str_refl a = (eq_iff a a).1 refl

same_server_sound : (a b : Server) → same_server a b ≡ true → a ≡ b
same_server_sound a b h = ground (arith, str_same a.host b.host, str_same a.port b.port)

same_database_sound : (a b : DatabaseConfig) → same_database a b ≡ true → a ≡ b
same_database_sound a b h = ground (
  arith,
  str_same a.user b.user,
  str_same a.password b.password,
  str_same a.host b.host,
  str_same a.port b.port,
  str_same a.name b.name,
)

bool_same : (a b : Bool) → bool_eq a b ≡ true → a ≡ b
bool_same true b h = sym h
bool_same false b h = ground arith

same_tracing_sound : (a b : TracingConfig) → same_tracing a b ≡ true → a ≡ b
same_tracing_sound a b h =
    ground (arith, bool_same a.enabled b.enabled, str_same a.otlp_endpoint b.otlp_endpoint)

same_texts_sound : (xs ys : List String) → same_texts xs ys ≡ true → xs ≡ ys
same_texts_sound [] [] h = refl
same_texts_sound [] (y ∷ ys) h = absurd (ground arith)
same_texts_sound (x ∷ xs) [] h = absurd (ground arith)
same_texts_sound (x ∷ xs) (y ∷ ys) h = ground (arith, str_same x y, same_texts_sound xs ys)

kafka_changed_sound : (a b : KafkaConfig) → kafka_changed a b ≡ false → a ≡ b
kafka_changed_sound a b h = ground (
  arith,
  str_same a.product_events_topic b.product_events_topic,
  str_same a.write_timeout b.write_timeout,
  same_texts_sound a.brokers b.brokers,
)

same_server_refl : (a : Server) → same_server a a ≡ true
same_server_refl a = rw (str_refl a.host, str_refl a.port) refl

same_database_refl : (a : DatabaseConfig) → same_database a a ≡ true
same_database_refl a =
    rw (str_refl a.user, str_refl a.password, str_refl a.host, str_refl a.port, str_refl a.name)
      refl

same_tracing_refl : (a : TracingConfig) → same_tracing a a ≡ true
same_tracing_refl a = elim (Bool-cases a.enabled) [
  | inl e ↦ rw (e, str_refl a.otlp_endpoint) refl
  | inr e ↦ rw (e, str_refl a.otlp_endpoint) refl
]

same_texts_refl : (xs : List String) → same_texts xs xs ≡ true
same_texts_refl [] = refl
same_texts_refl (x ∷ xs) = rw (str_refl x, same_texts_refl xs) refl

kafka_changed_refl : (a : KafkaConfig) → kafka_changed a a ≡ false
kafka_changed_refl a =
    rw (str_refl a.product_events_topic, str_refl a.write_timeout, same_texts_refl a.brokers) refl

-- Whether the struct comparisons of `warnIfRestartRequired` find a difference in a section.
abbrev differs : Section → Config → Config → Bool
differs database_section old new = not (same_database old.database new.database)
differs grpc_section old new = not (same_server old.grpc_server new.grpc_server)
differs http_section old new = not (same_server old.http_server new.http_server)
differs tracing_section old new = not (same_tracing old.tracing new.tracing)
differs kafka_section old new = kafka_changed old.kafka new.kafka

warns-five :
    (s : Section) (a b c d e : Bool)
    → warns s (
        warn a database_section
        ++ (warn b grpc_section
            ++ (warn c http_section ++ (warn d tracing_section ++ warn e kafka_section))))
      ≡ elim s as (λ _. Bool) [
        | database_section ↦ a
        | grpc_section ↦ b
        | http_section ↦ c
        | tracing_section ↦ d
        | kafka_section ↦ e
      ]
warns-five database_section a b c d e = ground arith
warns-five grpc_section a b c d e = ground arith
warns-five http_section a b c d e = ground arith
warns-five tracing_section a b c d e = ground arith
warns-five kafka_section a b c d e = ground arith

differs_sound : (s : Section) (old new : Config) → differs s old new ≡ false → Unchanged s old new
differs_sound database_section old new h =
    same_database_sound old.database new.database (ground arith)
differs_sound grpc_section old new h =
    same_server_sound old.grpc_server new.grpc_server (ground arith)
differs_sound http_section old new h =
    same_server_sound old.http_server new.http_server (ground arith)
differs_sound tracing_section old new h = same_tracing_sound old.tracing new.tracing (ground arith)
differs_sound kafka_section old new h = kafka_changed_sound old.kafka new.kafka h

differs_complete :
    (s : Section) (old new : Config) → Unchanged s old new → differs s old new ≡ false
differs_complete database_section old new e = rw e (ap not (same_database_refl new.database))
differs_complete grpc_section old new e = rw e (ap not (same_server_refl new.grpc_server))
differs_complete http_section old new e = rw e (ap not (same_server_refl new.http_server))
differs_complete tracing_section old new e = rw e (ap not (same_tracing_refl new.tracing))
differs_complete kafka_section old new e = rw e (kafka_changed_refl new.kafka)

warned :
    (s : Section) (old new : Config)
    → warns s (warn_if_restart_required old new) ≡ differs s old new
unfolding warn_if_restart_required
warned database_section old new = warns-five database_section _ _ _ _ _
warned grpc_section old new = warns-five grpc_section _ _ _ _ _
warned http_section old new = warns-five http_section _ _ _ _ _
warned tracing_section old new = warns-five tracing_section _ _ _ _ _
warned kafka_section old new = warns-five kafka_section _ _ _ _ _

-- For each of the five sections that are read at the start only: a change of the configuration goes
-- without a warning about the section exactly where it leaves the section as it was.
pub warn_if_restart_required_exact :
    (s : Section) (old new : Config)
    → (warns s (warn_if_restart_required old new) ≡ false) ↔ Unchanged s old new
warn_if_restart_required_exact s old new = (
  λ h. differs_sound s old new (sym (warned s old new) ∙ h),
  λ e. warned s old new ∙ differs_complete s old new e,
)
