-- ===== src/App/Started.antt =====
-- Which configuration the service starts with.
use text.Mathlib.TextEquality.{eq_iff}
use marketplace_simulator_pr.Common.{
  ℕ, ◌≡◌, refl, ◌⊎◌, inl, inr, Bool-cases, Bool, true, none, some, String, List, arith,
}
use marketplace_simulator_pr.Errors.{Message, Result, ok, Result-cases}
use marketplace_simulator_pr.Config.{Config, ConfigStore, EtcdConfig, load, new_config_store}
use marketplace_simulator_pr.Etcd.{
  Yaml, Etcd, Ending, answered, lost, put, read_from_etcd, seed_if_absent,
}
use marketplace_simulator_pr.App.{StartCalls, take_read, start_with, start_config}

held-put : (key : String) (value : List ℕ) (e : Etcd) → (put key value e).held key ≡ some value
held-put key value e = rw ((eq_iff key key).1 refl) refl

-- Several instances agree. Where etcd answers an instance at its start, holds nothing at the key,
-- and the instance's own configuration has a text that is read back as it was: the instance starts
-- with its own configuration, and each one that etcd answers after that starts with that same
-- configuration, whatever its own is.
pub start_with_agree :
    (yaml : Yaml) (etcd etcd' : EtcdConfig) (first second : Config) (e : Etcd) (value : List ℕ)
    → etcd.enabled ≡ true
    → etcd'.enabled ≡ true
    → etcd'.config_key ≡ etcd.config_key
    → e.held etcd.config_key ≡ none
    → yaml.encode first ≡ ok value
    → yaml.decode value ≡ ok first
    → (let calm : StartCalls = record {
      connects = true;
      read_ending = answered;
      seed_ending = answered;
    } in
        let (s, e₁) = start_with yaml calm etcd first e in
        let (s', e₂) = start_with yaml calm etcd' second e₁ in
        (load s ≡ first) × (load s' ≡ first) × (e₂ ≡ e₁))
unfolding start_with take_read read_from_etcd seed_if_absent
start_with_agree yaml etcd etcd' first second e value on on' key absent text back =
    let there = held-put etcd.config_key value e in
    ground (arith, back, there, on, on', key, absent, text)

Ending-cases : (x : Ending) → (x ≡ answered) ⊎ ((c : Message × Bool) × (x ≡ lost c.0 c.1))
Ending-cases answered = inl refl
Ending-cases (lost m late) = inr ((m, late), refl)

-- What a start goes on with: what was read at the key, decoded, where etcd is enabled, a client of
-- it could be made, the read was answered and the value decodes, and its own configuration
-- otherwise.
abbrev pub started_with : Bool → Bool → Ending → Result Config → Config → Config
started_with true true answered (ok found) own = found
started_with enabled connects ending read own = own

-- A start never overwrites. It is one whose own configuration has a section on etcd, with a value
-- at its key. However the calls of etcd end, etcd is left as it was, and the configuration that the
-- start goes on with is, as a whole, the decoded value where etcd is enabled, a client of it could
-- be made, the read was answered and the value decodes, and its own otherwise.
pub start_config_keeps :
    (yaml : Yaml) (calls : StartCalls) (etcd : EtcdConfig) (cfg : Config) (e : Etcd)
    (value : List ℕ)
    → cfg.etcd ≡ some etcd
    → e.held etcd.config_key ≡ some value
    → (s : ConfigStore) × (start_config yaml calls cfg e ≡ some (s, e))
      × (load s
          ≡ started_with etcd.enabled calls.connects calls.read_ending (yaml.decode value) cfg)
unfolding start_config start_with take_read read_from_etcd
start_config_keeps yaml calls etcd cfg e value section there = elim (Bool-cases etcd.enabled) [
  | inr off ↦ (new_config_store cfg, ground (arith, section, off), ground (arith, off))
  | inl on ↦ elim (Bool-cases calls.connects) [
    | inr alone ↦
        (new_config_store cfg, ground (arith, section, on, alone), ground (arith, on, alone))
    | inl connected ↦ elim (Ending-cases calls.read_ending) [
      | inr ((m, late), failed) ↦ (
        new_config_store cfg,
        ground (arith, section, on, connected, failed),
        ground (arith, on, connected, failed),
      )
      | inl read ↦ elim (Result-cases (yaml.decode value)) [
        | inl (found, good) ↦ (
          new_config_store found,
          ground (arith, section, on, connected, read, there, good),
          ground (arith, on, connected, read, good),
        )
        | inr (x, bad) ↦ (
          new_config_store cfg,
          ground (arith, section, on, connected, read, there, bad),
          ground (arith, on, connected, read, bad),
        )
      ]
    ]
  ]
]
