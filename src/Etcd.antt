-- ===== src/Etcd.antt =====
-- The configuration in etcd: internal/infra/etcd/client.go and internal/infra/etcd/watcher.go. The
-- client of etcd and YAML are the surroundings; what is logged, but for the restart warnings, is
-- left out.
pub mod Restart
pub mod Watching
use text.Mathlib.Text.{◌==◌ as str_eq}
use marketplace_simulator_pr.Common.{
  ℕ, ◌≡◌, String, Bool, true, false, Option, none, some, List, [], ◌∷◌, if◌then◌else◌,
}
use marketplace_simulator_pr.Errors.{Error, Message, Result, ok, err, plain, lit, wrap}
use marketplace_simulator_pr.Config.{Config}

-- gopkg.in/yaml.v3 on `Config`.
pub record Yaml : Type 0 where
  pub encode : Config → Result (List ℕ)
  pub decode : List ℕ → Result Config

-- What etcd holds at each key; a key that was deleted is as one that never was.
pub record Etcd : Type 0 where
  pub held : String → Option (List ℕ)

abbrev pub put : String → List ℕ → Etcd → Etcd
put key value e = record e { held = λ k. if str_eq k key then some value else e.held k }

-- How a call of etcd ends: with an answer, or with an error, before or after etcd has done what it
-- was asked.
pub data Ending : Type 0 where
  answered : Ending
  lost : Message → Bool → Ending

abbrev pub parsed : Yaml → List ℕ → Option Config × Bool × Option Error
parsed yaml value = elim (yaml.decode value) [
  | ok cfg ↦ (some cfg, true, none)
  | err e ↦ (none, true, some (wrap "etcd: unmarshal config" e))
]

-- `ReadFromEtcd`: the configuration, whether the key was found, and the error.
unfoldable pub read_from_etcd : Yaml → Ending → String → Etcd → Option Config × Bool × Option Error
read_from_etcd yaml (lost m done) key e = (none, false, some (wrap "etcd.Get" (plain m)))
read_from_etcd yaml answered key e = elim (e.held key) [
  | none ↦ (none, false, none)
  | some value ↦ parsed yaml value
]

-- The transaction: version 0 is that of a key that is not there.
abbrev pub put_if_absent : String → List ℕ → Etcd → Etcd
put_if_absent key value e = elim (e.held key) [ none ↦ put key value e | some other ↦ e ]

-- `SeedIfAbsent`
unfoldable pub seed_if_absent : Yaml → Ending → String → Config → Etcd → Option Error × Etcd
seed_if_absent yaml ending key cfg e = elim (yaml.encode cfg) [
  | err x ↦ (some (wrap "etcd: marshal config" x), e)
  | ok data_of ↦ elim ending [
    | answered ↦ (none, put_if_absent key data_of e)
    | lost m done ↦
        (some (wrap "etcd: seed txn" (plain m)), if done then put_if_absent key data_of e else e)
  ]
]
