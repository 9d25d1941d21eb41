-- ===== src/App/Limits.antt =====
-- The rate limiter follows the configuration.
use marketplace_simulator_pr.Common.{
  ℕ, ◌≡◌, sym, ◌∙◌, ap, Option, none, some, List, [], ◌∷◌, arith, if◌then◌else◌,
}
use marketplace_simulator_pr.Common.Int.{ℤ}
use marketplace_simulator_pr.Config.{Config, ConfigStore, RateLimiterConfig, load}
use marketplace_simulator_pr.Etcd.{Yaml}
use marketplace_simulator_pr.Etcd.Watching.{
  Received, Watcher, versions, last_or, apply_all, watch-Follows,
}
use marketplace_simulator_pr.App.{
  infinite, per_second, Limiter, new_limiter, apply_dynamic_config, run_watcher,
}

-- What a limiter holds back: nothing, or what goes beyond so many a second and a burst. Under an
-- infinite limit the burst plays no part.
abbrev pub effective : Limiter → Option (ℕ × ℤ)
effective l = elim l.limit [ infinite ↦ none | per_second rps ↦ some (rps, l.burst) ]

-- What the configuration asks for.
abbrev pub configured : RateLimiterConfig → Option (ℕ × ℤ)
configured r = if r.enabled then some (r.rps, r.burst) else none

effective-new_limiter : (r : RateLimiterConfig) → effective (new_limiter r) ≡ configured r
unfolding new_limiter
effective-new_limiter r = ground arith

effective-apply_dynamic_config :
    (c : Config) (l : Limiter) → effective (apply_dynamic_config c l) ≡ configured c.rate_limiter
unfolding apply_dynamic_config
effective-apply_dynamic_config c l = ground arith

effective-apply_all :
    (cs : List Config) (c : Config) (l : Limiter)
    → effective l ≡ configured c.rate_limiter
    → effective (apply_all apply_dynamic_config cs l) ≡ configured (last_or c cs).rate_limiter
effective-apply_all [] c l h = h
effective-apply_all (d ∷ ds) c l h =
    effective-apply_all ds d (apply_dynamic_config d l) (effective-apply_dynamic_config d l)

-- From the start on, and through every change of the key that is received, valid or not, the
-- limiter holds back what the configuration in the store asks for; switching it off and on again
-- included.
pub effective-run_watcher :
    (yaml : Yaml) (s : ConfigStore) (rs : List Received)
    → effective (run_watcher yaml s rs).state
      ≡ configured (load (run_watcher yaml s rs).config_store).rate_limiter
unfolding run_watcher
effective-run_watcher yaml s rs =
    let start : Watcher Limiter = record {
      config_store = s;
      state = new_limiter (load s).rate_limiter;
      warnings = [];
    } in
    let (config, state, _) = watch-Follows apply_dynamic_config yaml rs start in
    ap effective state
    ∙ effective-apply_all (versions yaml rs) (load s) (new_limiter (load s).rate_limiter)
        (effective-new_limiter (load s).rate_limiter)
    ∙ sym (ap (λ (c : Config). configured c.rate_limiter) config)
