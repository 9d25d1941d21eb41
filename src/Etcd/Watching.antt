-- ===== src/Etcd/Watching.antt =====
-- `Watch`, and that the store and the callback follow the key.
use mathlib.Core.List.{append-nil, append_assoc}
use marketplace_simulator_pr.Common.{
  ℕ, ◌≡◌, refl, sym, ◌∙◌, ap, subst, List, [], ◌∷◌, ◌++◌, inl, inr,
}
use marketplace_simulator_pr.Errors.{Message, ok, err, Result-cases}
use marketplace_simulator_pr.Config.{Config, ConfigStore, load, store}
use marketplace_simulator_pr.Etcd.{Yaml}
use marketplace_simulator_pr.Etcd.Restart.{Section, warn_if_restart_required}

-- An event on the key.
pub data Event : Type 0 where
  put_event : List ℕ → Event
  delete_event : Event

-- What the select of `Watch` takes in a round: that the context is done, that the channel is
-- closed, a response with an error, or one with events.
pub data Received : Type 0 where
  done closed : Received
  failed : Message → Received
  events : List Event → Received

-- The store, the state that `onChange` works on, and the warnings so far.
pub record Watcher (S : Type 0) : Type 0 where
  pub config_store : ConfigStore
  pub state : S
  pub warnings : List Section

module _ {S : Type 0} (on_change : Config → S → S) where
  -- The body of the loop over the events, where the text was parsed.
  unfoldable pub adopt : Config → Watcher S → Watcher S
  adopt new w = record {
    config_store = store new w.config_store;
    state = on_change new w.state;
    warnings = w.warnings ++ warn_if_restart_required (load w.config_store) new;
  }

  module _ (yaml : Yaml) where
    -- The loop over `resp.Events`.
    unfoldable pub take_events : List Event → Watcher S → Watcher S
    unfolding adopt
    take_events [] w = w
    take_events (delete_event ∷ es) w = take_events es w
    take_events (put_event value ∷ es) w = elim (yaml.decode value) [
      | ok new ↦ take_events es (adopt new w)
      | err e ↦ take_events es w
    ]

    -- `Watch`, over what it receives.
    unfoldable pub watch : List Received → Watcher S → Watcher S
    unfolding take_events
    watch [] w = w
    watch (done ∷ rest) w = w
    watch (closed ∷ rest) w = w
    watch (failed m ∷ rest) w = watch rest w
    watch (events es ∷ rest) w = watch rest (take_events es w)

-- The configurations that were put and parse, in their order.
abbrev pub parsed_events : Yaml → List Event → List Config
parsed_events yaml [] = []
parsed_events yaml (delete_event ∷ es) = parsed_events yaml es
parsed_events yaml (put_event value ∷ es) = elim (yaml.decode value) [
  | ok new ↦ new ∷ parsed_events yaml es
  | err e ↦ parsed_events yaml es
]

-- Those that come before the context is done or the channel is closed.
abbrev pub versions : Yaml → List Received → List Config
versions yaml [] = []
versions yaml (done ∷ rest) = []
versions yaml (closed ∷ rest) = []
versions yaml (failed m ∷ rest) = versions yaml rest
versions yaml (events es ∷ rest) = parsed_events yaml es ++ versions yaml rest

abbrev pub last_or : Config → List Config → Config
last_or c [] = c
last_or c (d ∷ ds) = last_or d ds

abbrev pub apply_all : {S : Type 0} → (Config → S → S) → List Config → S → S
apply_all f [] s = s
apply_all f (c ∷ cs) s = apply_all f cs (f c s)

-- The warnings at each change, against the configuration before it.
abbrev pub warn_all : Config → List Config → List Section
warn_all c [] = []
warn_all c (d ∷ ds) = warn_if_restart_required c d ++ warn_all d ds

unfoldable adopt_all : {S : Type 0} → (Config → S → S) → List Config → Watcher S → Watcher S
adopt_all f [] w = w
adopt_all f (c ∷ cs) w = adopt_all f cs (adopt f c w)

adopt_all-++ :
    {S : Type 0} (f : Config → S → S) (xs ys : List Config) (w : Watcher S)
    → adopt_all f (xs ++ ys) w ≡ adopt_all f ys (adopt_all f xs w)
unfolding adopt_all
adopt_all-++ f [] ys w = refl
adopt_all-++ f (x ∷ xs) ys w = adopt_all-++ f xs ys (adopt f x w)

take_events-adopt_all :
    {S : Type 0} (f : Config → S → S) (yaml : Yaml) (es : List Event) (w : Watcher S)
    → take_events f yaml es w ≡ adopt_all f (parsed_events yaml es) w
unfolding take_events adopt_all
take_events-adopt_all f yaml [] w = refl
take_events-adopt_all f yaml (delete_event ∷ es) w = take_events-adopt_all f yaml es w
take_events-adopt_all f yaml (put_event value ∷ es) w = elim (Result-cases (yaml.decode value)) [
  | inl (new, e) ↦
      rw (e, take_events, parsed_events) (take_events-adopt_all f yaml es (adopt f new w))
  | inr (x, e) ↦ rw (e, take_events, parsed_events) (take_events-adopt_all f yaml es w)
]

watch-adopt_all :
    {S : Type 0} (f : Config → S → S) (yaml : Yaml) (rs : List Received) (w : Watcher S)
    → watch f yaml rs w ≡ adopt_all f (versions yaml rs) w
unfolding watch adopt_all
watch-adopt_all f yaml [] w = refl
watch-adopt_all f yaml (done ∷ rest) w = refl
watch-adopt_all f yaml (closed ∷ rest) w = refl
watch-adopt_all f yaml (failed m ∷ rest) w = watch-adopt_all f yaml rest w
watch-adopt_all f yaml (events es ∷ rest) w =
    watch-adopt_all f yaml rest (take_events f yaml es w)
    ∙ ap (adopt_all f (versions yaml rest)) (take_events-adopt_all f yaml es w)
    ∙ sym (adopt_all-++ f (parsed_events yaml es) (versions yaml rest) w)

-- What a watcher should be after it has taken over some configurations.
abbrev pub Follows : {S : Type 0} → (Config → S → S) → List Config → Watcher S → Watcher S → Type 0
Follows f cs w w' =
    (load w'.config_store ≡ last_or (load w.config_store) cs)
    × (w'.state ≡ apply_all f cs w.state)
    × (w'.warnings ≡ w.warnings ++ warn_all (load w.config_store) cs)

adopt_all-Follows :
    {S : Type 0} (f : Config → S → S) (cs : List Config) (w : Watcher S)
    → Follows f cs w (adopt_all f cs w)
unfolding adopt_all adopt
adopt_all-Follows f [] w = (refl, refl, sym (append-nil w.warnings))
adopt_all-Follows f (c ∷ cs) w =
    let (config, state, warnings) = adopt_all-Follows f cs (adopt f c w) in
    (
      config,
      state,
      warnings
          ∙ append_assoc w.warnings (warn_if_restart_required (load w.config_store) c)
              (warn_all c cs),
    )

-- After `Watch` the store shows the last configuration that was put and parses, before the context
-- is done or the channel is closed, or the one it showed where there is none. The callback was
-- called with each of these, in their order, and the warnings compare each with the one before.
-- Deletions, texts that do not parse and responses with an error change nothing.
pub watch-Follows :
    {S : Type 0} (f : Config → S → S) (yaml : Yaml) (rs : List Received) (w : Watcher S)
    → Follows f (versions yaml rs) w (watch f yaml rs w)
watch-Follows f yaml rs w =
    subst (Follows f (versions yaml rs) w) (sym (watch-adopt_all f yaml rs w))
      (adopt_all-Follows f (versions yaml rs) w)
