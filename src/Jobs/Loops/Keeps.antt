-- ===== src/Jobs/Loops/Keeps.antt =====
-- What holds of the world through every tick holds through the loops.
use marketplace_simulator_pr.Common.{
  ℕ, String, Bool, true, false, Option, List, [], ◌∷◌, Bool-cases, Option-cases, inl, inr,
}
use marketplace_simulator_pr.Common.Int.{ℤ, pos}
use marketplace_simulator_pr.Errors.{Result-cases}
use marketplace_simulator_pr.Events.{Headers}
use marketplace_simulator_pr.Config.{OutboxConfig, ReservationExpiryConfig}
use marketplace_simulator_pr.Store.World.{World, Platform, M, ◌>>=◌, ◌>>◌, pure}
use marketplace_simulator_pr.Usecases.Reads.{database}
use marketplace_simulator_pr.Jobs.Expiry.{tick_expiry}
use marketplace_simulator_pr.Jobs.Loops.{
  Round, to_int32, outbox_interval, run_outbox, duration_or, second, expiry_round, run_expiry,
}

-- A call leads from worlds with `P` to worlds with `P`, successful or not.
abbrev pub Keeps {ℓ} : {A : Type ℓ} → (World → Type 0) → M A → Type 0
Keeps P m = (w : World) → P w → P (m w).1

pub bind-Keeps {ℓ κ} :
    {A : Type ℓ} {B : Type κ} (P : World → Type 0) (m : M A) (f : A → M B)
    → Keeps P m
    → ((a : A) → Keeps P (f a))
    → Keeps P (m >>= f)
bind-Keeps P m f first then w before = elim (Result-cases (m w).0) [
  | inl (a, r) ↦ rw (r, ◌>>=◌) (then a (m w).1 (first w before))
  | inr (e, r) ↦ rw (r, ◌>>=◌) (first w before)
]

Bool-Keeps {ℓ} :
    {A : Type ℓ} (P : World → Type 0) (b : Bool) (m n : M A)
    → Keeps P m
    → Keeps P n
    → Keeps P (elim b [ true ↦ m | false ↦ n ])
Bool-Keeps P true m n km kn = km
Bool-Keeps P false m n km kn = kn

pub run_outbox-Keeps :
    (parse : String → Option ℤ) (P : World → Type 0) (tick : ℤ → ℤ → M ℕ)
    → ((size limit : ℤ) → Keeps P (tick size limit))
    → (rounds : List (Round OutboxConfig)) (last : ℕ) → Keeps P (run_outbox parse tick rounds last)
unfolding run_outbox
run_outbox-Keeps parse P tick steps [] last = λ w before. before
run_outbox-Keeps parse P tick steps (r ∷ rs) last =
    let turn : M ℕ = elim r.config.enabled [
      | true ↦ tick r.config.batch_size (to_int32 r.config.max_retries)
      | false ↦ pure 0
    ] in
    let more : ℕ → M (List ℤ) = λ n.
      run_outbox parse tick rs n >>= λ waits. pure (outbox_interval parse r.config last ∷ waits) in
    Bool-Keeps P r.stopped (pure (outbox_interval parse r.config last ∷ [])) (turn >>= more)
      (λ w before. before)
      (bind-Keeps P turn more
        (Bool-Keeps P r.config.enabled (tick r.config.batch_size (to_int32 r.config.max_retries))
          (pure 0) (steps r.config.batch_size (to_int32 r.config.max_retries)) λ w before. before)
        λ n.
          bind-Keeps P (run_outbox parse tick rs n)
            (λ waits. pure (outbox_interval parse r.config last ∷ waits))
            (run_outbox-Keeps parse P tick steps rs n) λ waits w before. before)

expiry_round-Keeps :
    (parse : String → Option ℤ) (P : World → Type 0) (p : Platform) (headers : Headers)
    → ((ttl : ℤ) → Keeps P (tick_expiry p (database p) headers ttl))
    → (cfg : ReservationExpiryConfig) → Keeps P (expiry_round parse p (database p) headers cfg)
unfolding expiry_round
expiry_round-Keeps parse P p headers steps cfg w before = elim (Bool-cases cfg.enabled) [
  | inr off ↦ rw (off, expiry_round) before
  | inl on ↦ elim (Option-cases (parse cfg.ttl)) [
    | inl unread ↦ rw (on, unread, expiry_round) before
    | inr (ttl, read) ↦ rw (on, read, expiry_round) (steps ttl w before)
  ]
]

pub run_expiry-Keeps :
    (parse : String → Option ℤ) (P : World → Type 0) (p : Platform) (headers : Headers)
    → ((ttl : ℤ) → Keeps P (tick_expiry p (database p) headers ttl))
    → (rounds : List (Round ReservationExpiryConfig))
    → Keeps P (run_expiry parse p (database p) headers rounds)
unfolding run_expiry
run_expiry-Keeps parse P p headers steps [] = λ w before. before
run_expiry-Keeps parse P p headers steps (r ∷ rs) =
    let wait : ℤ = duration_or parse (pos second) r.config.job_interval in
    let turn : M (Unit {0}) = expiry_round parse p (database p) headers r.config in
    let more : M (List ℤ) =
      run_expiry parse p (database p) headers rs >>= λ waits. pure (wait ∷ waits) in
    Bool-Keeps P r.stopped (pure (wait ∷ [])) (turn >> more) (λ w before. before)
      (bind-Keeps P turn (λ _. more) (expiry_round-Keeps parse P p headers steps r.config)
        λ _.
          bind-Keeps P (run_expiry parse p (database p) headers rs) (λ waits. pure (wait ∷ waits))
            (run_expiry-Keeps parse P p headers steps rs) λ waits w before. before)
