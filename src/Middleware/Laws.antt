-- ===== src/Middleware/Laws.antt =====
-- What a client can rely on, whatever the method behind the chain does.
use marketplace_simulator_pr.Common.{
  ◌≡◌, refl, ◌∙◌, ap, not, ◌||◌, ◌&&◌, String, Bool, true, false, Option, none, some, List, [], ◌∷◌,
  arith, Option-cases, inl, inr, Bool-cases,
}
use marketplace_simulator_pr.Errors.{
  Error, Message, Code, unauthenticated, invalid_argument, internal, status, resource_exhausted,
  not_found, failed_precondition, aborted, is, Target, wrap, plain, product_not_found,
  insufficient_product, optimistic_lock, lit, any_not_found, any_insufficient, any_optimistic_lock,
}
use marketplace_simulator_pr.Config.{AuthConfig}
use marketplace_simulator_pr.Middleware.Chain.{
  Outcome, reply, failed, panicked, Call, Handler, is_admin, grpc_status_from_err, with_status,
  chain, no_panic, auth, validate,
}

-- Authorization is off, or one of the values of `x-auth` is the admin's.
abbrev pub authorized : AuthConfig → Option (List String) → Bool
authorized cfg none = not cfg.enabled
authorized cfg (some values) = not cfg.enabled || is_admin cfg.admin_user values

abbrev pub is_valid : Option Message → Bool
is_valid none = true
is_valid (some m) = false

-- The code that an outcome shows to the client, if it shows one.
abbrev pub code_of : {R : Type 0} → Outcome R → Option Code
code_of (failed (status c m)) = some c
code_of _ = none

-- An error wrapped any number of times.
abbrev pub wraps : List String → Error → Error
wraps [] e = e
wraps (prefix ∷ prefixes) e = wrap prefix (wraps prefixes e)

is-wraps : (prefixes : List String) (e : Error) (t : Target) → is (wraps prefixes e) t ≡ is e t
unfolding is
is-wraps [] e t = refl
is-wraps (prefix ∷ prefixes) e t = is-wraps prefixes e t

-- The code that the program means for an error of its domain.
abbrev pub domain_code : Error → Code
domain_code (product_not_found sku) = not_found
domain_code (insufficient_product sku have want) = failed_precondition
domain_code optimistic_lock = aborted
domain_code _ = internal

abbrev pub IsDomain : Error → Type 0
IsDomain (status c m) = ⊥
IsDomain (wrap prefix e) = ⊥
IsDomain _ = Unit

-- The error under all wrapping.
abbrev pub root : Error → Error
root (wrap prefix e) = root e
root e = e

-- What a client sees, `o`, of the outcome of a method: the reply as it is; an error in which grpc
-- sees a status as it is; of any other error the code that the program means for the error under
-- its wrapping; and of a panic the code `internal`.
abbrev pub Shows : {R : Type 0} → (Error → Option Code) → Outcome R → Outcome R → Type 0
Shows from_error (reply r) o = o ≡ reply r
Shows from_error (panicked m) o = code_of o ≡ some internal
Shows from_error (failed e) o = elim (from_error e) [
  | some c ↦ o ≡ failed e
  | none ↦ code_of o ≡ some (domain_code (root e))
]

abbrev code_by : (missing lacking locked : Bool) → Code
code_by true lacking locked = not_found
code_by false true locked = failed_precondition
code_by false false true = aborted
code_by false false false = internal

grpc_status_from_err-code_by :
    (R : Type 0) (sprintf : Message → Message) (e : Error)
    → code_of {R = R} (failed (grpc_status_from_err sprintf e))
      ≡ some (code_by (is e any_not_found) (is e any_insufficient) (is e any_optimistic_lock))
unfolding grpc_status_from_err
grpc_status_from_err-code_by R sprintf e = ground arith

code_by-root :
    (e : Error)
    → code_by (is e any_not_found) (is e any_insufficient) (is e any_optimistic_lock)
      ≡ domain_code (root e)
unfolding is
code_by-root (wrap prefix e) = code_by-root e
code_by-root (product_not_found sku) = refl
code_by-root (insufficient_product sku have want) = refl
code_by-root optimistic_lock = refl
code_by-root (plain m) = refl
code_by-root (status c m) = refl

failed-Shows :
    (R : Type 0) (sprintf : Message → Message) (e : Error) (seen : Option Code)
    → let o : Outcome R =
        failed (elim seen [ some c ↦ e | none ↦ grpc_status_from_err sprintf e ]) in
      elim seen as (λ x. Type 0) [
        | some c ↦ o ≡ failed e
        | none ↦ code_of o ≡ some (domain_code (root e))
      ]
failed-Shows R sprintf e (some c) = refl
failed-Shows R sprintf e none = grpc_status_from_err-code_by R sprintf e ∙ ap some (code_by-root e)

outcome-Shows :
    {R : Type 0} (from_error : Error → Option Code) (sprintf : Message → Message) (o : Outcome R)
    → Shows from_error o (no_panic (with_status from_error sprintf o))
unfolding with_status
outcome-Shows from_error sprintf (reply r) = refl
outcome-Shows from_error sprintf (panicked m) = refl
outcome-Shows {R} from_error sprintf (failed e) = failed-Shows R sprintf e (from_error e)

-- `Auth` and `Validate` around a method, on every branch.
module _ {S R : Type 0} (cfg : AuthConfig) (method : Handler S R) (s : S) where
  guarded_passes :
      (x_auth : Option (List String)) (valid : Option Message)
      → authorized cfg x_auth ≡ true
      → is_valid valid ≡ true
      → auth cfg x_auth (validate valid method) s ≡ method s
  unfolding auth validate
  guarded_passes none none a v = ground arith
  guarded_passes (some values) none a v = ground arith
  guarded_passes x_auth (some m) a v = cc

  guarded_invalid :
      (x_auth : Option (List String)) (valid : Option Message) (m : Message)
      → valid ≡ some m
      → authorized cfg x_auth ≡ true
      → auth cfg x_auth (validate valid method) s ≡ (failed (status invalid_argument m), s, [])
  unfolding auth validate
  guarded_invalid x_auth none m e a = cc
  guarded_invalid none (some n) m e a = ground arith
  guarded_invalid (some values) (some n) m e a = ground arith

  guarded_refused :
      (x_auth : Option (List String)) (valid : Option Message)
      → authorized cfg x_auth ≡ false
      → (m : Message) × (auth cfg x_auth (validate valid method) s
          ≡ (failed (status unauthenticated m), s, []))
  unfolding auth validate
  guarded_refused none valid a = (lit "no metadata" ∷ [], ground arith)
  guarded_refused (some values) valid a = (lit "unauthorized" ∷ [], ground arith)

-- What `status.FromError` is documented to do with an error made by `status.Error`.
abbrev pub ReadsStatus : (Error → Option Code) → Type 0
ReadsStatus from_error = (c : Code) (m : Message) → from_error (status c m) ≡ some c

-- Why a call is turned away, the rate first, then the authorization, then the request itself.
abbrev pub refusal : Bool → Bool → Code
refusal true true = invalid_argument
refusal true false = unauthenticated
refusal false _ = resource_exhausted

module _ {S R : Type 0} (from_error : Error → Option Code) (sprintf : Message → Message) where
  -- A call within the rate, authorized and valid, reaches the method and has its effect. A reply of
  -- the method and an error in which grpc sees a status come to the client as they are, any other
  -- error with the code that the program means for the error under its wrapping, and a panic with
  -- the code `internal`.
  pub chain_admits :
      (cfg : AuthConfig) (call : Call) (method : Handler S R) (s : S)
      → authorized cfg call.x_auth ≡ true
      → is_valid call.valid ≡ true
      → let (o, s', _) = chain from_error sprintf true cfg call method s in
        Shows from_error (method s).0 o × (s' ≡ (method s).1)
  unfolding chain
  chain_admits cfg call method s a v =
      let e = guarded_passes cfg method s call.x_auth call.valid a v in
      rw e (outcome-Shows from_error sprintf (method s).0, refl)

  -- Where `from_error` knows the statuses that `status.Error` makes: any other call never reaches
  -- the method, whatever that would do: the state is as it was, and the client gets the code of
  -- the first test that failed.
  pub chain_refuses :
      (allowed : Bool) (cfg : AuthConfig) (call : Call) (method : Handler S R) (s : S)
      → ReadsStatus from_error
      → (allowed && authorized cfg call.x_auth && is_valid call.valid) ≡ false
      → let (o, s', _) = chain from_error sprintf allowed cfg call method s in
        (code_of o ≡ some (refusal allowed (authorized cfg call.x_auth))) × (s' ≡ s)
  unfolding chain with_status
  chain_refuses false cfg call method s reads h = (refl, refl)
  chain_refuses true cfg call method s reads h = elim (Bool-cases (authorized cfg call.x_auth)) [
    | inr stranger ↦
        let (m, e) = guarded_refused cfg method s call.x_auth call.valid stranger in
        rw (e, reads unauthenticated m, stranger) (refl, refl)
    | inl known ↦ elim (Option-cases call.valid) [
      | inl fine ↦ absurd (ground arith)
      | inr (m, wrong) ↦
          rw
            (
              guarded_invalid cfg method s call.x_auth call.valid m wrong known,
              reads invalid_argument m,
              known,
            )
            (refl, refl)
    ]
  ]

domain_case :
    (sprintf : Message → Message) (prefixes : List String) (e : Error)
    → IsDomain e
    → code_of {R = Unit {0}} (failed (grpc_status_from_err sprintf (wraps prefixes e)))
      ≡ some (domain_code e)
unfolding grpc_status_from_err
domain_case sprintf prefixes (product_not_found sku) d = simp is-wraps
domain_case sprintf prefixes (insufficient_product sku have want) d = simp is-wraps
domain_case sprintf prefixes optimistic_lock d = simp is-wraps
domain_case sprintf prefixes (plain m) d = simp is-wraps
domain_case sprintf prefixes (status c m) d = absurd d
domain_case sprintf prefixes (wrap prefix e) d = absurd d

-- An error of the domain reaches the client with the code that is meant for it, through all the
-- wrapping that it gets on its way, as long as grpc sees no status in it.
pub with_status-wraps :
    (R : Type 0) (from_error : Error → Option Code) (sprintf : Message → Message)
    (prefixes : List String) (e : Error)
    → IsDomain e
    → from_error (wraps prefixes e) ≡ none
    → code_of {R = R} (with_status from_error sprintf (failed (wraps prefixes e)))
      ≡ some (domain_code e)
unfolding with_status
with_status-wraps R from_error sprintf prefixes e d h = rw h (domain_case sprintf prefixes e d)
