-- ===== src/Middleware/Chain.antt =====
-- The interceptors, one function each, over a handler.
use marketplace_simulator_pr.Common.{
  String, Bool, true, false, Option, none, some, List, [], ◌∷◌, if◌then◌else◌, ◌||◌, ◌++◌,
}
use text.Mathlib.Text.{◌==◌ as str_eq}
use marketplace_simulator_pr.Config.{AuthConfig}
use marketplace_simulator_pr.Errors.{
  Error, Message, Code, canceled, invalid_argument, not_found, already_exists, permission_denied,
  unauthenticated, resource_exhausted, failed_precondition, aborted, out_of_range, internal,
  unknown, status, lit, is, error_text, any_not_found, any_insufficient, any_optimistic_lock,
}

-- How a handler ends: a response, an error, or a panic with its value's text.
pub data Outcome (R : Type 0) : Type 0 where
  reply : R → Outcome R
  failed : Error → Outcome R
  panicked : Message → Outcome R

-- What a call of a method brings with it.
pub record Call : Type 0 where
  pub method : String
  pub x_auth : Option (List String)  -- the values of `x-auth`; `none` where there is no metadata
  pub valid : Option Message  -- what `ValidateAll` finds wrong, if the request has that method

-- What the interceptors leave behind: reports of a method and a code, and logged errors.
pub data Trace : Type 0 where
  reported : String → Option Code → Trace  -- `none` is the code OK
  logged_warning logged_error : String → Trace

abbrev pub Handler : Type 0 → Type 0 → Type 0
Handler S R = S → Outcome R × S × List Trace

abbrev pub is_admin : String → List String → Bool
is_admin admin [] = false
is_admin admin (v ∷ values) = str_eq v admin || is_admin admin values

-- `isClientError`
unfoldable pub is_client_error : Code → Bool
is_client_error invalid_argument = true
is_client_error not_found = true
is_client_error already_exists = true
is_client_error permission_denied = true
is_client_error unauthenticated = true
is_client_error failed_precondition = true
is_client_error out_of_range = true
is_client_error canceled = true
is_client_error _ = false

-- `grpcStatusFromErr`. `sprintf` is `fmt.Sprintf` without operands: `status.Errorf` is given the
-- text of the error as its format.
unfoldable pub grpc_status_from_err : (Message → Message) → Error → Error
unfolding is error_text
grpc_status_from_err sprintf e =
    if is e any_not_found
    then status not_found (sprintf (error_text e))
    else if is e any_insufficient
    then status failed_precondition (sprintf (error_text e))
    else if is e any_optimistic_lock
    then status aborted (sprintf (error_text e))
    else status internal (sprintf (error_text e))

-- Changes to what a handler gave: to its outcome, and a trace that is added.
abbrev pub finally :
    {S R : Type 0} → (Outcome R → Outcome R) → (Outcome R → List Trace) → Handler S R → Handler S R
finally change traced next s = let (o, s', t) = next s in (change o, s', t ++ traced o)

abbrev pub no_panic : {R : Type 0} → Outcome R → Outcome R
no_panic (panicked m) = failed (status internal (lit "panic: " ∷ m))
no_panic o = o

-- `from_error` is `status.FromError` of grpc: the code of an error that carries a status.
module _ (from_error : Error → Option Code) where
  -- `status.Code`; a panic passes `ReportRequestInfo` by.
  unfoldable pub report : {R : Type 0} → String → Outcome R → List Trace
  report method (reply r) = reported method none ∷ []
  report method (failed e) =
      reported method (elim (from_error e) [ some c ↦ some c | none ↦ some unknown ]) ∷ []
  report method (panicked m) = []

  -- `logError`
  unfoldable pub log_error : String → Error → List Trace
  unfolding is_client_error
  log_error method e = elim (from_error e) [
    | none ↦ logged_error method ∷ []
    | some c ↦ if is_client_error c then logged_warning method ∷ [] else logged_error method ∷ []
  ]

  abbrev pub log_outcome : {R : Type 0} → String → Outcome R → List Trace
  log_outcome method (failed e) = log_error method e
  log_outcome method _ = []

  unfoldable pub with_status : {R : Type 0} → (Message → Message) → Outcome R → Outcome R
  unfolding grpc_status_from_err
  with_status sprintf (failed e) =
      failed (elim (from_error e) [ some c ↦ e | none ↦ grpc_status_from_err sprintf e ])
  with_status sprintf o = o

module _ {S R : Type 0} where
  abbrev pub reject : Code → String → Handler S R
  reject c m s = (failed (status c (lit m ∷ [])), s, [])

  -- `RateLimit`; `allowed` is what `limiter.Allow()` answers.
  unfoldable pub rate_limit : Bool → Handler S R → Handler S R
  rate_limit allowed next =
      if allowed then next else reject resource_exhausted "api rate limit exceeded"

  -- `Panic`
  unfoldable pub recover : Handler S R → Handler S R
  recover = finally no_panic (λ _. [])

  -- `Auth`
  unfoldable pub auth : AuthConfig → Option (List String) → Handler S R → Handler S R
  auth cfg x_auth next =
      if cfg.enabled
      then (elim x_auth [
        | none ↦ reject unauthenticated "no metadata"
        | some values ↦
            if is_admin cfg.admin_user values then next else reject unauthenticated "unauthorized"
      ])
      else next

  -- `Validate`
  unfoldable pub validate : Option Message → Handler S R → Handler S R
  validate none next = next
  validate (some m) next = λ s. (failed (status invalid_argument m), s, [])

  module _ (from_error : Error → Option Code) (sprintf : Message → Message) where
    -- `ResponseTime`
    unfoldable pub response_time : String → Handler S R → Handler S R
    unfolding report
    response_time method = finally (λ o. o) (report from_error method)

    -- `Logger`, without the bodies that it can log.
    unfoldable pub logger : String → Handler S R → Handler S R
    unfolding log_error
    logger method = finally (λ o. o) (log_outcome from_error method)

    -- `StatusCode`
    unfoldable pub status_code : Handler S R → Handler S R
    unfolding with_status
    status_code = finally (with_status from_error sprintf) (λ _. [])

    -- The chain of app.go, outermost first.
    unfoldable pub chain : Bool → AuthConfig → Call → Handler S R → Handler S R
    unfolding rate_limit recover response_time logger status_code auth validate
    chain allowed cfg call method = rate_limit allowed (
        recover (
          response_time call.method
            (logger call.method (status_code (auth cfg call.x_auth (validate call.valid method))))))
