-- ===== src/Circuit/Service.antt =====
-- circuit_breaker.rs, the layer: `CircuitBreaker` and the call of its service.
use noxy.Common.{ℕ, Bool, not, ◌&&◌, String, leb, ltb, [], ◌∷◌}
use noxy.Http.{Request, Response, Outcome, ok, err, Service, Bytes, plain_response}
use noxy.Circuit.{SharedState, CircuitAction, allow, reject, check, record_result}

-- `CircuitBreaker`, but for its store.
pub record CircuitBreaker : Type 0 where
  pub key_fn : Request → String
  pub failure_policy : Response → Bool
  pub reject_status : ℕ
  pub reject_body : Bytes

-- "circuit breaker open"
abbrev pub circuit_breaker_open : Bytes
circuit_breaker_open =
    99 ∷ 105 ∷ 114 ∷ 99 ∷ 117 ∷ 105 ∷ 116 ∷ 32 ∷ 98 ∷ 114 ∷ 101 ∷ 97 ∷ 107 ∷ 101 ∷ 114 ∷ 32 ∷ 111
    ∷ 112 ∷ 101 ∷ 110 ∷ []

-- The default policy, `is_server_error`.
abbrev pub is_server_error : Response → Bool
is_server_error resp = leb 500 resp.status && ltb resp.status 600

-- `CircuitBreaker::with_store`, but for the store.
pub with_store : (Request → String) → CircuitBreaker
with_store key_fn = record {
  key_fn = key_fn;
  failure_policy = is_server_error;
  reject_status = 503;
  reject_body = circuit_breaker_open;
}

-- The four clock readings of one call: those of `check`, and those of `record`.
pub record Clock : Type 0 where
  pub check_now : ℕ
  pub check_later : ℕ
  pub record_now : ℕ
  pub record_later : ℕ

-- The arm `Allow`: an upstream error leaves through `?`, before `record`.
unfoldable pub settle :
    {W : Type 0}
    → CircuitBreaker
    → Clock
    → String
    → SharedState
    → Outcome × W
    → Outcome × SharedState × W
settle cb clock key s (err e, w) = (err e, s, w)
settle cb clock key s (ok resp, w) = (
  ok resp,
  record_result s key (not (cb.failure_policy resp)) clock.record_now clock.record_later,
  w,
)

-- The match on the action. The inner future is lazy: on `Reject` it is dropped, and nothing below
-- the breaker runs.
unfoldable pub act :
    {W : Type 0}
    → CircuitBreaker
    → Service W
    → Clock
    → Request
    → SharedState
    → W
    → CircuitAction
    → Outcome × SharedState × W
unfolding settle
act cb inner clock req s w reject = (ok (plain_response cb.reject_status cb.reject_body), s, w)
act cb inner clock req s w allow = settle cb clock (cb.key_fn req) s (inner req w)

-- `CircuitBreakerService::call`, with no other request between its two store operations.
unfoldable pub call :
    {W : Type 0}
    → CircuitBreaker
    → Service W
    → Clock
    → Request
    → SharedState
    → W
    → Outcome × SharedState × W
unfolding act
call cb inner clock req s w =
    let (s', action) = check s (cb.key_fn req) clock.check_now clock.check_later in
    act cb inner clock req s' w action
