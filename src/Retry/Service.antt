-- ===== src/Retry/Service.antt =====
-- retry.rs, the layer: the loop of `RetryService::call`. Between two of its steps the
-- other tasks of the proxy run: they may change the shared budget, and all that lies below the layer,
-- which is why a call of the inner service takes and returns both.
pub mod Bounds
pub mod Replay
use noxy.Common.{
  ℕ, zero, suc, ◌+◌, ◌==◌, Bool, true, false, not, ◌||◌, ◌&&◌, Option, none, some, List, [], ◌∷◌,
  any, if◌then◌else◌,
}
use noxy.Http.{Bytes, bytes_eq, Request, Response, Outcome, ok, err}
use noxy.Retry.Budget.{BudgetState, Ratio, new_budget, record_request, spend}
use noxy.Retry.Capture.{ReplayCapture, Polled, new_capture, snapshot, poll_all}
use noxy.Retry.Settings.{Retry, headers_policy, body_policy}
use noxy.Retry.Backoff.{retry_delay}

-- The budget that the tasks share, and the state of everything below.
pub record Shared (W : Type 0) : Type 0 where
  pub budget : Option BudgetState
  pub below : W

-- What a call of the inner service comes to: its outcome, what the collection of the response's body
-- fails with, if it does, and the polls of the request's body until then.
pub record Answer : Type 0 where
  pub outcome : Outcome
  pub body_error : Option Bytes
  pub polled : List Polled

abbrev pub Inner : Type 0 → Type 0
Inner W = Request → Shared W → Answer × Shared W

-- The clock at `record_request`, the clock at each attempt's `allows_retry`, and the generator of
-- random numbers of each attempt.
pub record Environment : Type 0 where
  pub request_clock : ℕ × ℕ
  pub retry_clock : ℕ → ℕ × ℕ
  pub random_range : ℕ → ℕ → ℕ

-- What the call returned, the requests that it sent with the outcome of each, in order, and the delays
-- that it slept.
pub record Done (W : Type 0) : Type 0 where
  pub outcome : Outcome
  pub sent : List (Request × Outcome)
  pub slept : List ℕ
  pub shared : Shared W

abbrev pub method_retryable : Option (List Bytes) → Bytes → Bool
method_retryable none method = true
method_retryable (some allow) method = any (λ m. bytes_eq m method) allow

-- A request of the loop: the builder takes the method, the URI, the version and the headers, and no
-- extension.
abbrev pub rebuilt : Request → Bytes → Request
rebuilt req body = record {
  method = req.method;
  uri = req.uri;
  headers = req.headers;
  target = none;
  body = body;
}

abbrev pub or_else : Option Bytes → Option Bytes → Option Bytes
or_else none b = b
or_else (some bytes) b = some bytes

-- What an attempt's response asks for: an error of the body's collection, a retry after a delay, or
-- nothing.
pub data Verdict : Type 0 where
  fails : Bytes → Verdict
  retries_after : ℕ → Verdict
  accepts : Verdict

abbrev pub verdict_of : Option ℕ → Verdict
verdict_of none = accepts
verdict_of (some delay) = retries_after delay

unfoldable pub verdict : Retry → Environment → ℕ → Response → Option Bytes → Verdict
verdict r env attempt resp body_error = elim r.policy [
  | none ↦
      if any (λ s. s == resp.status) r.statuses
      then retries_after
          (retry_delay (env.random_range attempt) r.backoff r.max_backoff attempt resp)
      else accepts
  | some (headers_policy f) ↦ verdict_of (f resp attempt)
  | some (body_policy f) ↦ elim body_error [ none ↦ verdict_of (f resp attempt) | some e ↦ fails e ]
]

-- The budget's part of a retry.
unfoldable pub spend_budget : {W : Type 0} → Shared W → ℕ × ℕ → Shared W × Bool
spend_budget shared (now, later) = elim shared.budget [
  | none ↦ (shared, true)
  | some b ↦ let (b', allowed) = spend b now later in (record shared { budget = some b' }, allowed)
]

-- The iterations after this one, if there are any.
abbrev pub Rest : Type 0 → Type 0
Rest W = Option (Option Bytes → ReplayCapture → Shared W → Done W)

abbrev pub returns : {W : Type 0} → Request → Outcome → Outcome → Shared W → Done W
returns req answered outcome shared = record {
  outcome = outcome;
  sent = (req, answered) ∷ [];
  slept = [];
  shared = shared;
}

abbrev pub then_retry : {W : Type 0} → Request → Outcome → ℕ → Done W → Done W
then_retry req answered delay d = record d {
  sent = (req, answered) ∷ d.sent;
  slept = delay ∷ d.slept;
}

-- The loop's next iteration, if the budget allows it.
pub after_budget :
    {W : Type 0}
    → Request
    → Response
    → ℕ
    → (Option Bytes → ReplayCapture → Shared W → Done W)
    → Bytes
    → ReplayCapture
    → Shared W × Bool
    → Done W
after_budget req resp delay next bytes capture (shared, true) =
    then_retry req (ok resp) delay (next (some bytes) capture shared)
after_budget req resp delay next bytes capture (shared, false) =
    returns req (ok resp) (ok resp) shared

-- A retry needs the bytes of the body.
pub after_replay :
    {W : Type 0}
    → ℕ × ℕ
    → Request
    → Response
    → ℕ
    → (Option Bytes → ReplayCapture → Shared W → Done W)
    → ReplayCapture
    → Shared W
    → Option Bytes
    → Done W
unfolding after_budget
after_replay clock req resp delay next capture shared none = returns req (ok resp) (ok resp) shared
after_replay clock req resp delay next capture shared (some bytes) =
    after_budget req resp delay next bytes capture (spend_budget shared clock)

-- The match on the verdict.
pub conclude :
    {W : Type 0}
    → Environment
    → ℕ
    → Request
    → Response
    → Rest W
    → Option Bytes
    → ReplayCapture
    → Shared W
    → Verdict
    → Done W
unfolding after_replay
conclude env attempt req resp rest replay capture shared (fails e) =
    returns req (ok resp) (err e) shared
conclude env attempt req resp rest replay capture shared accepts =
    returns req (ok resp) (ok resp) shared
conclude env attempt req resp none replay capture shared (retries_after delay) =
    returns req (ok resp) (ok resp) shared
conclude env attempt req resp (some next) replay capture shared (retries_after delay) =
    after_replay (env.retry_clock attempt) req resp delay next capture shared
      (or_else replay (snapshot capture))

-- The arm of an outcome: an error leaves through `?`.
pub answered :
    {W : Type 0}
    → Retry
    → Environment
    → ℕ
    → Request
    → Rest W
    → Option Bytes
    → ReplayCapture
    → Option Bytes
    → Shared W
    → Outcome
    → Done W
unfolding conclude
answered r env attempt req rest replay capture body_error shared (err e) =
    returns req (err e) (err e) shared
answered r env attempt req rest replay capture body_error shared (ok resp) =
    conclude env attempt req resp rest replay capture shared (verdict r env attempt resp body_error)

-- What the loop keeps from the start of the call.
pub record Call : Type 0 where
  pub request : Request
  pub body_known_empty : Bool
  pub retryable : Bool

abbrev pub body_of : Call → ℕ → Option Bytes → Bytes
body_of c zero replay = c.request.body
body_of c (suc attempt) none = []
body_of c (suc attempt) (some bytes) = bytes

-- Only the first attempt's body is recorded.
abbrev pub recorded : Call → ℕ → ReplayCapture → List Polled → ReplayCapture
recorded c zero capture polled =
    if c.body_known_empty || not c.retryable then capture else poll_all capture polled
recorded c (suc attempt) capture polled = capture

-- One iteration. A buffer that is not ready any more answers with an error, as the service itself.
unfoldable pub iteration :
    {W : Type 0}
    → Retry
    → Environment
    → Inner W
    → Call
    → ℕ
    → Rest W
    → Option Bytes
    → ReplayCapture
    → Shared W
    → Done W
unfolding answered
iteration r env inner c attempt rest replay capture shared =
    let req = rebuilt c.request (body_of c attempt replay) in
    let (answer, shared') = inner req shared in
    answered r env attempt req rest replay (recorded c attempt capture answer.polled)
      answer.body_error shared' answer.outcome

-- `for attempt in 0..=max_retries`, by the number of attempts after this one.
unfoldable pub attempts :
    {W : Type 0}
    → Retry
    → Environment
    → Inner W
    → Call
    → ℕ
    → ℕ
    → Option Bytes
    → ReplayCapture
    → Shared W
    → Done W
attempts r env inner c attempt zero replay capture shared =
    iteration r env inner c attempt none replay capture shared
attempts r env inner c attempt (suc left) replay capture shared =
    iteration r env inner c attempt (some (attempts r env inner c (suc attempt) left)) replay
      capture shared

abbrev pub count_request : {W : Type 0} → Shared W → ℕ × ℕ → Shared W
count_request shared (now, later) = elim shared.budget [
  | none ↦ shared
  | some b ↦ record shared { budget = some (record_request b now later) }
]

abbrev pub is_known_empty : Option ℕ → Bool
is_known_empty none = false
is_known_empty (some n) = n == 0

-- `RetryService::call`; `exact_size` is the exact size of the request's body, if it is known.
unfoldable pub call :
    {W : Type 0} → Retry → Environment → Inner W → Option ℕ → Request → Shared W → Done W
call r env inner exact_size req shared =
    let retryable = method_retryable r.retry_methods req.method in
    let known_empty = is_known_empty exact_size in
    attempts r env inner
      (record { request = req; body_known_empty = known_empty; retryable = retryable }) 0
      (if retryable then r.max_retries else 0) (if known_empty then some [] else none)
      (new_capture r.max_replay_body_bytes) (count_request shared env.request_clock)
