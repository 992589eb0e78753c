-- ===== src/Retry/Tests.antt =====
-- retry.rs: runs of its parts, and the theorems at concrete calls.
use mathlib.Core.List.{append-nil}
use noxy.Common.{
  ◌⊎◌, max, ◌-◌, ◌*◌, ◌<◌, ◌≤◌, ◌+◌, ℕ, zero, suc, none, some, List, [], ◌∷◌, ◌≡◌, refl, arith, All,
}
use noxy.Http.{Bytes, Request, Response, Outcome, ok, err}
use noxy.Retry.Budget.{Ratio, BudgetState, new_budget, run, requested, wants_retry, Operation}
use noxy.Retry.Budget.Window.{tally, run-WithinBudget}
use noxy.Retry.Capture.{
  new_capture, snapshot, poll_all, data_frame, ended, failed, pending, trailers, whole, replayable,
  last_polls, snapshot-eq-replayable,
}
use noxy.Retry.Backoff.{
  exponential_delay, exponential_delay-le, max_delay, max_delay-restarts, parse_u64,
}
use noxy.Retry.Settings.{Retry, default}
use noxy.Retry.Service.{Environment, Inner, Answer, Shared, Done, call, rebuilt, method_retryable}
use noxy.Retry.Service.Bounds.{call-Chained, Chained, call-Counts}
use noxy.Common.{length, if◌then◌else◌}
use noxy.Retry.Service.{method_retryable}
use noxy.Retry.Service.Replay.{call-SendsBody, ReadsBody}

abbrev tenth : Ratio
tenth = record { num = 1; den = 10 }

abbrev operations : List Operation
operations = requested 1 1 ∷ wants_retry 2 2 ∷ wants_retry 3 3 ∷ wants_retry 4 4 ∷ []

-- Two retries are the floor, and a third is over a tenth of all requests.
denies_third : (run (new_budget tenth 2 100 0) operations).retries ≡ 2
unfolding run new_budget
denies_third = refl

run-WithinBudget_example :
    let t =
      tally 100
        (new_budget tenth 2 100 0)
        (record { requests = 0; retries = 0; since = 0 })
        operations in
    (t.retries ≤ max 2 1)
    ⊎ ((t.retries - 1) * tenth.den < tenth.num * (t.requests + (t.retries - 1)))
run-WithinBudget_example = run-WithinBudget tenth 2 100 0 operations

snapshot-eq-replayable_example :
    snapshot (
      poll_all
        (new_capture 4)
        (data_frame (1 ∷ 2 ∷ []) ∷ pending ∷ data_frame (3 ∷ []) ∷ ended ∷ []))
    ≡ some (1 ∷ 2 ∷ 3 ∷ [])
snapshot-eq-replayable_example =
    snapshot-eq-replayable 4 (data_frame (1 ∷ 2 ∷ []) ∷ pending ∷ data_frame (3 ∷ []) ∷ []) whole
      (omega arith) tt

parses_seconds : parse_u64 (43 ∷ 49 ∷ 50 ∷ []) ≡ some 12
unfolding parse_u64
parses_seconds = refl

abbrev put : Request
put = record {
  method = 80 ∷ 85 ∷ 84 ∷ [];
  uri = record { scheme = none; authority = none; path = 47 ∷ []; query = none };
  headers = [];
  target = none;
  body = 7 ∷ 8 ∷ [];
}

-- An upstream that is unavailable at its first request.
abbrev warming_up : Inner ℕ
warming_up req shared = (
  record {
    outcome = ok (record {
      status = elim shared.below [ zero ↦ 503 | suc n ↦ 200 ];
      headers = [];
      body = [];
    });
    body_error = none;
    polled = data_frame req.body ∷ ended ∷ [];
  },
  record shared { below = suc shared.below },
)

abbrev environment : Environment
environment = record {
  request_clock = (1, 1);
  retry_clock = λ attempt. (2, 2);
  random_range = λ attempt n. n;
}

abbrev start : Shared ℕ
start = record { budget = some (new_budget tenth 2 100 0); below = 0 }

retries_once : (call default environment warming_up none put start).slept ≡ 1_000_000_000 ∷ []
unfolding call noxy.Retry.Service.attempts default noxy.Http.bytes_eq noxy.Retry.Service.iteration
    noxy.Retry.Service.verdict snapshot poll_all noxy.Retry.Capture.poll_frame
    noxy.Retry.Capture.record_chunk new_capture noxy.Retry.Service.spend_budget
    noxy.Retry.Budget.spend noxy.Retry.Budget.record_request new_budget
    noxy.Retry.Backoff.retry_delay noxy.Http.get exponential_delay max_delay
    noxy.Retry.Budget.allows_retry noxy.Retry.Budget.has_budget noxy.Retry.Budget.maybe_reset_window
    noxy.Retry.Budget.record_retry noxy.Retry.Settings.on_statuses
retries_once = refl

call-Chained_example :
    let d = call default environment warming_up none put start in
    Chained default 0 d.sent d.slept d.outcome
unfolding default
call-Chained_example =
    call-Chained default environment warming_up none put start (λ attempt n. omega arith) refl
      (omega arith)

call-Counts_example :
    let d = call default environment warming_up none put start in
    (length d.sent ≡ length d.slept + 1)
    × (length d.sent
        ≤ (if method_retryable default.retry_methods put.method then default.max_retries else 0)
          + 1)
call-Counts_example = call-Counts default environment warming_up none put start

warming_up-ReadsBody : (q : Request) (s : Shared ℕ) → ReadsBody q.body (warming_up q s).0.polled
warming_up-ReadsBody q s = record {
  frames = data_frame q.body ∷ [];
  ending = whole;
  split = refl;
  flowing = tt;
  read = append-nil q.body;
}

call-SendsBody_example :
    All
      (λ (q, o). q ≡ rebuilt put put.body)
      (call default environment warming_up none put start).sent
unfolding default
call-SendsBody_example =
    call-SendsBody default environment warming_up none put start warming_up-ReadsBody tt
      (omega arith)
