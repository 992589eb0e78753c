-- ===== src/Retry/Service/Bounds.antt =====
-- retry.rs: how many requests a call sends, which answers it retries and which outcome it returns.
use noxy.Common.{
  if◌then◌else◌, ℕ, zero, suc, ◌+◌, ◌≤◌, Bool, true, false, Option, none, some, List, [], ◌∷◌,
  length, ◌≡◌, ◌⊎◌, refl, arith, inl, inr,
}
use noxy.Http.{Bytes, Request, Response, Outcome, ok, err}
use noxy.Retry.Capture.{ReplayCapture, snapshot}
use mathlib.Core.Logic.Or
use noxy.Retry.Backoff.{exponential_delay, retry_after_delay, retry_delay, exponential_delay-le}
use mathlib.Core.List.{Mem, mem-cons}
use mathlib.Core.Path.{subst}
use noxy.Common.{any, ◌==◌, ==_iff, ◌<◌, ◌*◌, ◌^◌, sym, Bool-cases}
use noxy.Retry.Settings.{Retry}
use noxy.Retry.Service.{
  after_budget, after_replay, Environment, Inner, Shared, Done, Call, Rest, Verdict, fails, accepts,
  retries_after, iteration, attempts, call, conclude, answered, returns, then_retry, or_else,
  spend_budget, rebuilt, body_of, recorded, verdict, method_retryable,
}

-- How an outcome that a call returns comes from the last answer: it is the answer, or the error that
-- ended the collection of its body.
abbrev pub Settles : Retry → Environment → ℕ → Option Bytes → Outcome → Outcome → Type 0
Settles r env attempt body_error answered outcome =
    (outcome ≡ answered)
    ⊎ ((resp : Response) × (e : Bytes) × (answered ≡ ok resp)
        × (outcome ≡ err e)
        × (verdict r env attempt resp body_error ≡ fails e))

module _ {W : Type 0} (r : Retry) (env : Environment) (attempt : ℕ) (req : Request) (rest : Rest W)
    (replay : Option Bytes) (capture : ReplayCapture) (body_error : Option Bytes)
    (P : Done W → Type 0)
    (stop : (reply outcome : Outcome) (shared : Shared W)
      → Settles r env attempt body_error reply outcome
      → P (returns req reply outcome shared))
    (go_on : (next : Option Bytes → ReplayCapture → Shared W → Done W) (resp : Response) (delay : ℕ)
        (bytes : Bytes) (shared : Shared W)
      → rest ≡ some next
      → or_else replay (snapshot capture) ≡ some bytes
      → verdict r env attempt resp body_error ≡ retries_after delay
      → P (then_retry req (ok resp) delay (next (some bytes) capture shared))) where
  after_budget-P :
      (next : Option Bytes → ReplayCapture → Shared W → Done W) (resp : Response) (delay : ℕ)
      (bytes : Bytes) (spent : Shared W × Bool)
      → rest ≡ some next
      → or_else replay (snapshot capture) ≡ some bytes
      → verdict r env attempt resp body_error ≡ retries_after delay
      → P (after_budget req resp delay next bytes capture spent)
  unfolding after_budget
  after_budget-P next resp delay bytes (shared, true) more found v =
      go_on next resp delay bytes shared more found v
  after_budget-P next resp delay bytes (shared, false) more found v =
      stop (ok resp) (ok resp) shared (inl refl)

  after_replay-P :
      (next : Option Bytes → ReplayCapture → Shared W → Done W) (resp : Response) (delay : ℕ)
      (shared : Shared W) (bytes : Option Bytes)
      → rest ≡ some next
      → or_else replay (snapshot capture) ≡ bytes
      → verdict r env attempt resp body_error ≡ retries_after delay
      → P (after_replay (env.retry_clock attempt) req resp delay next capture shared bytes)
  unfolding after_replay
  after_replay-P next resp delay shared none more found v =
      stop (ok resp) (ok resp) shared (inl refl)
  after_replay-P next resp delay shared (some bytes) more found v =
      after_budget-P next resp delay bytes (spend_budget shared (env.retry_clock attempt)) more
        found v

  conclude-P :
      (resp : Response) (shared : Shared W) (v : Verdict) (rest' : Rest W)
      → rest ≡ rest'
      → verdict r env attempt resp body_error ≡ v
      → P (conclude env attempt req resp rest' replay capture shared v)
  unfolding conclude
  conclude-P resp shared (fails e) rest' same h =
      stop (ok resp) (err e) shared (inr (resp, e, refl, refl, h))
  conclude-P resp shared accepts rest' same h = stop (ok resp) (ok resp) shared (inl refl)
  conclude-P resp shared (retries_after delay) none same h =
      stop (ok resp) (ok resp) shared (inl refl)
  conclude-P resp shared (retries_after delay) (some next) same h =
      after_replay-P next resp delay shared (or_else replay (snapshot capture)) same refl h

  -- Induction over an iteration: it returns, or goes on with the rest.
  pub answered-P :
      (shared : Shared W) (reply : Outcome)
      → P (answered r env attempt req rest replay capture body_error shared reply)
  unfolding answered
  answered-P shared (err e) = stop (err e) (err e) shared (inl refl)
  answered-P shared (ok resp) = conclude-P resp shared _ rest refl refl

-- As many requests as delays, and one more.
abbrev pub Counts : ℕ → {W : Type 0} → Done W → Type 0
Counts most d = (length d.sent ≡ length d.slept + 1) × (length d.sent ≤ most)

attempts-Counts :
    {W : Type 0} (r : Retry) (env : Environment) (inner : Inner W) (c : Call) (attempt left : ℕ)
    (replay : Option Bytes) (capture : ReplayCapture) (shared : Shared W)
    → Counts (left + 1) (attempts r env inner c attempt left replay capture shared)
unfolding attempts iteration
attempts-Counts r env inner c attempt zero replay capture shared =
    let req = rebuilt c.request (body_of c attempt replay) in
    let (answer, shared') = inner req shared in
    answered-P r env attempt req none replay (recorded c attempt capture answer.polled)
      answer.body_error (Counts 1) (λ reply outcome s h. (refl, omega arith))
      (λ next resp delay bytes s more found v. cc) shared' answer.outcome
attempts-Counts r env inner c attempt (suc left) replay capture shared =
    let req = rebuilt c.request (body_of c attempt replay) in
    let (answer, shared') = inner req shared in
    answered-P r env attempt req (some (attempts r env inner c (suc attempt) left)) replay
      (recorded c attempt capture answer.polled) answer.body_error (Counts (suc left + 1))
      (λ reply outcome s h. (refl, omega arith))
      (λ next resp delay bytes s more found v.
        let same : next ≡ attempts r env inner c (suc attempt) left = cc in
        let (counted, few) =
          attempts-Counts r env inner c (suc attempt) left (some bytes)
            (recorded c attempt capture answer.polled) s in
        rw same (omega (arith, counted), omega (arith, few)))
      shared' answer.outcome

-- A call sends one request more than it sleeps delays: at least one, no more than the configured
-- retries and one, and no more than one if its method is not to be retried.
pub call-Counts :
    {W : Type 0} (r : Retry) (env : Environment) (inner : Inner W) (exact_size : Option ℕ)
    (req : Request) (shared : Shared W)
    → let d = call r env inner exact_size req shared in
      (length d.sent ≡ length d.slept + 1)
      × (length d.sent
          ≤ (if method_retryable r.retry_methods req.method then r.max_retries else 0) + 1)
unfolding call
call-Counts r env inner exact_size req shared = attempts-Counts r env inner _ 0 _ _ _ _

-- How long a call waits after a response before the next attempt: as long as its `Retry-After` says, or
-- else no longer than the maximum, nor than the base doubled once for each attempt before.
abbrev pub Waits : Retry → ℕ → Response → ℕ → Type 0
Waits r attempt resp delay =
    (retry_after_delay resp ≡ some delay)
    ⊎ ((retry_after_delay resp ≡ none)
        × (delay ≤ r.max_backoff)
        × (delay ≤ r.backoff * 2 ^ attempt))

at_most : (b : Bool) (n : ℕ) → n ≤ 32 → 0 + (if b then n else 0) ≤ 32
at_most true n le = omega (arith, le)
at_most false n le = omega arith

-- The attempts of a call from one on: each but the last was answered by a response of one of the
-- statuses, before the delay that followed it, and the last answer is the outcome of the call.
abbrev pub Chained : Retry → ℕ → List (Request × Outcome) → List ℕ → Outcome → Type 0
Chained r attempt [] delays outcome = ⊥
Chained r attempt ((q, reply) ∷ sent) [] outcome = (sent ≡ []) × (outcome ≡ reply)
Chained r attempt ((q, reply) ∷ sent) (delay ∷ delays) outcome =
    (resp : Response) × (reply ≡ ok resp)
    × Mem resp.status r.statuses
    × Waits r attempt resp delay
    × Chained r (suc attempt) sent delays outcome

any-Mem : (n : ℕ) (ns : List ℕ) → any (λ s. s == n) ns ≡ true → Mem n ns
any-Mem n [] h = cc
any-Mem n (s ∷ ns) h = elim (Bool-cases (s == n)) [
  | inl same ↦ mem-cons.1 (Or.inl (sym ((==_iff s n).0 same)))
  | inr other ↦ mem-cons.1 (Or.inr (any-Mem n ns (ground (arith, h, other))))
]

module _ (r : Retry) (env : Environment) (drawn : (attempt n : ℕ) → env.random_range attempt n ≤ n)
    (by_status : r.policy ≡ none) where
  abbrev after_header : ℕ → Response → Option ℕ → ℕ
  after_header attempt resp none =
      exponential_delay (env.random_range attempt) r.backoff r.max_backoff attempt
  after_header attempt resp (some delay) = delay

  after_header-Waits :
      (attempt : ℕ) (resp : Response) (asked : Option ℕ)
      → attempt < 32
      → retry_after_delay resp ≡ asked
      → Waits r attempt resp (after_header attempt resp asked)
  after_header-Waits attempt resp none few missing =
      let (within, doubled) =
        exponential_delay-le (env.random_range attempt) r.backoff r.max_backoff attempt
          (drawn attempt) few in
      inr (missing, within, doubled)
  after_header-Waits attempt resp (some delay) few found = inl found

  retry_delay-Waits :
      (attempt : ℕ) (resp : Response)
      → attempt < 32
      → Waits r attempt resp
          (retry_delay (env.random_range attempt) r.backoff r.max_backoff attempt resp)
  unfolding retry_delay
  retry_delay-Waits attempt resp few =
      after_header-Waits attempt resp (retry_after_delay resp) few refl

  verdict-Waits :
      (attempt : ℕ) (resp : Response) (body_error : Option Bytes) (delay : ℕ)
      → attempt < 32
      → verdict r env attempt resp body_error ≡ retries_after delay
      → Mem resp.status r.statuses × Waits r attempt resp delay
  unfolding verdict
  verdict-Waits attempt resp body_error delay few h =
      let h1 = rw (by_status, verdict) at h in
      elim (Bool-cases (any (λ s. s == resp.status) r.statuses)) [
        | inl listed ↦
            let h2 = rw listed at h1 in
            let e : retry_delay (env.random_range attempt) r.backoff r.max_backoff attempt resp
                ≡ delay =
              cc in
            (
              any-Mem resp.status r.statuses listed,
              subst (Waits r attempt resp) e (retry_delay-Waits attempt resp few),
            )
        | inr other ↦ let h2 = rw other at h1 in cc
      ]

  settled :
      (attempt : ℕ) (body_error : Option Bytes) (reply outcome : Outcome)
      → Settles r env attempt body_error reply outcome
      → outcome ≡ reply
  unfolding verdict
  settled attempt body_error reply outcome (inl same) = same
  settled attempt body_error reply outcome (inr (resp, e, _, _, wrong)) =
      let h = rw (by_status, verdict) at wrong in
      elim (Bool-cases (any (λ s. s == resp.status) r.statuses)) [
        | inl listed ↦ let h2 = rw listed at h in cc
        | inr other ↦ let h2 = rw other at h in cc
      ]

  attempts-Chained :
      {W : Type 0} (inner : Inner W) (c : Call) (attempt left : ℕ) (replay : Option Bytes)
      (capture : ReplayCapture) (shared : Shared W)
      → attempt + left ≤ 32
      → let d = attempts r env inner c attempt left replay capture shared in
        Chained r attempt d.sent d.slept d.outcome
  unfolding attempts iteration
  attempts-Chained inner c attempt zero replay capture shared few =
      let req = rebuilt c.request (body_of c attempt replay) in
      let (answer, shared') = inner req shared in
      answered-P r env attempt req none replay (recorded c attempt capture answer.polled)
        answer.body_error (λ d. Chained r attempt d.sent d.slept d.outcome)
        (λ reply outcome s h. (refl, settled attempt answer.body_error reply outcome h))
        (λ next resp delay bytes s more found v. cc) shared' answer.outcome
  attempts-Chained inner c attempt (suc left) replay capture shared few =
      let req = rebuilt c.request (body_of c attempt replay) in
      let (answer, shared') = inner req shared in
      answered-P r env attempt req (some (attempts r env inner c (suc attempt) left)) replay
        (recorded c attempt capture answer.polled) answer.body_error
        (λ d. Chained r attempt d.sent d.slept d.outcome)
        (λ reply outcome s h. (refl, settled attempt answer.body_error reply outcome h))
        (λ next resp delay bytes s more found v.
          let same : next ≡ attempts r env inner c (suc attempt) left = cc in
          let (listed, waits) =
            verdict-Waits attempt resp answer.body_error delay (omega (arith, few)) v in
          rw same (
            resp,
            refl,
            listed,
            waits,
            attempts-Chained inner c (suc attempt) left (some bytes)
                (recorded c attempt capture answer.polled) s (omega (arith, few)),
          ))
        shared' answer.outcome

-- A call whose retries are decided by statuses, with at most 32 retries, retries only responses of one of
-- these statuses and returns its last answer. Before each retry it waits as long as the response's
-- `Retry-After` says, or else no longer than the maximum, nor than the base doubled once for each attempt
-- before. The generator draws from its range.
pub call-Chained :
    {W : Type 0} (r : Retry) (env : Environment) (inner : Inner W) (exact_size : Option ℕ)
    (req : Request) (shared : Shared W)
    → ((attempt n : ℕ) → env.random_range attempt n ≤ n)
    → r.policy ≡ none
    → r.max_retries ≤ 32
    → let d = call r env inner exact_size req shared in Chained r 0 d.sent d.slept d.outcome
unfolding call
call-Chained r env inner exact_size req shared drawn by_status few =
    attempts-Chained r env drawn by_status inner _ 0 _ _ _ _
      (at_most (method_retryable r.retry_methods req.method) r.max_retries few)
