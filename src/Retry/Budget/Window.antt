-- ===== src/Retry/Budget/Window.antt =====
-- retry.rs: the retries that a budget allows in a window.
use Prim.Native.Nat.{zero}
use noxy.Common.{
  false, sym, ap, suc, ℕ, ◌+◌, ◌-◌, ◌*◌, max, Bool, true, List, [], ◌∷◌, ltb, leb, ◌==◌,
  if◌then◌else◌, ◌≤◌, ◌<◌, ◌≡◌, ◌⊎◌, inl, inr, refl, arith, Bool-cases,
}
use noxy.Retry.Budget.{
  Ratio, BudgetState, new_budget, maybe_reset_window, record_request, has_budget, allows_retry,
  record_retry, spend, Operation, requested, wants_retry, step, run,
}

-- The retries of the window are within its floor, or all but the last of them are within the ratio.
abbrev pub WithinBudget : BudgetState → Type 0
WithinBudget b =
    (b.retries ≤ max b.min_retries 1)
    ⊎ ((b.retries - 1) * b.ratio.den < b.ratio.num * (b.requests + (b.retries - 1)))

abbrev pub IsValid : Ratio → ℕ → BudgetState → Type 0
IsValid ratio min_retries b = (b.ratio ≡ ratio) × (b.min_retries ≡ min_retries) × WithinBudget b

reset-IsValid :
    (ratio : Ratio) (min_retries : ℕ) (b : BudgetState) (now later : ℕ)
    → IsValid ratio min_retries b
    → IsValid ratio min_retries (maybe_reset_window b now later)
unfolding maybe_reset_window
reset-IsValid ratio min_retries b now later v = ground arith

more_requests : (num requests r : ℕ) → num * (requests + r) ≤ num * (requests + 1 + r)
more_requests zero requests r = omega arith
more_requests (suc num) requests r = omega (arith, more_requests num requests r)

request-Within :
    (b : BudgetState) → WithinBudget b → WithinBudget (record b { requests = b.requests + 1 })
request-Within b (inl floor) = inl floor
request-Within b (inr under) =
    inr (omega (arith, under, more_requests b.ratio.num b.requests (b.retries - 1)))

retry-Within :
    (b : BudgetState) → WithinBudget b → has_budget b ≡ true → WithinBudget (record_retry b)
unfolding has_budget record_retry
retry-Within b v allowed = elim (Bool-cases (ltb b.retries b.min_retries)) [
  | inl floor ↦ inl (ground arith)
  | inr over ↦ elim (Bool-cases (b.requests + b.retries == 0)) [
    | inl fresh ↦ inl (ground arith)
    | inr busy ↦ inr (ground arith)
  ]
]

step-IsValid :
    (ratio : Ratio) (min_retries : ℕ) (b : BudgetState) (o : Operation)
    → IsValid ratio min_retries b
    → IsValid ratio min_retries (step b o)
unfolding step
step-IsValid ratio min_retries b (requested now later) v =
    let (r, m, w) = reset-IsValid ratio min_retries b now later v in
    unfold record_request in (r, m, request-Within (maybe_reset_window b now later) w)
step-IsValid ratio min_retries b (wants_retry now later) v =
    elim (Bool-cases (has_budget (maybe_reset_window b now later))) [
      | inl granted ↦
          let (r, m, w) = reset-IsValid ratio min_retries b now later v in
          rw granted (
            unfold record_retry in r,
            unfold record_retry in m,
            retry-Within (maybe_reset_window b now later) w granted,
          )
      | inr denied ↦ rw denied (reset-IsValid ratio min_retries b now later v)
    ]

run-IsValid :
    (ratio : Ratio) (min_retries : ℕ) (b : BudgetState) (os : List Operation)
    → IsValid ratio min_retries b
    → IsValid ratio min_retries (run b os)
unfolding run
run-IsValid ratio min_retries b [] v = v
run-IsValid ratio min_retries b (o ∷ os) v =
    run-IsValid ratio min_retries (step b o) os (step-IsValid ratio min_retries b o v)

-- What an observer counts of a window, from the operations and the answers: the requests, the retries
-- that were allowed, and when the window began. A window ends when an operation finds it old enough.
pub record Tally : Type 0 where
  pub requests : ℕ
  pub retries : ℕ
  pub since : ℕ

abbrev pub in_window : ℕ → Tally → ℕ → ℕ → Tally
in_window window t now later =
    if leb window (now - t.since) then record { requests = 0; retries = 0; since = later } else t

abbrev pub one_request : Tally → Tally
one_request t = record t { requests = t.requests + 1 }

abbrev pub one_retry : Bool → Tally → Tally
one_retry true t = record t { retries = t.retries + 1 }
one_retry false t = t

unfoldable pub tally : ℕ → BudgetState → Tally → List Operation → Tally
tally window b t [] = t
tally window b t (requested now later ∷ os) =
    tally window (step b (requested now later)) (one_request (in_window window t now later)) os
tally window b t (wants_retry now later ∷ os) =
    tally window (step b (wants_retry now later))
      (one_retry (spend b now later).1 (in_window window t now later)) os

-- The state counts what the observer does.
record Counts (window : ℕ) (b : BudgetState) (t : Tally) : Type 0 where
  window_kept : b.window ≡ window
  requests : b.requests ≡ t.requests
  retries : b.retries ≡ t.retries
  since : b.window_start ≡ t.since

reset-Counts :
    (window : ℕ) (b : BudgetState) (t : Tally) (now later : ℕ)
    → Counts window b t
    → Counts window (maybe_reset_window b now later) (in_window window t now later)
unfolding maybe_reset_window
reset-Counts window b t now later c =
    let same : leb b.window (now - b.window_start) ≡ leb window (now - t.since) =
      λ i. leb (c.window_kept i) (now - c.since i) in
    elim (Bool-cases (leb window (now - t.since))) [
      | inl over ↦
          rw (same, over)
            (record { window_kept = c.window_kept; requests = refl; retries = refl; since = refl })
      | inr within ↦ rw (same, within) c
    ]

request-Counts :
    (window : ℕ) (b : BudgetState) (t : Tally) (now later : ℕ)
    → Counts window b t
    → Counts window (record_request b now later) (one_request (in_window window t now later))
unfolding record_request
request-Counts window b t now later c =
    let r = reset-Counts window b t now later c in
    record {
      window_kept = r.window_kept;
      requests = ap (λ (n : ℕ). n + 1) r.requests;
      retries = r.retries;
      since = r.since;
    }

spend-Counts :
    (window : ℕ) (b : BudgetState) (t : Tally) (now later : ℕ)
    → Counts window b t
    → Counts window
        (spend b now later).0
        (one_retry (spend b now later).1 (in_window window t now later))
unfolding spend allows_retry record_retry
spend-Counts window b t now later c =
    let r = reset-Counts window b t now later c in
    elim (Bool-cases (has_budget (maybe_reset_window b now later))) [
      | inl granted ↦ rw granted (record {
        window_kept = r.window_kept;
        requests = r.requests;
        retries = ap (λ (n : ℕ). n + 1) r.retries;
        since = r.since;
      })
      | inr denied ↦ rw denied r
    ]

run-Counts :
    (window : ℕ) (b : BudgetState) (t : Tally) (os : List Operation)
    → Counts window b t
    → Counts window (run b os) (tally window b t os)
unfolding run tally step
run-Counts window b t [] c = c
run-Counts window b t (requested now later ∷ os) c =
    run-Counts window (record_request b now later) _ os (request-Counts window b t now later c)
run-Counts window b t (wants_retry now later ∷ os) c =
    run-Counts window (spend b now later).0 _ os (spend-Counts window b t now later c)

counted :
    (ratio : Ratio) (min_retries : ℕ) (b : BudgetState) (t : Tally)
    → b.ratio ≡ ratio
    → b.min_retries ≡ min_retries
    → WithinBudget b
    → b.requests ≡ t.requests
    → b.retries ≡ t.retries
    → (t.retries ≤ max min_retries 1)
      ⊎ ((t.retries - 1) * ratio.den < ratio.num * (t.requests + (t.retries - 1)))
counted ratio min_retries b t same_ratio same_floor within requests retries =
    rw (sym same_ratio, sym same_floor, sym requests, sym retries) within

-- Whatever requests and retries share a budget, and however its windows follow each other: counted from
-- the operations and the answers since the window began, the retries that were allowed are within the
-- floor (or 1), or all but the last of them are within the ratio of the requests and of themselves.
pub run-WithinBudget :
    (ratio : Ratio) (min_retries window start : ℕ) (os : List Operation)
    → let t =
        tally window
          (new_budget ratio min_retries window start)
          (record { requests = 0; retries = 0; since = start })
          os in
      (t.retries ≤ max min_retries 1)
      ⊎ ((t.retries - 1) * ratio.den < ratio.num * (t.requests + (t.retries - 1)))
run-WithinBudget ratio min_retries window start os =
    let b : BudgetState = new_budget ratio min_retries window start in
    let t : Tally = record { requests = 0; retries = 0; since = start } in
    let (same_ratio, same_floor, within) =
      run-IsValid ratio min_retries b os (unfold new_budget in (refl, refl, inl (omega arith))) in
    let c = run-Counts window b t os (
      unfold new_budget in
      record { window_kept = refl; requests = refl; retries = refl; since = refl }) in
    counted ratio min_retries (run b os) (tally window b t os) same_ratio same_floor within
      c.requests c.retries
