-- ===== src/Retry/Budget.antt =====
-- retry.rs, `BudgetState`. The ratio, an `f64` of the source, is a fraction here and compared exactly:
-- what the rounding of the source's division and of its conversions may change is left out. The two
-- counters are `u64` and too small to wrap in a window.
pub mod Window
use Prim.Native.Nat.{zero}
use noxy.Common.{
  false, sym, ap, suc, ℕ, ◌+◌, ◌-◌, ◌*◌, max, Bool, true, List, [], ◌∷◌, ltb, leb, ◌==◌,
  if◌then◌else◌, ◌≤◌, ◌<◌, ◌≡◌, ◌⊎◌, inl, inr, refl, arith, Bool-cases,
}

-- `num / den`
pub record Ratio : Type 0 where
  pub num : ℕ
  pub den : ℕ

pub record BudgetState : Type 0 where
  pub ratio : Ratio
  pub min_retries : ℕ
  pub window : ℕ
  pub requests : ℕ
  pub retries : ℕ
  pub window_start : ℕ

-- `BudgetState::new`
unfoldable pub new_budget : Ratio → ℕ → ℕ → ℕ → BudgetState
new_budget ratio min_retries window now = record {
  ratio = ratio;
  min_retries = min_retries;
  window = window;
  requests = 0;
  retries = 0;
  window_start = now;
}

-- The clock is read for `elapsed`, and again for the new start.
unfoldable pub maybe_reset_window : BudgetState → ℕ → ℕ → BudgetState
maybe_reset_window b now later =
    if leb b.window (now - b.window_start)
    then record b { requests = 0; retries = 0; window_start = later }
    else b

unfoldable pub record_request : BudgetState → ℕ → ℕ → BudgetState
unfolding maybe_reset_window
record_request b now later =
    let r = maybe_reset_window b now later in record r { requests = r.requests + 1 }

-- The tests of `allows_retry`, in a window.
unfoldable pub has_budget : BudgetState → Bool
has_budget b =
    if ltb b.retries b.min_retries
    then true
    else if b.requests + b.retries == 0
    then true
    else ltb (b.retries * b.ratio.den) (b.ratio.num * (b.requests + b.retries))

unfoldable pub allows_retry : BudgetState → ℕ → ℕ → BudgetState × Bool
unfolding maybe_reset_window has_budget
allows_retry b now later = let r = maybe_reset_window b now later in (r, has_budget r)

unfoldable pub record_retry : BudgetState → BudgetState
record_retry b = record b { retries = b.retries + 1 }

-- What the service does under the lock before it retries.
unfoldable pub spend : BudgetState → ℕ → ℕ → BudgetState × Bool
unfolding allows_retry record_retry
spend b now later =
    let (r, allowed) = allows_retry b now later in (if allowed then record_retry r else r, allowed)

pub data Operation : Type 0 where
  requested : ℕ → ℕ → Operation
  wants_retry : ℕ → ℕ → Operation

unfoldable pub step : BudgetState → Operation → BudgetState
unfolding record_request spend
step b (requested now later) = record_request b now later
step b (wants_retry now later) = (spend b now later).0

unfoldable pub run : BudgetState → List Operation → BudgetState
unfolding step
run b [] = b
run b (o ∷ os) = run (step b o) os
