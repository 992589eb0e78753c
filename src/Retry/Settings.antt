-- ===== src/Retry/Settings.antt =====
-- retry.rs, `Retry` and its builders. Those that set one field each are left out.
use noxy.Common.{all, leb, ltb, ◌&&◌, if◌then◌else◌, ℕ, Option, none, some, List, [], ◌∷◌}
use noxy.Http.{Bytes, Response}
use noxy.Retry.Budget.{BudgetState, Ratio, new_budget}

-- `PolicyKind`; a policy of the headers is given a response, of whose body it makes no use.
pub data PolicyKind : Type 0 where
  headers_policy : (Response → ℕ → Option ℕ) → PolicyKind
  body_policy : (Response → ℕ → Option ℕ) → PolicyKind

pub record Retry : Type 0 where
  pub statuses : List ℕ
  pub max_retries : ℕ
  pub backoff : ℕ
  pub max_backoff : ℕ
  pub policy : Option PolicyKind
  pub max_replay_body_bytes : ℕ
  pub budget_ratio : Option Ratio
  pub budget_window : ℕ
  pub budget_min_retries : ℕ
  pub budget_state : Option BudgetState
  pub retry_methods : Option (List Bytes)

-- GET, HEAD, PUT, DELETE, OPTIONS, TRACE
abbrev pub default_retry_methods : List Bytes
default_retry_methods =
    (71 ∷ 69 ∷ 84 ∷ [])
    ∷ (72 ∷ 69 ∷ 65 ∷ 68 ∷ [])
    ∷ (80 ∷ 85 ∷ 84 ∷ [])
    ∷ (68 ∷ 69 ∷ 76 ∷ 69 ∷ 84 ∷ 69 ∷ [])
    ∷ (79 ∷ 80 ∷ 84 ∷ 73 ∷ 79 ∷ 78 ∷ 83 ∷ [])
    ∷ (84 ∷ 82 ∷ 65 ∷ 67 ∷ 69 ∷ [])
    ∷ []

-- What `Retry::default` and `Retry::on_statuses` make of their statuses.
unfoldable pub with_statuses : List ℕ → Retry
with_statuses statuses = record {
  statuses = statuses;
  max_retries = 3;
  backoff = 1_000_000_000;
  max_backoff = 30_000_000_000;
  policy = none;
  max_replay_body_bytes = 1_048_576;
  budget_ratio = none;
  budget_window = 10_000_000_000;
  budget_min_retries = 30;
  budget_state = none;
  retry_methods = some default_retry_methods;
}

-- `Retry::on_statuses`, of numbers; `none` is its panic on one that is no status code.
unfoldable pub on_statuses : List ℕ → Option Retry
unfolding with_statuses
on_statuses statuses =
    if all (λ n. leb 100 n && ltb n 1000) statuses then some (with_statuses statuses) else none

unfoldable pub default : Retry
unfolding with_statuses
default = with_statuses (429 ∷ 502 ∷ 503 ∷ 504 ∷ [])

-- The budget's builders make a new state, from the settings so far.
pub budget : Retry → Ratio → ℕ → Retry
budget r ratio now = record r {
  budget_ratio = some ratio;
  budget_state = some (new_budget ratio r.budget_min_retries r.budget_window now);
}

renewed : Retry → ℕ → Retry
unfolding budget
renewed r now = elim r.budget_ratio [ none ↦ r | some ratio ↦ budget r ratio now ]

pub budget_window : Retry → ℕ → ℕ → Retry
unfolding renewed
budget_window r window now = renewed (record r { budget_window = window }) now

pub budget_min_retries : Retry → ℕ → ℕ → Retry
unfolding renewed
budget_min_retries r n now = renewed (record r { budget_min_retries = n }) now
