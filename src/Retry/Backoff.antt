-- ===== src/Retry/Backoff.antt =====
-- retry.rs, `exponential_delay` and `retry_after_delay`, in nanoseconds.
use noxy.Common.{
  ap, ◌==◌, ◌>>=◌, ◌&&◌, ◌%◌, ℕ, ◌+◌, ◌-◌, ◌*◌, ◌^◌, min, Option, none, some, [], ◌∷◌, leb,
  if◌then◌else◌, ◌≤◌, ◌<◌, ◌≡◌, arith,
}
use noxy.Http.{get, Bytes, Response}

abbrev pub nanos_per_second : ℕ
nanos_per_second = 1_000_000_000

-- `Duration::MAX`
abbrev pub duration_max : ℕ
duration_max = 2 ^ 64 * nanos_per_second - 1

-- `1 << attempt` on `u32`: the shift count is taken modulo 32 where overflow is not checked.
abbrev pub shifted : ℕ → ℕ
shifted attempt = 2 ^ (attempt % 32)

-- `base.saturating_mul(1 << attempt).min(max_backoff)`
unfoldable pub max_delay : ℕ → ℕ → ℕ → ℕ
max_delay base max_backoff attempt = min (min (base * shifted attempt) duration_max) max_backoff

-- `rand::random_range(0..=n)` is `random_range n`; `as_nanos() as u64` wraps.
unfoldable pub exponential_delay : (ℕ → ℕ) → ℕ → ℕ → ℕ → ℕ
unfolding max_delay
exponential_delay random_range base max_backoff attempt =
    random_range (max_delay base max_backoff attempt % 2 ^ 64)

abbrev pub u64_max : ℕ
u64_max = 2 ^ 64 - 1

-- The digits of `parse::<u64>()`, from the first: each is added by `checked_mul` and `checked_add`.
unfoldable pub parse_digits : ℕ → Bytes → Option ℕ
parse_digits n [] = some n
parse_digits n (c ∷ cs) =
    if leb 48 c && leb c 57
    then (if leb (n * 10 + (c - 48)) u64_max then parse_digits (n * 10 + (c - 48)) cs else none)
    else none

-- What follows a plus sign.
unfoldable pub parse_unsigned : Bytes → Option ℕ
unfolding parse_digits
parse_unsigned [] = none
parse_unsigned (c ∷ cs) = parse_digits 0 (c ∷ cs)

-- `value.parse::<u64>()`: digits, at least one, after a plus sign or none.
unfoldable pub parse_u64 : Bytes → Option ℕ
unfolding parse_unsigned
parse_u64 [] = none
parse_u64 (c ∷ cs) = if c == 43 then parse_unsigned cs else parse_digits 0 (c ∷ cs)

-- "retry-after"
abbrev pub retry_after : Bytes
retry_after = 114 ∷ 101 ∷ 116 ∷ 114 ∷ 121 ∷ 45 ∷ 97 ∷ 102 ∷ 116 ∷ 101 ∷ 114 ∷ []

pub retry_after_delay : Response → Option ℕ
unfolding parse_u64
retry_after_delay resp = do
  value ← get retry_after resp.headers
  seconds ← parse_u64 value
  some (seconds * nanos_per_second)

-- `delay` of the service's loop, where no policy is set.
unfoldable pub retry_delay : (ℕ → ℕ) → ℕ → ℕ → ℕ → Response → ℕ
unfolding retry_after_delay exponential_delay
retry_delay random_range base max_backoff attempt resp = elim (retry_after_delay resp) [
  | none ↦ exponential_delay random_range base max_backoff attempt
  | some delay ↦ delay
]

-- Without `Retry-After`, a delay is at most the maximum and, for the first 32 attempts, at most the
-- base doubled once for each attempt before, whatever number the generator draws from its range.
pub exponential_delay-le :
    (random_range : ℕ → ℕ) (base max_backoff attempt : ℕ)
    → ((n : ℕ) → random_range n ≤ n)
    → attempt < 32
    → (exponential_delay random_range base max_backoff attempt ≤ max_backoff)
      × (exponential_delay random_range base max_backoff attempt ≤ base * 2 ^ attempt)
unfolding exponential_delay max_delay
exponential_delay-le random_range base max_backoff attempt drawn few =
    let bound : ℕ = max_delay base max_backoff attempt in
    let wrapped : bound % 2 ^ 64 ≤ bound = omega arith in
    let same : attempt % 32 ≡ attempt = omega arith in
    let doubled : base * 2 ^ (attempt % 32) ≡ base * 2 ^ attempt = ap (λ k. base * 2 ^ k) same in
    omega (arith, drawn (bound % 2 ^ 64), wrapped, doubled)

-- The bound of the backoff starts again at the base after 32 attempts.
pub max_delay-restarts :
    (base max_backoff attempt : ℕ)
    → max_delay base max_backoff (attempt + 32) ≡ max_delay base max_backoff attempt
unfolding max_delay
max_delay-restarts base max_backoff attempt =
    let same : (attempt + 32) % 32 ≡ attempt % 32 = omega arith in
    ap (λ k. min (min (base * 2 ^ k) duration_max) max_backoff) same
