-- ===== src/RateLimiter.antt =====
-- src/middleware/rate_limiter.rs: the in-memory store of token buckets. The source counts tokens and the
-- rate of `count` tokens per window as `f64`; here they are exact. A token is cut into as many units as
-- the window has nanoseconds, so that `count` units flow in each nanosecond, and a bucket is kept by the
-- units that it lacks: `tokens` of the source are `burst - missing / window`. A delay is kept in units
-- too, and lasts as many nanoseconds as the units divided by `count`. Left out are the rounding of the
-- `f64`, windows of no length and delays beyond the longest `Duration`. A panic is `none`.
pub mod Rate
pub mod Redis
mod Tests
use noxy.Common.{
  ℕ, ◌+◌, ◌-◌, ◌*◌, ◌/◌, ◌==◌, max, Bool, true, false, ◌&&◌, Option, none, some, List, [], ◌∷◌,
  String, ltb, leb, if◌then◌else◌, ◌>>=◌,
}
use noxy.KeyMap.{lookup, insert, retain, evict_if_needed}
use noxy.Http.{Request, Outcome, Service}

pub record TokenBucket : Type 0 where
  pub missing : ℕ
  pub last_refill : ℕ

-- `TokenBucket::new(burst)`: full.
abbrev pub new_bucket : ℕ → TokenBucket
new_bucket now = record { missing = 0; last_refill = now }

-- `Duration::from_secs_f64(-tokens / rate)` panics where the rate is 0 and the quotient infinite.
pub delay_for : ℕ → ℕ → Option (Option ℕ)
delay_for count debt =
    if ltb 0 debt then (if count == 0 then none else some (some debt)) else some none

-- `TokenBucket::take`: the bucket after it, and the delay.
pub take_token : ℕ → ℕ → ℕ → TokenBucket → ℕ → Option (TokenBucket × Option ℕ)
unfolding delay_for
take_token count window burst b now =
    let missing : ℕ = b.missing - (now - b.last_refill) * count + window in
    do
      delay ← delay_for count (missing - burst * window)
      some (record { missing = missing; last_refill = now }, delay)

pub record BucketState : Type 0 where
  pub bucket : TokenBucket
  pub last_seen : ℕ

pub record SharedState : Type 0 where
  pub buckets : List (String × BucketState)
  pub count : ℕ
  pub window : ℕ
  pub burst : ℕ
  pub max_keys : ℕ
  pub idle_ttl : ℕ
  pub next_cleanup : ℕ

abbrev pub cleanup_interval : ℕ
cleanup_interval = 30_000_000_000

-- `InMemoryRateLimitStore::new`, as `RateLimiter::keyed` calls it, and its setters. A new burst is set
-- before the first request.
unfoldable pub new_store : ℕ → ℕ → ℕ → SharedState
new_store count window now = record {
  buckets = [];
  count = count;
  window = window;
  burst = count;
  max_keys = 10_000;
  idle_ttl = 600_000_000_000;
  next_cleanup = now + cleanup_interval;
}

pub set_burst : SharedState → ℕ → SharedState
set_burst s n = record s { burst = n }

pub set_max_keys : SharedState → ℕ → SharedState
set_max_keys s n = record s { max_keys = max n 1 }

pub set_idle_ttl : SharedState → ℕ → SharedState
set_idle_ttl s ttl = record s { idle_ttl = ttl }

-- How long an empty bucket takes to fill; the time is not finite where the rate is 0.
pub refill_horizon : SharedState → ℕ
refill_horizon s = if s.count == 0 then 0 else s.burst * s.window / s.count

pub effective_ttl : SharedState → ℕ
effective_ttl s = max s.idle_ttl (refill_horizon s)

unfoldable pub maybe_cleanup : SharedState → ℕ → SharedState
unfolding effective_ttl
maybe_cleanup s now = if ltb now s.next_cleanup then s else record s {
  buckets = retain (λ b. leb (now - b.last_seen) (effective_ttl s)) s.buckets;
  next_cleanup = now + cleanup_interval;
}

unfoldable pub evict_one : SharedState → String → ℕ → SharedState
unfolding effective_ttl
evict_one s key now = record s {
  buckets =
      evict_if_needed (λ b. ltb (effective_ttl s) (now - b.last_seen)) (λ b. b.last_seen) s.max_keys
        key s.buckets;
}

-- The bucket that `entry(key).or_insert_with(..)` yields.
abbrev pub bucket_of : ℕ → Option BucketState → TokenBucket
bucket_of now none = new_bucket now
bucket_of now (some b) = b.bucket

abbrev pub put_bucket : SharedState → String → ℕ → TokenBucket → SharedState
put_bucket s key now b = record s {
  buckets = insert key (record { bucket = b; last_seen = now }) s.buckets;
}

-- `SharedState::take`
unfoldable pub take : SharedState → String → ℕ → Option (SharedState × Option ℕ)
unfolding maybe_cleanup evict_one take_token
take s key now =
    let p = evict_one (maybe_cleanup s now) key now in
    do
      (b, delay) ← take_token p.count p.window p.burst (bucket_of now (lookup key p.buckets)) now
      some (put_bucket p key now b, delay)

-- `RateLimiterService::call`, from the store's answer on. The state below is given the time, in units,
-- at which the request reaches it.
pub call : {W : Type 0} → Service (ℕ × W) → ℕ → Option ℕ → Request → W → Outcome × (ℕ × W)
call inner now none req w = inner req (now, w)
call inner now (some delay) req w = inner req (now + delay, w)
