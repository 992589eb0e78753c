-- ===== src/RateLimiter/Redis.antt =====
-- rate_limiter.rs, the Redis-backed store: its Lua script `RATE_LIMIT_LUA` on the hash of a key and the
-- server's clock, and the store around it. The hash keeps the units that a bucket lacks, as the bucket
-- in memory does; times are milliseconds of the server. A limit of no requests is left out: it has no
-- rate, and what the script divides by is 0.
use native.Mathlib.Nat.{div-mul-le_self, lt-div-mul-add}
use noxy.Common.{
  sym, ℕ, ◌+◌, ◌-◌, ◌*◌, ◌/◌, ◌≤◌, ◌<◌, Option, none, some, String, ℤ, pos, negsuc, ltb, leb, Bool,
  true, if◌then◌else◌, ◌≡◌, refl, sym, ap, ◌∙◌, arith, Bool-cases, inl, inr,
}
use noxy.RateLimiter.{TokenBucket, take_token, delay_for, SharedState, take}

pub record Hash : Type 0 where
  pub missing : ℕ
  pub last_refill_ms : ℕ

-- The units that flow in a millisecond.
abbrev pub per_ms : ℕ → ℕ
per_ms count = count * 1_000_000

-- `tokens == nil`
abbrev pub hash_or_full : ℕ → Option Hash → Hash
hash_or_full now_ms none = record { missing = 0; last_refill_ms = now_ms }
hash_or_full now_ms (some h) = h

-- `math.min(tokens + elapsed_s * rate, burst)`; where the clock went back, `elapsed_s` is negative.
unfoldable pub refill : ℕ → ℕ → Hash → ℕ
refill count now_ms h =
    if leb h.last_refill_ms now_ms
    then h.missing - (now_ms - h.last_refill_ms) * per_ms count
    else h.missing + (h.last_refill_ms - now_ms) * per_ms count

-- `math.ceil((-refilled / rate) * 1000)`, or 0.
unfoldable pub reply_ms : ℕ → ℕ → ℕ
reply_ms count debt = if ltb 0 debt then (debt + (per_ms count - 1)) / per_ms count else 0

-- `RATE_LIMIT_LUA`
unfoldable pub rate_limit_lua : ℕ → ℕ → ℕ → ℕ → Option Hash → Hash × ℕ
unfolding refill reply_ms
rate_limit_lua count window burst now_ms stored =
    let missing : ℕ = refill count now_ms (hash_or_full now_ms stored) + window in
    (
      record { missing = missing; last_refill_ms = now_ms },
      reply_ms count (missing - burst * window),
    )

-- `RedisRateLimitStore::take`: what Redis answered, in milliseconds, or nothing where it could not be
-- reached or the script failed. The delay is in units of the fallback's.
unfoldable pub redis_take : SharedState → String → ℕ → Option ℤ → Option (SharedState × Option ℕ)
unfolding take
redis_take s key now none = take s key now
redis_take s key now (some (negsuc n)) = some (s, none)
redis_take s key now (some (pos delay_ms)) =
    if ltb 0 delay_ms then some (s, some (delay_ms * per_ms s.count)) else some (s, none)

-- The bucket that a hash stands for, at the server's time in nanoseconds.
abbrev pub bucket_of_hash : Hash → TokenBucket
bucket_of_hash h = record { missing = h.missing; last_refill = h.last_refill_ms * 1_000_000 }

abbrev pub bucket_of_stored : ℕ → Option Hash → TokenBucket
bucket_of_stored now_ms stored = bucket_of_hash (hash_or_full now_ms stored)

-- A reply is the delay of the bucket, up to the next whole millisecond.
abbrev pub RoundsUp : ℕ → Option ℕ → ℕ → Type 0
RoundsUp count none reply = reply ≡ 0
RoundsUp count (some debt) reply =
    (debt ≤ reply * per_ms count) × (reply * per_ms count < debt + per_ms count)

reply_ms-RoundsUp :
    (count debt : ℕ) → 0 < count → 0 < debt → RoundsUp count (some debt) (reply_ms count debt)
unfolding reply_ms
reply_ms-RoundsUp count debt rate owed =
    let whole : ℕ = debt + (per_ms count - 1) in
    let below : whole / per_ms count * per_ms count ≤ whole =
      div-mul-le_self whole (per_ms count) in
    let above : whole < whole / per_ms count * per_ms count + per_ms count =
      lt-div-mul-add (omega arith) in
    elim (Bool-cases (ltb 0 debt)) [
      | inl owing ↦ rw owing (omega arith, omega arith)
      | inr even ↦ ground arith
    ]

refill-forward :
    (count now_ms : ℕ) (h : Hash)
    → h.last_refill_ms ≤ now_ms
    → refill count now_ms h
      ≡ h.missing - (now_ms * 1_000_000 - h.last_refill_ms * 1_000_000) * count
unfolding refill
refill-forward count now_ms h forward =
    let elapsed : now_ms * 1_000_000 - h.last_refill_ms * 1_000_000
        ≡ (now_ms - h.last_refill_ms) * 1_000_000 =
      omega arith in
    let known : leb h.last_refill_ms now_ms ≡ true = ground arith in
    let units : (now_ms - h.last_refill_ms) * per_ms count
        ≡ (now_ms - h.last_refill_ms) * 1_000_000 * count =
      omega arith in
    rw (known, elapsed) (ap (λ (n : ℕ). h.missing - n) units)

delay_for-rate :
    (count debt : ℕ)
    → 0 < count
    → delay_for count debt ≡ some (if ltb 0 debt then some debt else none)
unfolding delay_for
delay_for-rate count debt rate = ground arith

take_token-rate :
    (count window burst : ℕ) (b : TokenBucket) (now missing : ℕ)
    → 0 < count
    → b.missing - (now - b.last_refill) * count + window ≡ missing
    → take_token count window burst b now
      ≡ some (
        record { missing = missing; last_refill = now },
        if ltb 0 (missing - burst * window) then some (missing - burst * window) else none,
      )
unfolding take_token
take_token-rate count window burst b now missing rate e =
    rw (e, delay_for-rate count (missing - burst * window) rate) refl

-- With a rate, and where the server's clock has not gone back since the key's last request, the script
-- leaves the hash of the bucket that the store in memory has after the request, taken at the server's
-- time, and replies with that store's delay, rounded up to a whole millisecond. A key without a hash
-- counts as a full bucket.
pub rate_limit_lua-refines :
    (count window burst now_ms : ℕ) (stored : Option Hash)
    → 0 < count
    → (hash_or_full now_ms stored).last_refill_ms ≤ now_ms
    → (delay : Option ℕ) × (take_token count window burst
          (bucket_of_stored now_ms stored)
          (now_ms * 1_000_000)
        ≡ some (bucket_of_hash (rate_limit_lua count window burst now_ms stored).0, delay))
      × RoundsUp count delay (rate_limit_lua count window burst now_ms stored).1
unfolding rate_limit_lua
rate_limit_lua-refines count window burst now_ms stored rate forward =
    let h : Hash = hash_or_full now_ms stored in
    let missing : ℕ = refill count now_ms h + window in
    let debt : ℕ = missing - burst * window in
    let taken =
      take_token-rate count window burst (bucket_of_hash h) (now_ms * 1_000_000) missing rate
        (ap (λ (n : ℕ). n + window) (sym (refill-forward count now_ms h forward))) in
    let outcome : Bool → Option (TokenBucket × Option ℕ) = λ owes. some (
      record { missing = missing; last_refill = now_ms * 1_000_000 },
      if owes then some debt else none,
    ) in
    elim (Bool-cases (ltb 0 debt)) [
      | inl owing ↦
          (some debt, taken ∙ ap outcome owing, reply_ms-RoundsUp count debt rate (ground arith))
      | inr even ↦ (none, taken ∙ ap outcome even, rw even refl)
    ]
