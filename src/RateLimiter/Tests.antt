-- ===== src/RateLimiter/Tests.antt =====
-- rate_limiter.rs: a bucket at work, and its rate at concrete requests.
use noxy.Common.{Option, ℕ, ◌+◌, ◌*◌, ◌≤◌, none, some, List, [], ◌∷◌, length, ◌≡◌, refl, arith}
use noxy.RateLimiter.{SharedState, take_token, new_bucket, new_store, take}
use noxy.RateLimiter.Redis.{
  Hash, rate_limit_lua, bucket_of_stored, bucket_of_hash, RoundsUp, rate_limit_lua-refines,
}
use noxy.RateLimiter.Rate.{releases, releases-rate, last_of}

-- Two requests per 100: the third waits for the first token to flow back.
delays_third : releases 2 100 2 (new_bucket 0) (10 ∷ 20 ∷ 30 ∷ []) ≡ some (20 ∷ 40 ∷ 120 ∷ [])
unfolding releases noxy.RateLimiter.take_token
delays_third = refl

-- A limit of no requests has no rate: its first delay is infinite.
panics_at_zero : take (new_store 0 100 0) "a" 10 ≡ none
unfolding take noxy.KeyMap.lookup noxy.KeyMap.evict_if_needed new_store
panics_at_zero = refl

releases-rate_example :
    (first : ℕ) × (later : List ℕ) × (releases 2 100 2 (new_bucket 0) (10 ∷ 20 ∷ 30 ∷ [])
      ≡ some (first ∷ later))
    × (length later ≡ 2)
    × (first + 3 * 100 ≤ last_of first later + 2 * 100)
releases-rate_example =
    releases-rate 2 100 2 (new_bucket 0) 10 (20 ∷ 30 ∷ []) (omega arith) (omega arith)
      (omega arith, (omega arith, (omega arith, tt)))

-- One request per 1000 seconds, of which three came at once: the bucket owes two tokens.
abbrev owing : SharedState
owing = record {
  buckets =
      (
        "a",
        record { bucket = record { missing = 3_000_000_000_000; last_refill = 0 }; last_seen = 0 },
      )
      ∷ [];
  count = 1;
  window = 1_000_000_000_000;
  burst = 1;
  max_keys = 10;
  idle_ttl = 600_000_000_000;
  next_cleanup = 30_000_000_000;
}

abbrev delay_of : Option (SharedState × Option ℕ) → Option (Option ℕ)
delay_of none = none
delay_of (some (s, delay)) = some delay

-- After 1100 seconds the bucket is gone with what it owes, and a request passes at once, while the third
-- of the three still waits; the bucket itself would have it wait for 1900 seconds.
forgets_debt : delay_of (take owing "a" 1_100_000_000_000) ≡ some none
unfolding take noxy.KeyMap.lookup noxy.KeyMap.evict_if_needed noxy.KeyMap.retain
    noxy.RateLimiter.refill_horizon
forgets_debt = refl

bucket_keeps_debt :
    take_token 1 1_000_000_000_000 1
      (record { missing = 3_000_000_000_000; last_refill = 0 })
      1_100_000_000_000
    ≡ some (
      record { missing = 2_900_000_000_000; last_refill = 1_100_000_000_000 },
      some 1_900_000_000_000,
    )
unfolding take_token
bucket_keeps_debt = refl

-- One request per second, of which one came 250 ms ago: the next waits for 750 ms.
abbrev one_taken : Option Hash
one_taken = some (record { missing = 1_000_000_000; last_refill_ms = 5_000 })

replies_750 : (rate_limit_lua 1 1_000_000_000 1 5_250 one_taken).1 ≡ 750
unfolding rate_limit_lua
replies_750 = refl

rate_limit_lua-refines_example :
    (delay : Option ℕ) × (take_token 1 1_000_000_000 1
        (bucket_of_stored 5_250 one_taken)
        (5_250 * 1_000_000)
      ≡ some (bucket_of_hash (rate_limit_lua 1 1_000_000_000 1 5_250 one_taken).0, delay))
    × RoundsUp 1 delay (rate_limit_lua 1 1_000_000_000 1 5_250 one_taken).1
rate_limit_lua-refines_example =
    rate_limit_lua-refines 1 1_000_000_000 1 5_250 one_taken (omega arith) (omega arith)
