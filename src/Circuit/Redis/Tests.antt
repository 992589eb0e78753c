-- ===== src/Circuit/Redis/Tests.antt =====
-- circuit_breaker.rs: the theorems on the Redis-backed store at concrete hashes and replies.
use noxy.Common.{◌*◌, ◌+◌, ◌≤◌, false, [], ◌∷◌, ◌≡◌, refl, arith, none, some, pos}
use noxy.KeyMap.{lookup}
use noxy.Circuit.{new_store, check_state, record_state, half_open, reject, allow, open_until}
use noxy.Circuit.Redis.{
  Hash, or_zero, check_lua, record_lua, action_of, RedisStore, Readings, ran, unreachable,
  redis_check, redis_record, nanos_per_milli, CachedEntry,
}
use noxy.Circuit.Redis.Refines.{hash_state, check_lua-refines, record_lua-refines}
use noxy.Circuit.Redis.Cache.{redis_check-refusal_expires}

abbrev open_hash : Hash
open_hash = record {
  state = some 1;
  until_ms = some 70;
  in_flight = some 0;
  consecutive_failures = some 5;
}

abbrev closed_hash : Hash
closed_hash = record {
  state = none;
  until_ms = none;
  in_flight = none;
  consecutive_failures = some 4;
}

abbrev caching : RedisStore
caching = record {
  fallback = new_store 5 1000 0;
  cache = record { entries = []; next_cleanup = 30_000_000_000 };
  cache_ttl = some 5_000_000;
}

abbrev refusing : RedisStore
refusing = record caching {
  cache = record {
    entries = ("a", record { action = reject; expires_at = 90_000_000 }) ∷ [];
    next_cleanup = 30_000_000_000;
  };
}

abbrev readings : Readings
readings = record {
  cache_now = 50_000_000;
  stored_at = 52_000_000;
  fallback_now = 52_000_000;
  fallback_later = 52_000_000;
}

check_lua-refines_example :
    let spec = check_state 1 70 (open_until 70) in
    let (h', code) = check_lua 1 70 open_hash in
    (hash_state h' ≡ spec.0) × (action_of code ≡ spec.1) × (or_zero h'.state ≤ 2)
check_lua-refines_example =
    check_lua-refines 1 70 open_hash
      (record { known = omega arith; failures_u32 = omega arith; probes_u32 = omega arith })

record_lua-refines_example :
    (hash_state (record_lua 5 100 30 false closed_hash)
      ≡ record_state 5 100 30 false (hash_state closed_hash))
    × (or_zero (record_lua 5 100 30 false closed_hash).state ≤ 2)
record_lua-refines_example =
    record_lua-refines 5 100 30 false closed_hash
      (record { known = omega arith; failures_u32 = omega arith; probes_u32 = omega arith })

redis_check-refusal_expires_example :
    let (s', action) = redis_check caching "a" (ran (pos 20)) readings in
    (action ≡ reject)
    × (e : CachedEntry) × (lookup "a" s'.cache.entries ≡ some e)
    × (e.action ≡ reject)
    × (e.expires_at ≤ 57_000_000)
    × (e.expires_at ≤ 70 * nanos_per_milli + 2_000_000)
unfolding lookup noxy.Circuit.Redis.cache_cleanup check_lua
redis_check-refusal_expires_example =
    redis_check-refusal_expires caching "a" readings 5_000_000 1 50 20 open_hash refl refl
      (omega arith) refl (omega arith)
