-- ===== src/Circuit/Redis/Cache.antt =====
-- The local cache of circuit_breaker.rs in front of Redis: what it keeps, and for how long.
use noxy.Common.{ℕ, ◌+◌, ◌-◌, ◌*◌, ◌≤◌, ◌<◌, min, Bool, none, some, String, ◌≡◌, refl, arith, pos}
use noxy.KeyMap.{lookup, Distinct}
use noxy.KeyMap.Lookup.{lookup-insert_self, lookup-remove_self}
use noxy.Circuit.{half_open, reject}
use noxy.Circuit.Redis.{
  store_entry, Hash, or_zero, check_lua, CachedEntry, cache_cleanup, RedisStore, Reply, unreachable,
  script_failed, ran, Readings, live_action, ask, redis_check, redis_record, nanos_per_milli,
}
use noxy.Circuit.Redis.Refines.{hash_state, IsHash}

-- The key has no live entry in the cache.
abbrev pub Misses : RedisStore → String → ℕ → Type 0
Misses s key now = live_action now (lookup key (cache_cleanup s.cache now).entries) ≡ none

-- What the check script says of an open circuit is the time that remains until its deadline.
check_lua_positive :
    (half_open_probes now_ms c : ℕ) (h : Hash)
    → 0 < c
    → (check_lua half_open_probes now_ms h).1 ≡ pos c
    → (or_zero h.state ≡ 1) × (now_ms + c ≡ or_zero h.until_ms)
unfolding check_lua
check_lua_positive half_open_probes now_ms c h positive e = ground arith

redis_check-miss :
    (s : RedisStore) (key : String) (at : Readings) (ttl c : ℕ)
    → s.cache_ttl ≡ some ttl
    → Misses s key at.cache_now
    → 0 < c
    → redis_check s key (ran (pos c)) at ≡ (
      store_entry
          (record s { cache = cache_cleanup s.cache at.cache_now })
          key
          reject
          (at.stored_at + min ttl (c * nanos_per_milli)),
      reject,
    )
unfolding redis_check
redis_check-miss s key at ttl c on miss positive = ground arith

-- A refusal that `check` takes from Redis and caches expires within the cache's time to live, and at
-- the circuit's recovery deadline plus the time between the server's clock reading and the write:
-- with clocks that agree, the cache holds a circuit open past its deadline for no longer than that.
pub redis_check-refusal_expires :
    (s : RedisStore) (key : String) (at : Readings) (ttl half_open_probes now_ms c : ℕ) (h : Hash)
    → s.cache_ttl ≡ some ttl
    → Misses s key at.cache_now
    → 0 < c
    → (check_lua half_open_probes now_ms h).1 ≡ pos c
    → now_ms * nanos_per_milli ≤ at.stored_at
    → let (s', action) = redis_check s key (ran (pos c)) at in
      (action ≡ reject)
      × (e : CachedEntry) × (lookup key s'.cache.entries ≡ some e)
      × (e.action ≡ reject)
      × (e.expires_at ≤ at.stored_at + ttl)
      × (e.expires_at
          ≤ or_zero h.until_ms * nanos_per_milli + (at.stored_at - now_ms * nanos_per_milli))
redis_check-refusal_expires s key at ttl probes now_ms c h on miss positive code fresh =
    let (_, remaining) = check_lua_positive probes now_ms c h positive code in
    rw (redis_check-miss s key at ttl c on miss positive) (
      refl,
      _,
      lookup-insert_self key _ (cache_cleanup s.cache at.cache_now).entries,
      refl,
      omega arith,
      omega arith,
    )

-- Where the check script leaves a circuit half-open, `check` writes nothing to the cache.
pub redis_check-half_open_uncached :
    (s : RedisStore) (key : String) (at : Readings) (half_open_probes now_ms n : ℕ) (h : Hash)
    → IsHash h
    → hash_state (check_lua half_open_probes now_ms h).0 ≡ half_open n
    → (redis_check s key (ran (check_lua half_open_probes now_ms h).1) at).0.cache
      ≡ (redis_check s key unreachable at).0.cache
unfolding redis_check check_lua ask
redis_check-half_open_uncached s key at probes now_ms n h v half = ground arith

-- `record` forgets the cached answer for its key, unless Redis cannot be reached: then it returns
-- early, and a cached answer outlives the outcome.
pub redis_record-invalidates :
    (s : RedisStore) (key : String) (success : Bool) (reply : Reply) (at : Readings) (ttl : ℕ)
    → s.cache_ttl ≡ some ttl
    → Distinct s.cache.entries
    → lookup key (redis_record s key success reply at).cache.entries ≡ (elim reply [
      | unreachable ↦ lookup key s.cache.entries
      | script_failed ↦ none
      | ran c ↦ none
    ])
unfolding redis_record
redis_record-invalidates s key success unreachable at ttl on d = refl
redis_record-invalidates s key success script_failed at ttl on d =
    rw on (lookup-remove_self key s.cache.entries d)
redis_record-invalidates s key success (ran c) at ttl on d =
    rw on (lookup-remove_self key s.cache.entries d)
