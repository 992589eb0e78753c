-- ===== src/Circuit/Redis.antt =====
-- The Redis-backed store of circuit_breaker.rs: its two Lua scripts, as functions of the hash that
-- they read and write and of the server's clock in milliseconds, and the store around them. Redis
-- itself, its expiry of keys and the network are not modelled: the reply is an argument. The scripts'
-- `PEXPIRE`, which sets that expiry, is left out.
pub mod Refines
pub mod Cache
mod Tests
use noxy.Common.{
  ℕ, ◌+◌, ◌-◌, ◌*◌, min, Bool, true, false, Option, none, some, List, [], ◌∷◌, String, ltb, leb,
  ◌==◌, if◌then◌else◌, ℤ, pos, negsuc, ◌||◌,
}
use noxy.KeyMap.{lookup, insert, remove, retain}
use noxy.Circuit.{CircuitAction, allow, reject, SharedState, check, record_result, cleanup_interval}

-- The fields of a circuit's hash; a missing field reads as 0 (`tonumber(..) or 0`).
pub record Hash : Type 0 where
  pub state : Option ℕ
  pub until_ms : Option ℕ
  pub in_flight : Option ℕ
  pub consecutive_failures : Option ℕ

abbrev pub or_zero : Option ℕ → ℕ
or_zero none = 0
or_zero (some n) = n

-- `CB_CHECK_LUA`: the new hash and the return code.
pub check_lua : ℕ → ℕ → Hash → Hash × ℤ
check_lua half_open_probes now_ms h =
    if or_zero h.state == 0
    then (h, pos 0)
    else if or_zero h.state == 1
    then (if leb (or_zero h.until_ms) now_ms
        then (record h { state = some 2; in_flight = some 1 }, negsuc 0)
        else (h, pos (or_zero h.until_ms - now_ms)))
    else if or_zero h.state == 2
    then (if ltb (or_zero h.in_flight) half_open_probes
        then (record h { in_flight = some (or_zero h.in_flight + 1) }, negsuc 0)
        else (h, negsuc 1))
    else (h, pos 0)

-- `CB_RECORD_LUA`
pub record_lua : ℕ → ℕ → ℕ → Bool → Hash → Hash
record_lua threshold recovery_ms now_ms success h =
    if or_zero h.state == 0
    then (if success
        then record h { consecutive_failures = some 0 }
        else let failures : ℕ = or_zero h.consecutive_failures + 1 in
          if leb threshold failures
          then record {
            state = some 1;
            until_ms = some (now_ms + recovery_ms);
            in_flight = some 0;
            consecutive_failures = some failures;
          }
          else record h { consecutive_failures = some failures })
    else if or_zero h.state == 2
    then (if success
        then record h { state = some 0; consecutive_failures = some 0; in_flight = some 0 }
        else record {
          state = some 1;
          until_ms = some (now_ms + recovery_ms);
          in_flight = some 0;
          consecutive_failures = some 0;
        })
    else h

pub record CachedEntry : Type 0 where
  pub action : CircuitAction
  pub expires_at : ℕ

pub record LocalCache : Type 0 where
  pub entries : List (String × CachedEntry)
  pub next_cleanup : ℕ

-- `LocalCache::maybe_cleanup`
pub cache_cleanup : LocalCache → ℕ → LocalCache
cache_cleanup c now = if ltb now c.next_cleanup then c else record {
  entries = retain (λ e. ltb now e.expires_at) c.entries;
  next_cleanup = now + cleanup_interval;
}

pub record RedisStore : Type 0 where
  pub fallback : SharedState
  pub cache : LocalCache
  pub cache_ttl : Option ℕ

-- What came of asking Redis: no connection, a failed script, or the script's return code.
pub data Reply : Type 0 where
  unreachable script_failed : Reply
  ran : ℤ → Reply

-- The clock readings of one call: of the cache, of its write, and of the fallback store.
pub record Readings : Type 0 where
  pub cache_now : ℕ
  pub stored_at : ℕ
  pub fallback_now : ℕ
  pub fallback_later : ℕ

-- `code > 0 || code == -2`
abbrev pub action_of : ℤ → CircuitAction
action_of (pos n) = if ltb 0 n then reject else allow
action_of (negsuc n) = if n == 1 then reject else allow

abbrev pub store_entry : RedisStore → String → CircuitAction → ℕ → RedisStore
store_entry s key action expires_at = record s {
  cache = record s.cache {
    entries = insert key (record { action = action; expires_at = expires_at }) s.cache.entries;
  };
}

abbrev pub nanos_per_milli : ℕ
nanos_per_milli = 1_000_000

-- What a reply leaves in the cache: closed for the time to live, open for no longer than the recovery
-- time that remains, half-open nothing.
cache_reply : RedisStore → String → ℕ → ℤ → RedisStore
cache_reply s key stored_at (negsuc n) = s
cache_reply s key stored_at (pos code) = elim s.cache_ttl [
  | none ↦ s
  | some ttl ↦
      if code == 0
      then store_entry s key (action_of (pos code)) (stored_at + ttl)
      else store_entry s key (action_of (pos code)) (stored_at + min ttl (code * nanos_per_milli))
]

fallback_check : RedisStore → String → Readings → RedisStore × CircuitAction
fallback_check s key at =
    let (f, action) = check s.fallback key at.fallback_now at.fallback_later in
    (record s { fallback = f }, action)

-- `check` from the request to Redis on.
ask : RedisStore → String → Reply → Readings → RedisStore × CircuitAction
unfolding fallback_check cache_reply
ask s key unreachable at = fallback_check s key at
ask s key script_failed at = fallback_check s key at
ask s key (ran code) at = (cache_reply s key at.stored_at code, action_of code)

-- The cached action, if its entry has not expired.
abbrev pub live_action : ℕ → Option CachedEntry → Option CircuitAction
live_action now none = none
live_action now (some e) = if ltb now e.expires_at then some e.action else none

answer_or_ask :
    Option CircuitAction → RedisStore → String → Reply → Readings → RedisStore × CircuitAction
unfolding ask
answer_or_ask none s key reply at = ask s key reply at
answer_or_ask (some action) s key reply at = (s, action)

-- `RedisCircuitBreakerStore::check`; `reply` is what Redis would answer now.
pub redis_check : RedisStore → String → Reply → Readings → RedisStore × CircuitAction
unfolding answer_or_ask
redis_check s key reply at = elim s.cache_ttl [
  | none ↦ ask s key reply at
  | some ttl ↦
      let cleaned = record s { cache = cache_cleanup s.cache at.cache_now } in
      answer_or_ask (live_action at.cache_now (lookup key cleaned.cache.entries)) cleaned key reply
        at
]

abbrev pub forget : RedisStore → String → RedisStore
forget s key = elim s.cache_ttl [
  | none ↦ s
  | some ttl ↦ record s { cache = record s.cache { entries = remove key s.cache.entries } }
]

fallback_record : RedisStore → String → Bool → Readings → RedisStore
fallback_record s key success at = record s {
  fallback = record_result s.fallback key success at.fallback_now at.fallback_later;
}

-- `RedisCircuitBreakerStore::record`
pub redis_record : RedisStore → String → Bool → Reply → Readings → RedisStore
unfolding fallback_record
redis_record s key success unreachable at = fallback_record s key success at
redis_record s key success script_failed at = forget (fallback_record s key success at) key
redis_record s key success (ran code) at = forget s key
