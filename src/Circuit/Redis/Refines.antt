-- ===== src/Circuit/Redis/Refines.antt =====
-- The Lua scripts of circuit_breaker.rs keep the same state machine as the in-memory store.
use noxy.Common.{ℕ, ◌+◌, ◌^◌, ◌≤◌, ◌<◌, Bool, ◌≡◌, arith, ◌==◌, if◌then◌else◌}
use noxy.Circuit.{State, closed, open_until, half_open, check_state, record_state}
use noxy.Circuit.Redis.{Hash, or_zero, check_lua, record_lua, action_of}

-- The circuit that a hash stands for; times are in milliseconds here.
abbrev pub hash_state : Hash → State
hash_state h =
    if or_zero h.state == 0
    then closed (or_zero h.consecutive_failures)
    else if or_zero h.state == 1
    then open_until (or_zero h.until_ms)
    else half_open (or_zero h.in_flight)

-- The scripts write no other state than 0, 1 and 2.
pub record IsHash (h : Hash) : Type 0 where
  pub known : or_zero h.state ≤ 2
  pub failures_u32 : or_zero h.consecutive_failures + 1 < 2 ^ 32
  pub probes_u32 : or_zero h.in_flight + 1 < 2 ^ 32

-- On a hash of known state whose counters stay within 32 bits, the check script takes the step of the
-- in-memory `check` at the server's time, its return code stands for the same answer, and the state
-- stays a known one.
pub check_lua-refines :
    (half_open_probes now_ms : ℕ) (h : Hash)
    → IsHash h
    → let spec = check_state half_open_probes now_ms (hash_state h) in
      let (h', code) = check_lua half_open_probes now_ms h in
      (hash_state h' ≡ spec.0) × (action_of code ≡ spec.1) × (or_zero h'.state ≤ 2)
unfolding check_lua check_state
check_lua-refines half_open_probes now_ms h v = ground arith

-- The record script, likewise, takes the step of the in-memory `record`, to a
-- known state.
pub record_lua-refines :
    (threshold recovery_ms now_ms : ℕ) (success : Bool) (h : Hash)
    → IsHash h
    → (hash_state (record_lua threshold recovery_ms now_ms success h)
        ≡ record_state threshold recovery_ms now_ms success (hash_state h))
      × (or_zero (record_lua threshold recovery_ms now_ms success h).state ≤ 2)
unfolding record_lua record_state
record_lua-refines threshold recovery_ms now_ms success h v = ground arith
