-- ===== src/Circuit.antt =====
-- src/middleware/circuit_breaker.rs: the in-memory store of the circuit breaker, and `CircuitAction` of
-- src/middleware/store.rs. A call reads the clock twice, as the source does: `now` for bookkeeping and
-- `later` where a deadline is compared or set. The mutex makes each store operation one step; a run of
-- the proxy is a list of such steps in the order in which they lock it.
pub mod View
pub mod Invariant
pub mod Transition
pub mod Trip
pub mod Failures
pub mod Wedge
pub mod Capacity
pub mod Service
pub mod Redis
mod Tests
use noxy.Common.{
  ℕ, ◌+◌, ◌-◌, max, Bool, true, false, not, ◌||◌, ◌&&◌, Option, none, some, List, [], ◌∷◌, String,
  ltb, leb, inc_u32, if◌then◌else◌,
}
use noxy.KeyMap.{lookup, insert, retain, evict_if_needed}

-- `Open { until }` is `open_until until`.
pub data State : Type 0 where
  closed : ℕ → State
  open_until : ℕ → State
  half_open : ℕ → State

pub data CircuitAction : Type 0 where
  allow reject : CircuitAction

pub record CircuitEntry : Type 0 where
  pub state : State
  pub last_seen : ℕ

pub record SharedState : Type 0 where
  pub circuits : List (String × CircuitEntry)
  pub threshold : ℕ
  pub recovery : ℕ
  pub half_open_probes : ℕ
  pub max_keys : ℕ
  pub idle_ttl : ℕ
  pub next_cleanup : ℕ

abbrev pub cleanup_interval : ℕ
cleanup_interval = 30_000_000_000

abbrev pub default_max_keys : ℕ
default_max_keys = 10_000

abbrev pub default_idle_ttl : ℕ
default_idle_ttl = 600_000_000_000

-- `InMemoryCircuitBreakerStore::new` and its setters.
pub new_store : ℕ → ℕ → ℕ → SharedState
new_store threshold recovery now = record {
  circuits = [];
  threshold = threshold;
  recovery = recovery;
  half_open_probes = 1;
  max_keys = default_max_keys;
  idle_ttl = default_idle_ttl;
  next_cleanup = now + cleanup_interval;
}

pub set_half_open_probes : SharedState → ℕ → SharedState
set_half_open_probes s n = record s { half_open_probes = n }

pub set_max_keys : SharedState → ℕ → SharedState
set_max_keys s n = record s { max_keys = max n 1 }

pub set_idle_ttl : SharedState → ℕ → SharedState
set_idle_ttl s ttl = record s { idle_ttl = ttl }

-- An open circuit before its deadline.
abbrev pub is_waiting : ℕ → State → Bool
is_waiting now (open_until until) = ltb now until
is_waiting now (closed n) = false
is_waiting now (half_open n) = false

-- The closure of `retain` in `maybe_cleanup`.
abbrev pub keeps_entry : ℕ → ℕ → CircuitEntry → Bool
keeps_entry idle_ttl now e = leb (now - e.last_seen) idle_ttl || is_waiting now e.state

pub maybe_cleanup : SharedState → ℕ → SharedState
maybe_cleanup s now = if ltb now s.next_cleanup then s else record s {
  circuits = retain (keeps_entry s.idle_ttl now) s.circuits;
  next_cleanup = now + cleanup_interval;
}

abbrev pub can_evict_entry : ℕ → ℕ → CircuitEntry → Bool
can_evict_entry idle_ttl now e =
    if leb (now - e.last_seen) idle_ttl then false else not (is_waiting now e.state)

pub evict_one : SharedState → String → ℕ → SharedState
evict_one s key now = record s {
  circuits =
      evict_if_needed (can_evict_entry s.idle_ttl now) (λ e. e.last_seen) s.max_keys key s.circuits;
}

-- What both operations do first.
pub prepare : SharedState → String → ℕ → SharedState
prepare s key now = evict_one (maybe_cleanup s now) key now

-- The match of `check`.
pub check_state : ℕ → ℕ → State → State × CircuitAction
check_state probes later (closed n) = (closed n, allow)
check_state probes later (open_until until) =
    if leb until later then (half_open 1, allow) else (open_until until, reject)
check_state probes later (half_open n) =
    if ltb n probes then (half_open (inc_u32 n), allow) else (half_open n, reject)

-- The match of `record`.
pub record_state : ℕ → ℕ → ℕ → Bool → State → State
record_state threshold recovery later true (closed n) = closed 0
record_state threshold recovery later false (closed n) =
    if leb threshold (inc_u32 n) then open_until (later + recovery) else closed (inc_u32 n)
record_state threshold recovery later true (half_open n) = closed 0
record_state threshold recovery later false (half_open n) = open_until (later + recovery)
record_state threshold recovery later success (open_until until) = open_until until

abbrev pub fresh_entry : ℕ → CircuitEntry
fresh_entry now = record { state = closed 0; last_seen = now }

-- The state that `entry(key).or_insert(..)` yields.
abbrev pub state_of : Option CircuitEntry → State
state_of none = closed 0
state_of (some e) = e.state

abbrev pub put_state : SharedState → String → ℕ → State → SharedState
put_state s key now st = record s {
  circuits = insert key (record { state = st; last_seen = now }) s.circuits;
}

pub check : SharedState → String → ℕ → ℕ → SharedState × CircuitAction
check s key now later =
    let p = prepare s key now in
    let (st, action) = check_state p.half_open_probes later (state_of (lookup key p.circuits)) in
    (put_state p key now st, action)

-- `record`, which is a reserved word here.
pub record_result : SharedState → String → Bool → ℕ → ℕ → SharedState
record_result s key success now later =
    let p = prepare s key now in
    put_state p key now
      (record_state p.threshold p.recovery later success (state_of (lookup key p.circuits)))

-- One locked operation of a store, with the two clock readings.
pub data Operation : Type 0 where
  checks : String → ℕ → ℕ → Operation
  records : String → Bool → ℕ → ℕ → Operation

pub step : SharedState → Operation → SharedState
step s (checks key now later) = (check s key now later).0
step s (records key success now later) = record_result s key success now later

pub run : SharedState → List Operation → SharedState
run s [] = s
run s (o ∷ os) = run (step s o) os
