-- ===== src/Circuit/Transition.antt =====
-- circuit_breaker.rs against the documented automaton: closed, open until a deadline, half-open.
use noxy.Common.{
  ◌⊎◌, some, none, ℕ, ◌+◌, ◌^◌, ◌≤◌, ◌<◌, Bool, true, false, String, ◌≡◌, ◌≢◌, arith, inl, inr,
  Bool-cases, leb, ltb, leb→le, inc_u32,
}
use noxy.KeyMap.{Distinct, lookup}
use noxy.Circuit.{
  is_waiting, CircuitEntry, can_evict_entry, step, Operation, checks, records, State, closed,
  open_until, half_open, CircuitAction, allow, reject, SharedState, prepare, check, check_state,
  record_state,
}
use noxy.Circuit.View.{
  KeptOrForgotten, prepare_view, check_self, check_other, record_result_self, record_result_other,
  circuit,
}
use noxy.Circuit.Invariant.{IsValid, InRange, EntryInRange, circuit-InRange, prepare-AllValues}

-- What happens at one circuit: a request is admitted or refused, or an admitted one ends.
pub data Event : Type 0 where
  admitted refused : Event
  succeeded failed : Event

-- The automaton, at time `t`.
pub data Transition (threshold recovery probes t : ℕ) : State → Event → State → Type 0 where
  pass : (n : ℕ) → Transition threshold recovery probes t (closed n) admitted (closed n)
  wait :
      (until : ℕ)
      → t < until
      → Transition threshold recovery probes t (open_until until) refused (open_until until)
  first_probe :
      (until : ℕ)
      → until ≤ t
      → Transition threshold recovery probes t (open_until until) admitted (half_open 1)
  next_probe :
      (n : ℕ)
      → n < probes
      → Transition threshold recovery probes t (half_open n) admitted (half_open (n + 1))
  full :
      (n : ℕ)
      → probes ≤ n
      → Transition threshold recovery probes t (half_open n) refused (half_open n)
  reset : (n : ℕ) → Transition threshold recovery probes t (closed n) succeeded (closed 0)
  count :
      (n : ℕ)
      → n + 1 < threshold
      → Transition threshold recovery probes t (closed n) failed (closed (n + 1))
  trip :
      (n : ℕ)
      → threshold ≤ n + 1
      → Transition threshold recovery probes t (closed n) failed (open_until (t + recovery))
  heal : (n : ℕ) → Transition threshold recovery probes t (half_open n) succeeded (closed 0)
  reopen :
      (n : ℕ)
      → Transition threshold recovery probes t (half_open n) failed (open_until (t + recovery))
  late_success :
      (until : ℕ)
      → Transition threshold recovery probes t (open_until until) succeeded (open_until until)
  late_failure :
      (until : ℕ)
      → Transition threshold recovery probes t (open_until until) failed (open_until until)

abbrev pub answer : CircuitAction → Event
answer allow = admitted
answer reject = refused

abbrev pub outcome : Bool → Event
outcome true = succeeded
outcome false = failed

module _ (threshold recovery probes t : ℕ) (t_u32 : threshold < 2 ^ 32)
    (p_u32 : probes < 2 ^ 32) where
  check_state-Transition :
      (st : State)
      → InRange threshold probes st
      → Transition threshold recovery probes t st
          (answer (check_state probes t st).1)
          (check_state probes t st).0
  unfolding check_state
  check_state-Transition (closed n) h = pass n
  check_state-Transition (open_until u) h = elim (Bool-cases (leb u t)) [
    | inl due ↦ rw due (first_probe u (leb→le u t due))
    | inr early ↦ rw early (wait u (ground arith))
  ]
  check_state-Transition (half_open n) h = elim (Bool-cases (ltb n probes)) [
    | inl room ↦
        let less : n < probes = ground arith in
        let exact : inc_u32 n ≡ n + 1 = omega arith in rw (room, exact) (next_probe n less)
    | inr none_left ↦ rw none_left (full n (ground arith))
  ]

  record_state-Transition :
      (success : Bool) (st : State)
      → InRange threshold probes st
      → Transition threshold recovery probes t st
          (outcome success)
          (record_state threshold recovery t success st)
  unfolding record_state
  record_state-Transition true (closed n) h = reset n
  record_state-Transition false (closed n) h =
      let exact : inc_u32 n ≡ n + 1 = omega arith in
      elim (Bool-cases (leb threshold (n + 1))) [
        | inl over ↦ rw (exact, over) (trip n (leb→le threshold (n + 1) over))
        | inr under ↦ rw (exact, under) (count n (ground arith))
      ]
  record_state-Transition true (half_open n) h = heal n
  record_state-Transition false (half_open n) h = reopen n
  record_state-Transition true (open_until u) h = late_success u
  record_state-Transition false (open_until u) h = late_failure u

abbrev pub key_of : Operation → String
key_of (checks key now later) = key
key_of (records key success now later) = key

abbrev pub now_of : Operation → ℕ
now_of (checks key now later) = now
now_of (records key success now later) = now

abbrev pub later_of : Operation → ℕ
later_of (checks key now later) = later
later_of (records key success now later) = later

-- What an operation is to the circuit of its key: the answer of `check`, or the outcome told.
abbrev pub event_of : SharedState → Operation → Event
event_of s (checks key now later) = answer (check s key now later).1
event_of s (records key success now later) = outcome success

own_state :
    (threshold probes : ℕ)
    → threshold < 2 ^ 32
    → probes < 2 ^ 32
    → (s : SharedState) (key : String) (now : ℕ) → IsValid threshold probes s
    → InRange threshold probes (circuit (prepare s key now) key)
own_state threshold probes t_u32 p_u32 s key now v =
    circuit-InRange threshold probes t_u32 p_u32 (prepare s key now) key
      (prepare-AllValues (EntryInRange threshold probes t_u32 p_u32) s key now v.in_range)

-- An operation on a valid store whose settings are `u32` values is one transition of the documented
-- automaton, at the circuit of its key as the bookkeeping left it; the answer of `check` is that of
-- the transition.
pub step-Transition :
    (threshold probes : ℕ) (s : SharedState) (o : Operation)
    → threshold < 2 ^ 32
    → probes < 2 ^ 32
    → IsValid threshold probes s
    → Transition threshold s.recovery probes
        (later_of o)
        (circuit (prepare s (key_of o) (now_of o)) (key_of o))
        (event_of s o)
        (circuit (step s o) (key_of o))
unfolding step
step-Transition threshold probes s (checks key now later) t p v =
    let own = own_state threshold probes t p s key now v in
    let (answered, stored) = check_self s key now later in
    simp (answered, stored, v.probes_kept)
      (check_state-Transition threshold s.recovery probes later t p _ own)
step-Transition threshold probes s (records key success now later) t p v =
    let own = own_state threshold probes t p s key now v in
    simp (record_result_self s key success now later, v.threshold_kept)
      (record_state-Transition threshold s.recovery probes later t p success _ own)

-- An open circuit is past its recovery deadline.
abbrev pub IsOverdue : ℕ → State → Type 0
IsOverdue now (open_until until) = until ≤ now
IsOverdue now (closed n) = Unit
IsOverdue now (half_open n) = Unit

-- An entry that the store may forget: it is idle past its time to live, and where it is open its
-- recovery deadline has passed.
abbrev pub MayForget : ℕ → ℕ → CircuitEntry → Type 0
MayForget ttl now e = (e.last_seen + ttl < now) × IsOverdue now e.state

not_waiting : (now : ℕ) (st : State) → is_waiting now st ≡ false → IsOverdue now st
not_waiting now (closed n) h = tt
not_waiting now (half_open n) h = tt
not_waiting now (open_until u) h = ground arith

evictable-MayForget :
    (ttl now : ℕ) (e : CircuitEntry) → can_evict_entry ttl now e ≡ true → MayForget ttl now e
evictable-MayForget ttl now e h = (ground arith, not_waiting now e.state (ground arith))

step-KeptOrForgotten :
    (s : SharedState) (o : Operation) (j : String)
    → Distinct s.circuits
    → key_of o ≢ j
    → KeptOrForgotten s (step s o) (now_of o) j
unfolding step
step-KeptOrForgotten s (checks key now later) j d ne =
    rw (check_other s key now later j ne) (prepare_view s key now j d)
step-KeptOrForgotten s (records key success now later) j d ne =
    rw (record_result_other s key success now later j ne) (prepare_view s key now j d)

-- An operation leaves the circuit of every other key as it was, or forgets it, which it does only
-- where that circuit was idle past its time to live and, if open, past its recovery deadline.
pub step_others :
    (s : SharedState) (o : Operation) (j : String)
    → Distinct s.circuits
    → key_of o ≢ j
    → (lookup j (step s o).circuits ≡ lookup j s.circuits)
      ⊎ ((e : CircuitEntry) × (lookup j s.circuits ≡ some e)
          × (lookup j (step s o).circuits ≡ none)
          × MayForget s.idle_ttl (now_of o) e)
step_others s o j d ne = elim (step-KeptOrForgotten s o j d ne) [
  | inl kept ↦ inl kept
  | inr (e, found, gone, idle) ↦
      inr (e, found, gone, evictable-MayForget s.idle_ttl (now_of o) e idle)
]
