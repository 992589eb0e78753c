-- ===== src/Circuit/Invariant.antt =====
-- circuit_breaker.rs: what holds of the store after any history.
use noxy.Common.{
  Bool-cases, ◌∙◌, ℕ, ◌^◌, ◌≤◌, ◌<◌, max, Bool, true, false, List, [], ◌∷◌, String, ◌≡◌, refl,
  arith, inl, inr, Option-cases,
}
use noxy.KeyMap.{lookup, Distinct, AllValues}
use noxy.KeyMap.Lookup.{retain-AllValues, insert-AllValues, lookup-AllValues}
use noxy.KeyMap.Evict.{evict_if_needed-AllValues}
use noxy.Circuit.{
  ltb, State, closed, open_until, half_open, CircuitEntry, SharedState, Operation, checks, records,
  new_store, set_half_open_probes, maybe_cleanup, evict_one, prepare, check, check_state,
  record_result, record_state, step, run,
}
use noxy.Circuit.View.{prepare-config, check-Distinct, record_result-Distinct, circuit}

-- A closed circuit has not reached its threshold, and a half-open one has let at most the configured
-- probes through, and at least one.
abbrev pub InRange : ℕ → ℕ → State → Type 0
InRange threshold probes (closed n) = n < max threshold 1
InRange threshold probes (open_until until) = Unit
InRange threshold probes (half_open n) = (1 ≤ n) × (n ≤ max probes 1)

pub record IsValid (threshold probes : ℕ) (s : SharedState) : Type 0 where
  pub threshold_kept : s.threshold ≡ threshold
  pub probes_kept : s.half_open_probes ≡ probes
  pub distinct : Distinct s.circuits
  pub in_range : AllValues (λ e. InRange threshold probes e.state) s.circuits

maybe_cleanup-AllValues :
    (P : CircuitEntry → Type 0) (s : SharedState) (now : ℕ)
    → AllValues P s.circuits
    → AllValues P (maybe_cleanup s now).circuits
maybe_cleanup-AllValues P s now h = elim (Bool-cases (ltb now s.next_cleanup)) [
  | inl early ↦ unfold maybe_cleanup in rw early h
  | inr due ↦ unfold maybe_cleanup in rw due (retain-AllValues P _ s.circuits h)
]

pub prepare-AllValues :
    (P : CircuitEntry → Type 0) (s : SharedState) (key : String) (now : ℕ)
    → AllValues P s.circuits
    → AllValues P (prepare s key now).circuits
unfolding prepare evict_one
prepare-AllValues P s key now h =
    evict_if_needed-AllValues _ _ _ key P _ (maybe_cleanup-AllValues P s now h)

module _ (threshold probes : ℕ) (t_u32 : threshold < 2 ^ 32) (p_u32 : probes < 2 ^ 32) where
  check_state-InRange :
      (later : ℕ) (st : State)
      → InRange threshold probes st
      → InRange threshold probes (check_state probes later st).0
  unfolding check_state
  check_state-InRange later (closed n) h = h
  check_state-InRange later (open_until u) h = ground arith
  check_state-InRange later (half_open n) h = ground arith

  record_state-InRange :
      (recovery later : ℕ) (success : Bool) (st : State)
      → InRange threshold probes st
      → InRange threshold probes (record_state threshold recovery later success st)
  unfolding record_state
  record_state-InRange recovery later true (closed n) h = omega arith
  record_state-InRange recovery later false (closed n) h = ground arith
  record_state-InRange recovery later true (half_open n) h = omega arith
  record_state-InRange recovery later false (half_open n) h = tt
  record_state-InRange recovery later success (open_until u) h = ground arith

  abbrev pub EntryInRange : CircuitEntry → Type 0
  EntryInRange e = InRange threshold probes e.state

  pub circuit-InRange :
      (s : SharedState) (key : String)
      → AllValues EntryInRange s.circuits
      → InRange threshold probes (circuit s key)
  circuit-InRange s key h = elim (Option-cases (lookup key s.circuits)) [
    | inl missing ↦ rw missing (omega arith)
    | inr (e, found) ↦ rw found (lookup-AllValues EntryInRange key s.circuits h found)
  ]

  check-IsValid :
      (s : SharedState) (key : String) (now later : ℕ)
      → IsValid threshold probes s
      → IsValid threshold probes (check s key now later).0
  unfolding check
  check-IsValid s key now later v =
      let config = prepare-config s key now in
      let kept = prepare-AllValues EntryInRange s key now v.in_range in
      let state = circuit-InRange (prepare s key now) key kept in
      record {
        threshold_kept = config.0 ∙ v.threshold_kept;
        probes_kept = config.2 ∙ v.probes_kept;
        distinct = check-Distinct s key now later v.distinct;
        in_range =
            insert-AllValues EntryInRange key _ _
              (simp (config.2 ∙ v.probes_kept) (check_state-InRange later _ state)) kept;
      }

  record_result-IsValid :
      (s : SharedState) (key : String) (success : Bool) (now later : ℕ)
      → IsValid threshold probes s
      → IsValid threshold probes (record_result s key success now later)
  unfolding record_result
  record_result-IsValid s key success now later v =
      let config = prepare-config s key now in
      let kept = prepare-AllValues EntryInRange s key now v.in_range in
      let state = circuit-InRange (prepare s key now) key kept in
      record {
        threshold_kept = config.0 ∙ v.threshold_kept;
        probes_kept = config.2 ∙ v.probes_kept;
        distinct = record_result-Distinct s key success now later v.distinct;
        in_range =
            insert-AllValues EntryInRange key _ _
              (simp (config.0 ∙ v.threshold_kept)
                (record_state-InRange (prepare s key now).recovery later success _ state))
              kept;
      }

  step-IsValid :
      (s : SharedState) (o : Operation)
      → IsValid threshold probes s
      → IsValid threshold probes (step s o)
  unfolding step
  step-IsValid s (checks key now later) v = check-IsValid s key now later v
  step-IsValid s (records key success now later) v = record_result-IsValid s key success now later v

  run-IsValid :
      (s : SharedState) (os : List Operation)
      → IsValid threshold probes s
      → IsValid threshold probes (run s os)
  unfolding run
  run-IsValid s [] v = v
  run-IsValid s (o ∷ os) v = run-IsValid (step s o) os (step-IsValid s o v)

  -- After any history of operations on a new store every key occurs once, a closed circuit counts
  -- fewer failures than the threshold (or than 1), a half-open circuit has let through at least one
  -- probe and at most the configured number (or 1), and the two settings are unchanged, provided that
  -- they are `u32` values.
  pub run-new_store-IsValid :
      (recovery start : ℕ) (os : List Operation)
      → IsValid threshold probes
          (run (set_half_open_probes (new_store threshold recovery start) probes) os)
  unfolding new_store set_half_open_probes
  run-new_store-IsValid recovery start os =
      run-IsValid _ os
        (record { threshold_kept = refl; probes_kept = refl; distinct = tt; in_range = tt })
