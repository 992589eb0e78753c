-- ===== src/Circuit/Trip.antt =====
-- circuit_breaker.rs: consecutive failures trip a circuit, an open circuit refuses until its
-- deadline, and a half-open one lets few probes through.
use noxy.Common.{
  ◌∙◌, lt→leb, ◌∙◌, ℕ, ◌<◌, Bool, true, false, List, [], ◌∷◌, String, ◌≡◌, arith, inl, inr,
  Bool-cases, some, str_eq, eq_iff,
}
use noxy.KeyMap.{lookup, Distinct}
use noxy.Circuit.{
  open_until, reject, SharedState, Operation, checks, records, prepare, check, check_state,
  record_result, record_state, step, run,
}
use noxy.Circuit.View.{
  check_found, record_result_found, prepare-keeps, check_other, record_result_other, check-Distinct,
  record_result-Distinct,
}
use noxy.Circuit.Transition.{now_of, later_of}

step-Distinct :
    (s : SharedState) (o : Operation) → Distinct s.circuits → Distinct (step s o).circuits
unfolding step
step-Distinct s (checks key now later) d = check-Distinct s key now later d
step-Distinct s (records key success now later) d = record_result-Distinct s key success now later d

-- The circuit of `j` is open until `u`.
abbrev pub IsOpen : SharedState → String → ℕ → Type 0
IsOpen s j u =
    (seen : ℕ) × (lookup j s.circuits ≡ some (record { state = open_until u; last_seen = seen }))

-- Both clock readings of each operation are before `u`.
abbrev pub Before : ℕ → List Operation → Type 0
Before u [] = Unit
Before u (o ∷ os) = (now_of o < u) × (later_of o < u) × Before u os

check_own-IsOpen :
    (s : SharedState) (key : String) (now later u : ℕ)
    → later < u
    → IsOpen (prepare s key now) key u
    → IsOpen (check s key now later).0 key u
unfolding check_state
check_own-IsOpen s key now later u early (seen, found) =
    (now, rw (lt→leb u later early) at ((check_found s key now later found).1))

record_own-IsOpen :
    (s : SharedState) (key : String) (success : Bool) (now later u : ℕ)
    → IsOpen (prepare s key now) key u
    → IsOpen (record_result s key success now later) key u
unfolding record_state
record_own-IsOpen s key true now later u (seen, found) =
    (now, record_result_found s key true now later found)
record_own-IsOpen s key false now later u (seen, found) =
    (now, record_result_found s key false now later found)

step-IsOpen :
    (s : SharedState) (o : Operation) (j : String) (u : ℕ)
    → Distinct s.circuits
    → now_of o < u
    → later_of o < u
    → IsOpen s j u
    → IsOpen (step s o) j u
unfolding step
step-IsOpen s (checks key now later) j u d early late (seen, found) =
    let kept = prepare-keeps s key now j _ d found (ground arith) in
    elim (Bool-cases (str_eq key j)) [
      | inl same ↦
          let e : key ≡ j = (eq_iff key j).0 same in
          rw e (check_own-IsOpen s j now later u late (seen, rw e at kept))
      | inr other ↦ (seen, check_other s key now later j (ground (arith, eq_iff key j)) ∙ kept)
    ]
step-IsOpen s (records key success now later) j u d early late (seen, found) =
    let kept = prepare-keeps s key now j _ d found (ground arith) in
    elim (Bool-cases (str_eq key j)) [
      | inl same ↦
          let e : key ≡ j = (eq_iff key j).0 same in
          rw e (record_own-IsOpen s j success now later u (seen, rw e at kept))
      | inr other ↦ (
        seen,
        record_result_other s key success now later j (ground (arith, eq_iff key j)) ∙ kept,
      )
    ]

run-IsOpen :
    (s : SharedState) (os : List Operation) (j : String) (u : ℕ)
    → Distinct s.circuits
    → Before u os
    → IsOpen s j u
    → IsOpen (run s os) j u × Distinct (run s os).circuits
unfolding run
run-IsOpen s [] j u d b held = (held, d)
run-IsOpen s (o ∷ os) j u d (early, late, b) held =
    run-IsOpen (step s o) os j u (step-Distinct s o d) b (step-IsOpen s o j u d early late held)

-- An open circuit refuses every request until its recovery deadline, whatever operations on
-- whatever keys come in between: neither cleanup nor eviction nor a late outcome opens it early.
pub run-rejects_while_open :
    (s : SharedState) (os : List Operation) (key : String) (u seen now later : ℕ)
    → Distinct s.circuits
    → lookup key s.circuits ≡ some (record { state = open_until u; last_seen = seen })
    → Before u os
    → now < u
    → later < u
    → (check (run s os) key now later).1 ≡ reject
unfolding check_state
run-rejects_while_open s os key u seen now later d found b early late =
    let ((seen', held), d') = run-IsOpen s os key u d b (seen, found) in
    let kept = prepare-keeps (run s os) key now key _ d' held (ground arith) in
    rw (lt→leb u later late) at ((check_found (run s os) key now later kept).0)
