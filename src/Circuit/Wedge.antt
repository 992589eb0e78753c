-- ===== src/Circuit/Wedge.antt =====
-- circuit_breaker.rs: the half-open state. It lets few probes through, and a probe that ends in an
-- error of the transport, which is not recorded, leaves it refusing.
use noxy.Common.{
  ap, ℕ, ◌+◌, ◌≤◌, Bool, false, List, [], ◌∷◌, String, ◌≡◌, ◌≢◌, refl, arith, inl, inr, Bool-cases,
  some, str_eq, eq_iff, ltb, ◌∙◌, le→leb, if◌then◌else◌,
}
use noxy.KeyMap.{lookup, Distinct}
use noxy.Http.{Request, Service, err}
use noxy.Circuit.Service.{act, CircuitBreaker, Clock, settle, call}
use noxy.Http.{Bytes}
use noxy.Circuit.{
  state_of, record_result, open_until, half_open, allow, reject, SharedState, Operation, checks,
  records, check, check_state, step, run,
}
use noxy.Circuit.View.{
  prepare-keeps, check_found, check_other, record_result_other, check-Distinct,
  record_result-Distinct, check-config, record_result-config, circuit,
}

-- The circuit of `j` has let `n` probes through.
abbrev pub IsHalfOpen : SharedState → String → ℕ → ℕ → Type 0
IsHalfOpen s j n seen =
    lookup j s.circuits ≡ some (record { state = half_open n; last_seen = seen })

-- When the circuit of `j` was last checked.
abbrev pub last_check : String → ℕ → List Operation → ℕ
last_check j seen [] = seen
last_check j seen (checks key now later ∷ os) = last_check j (if str_eq key j then now else seen) os
last_check j seen (records key success now later ∷ os) = last_check j seen os

-- No outcome is recorded for `j`, and each operation comes within the time to live of its last check.
abbrev pub Unrecorded : String → ℕ → ℕ → List Operation → Type 0
Unrecorded j ttl seen [] = Unit
Unrecorded j ttl seen (checks key now later ∷ os) =
    (now ≤ seen + ttl) × Unrecorded j ttl (if str_eq key j then now else seen) os
Unrecorded j ttl seen (records key success now later ∷ os) =
    (key ≢ j) × (now ≤ seen + ttl) × Unrecorded j ttl seen os

full-rejects :
    (s : SharedState) (key : String) (n seen now later : ℕ)
    → Distinct s.circuits
    → s.half_open_probes ≤ n
    → IsHalfOpen s key n seen
    → now ≤ seen + s.idle_ttl
    → ((check s key now later).1 ≡ reject) × IsHalfOpen (check s key now later).0 key n now
unfolding check_state
full-rejects s key n seen now later d full found soon =
    let kept = prepare-keeps s key now key _ d found (ground arith) in
    let no_room : ltb n s.half_open_probes ≡ false = ground arith in
    rw no_room at (check_found s key now later kept)

-- A half-open circuit whose probes are all out, with what later steps need of the store.
record IsFull (probes ttl : ℕ) (key : String) (n seen : ℕ) (s : SharedState) : Type 0 where
  distinct : Distinct s.circuits
  probes_kept : s.half_open_probes ≡ probes
  ttl_kept : s.idle_ttl ≡ ttl
  full : probes ≤ n
  found : IsHalfOpen s key n seen

module _ (probes ttl : ℕ) (j : String) (n : ℕ) where
  check-IsFull :
      (s : SharedState) (key : String) (now later seen : ℕ)
      → now ≤ seen + ttl
      → IsFull probes ttl j n seen s
      → IsFull probes ttl j n (if str_eq key j then now else seen) (check s key now later).0
  check-IsFull s key now later seen soon v =
      let config = check-config s key now later in
      elim (Bool-cases (str_eq key j)) [
        | inl same ↦
            let e : key ≡ j = (eq_iff key j).0 same in
            let refused =
              full-rejects s j n seen now later v.distinct (omega (arith, v.probes_kept, v.full))
                v.found (omega (arith, v.ttl_kept)) in
            record {
              distinct = check-Distinct s key now later v.distinct;
              probes_kept = config.0 ∙ v.probes_kept;
              ttl_kept = config.1 ∙ v.ttl_kept;
              full = v.full;
              found = rw (same, e) refused.1;
            }
        | inr other ↦ record {
          distinct = check-Distinct s key now later v.distinct;
          probes_kept = config.0 ∙ v.probes_kept;
          ttl_kept = config.1 ∙ v.ttl_kept;
          full = v.full;
          found = rw other (
              check_other s key now later j (ground (arith, eq_iff key j))
              ∙ prepare-keeps s key now j _ v.distinct v.found (ground (arith, v.ttl_kept)));
        }
      ]

  record_other-IsFull :
      (s : SharedState) (key : String) (success : Bool) (now later seen : ℕ)
      → key ≢ j
      → now ≤ seen + ttl
      → IsFull probes ttl j n seen s
      → IsFull probes ttl j n seen (record_result s key success now later)
  record_other-IsFull s key success now later seen ne soon v =
      let config = record_result-config s key success now later in
      record {
        distinct = record_result-Distinct s key success now later v.distinct;
        probes_kept = config.3 ∙ v.probes_kept;
        ttl_kept = config.2 ∙ v.ttl_kept;
        full = v.full;
        found =
            record_result_other s key success now later j ne
            ∙ prepare-keeps s key now j _ v.distinct v.found (ground (arith, v.ttl_kept));
      }

  run-IsFull :
      (s : SharedState) (seen : ℕ) (os : List Operation)
      → Unrecorded j ttl seen os
      → IsFull probes ttl j n seen s
      → IsFull probes ttl j n (last_check j seen os) (run s os)
  unfolding run step
  run-IsFull s seen [] u v = v
  run-IsFull s seen (checks key now later ∷ os) (soon, u) v =
      run-IsFull (check s key now later).0 (if str_eq key j then now else seen) os u
        (check-IsFull s key now later seen soon v)
  run-IsFull s seen (records key success now later ∷ os) (ne, soon, u) v =
      run-IsFull (record_result s key success now later) seen os u
        (record_other-IsFull s key success now later seen ne soon v)

-- A half-open circuit that has let all its probes through refuses every further request, for as long
-- as no outcome is recorded for its key and the operations keep coming within the time to live of its
-- last check. No deadline ends this state.
pub run-full_rejects :
    (s : SharedState) (key : String) (n seen : ℕ) (os : List Operation) (now later : ℕ)
    → Distinct s.circuits
    → s.half_open_probes ≤ n
    → IsHalfOpen s key n seen
    → Unrecorded key s.idle_ttl seen os
    → now ≤ last_check key seen os + s.idle_ttl
    → ((check (run s os) key now later).1 ≡ reject) × (circuit (run s os) key ≡ half_open n)
run-full_rejects s key n seen os now later d full found u soon =
    let v =
      run-IsFull s.half_open_probes s.idle_ttl key n s seen os u (record {
        distinct = d;
        probes_kept = refl;
        ttl_kept = refl;
        full = full;
        found = found;
      }) in
    (
      (full-rejects (run s os) key n _ now later v.distinct (omega (arith, v.probes_kept, v.full))
          v.found (omega (arith, v.ttl_kept))).0,
      ap state_of v.found,
    )

call-err :
    {W : Type 0} (cb : CircuitBreaker) (inner : Service W) (clock : Clock) (req : Request)
    (s : SharedState) (w w' : W) (e : Bytes)
    → (check s (cb.key_fn req) clock.check_now clock.check_later).1 ≡ allow
    → inner req w ≡ (err e, w')
    → call cb inner clock req s w
      ≡ (err e, (check s (cb.key_fn req) clock.check_now clock.check_later).0, w')
unfolding call
call-err cb inner clock req s w w' e allowed fails = rw (allowed, fails, act, settle)

first_probe :
    (s : SharedState) (key : String) (u seen now later : ℕ)
    → Distinct s.circuits
    → lookup key s.circuits ≡ some (record { state = open_until u; last_seen = seen })
    → now ≤ seen + s.idle_ttl
    → u ≤ later
    → ((check s key now later).1 ≡ allow) × IsHalfOpen (check s key now later).0 key 1 now
unfolding check_state
first_probe s key u seen now later d found soon due =
    let kept = prepare-keeps s key now key _ d found (ground arith) in
    rw (le→leb u later due) at (check_found s key now later kept)

-- With one probe configured (or none), the first request after the recovery deadline is let through as
-- a probe, if it comes within the store's time to live of the circuit's last use. Where it ends in an
-- error of the transport instead of a response, `call` records nothing, and a later request to that key
-- is refused, whatever the time, as long as two things hold: no outcome of another request, one sent
-- before the circuit opened among them, is recorded for the key in between, and each operation on the
-- store comes within the time to live of the key's last check.
pub failed_probe-wedges :
    {W : Type 0} (cb : CircuitBreaker) (inner : Service W) (clock : Clock) (req : Request)
    (s : SharedState) (w w' : W) (e : Bytes) (u seen : ℕ) (os : List Operation) (now later : ℕ)
    → Distinct s.circuits
    → s.half_open_probes ≤ 1
    → lookup (cb.key_fn req) s.circuits ≡ some (record { state = open_until u; last_seen = seen })
    → clock.check_now ≤ seen + s.idle_ttl
    → u ≤ clock.check_later
    → inner req w ≡ (err e, w')
    → Unrecorded (cb.key_fn req) s.idle_ttl clock.check_now os
    → now ≤ last_check (cb.key_fn req) clock.check_now os + s.idle_ttl
    → let (result, t, w'') = call cb inner clock req s w in
      (result ≡ err e) × ((check (run t os) (cb.key_fn req) now later).1 ≡ reject)
failed_probe-wedges cb inner clock req s w w' e u seen os now later d one found soon due fails quiet
      soon' =
    let key : String = cb.key_fn req in
    let t = (check s key clock.check_now clock.check_later).0 in
    let (allowed, probing) =
      first_probe s key u seen clock.check_now clock.check_later d found soon due in
    let config = check-config s key clock.check_now clock.check_later in
    rw (call-err cb inner clock req s w w' e allowed fails) (
      refl,
      (run-full_rejects t key 1 clock.check_now os now later
          (check-Distinct s key clock.check_now clock.check_later d) (omega (arith, config.0))
          probing (rw config.1 quiet) (omega (arith, config.1))).0,
    )
