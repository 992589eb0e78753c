-- ===== src/Circuit/Failures.antt =====
-- circuit_breaker.rs: what consecutive failures do.
use mathlib.Core.Path.{subst}
use noxy.Common.{
  if◌then◌else◌, Bool, ◌≢◌, ◌⊎◌, inl, inr, Bool-cases, str_eq, eq_iff, ap, sym, sym, ℕ, ◌+◌, ◌^◌,
  ◌≤◌, ◌<◌, false, List, [], ◌∷◌, String, ◌≡◌, refl, arith, some, inc_u32, le→leb, lt→leb, ◌∙◌,
}
use noxy.KeyMap.{lookup, Distinct}
use native.Mathlib.Nat.{add-zero}
use noxy.Circuit.{
  checks, check_state, state_of, CircuitEntry, closed, open_until, SharedState, Operation, records,
  record_result, record_state, step, run, reject, check,
}
use noxy.Circuit.View.{
  prepare-config, check_found, check_other, check-Distinct, check-config, record_result_other,
  prepare-keeps, record_result_found, record_result-Distinct, record_result-config, circuit,
}
use noxy.Circuit.Trip.{run-rejects_while_open}

-- How many failures of `j` are recorded.
abbrev pub failed : String → List Operation → ℕ
failed j [] = 0
failed j (checks key now later ∷ os) = failed j os
failed j (records key success now later ∷ os) =
    let rest = failed j os in if str_eq key j then rest + 1 else rest

-- When the circuit of `j` was last checked or told an outcome.
abbrev pub last_use : String → ℕ → List Operation → ℕ
last_use j seen [] = seen
last_use j seen (checks key now later ∷ os) = last_use j (if str_eq key j then now else seen) os
last_use j seen (records key success now later ∷ os) =
    last_use j (if str_eq key j then now else seen) os

-- All outcomes that are recorded for `j` are failures, and each operation comes within the time to live
-- of the last use of its circuit.
abbrev pub Failing : String → ℕ → ℕ → List Operation → Type 0
Failing j ttl seen [] = Unit
Failing j ttl seen (checks key now later ∷ os) =
    (now ≤ seen + ttl) × Failing j ttl (if str_eq key j then now else seen) os
Failing j ttl seen (records key success now later ∷ os) =
    (now ≤ seen + ttl)
    × ((key ≢ j) ⊎ (success ≡ false))
    × Failing j ttl (if str_eq key j then now else seen) os

-- The circuit of `key` is closed with `n` failures, last seen at `seen`.
abbrev pub IsClosed : SharedState → String → ℕ → ℕ → Type 0
IsClosed s key n seen = lookup key s.circuits ≡ some (record { state = closed n; last_seen = seen })

failure-counts :
    (s : SharedState) (key : String) (n seen now later : ℕ)
    → Distinct s.circuits
    → s.threshold < 2 ^ 32
    → IsClosed s key n seen
    → now ≤ seen + s.idle_ttl
    → n + 1 < s.threshold
    → IsClosed (record_result s key false now later) key (n + 1) now
unfolding record_state
failure-counts s key n seen now later d small found pace under =
    let kept = prepare-keeps s key now key _ d found (ground arith) in
    let exact : inc_u32 n ≡ n + 1 = omega arith in
    rw (exact, lt→leb s.threshold (n + 1) under) at (record_result_found s key false now later kept)

failure-trips :
    (s : SharedState) (key : String) (n seen now later : ℕ)
    → Distinct s.circuits
    → s.threshold < 2 ^ 32
    → IsClosed s key n seen
    → now ≤ seen + s.idle_ttl
    → n + 1 ≡ s.threshold
    → lookup key (record_result s key false now later).circuits
      ≡ some (record { state = open_until (later + s.recovery); last_seen = now })
unfolding record_state
failure-trips s key n seen now later d small found pace reached =
    let kept = prepare-keeps s key now key _ d found (ground arith) in
    let exact : inc_u32 n ≡ n + 1 = omega arith in
    rw (exact, le→leb s.threshold (n + 1) (omega arith)) at
      (record_result_found s key false now later kept)

check-settings :
    (s : SharedState) (key : String) (now later : ℕ)
    → ((check s key now later).0.threshold ≡ s.threshold)
      × ((check s key now later).0.recovery ≡ s.recovery)
unfolding check
check-settings s key now later = let c = prepare-config s key now in (c.0, c.1)

check-IsClosed :
    (s : SharedState) (key : String) (n seen now later : ℕ)
    → Distinct s.circuits
    → IsClosed s key n seen
    → now ≤ seen + s.idle_ttl
    → IsClosed (check s key now later).0 key n now
unfolding check_state
check-IsClosed s key n seen now later d found soon =
    let kept = prepare-keeps s key now key _ d found (ground arith) in
    (check_found s key now later kept).1

-- A closed circuit with `n` failures, with what later steps need of the store.
record IsCounting (threshold recovery ttl : ℕ) (j : String) (n seen : ℕ) (s : SharedState)
    : Type 0 where
  distinct : Distinct s.circuits
  threshold_kept : s.threshold ≡ threshold
  recovery_kept : s.recovery ≡ recovery
  ttl_kept : s.idle_ttl ≡ ttl
  found : IsClosed s j n seen

module _ (threshold recovery ttl : ℕ) (u32 : threshold < 2 ^ 32) (j : String) where
  check-IsCounting :
      (s : SharedState) (key : String) (now later n seen : ℕ)
      → now ≤ seen + ttl
      → IsCounting threshold recovery ttl j n seen s
      → IsCounting threshold recovery ttl j n
          (if str_eq key j then now else seen)
          (check s key now later).0
  check-IsCounting s key now later n seen soon v =
      let settings = check-settings s key now later in
      record {
        distinct = check-Distinct s key now later v.distinct;
        threshold_kept = settings.0 ∙ v.threshold_kept;
        recovery_kept = settings.1 ∙ v.recovery_kept;
        ttl_kept = (check-config s key now later).1 ∙ v.ttl_kept;
        found = elim (Bool-cases (str_eq key j)) [
          | inl same ↦
              let e : key ≡ j = (eq_iff key j).0 same in
              let closed_yet =
                check-IsClosed s j n seen now later v.distinct v.found
                  (omega (arith, v.ttl_kept)) in
              rw (same, e) closed_yet
          | inr other ↦ rw other (
              check_other s key now later j (ground (arith, eq_iff key j))
              ∙ prepare-keeps s key now j _ v.distinct v.found (ground (arith, v.ttl_kept)))
        ];
      }

  record-IsCounting :
      (s : SharedState) (key : String) (success : Bool) (now later n seen : ℕ)
      → now ≤ seen + ttl
      → (key ≢ j) ⊎ (success ≡ false)
      → n + (if str_eq key j then 1 else 0) < threshold
      → IsCounting threshold recovery ttl j n seen s
      → IsCounting threshold recovery ttl j
          (n + (if str_eq key j then 1 else 0))
          (if str_eq key j then now else seen)
          (record_result s key success now later)
  record-IsCounting s key success now later n seen soon failure under v =
      let (c, c', c'', _) = record_result-config s key success now later in
      record {
        distinct = record_result-Distinct s key success now later v.distinct;
        threshold_kept = c ∙ v.threshold_kept;
        recovery_kept = c' ∙ v.recovery_kept;
        ttl_kept = c'' ∙ v.ttl_kept;
        found = elim (Bool-cases (str_eq key j)) [
          | inl same ↦
              let e : key ≡ j = (eq_iff key j).0 same in
              let lost : success ≡ false = elim failure [
                | inl other ↦ absurd (other e)
                | inr fails ↦ fails
              ] in
              let room : n + 1 < threshold = rw same at under in
              let counted =
                failure-counts s j n seen now later v.distinct (rw v.threshold_kept u32) v.found
                  (omega (arith, v.ttl_kept)) (omega (arith, v.threshold_kept, room)) in
              rw (same, e, lost) counted
          | inr other ↦
              rw (other, add-zero)
                (record_result_other s key success now later j (ground (arith, eq_iff key j))
                  ∙ prepare-keeps s key now j _ v.distinct v.found (ground (arith, v.ttl_kept)))
        ];
      }

  run-IsCounting :
      (s : SharedState) (n seen : ℕ) (os : List Operation)
      → Failing j ttl seen os
      → n + failed j os < threshold
      → IsCounting threshold recovery ttl j n seen s
      → IsCounting threshold recovery ttl j (n + failed j os) (last_use j seen os) (run s os)
  unfolding run step
  run-IsCounting s n seen [] failing under v = rw add-zero v
  run-IsCounting s n seen (checks key now later ∷ os) (soon, failing) under v =
      run-IsCounting (check s key now later).0 n (if str_eq key j then now else seen) os failing
        under (check-IsCounting s key now later n seen soon v)
  run-IsCounting s n seen (records key success now later ∷ os) (soon, failure, failing) under v =
      let one : ℕ = if str_eq key j then 1 else 0 in
      let whole : n + one + failed j os ≡ n + failed j (records key success now later ∷ os) =
        ground arith in
      subst
        (λ (m : ℕ).
          IsCounting threshold recovery ttl j m (last_use j (if str_eq key j then now else seen) os)
            (run (record_result s key success now later) os))
        whole
        (run-IsCounting (record_result s key success now later) (n + one)
          (if str_eq key j then now else seen) os failing (omega (arith, whole, under))
          (record-IsCounting s key success now later n seen soon failure
            (omega (arith, whole, under)) v))

abbrev opened : ℕ → ℕ → ℕ → CircuitEntry
opened later recovery now = record { state = open_until (later + recovery); last_seen = now }

-- A circuit trips at the failure that makes its failures since it was closed as many as the threshold,
-- and at none before. Let all outcomes that are recorded for its key be failures, whatever checks of it
-- and whatever operations of other keys come in between, as long as each operation comes within the
-- store's time to live of the circuit's last use; and let the threshold be a `u32`. Then after the
-- earlier failures the circuit is closed with their number; after that one it is open until the recovery
-- time has passed; and a check of it that comes next, before then, refuses.
pub failures-trip :
    (s : SharedState) (key : String) (n seen : ℕ) (os : List Operation) (now later now' later' : ℕ)
    → Distinct s.circuits
    → s.threshold < 2 ^ 32
    → IsClosed s key n seen
    → Failing key s.idle_ttl seen os
    → now ≤ last_use key seen os + s.idle_ttl
    → n + failed key os + 1 ≡ s.threshold
    → now' < later + s.recovery
    → later' < later + s.recovery
    → let before = run s os in
      let after = record_result before key false now later in
      (circuit before key ≡ closed (n + failed key os))
      × (circuit after key ≡ open_until (later + s.recovery))
      × ((check after key now' later').1 ≡ reject)
unfolding run
failures-trip s key n seen os now later now' later' d small found failing soon reached early
      early' =
    let v =
      run-IsCounting s.threshold s.recovery s.idle_ttl small key s n seen os failing (omega arith)
        (record {
          distinct = d;
          threshold_kept = refl;
          recovery_kept = refl;
          ttl_kept = refl;
          found = found;
        }) in
    let before = run s os in
    let after = record_result before key false now later in
    let tripped =
      failure-trips before key _ _ now later v.distinct (rw v.threshold_kept small) v.found
        (rw v.ttl_kept soon) (reached ∙ sym v.threshold_kept) in
    let tripped' = tripped ∙ ap (λ r. some (opened later r now)) v.recovery_kept in
    (
      ap state_of v.found,
      ap state_of tripped',
      run-rejects_while_open after [] key _ _ now' later'
          (record_result-Distinct before key false now later v.distinct) tripped' tt early early',
    )
