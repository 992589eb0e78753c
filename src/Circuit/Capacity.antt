-- ===== src/Circuit/Capacity.antt =====
-- circuit_breaker.rs: the soft cap on the number of circuits.
use noxy.Common.{ℕ, ◌≤◌, max, true, not, all, String, length, ◌≡◌, ◌⊎◌, arith, inl, inr}
use noxy.KeyMap.{Distinct}
use noxy.KeyMap.Evict.{length-retain-le, length-evict_if_needed}
use mathlib.Core.Path.{subst}
use noxy.Circuit.{
  keeps_entry, State, SharedState, Operation, checks, records, can_evict_entry, maybe_cleanup,
  evict_one, prepare, put_state, check, record_result, step,
}
use noxy.Circuit.View.{maybe_cleanup-Distinct}
use noxy.Circuit.Transition.{now_of}

length-maybe_cleanup-le :
    (s : SharedState) (now : ℕ)
    → (length (maybe_cleanup s now).circuits ≤ length s.circuits)
      × ((maybe_cleanup s now).max_keys ≡ s.max_keys)
      × ((maybe_cleanup s now).idle_ttl ≡ s.idle_ttl)
unfolding maybe_cleanup
length-maybe_cleanup-le s now =
    ground (arith, length-retain-le (keeps_entry s.idle_ttl now) s.circuits)

-- Every circuit that the periodic cleanup left is in use or waits for its deadline.
abbrev pub IsBusy : SharedState → ℕ → Type 0
IsBusy s now =
    all (λ e. not (can_evict_entry s.idle_ttl now e.1)) (maybe_cleanup s now).circuits ≡ true

length-put_state :
    (s : SharedState) (key : String) (now : ℕ) (st : State)
    → Distinct s.circuits
    → (length (put_state (prepare s key now) key now st).circuits
        ≤ max (length s.circuits) s.max_keys)
      ⊎ IsBusy s now
unfolding prepare evict_one
length-put_state s key now st d =
    let cleaned = maybe_cleanup s now in
    let (shorter, cap, ttl) = length-maybe_cleanup-le s now in
    elim (length-evict_if_needed (can_evict_entry cleaned.idle_ttl now) (λ e. e.last_seen)
      cleaned.max_keys key cleaned.circuits (record { state = st; last_seen = now })
      (maybe_cleanup-Distinct s now d)) [
        | inl fits ↦ inl (omega arith)
        | inr busy ↦ inr (
            subst (λ t. all (λ e. not (can_evict_entry t now e.1)) cleaned.circuits ≡ true) ttl
              busy)
      ]

-- The cap on keys is kept, softly: an operation on a table of distinct keys leaves no more circuits
-- than the cap or than there were, unless all that the periodic cleanup left are in use or wait for
-- their deadlines.
pub length-step :
    (s : SharedState) (o : Operation)
    → Distinct s.circuits
    → (length (step s o).circuits ≤ max (length s.circuits) s.max_keys) ⊎ IsBusy s (now_of o)
unfolding step check record_result
length-step s (checks key now later) d = length-put_state s key now _ d
length-step s (records key success now later) d = length-put_state s key now _ d
