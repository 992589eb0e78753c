-- ===== src/Circuit/View.antt =====
-- circuit_breaker.rs, seen key by key: what an operation does to the circuit of its own key and to
-- the circuits of the others.
use noxy.Common.{
  refl, ◌≢◌, ◌∙◌, sym, ℕ, true, false, none, some, String, ltb, ◌≡◌, ◌⊎◌, inl, inr, arith,
  Bool-cases, Option-cases,
}
use noxy.KeyMap.{lookup, Distinct}
use noxy.KeyMap.Lookup.{
  lookup-insert_ne, lookup-insert_self, insert-Distinct, lookup-retain, retain-Distinct,
}
use noxy.KeyMap.Evict.{evict_if_needed-lookup, evict_if_needed-Distinct}
use noxy.Circuit.{
  record_state, state_of, check_state, Bool, record_result, State, check, CircuitEntry, SharedState,
  maybe_cleanup, evict_one, prepare, can_evict_entry, keeps_entry,
}

-- The entry of `j` is as before, or it was idle past its time to live, not waiting for its recovery
-- deadline, and is forgotten.
abbrev pub KeptOrForgotten : SharedState → SharedState → ℕ → String → Type 0
KeptOrForgotten s t now j =
    (lookup j t.circuits ≡ lookup j s.circuits)
    ⊎ ((e : CircuitEntry) × (lookup j s.circuits ≡ some e)
        × (lookup j t.circuits ≡ none)
        × (can_evict_entry s.idle_ttl now e ≡ true))

not_kept :
    (ttl now : ℕ) (e : CircuitEntry)
    → keeps_entry ttl now e ≡ false
    → can_evict_entry ttl now e ≡ true
not_kept ttl now e h = ground arith

pub maybe_cleanup-Distinct :
    (s : SharedState) (now : ℕ) → Distinct s.circuits → Distinct (maybe_cleanup s now).circuits
unfolding maybe_cleanup
maybe_cleanup-Distinct s now d =
    ground (arith, retain-Distinct (keeps_entry s.idle_ttl now) s.circuits d)

retain_view :
    (s : SharedState) (now : ℕ) (j : String)
    → Distinct s.circuits
    → ltb now s.next_cleanup ≡ false
    → KeptOrForgotten s (maybe_cleanup s now) now j
unfolding maybe_cleanup
retain_view s now j d due =
    let view = lookup-retain (keeps_entry s.idle_ttl now) j s.circuits d in
    elim (Option-cases (lookup j s.circuits)) [
      | inl missing ↦ inl (ground (arith, view, missing))
      | inr (e, found) ↦ elim (Bool-cases (keeps_entry s.idle_ttl now e)) [
        | inl kept ↦ inl (ground (arith, view, found, kept))
        | inr idle ↦
            inr (e, found, ground (arith, view, found, idle), not_kept s.idle_ttl now e idle)
      ]
    ]

maybe_cleanup_view :
    (s : SharedState) (now : ℕ) (j : String)
    → Distinct s.circuits
    → KeptOrForgotten s (maybe_cleanup s now) now j
maybe_cleanup_view s now j d = elim (Bool-cases (ltb now s.next_cleanup)) [
  | inl early ↦ inl (unfold maybe_cleanup in rw early)
  | inr due ↦ retain_view s now j d due
]

evict_one_view :
    (s : SharedState) (key : String) (now : ℕ) (j : String)
    → Distinct s.circuits
    → KeptOrForgotten s (evict_one s key now) now j
unfolding evict_one
evict_one_view s key now j d =
    evict_if_needed-lookup (can_evict_entry s.idle_ttl now) (λ e. e.last_seen) s.max_keys key
      s.circuits j d

maybe_cleanup-config : (s : SharedState) (now : ℕ) → (maybe_cleanup s now).idle_ttl ≡ s.idle_ttl
unfolding maybe_cleanup
maybe_cleanup-config s now = ground arith

pub prepare-Distinct :
    (s : SharedState) (key : String) (now : ℕ)
    → Distinct s.circuits
    → Distinct (prepare s key now).circuits
unfolding prepare evict_one
prepare-Distinct s key now d = evict_if_needed-Distinct _ _ _ key _ (maybe_cleanup-Distinct s now d)

KeptOrForgotten-trans :
    (s t u : SharedState) (now : ℕ) (j : String)
    → t.idle_ttl ≡ s.idle_ttl
    → KeptOrForgotten s t now j
    → KeptOrForgotten t u now j
    → KeptOrForgotten s u now j
KeptOrForgotten-trans s t u now j c (inl p) (inl q) = inl (q ∙ p)
KeptOrForgotten-trans s t u now j c (inl p) (inr (e, found, gone, idle)) =
    inr (e, sym p ∙ found, gone, rw (sym c) idle)
KeptOrForgotten-trans s t u now j c (inr (e, found, gone, idle)) (inl q) =
    inr (e, found, q ∙ gone, idle)
KeptOrForgotten-trans s t u now j c (inr (e, found, gone, idle)) (inr (e', found', gone', idle')) =
    cc

-- The bookkeeping before an operation keeps each entry, or forgets one that was idle.
pub prepare_view :
    (s : SharedState) (key : String) (now : ℕ) (j : String)
    → Distinct s.circuits
    → KeptOrForgotten s (prepare s key now) now j
unfolding prepare
prepare_view s key now j d =
    KeptOrForgotten-trans s (maybe_cleanup s now) (evict_one (maybe_cleanup s now) key now) now j
      (maybe_cleanup-config s now) (maybe_cleanup_view s now j d)
      (evict_one_view (maybe_cleanup s now) key now j (maybe_cleanup-Distinct s now d))

pub prepare-config :
    (s : SharedState) (key : String) (now : ℕ)
    → ((prepare s key now).threshold ≡ s.threshold)
      × ((prepare s key now).recovery ≡ s.recovery)
      × ((prepare s key now).half_open_probes ≡ s.half_open_probes)
      × ((prepare s key now).idle_ttl ≡ s.idle_ttl)
      × ((prepare s key now).max_keys ≡ s.max_keys)
unfolding prepare maybe_cleanup evict_one
prepare-config s key now = ground arith

-- An entry seen less than a time to live ago, or whose deadline is ahead, survives.
pub prepare-keeps :
    (s : SharedState) (key : String) (now : ℕ) (j : String) (e : CircuitEntry)
    → Distinct s.circuits
    → lookup j s.circuits ≡ some e
    → can_evict_entry s.idle_ttl now e ≡ false
    → lookup j (prepare s key now).circuits ≡ some e
prepare-keeps s key now j e d found stays = go (prepare_view s key now j d)
  where
    go :
        KeptOrForgotten s (prepare s key now) now j → lookup j (prepare s key now).circuits ≡ some e
    go (inl same) = same ∙ found
    go (inr (e', found', gone, idle)) = cc

-- The circuit of a key: closed with no failures, if it has no entry.
abbrev pub circuit : SharedState → String → State
circuit s key = state_of (lookup key s.circuits)

-- Of its own key, `check` makes one transition of the state machine, and it answers by that.
pub check_self :
    (s : SharedState) (key : String) (now later : ℕ)
    → let next = check_state s.half_open_probes later (circuit (prepare s key now) key) in
      ((check s key now later).1 ≡ next.1)
      × (lookup key (check s key now later).0.circuits
          ≡ some (record { state = next.0; last_seen = now }))
unfolding check
check_self s key now later =
    simp ((prepare-config s key now).2)
      (refl, lookup-insert_self key _ (prepare s key now).circuits)

pub record_result_self :
    (s : SharedState) (key : String) (success : Bool) (now later : ℕ)
    → lookup key (record_result s key success now later).circuits
      ≡ some (record {
        state = record_state s.threshold s.recovery later success (circuit (prepare s key now) key);
        last_seen = now;
      })
unfolding record_result
record_result_self s key success now later =
    simp ((prepare-config s key now).0, (prepare-config s key now).1)
      (lookup-insert_self key _ (prepare s key now).circuits)

-- The circuits of other keys are not touched, but for the bookkeeping.
pub check_other :
    (s : SharedState) (key : String) (now later : ℕ) (j : String)
    → key ≢ j
    → lookup j (check s key now later).0.circuits ≡ lookup j (prepare s key now).circuits
unfolding check
check_other s key now later j ne = lookup-insert_ne key j _ (prepare s key now).circuits ne

pub record_result_other :
    (s : SharedState) (key : String) (success : Bool) (now later : ℕ) (j : String)
    → key ≢ j
    → lookup j (record_result s key success now later).circuits
      ≡ lookup j (prepare s key now).circuits
unfolding record_result
record_result_other s key success now later j ne =
    lookup-insert_ne key j _ (prepare s key now).circuits ne

pub check-Distinct :
    (s : SharedState) (key : String) (now later : ℕ)
    → Distinct s.circuits
    → Distinct (check s key now later).0.circuits
unfolding check
check-Distinct s key now later d = insert-Distinct key _ _ (prepare-Distinct s key now d)

pub record_result-Distinct :
    (s : SharedState) (key : String) (success : Bool) (now later : ℕ)
    → Distinct s.circuits
    → Distinct (record_result s key success now later).circuits
unfolding record_result
record_result-Distinct s key success now later d =
    insert-Distinct key _ _ (prepare-Distinct s key now d)

-- The same where the entry that the bookkeeping left is known.
pub check_found :
    (s : SharedState) (key : String) (now later : ℕ) {e : CircuitEntry}
    → lookup key (prepare s key now).circuits ≡ some e
    → let next = check_state s.half_open_probes later e.state in
      ((check s key now later).1 ≡ next.1)
      × (lookup key (check s key now later).0.circuits
          ≡ some (record { state = next.0; last_seen = now }))
check_found s key now later found = rw found at (check_self s key now later)

pub record_result_found :
    (s : SharedState) (key : String) (success : Bool) (now later : ℕ) {e : CircuitEntry}
    → lookup key (prepare s key now).circuits ≡ some e
    → lookup key (record_result s key success now later).circuits
      ≡ some (record {
        state = record_state s.threshold s.recovery later success e.state;
        last_seen = now;
      })
record_result_found s key success now later found =
    rw found at (record_result_self s key success now later)

-- No operation changes a setting.
pub record_result-config :
    (s : SharedState) (key : String) (success : Bool) (now later : ℕ)
    → ((record_result s key success now later).threshold ≡ s.threshold)
      × ((record_result s key success now later).recovery ≡ s.recovery)
      × ((record_result s key success now later).idle_ttl ≡ s.idle_ttl)
      × ((record_result s key success now later).half_open_probes ≡ s.half_open_probes)
unfolding record_result
record_result-config s key success now later =
    let c = prepare-config s key now in (c.0, c.1, c.3, c.2)

pub check-config :
    (s : SharedState) (key : String) (now later : ℕ)
    → ((check s key now later).0.half_open_probes ≡ s.half_open_probes)
      × ((check s key now later).0.idle_ttl ≡ s.idle_ttl)
unfolding check
check-config s key now later = let c = prepare-config s key now in (c.2, c.3)
