-- ===== src/Circuit/Tests.antt =====
-- circuit_breaker.rs: runs of the store and of the service on concrete requests, and the theorems at
-- concrete stores.
use noxy.Common.{
  inl, ◌⊎◌, inr, eq_iff, str_eq, ◌≢◌, ℕ, ◌+◌, true, false, List, [], ◌∷◌, String, ◌≡◌, refl, arith,
}
use noxy.KeyMap.{lookup, Distinct, AllValues}
use noxy.Http.{Request, err, Service}
use noxy.Circuit.Service.{is_server_error, CircuitBreaker, Clock, call}
use noxy.Circuit.{
  some, max, none, State, closed, open_until, half_open, CircuitAction, allow, reject, CircuitEntry,
  SharedState, new_store, check, record_result, run, step, Operation, checks, records,
  set_half_open_probes,
}
use noxy.Circuit.Transition.{Transition, step-Transition, step_others, event_of, MayForget}
use noxy.Circuit.Trip.{run-rejects_while_open}
use noxy.Circuit.Failures.{failures-trip, failed}
use noxy.Circuit.Wedge.{failed_probe-wedges}
use noxy.Circuit.Invariant.{run-new_store-IsValid, IsValid}
use noxy.Circuit.View.{circuit}

abbrev entry : State → ℕ → CircuitEntry
entry st seen = record { state = st; last_seen = seen }

abbrev holding : List (String × CircuitEntry) → SharedState
holding circuits = record {
  circuits = circuits;
  threshold = 2;
  recovery = 1000;
  half_open_probes = 1;
  max_keys = 3;
  idle_ttl = 5000;
  next_cleanup = 30_000;
}

abbrev tripped : SharedState
tripped = holding (("a", entry (open_until 1020) 20) ∷ ("b", entry (closed 1) 15) ∷ [])

abbrev probing : SharedState
probing = holding (("a", entry (half_open 1) 1030) ∷ [])

abbrev failing_once : SharedState
failing_once = holding (("a", entry (closed 0) 5) ∷ [])

abbrev breaker : CircuitBreaker
breaker = record {
  key_fn = λ req. "a";
  failure_policy = is_server_error;
  reject_status = 503;
  reject_body = [];
}

abbrev request : Request
request = record {
  method = 71 ∷ 69 ∷ 84 ∷ [];
  uri = record { scheme = none; authority = none; path = 47 ∷ []; query = none };
  headers = [];
  target = none;
  body = [];
}

-- A service that counts its calls and cannot connect.
abbrev unreachable_upstream : Service ℕ
unreachable_upstream req calls = (err [], calls + 1)

abbrev clock : Clock
clock = record { check_now = 1025; check_later = 1026; record_now = 1027; record_later = 1028 }

tripped-Distinct : Distinct tripped.circuits
unfolding lookup
tripped-Distinct = (refl, (refl, tt))

b_ne_a : ◌≢◌ {A = String} "b" "a"
b_ne_a e = let same : str_eq "b" "a" ≡ true = (eq_iff "b" "a").1 e in cc

a_ne_b : ◌≢◌ {A = String} "a" "b"
a_ne_b e = let same : str_eq "a" "b" ≡ true = (eq_iff "a" "b").1 e in cc

trips :
    (run (holding []) (records "a" false 10 10 ∷ records "a" false 20 20 ∷ [])).circuits
    ≡ ("a", entry (open_until 1020) 20) ∷ []
unfolding run step record_result noxy.KeyMap.insert noxy.Circuit.prepare noxy.Circuit.evict_one
    noxy.KeyMap.evict_if_needed noxy.Circuit.maybe_cleanup noxy.Circuit.record_state
trips = refl

success_resets :
    (run
      (holding [])
      (records "a" false 10 10 ∷ records "a" true 11 11 ∷ records "a" false 20 20 ∷ [])).circuits
    ≡ ("a", entry (closed 1) 20) ∷ []
unfolding run step record_result noxy.KeyMap.insert noxy.Circuit.prepare noxy.Circuit.evict_one
    noxy.KeyMap.evict_if_needed noxy.Circuit.maybe_cleanup noxy.Circuit.record_state
success_resets = refl

recovers :
    (run tripped (checks "a" 1020 1020 ∷ records "a" true 1030 1030 ∷ [])).circuits
    ≡ ("a", entry (closed 0) 1030) ∷ ("b", entry (closed 1) 15) ∷ []
unfolding run step record_result noxy.KeyMap.insert noxy.Circuit.prepare noxy.Circuit.evict_one
    noxy.KeyMap.evict_if_needed noxy.Circuit.maybe_cleanup check noxy.Circuit.record_state
    noxy.Circuit.check_state
recovers = refl

step-Transition_example :
    Transition 2 1000 1 1030
      (open_until 1020)
      (event_of tripped (checks "a" 1030 1030))
      (circuit (step tripped (checks "a" 1030 1030)) "a")
unfolding lookup noxy.Circuit.prepare noxy.Circuit.evict_one noxy.KeyMap.evict_if_needed
    noxy.Circuit.maybe_cleanup
step-Transition_example =
    step-Transition 2 1 tripped (checks "a" 1030 1030) (omega arith) (omega arith) (record {
      threshold_kept = refl;
      probes_kept = refl;
      distinct = tripped-Distinct;
      in_range = (tt, (omega arith, tt));
    })

run-rejects_while_open_example :
    (check (run tripped (records "a" true 30 30 ∷ checks "b" 31 31 ∷ [])) "a" 1000 1000).1 ≡ reject
unfolding lookup
run-rejects_while_open_example =
    run-rejects_while_open tripped (records "a" true 30 30 ∷ checks "b" 31 31 ∷ []) "a" 1020 20 1000
      1000 tripped-Distinct refl (omega arith, omega arith, (omega arith, omega arith, tt))
      (omega arith) (omega arith)

-- A check of the key and another key's success come between its two failures.
abbrev one_failure : List Operation
one_failure = records "a" false 10 11 ∷ checks "a" 12 12 ∷ records "b" true 13 13 ∷ []

failures-trip_example :
    let before = run failing_once one_failure in
    let after = record_result before "a" false 20 21 in
    (circuit before "a" ≡ closed (0 + failed "a" one_failure))
    × (circuit after "a" ≡ open_until 1021)
    × ((check after "a" 1000 1001).1 ≡ reject)
unfolding lookup
failures-trip_example =
    failures-trip failing_once "a" 0 5 one_failure 20 21 1000 1001 (refl, tt) (omega arith) refl
      (omega arith, inr refl, (omega arith, (omega arith, inl b_ne_a, tt))) (omega arith) refl
      (omega arith) (omega arith)

failed_probe-wedges_example :
    let (result, t, calls) = call breaker unreachable_upstream clock request tripped 0 in
    (result ≡ err []) × ((check (run t (checks "a" 3000 3000 ∷ [])) "a" 7000 7000).1 ≡ reject)
unfolding lookup
failed_probe-wedges_example =
    failed_probe-wedges breaker unreachable_upstream clock request tripped 0 1 [] 1020 20
      (checks "a" 3000 3000 ∷ []) 7000 7000 tripped-Distinct (omega arith) refl (omega arith)
      (omega arith) refl (omega arith, tt) (omega arith)

run-new_store-IsValid_example : IsValid 2 3 (
    run
      (set_half_open_probes (new_store 2 1000 5) 3)
      (records "a" false 10 10 ∷ records "a" false 20 20 ∷ checks "a" 2000 2000 ∷ []))
run-new_store-IsValid_example =
    run-new_store-IsValid 2 3 (omega arith) (omega arith) 1000 5
      (records "a" false 10 10 ∷ records "a" false 20 20 ∷ checks "a" 2000 2000 ∷ [])

step_others_example :
    (lookup "b" (step tripped (checks "a" 1030 1030)).circuits ≡ lookup "b" tripped.circuits)
    ⊎ ((e : CircuitEntry) × (lookup "b" tripped.circuits ≡ some e)
        × (lookup "b" (step tripped (checks "a" 1030 1030)).circuits ≡ none)
        × MayForget tripped.idle_ttl 1030 e)
step_others_example = step_others tripped (checks "a" 1030 1030) "b" tripped-Distinct a_ne_b
