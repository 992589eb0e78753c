-- ===== src/Sliding/Tests.antt =====
-- sliding_window.rs: runs on concrete requests, and the theorems at concrete queues.
use noxy.Common.{ℕ, ◌≤◌, List, [], ◌∷◌, ◌≡◌, refl, arith, none, some, length, map, Option, inl}
use noxy.Sliding.{SharedState, new_store, take, take_queue, run}
use noxy.Sliding.Store.{run-new_store-total, IsValid}
use noxy.Sliding.Cap.{at_once-le-count, delayed_together, serve, at_once, release, History}
use noxy.Sliding.Lua.{
  SortedSet, insert_score, above, lowest, sliding_window_lua, sliding_window_lua-refines, delay_of,
}

waits_for_a_slot : take_queue 2 100 50 (10 ∷ 20 ∷ []) ≡ some (10 ∷ 20 ∷ 110 ∷ [], some 60)
unfolding take_queue noxy.Sliding.take_slot noxy.Sliding.drain
waits_for_a_slot = refl

frees_a_slot : take_queue 2 100 115 (10 ∷ 20 ∷ []) ≡ some (20 ∷ 115 ∷ [], none)
unfolding take_queue noxy.Sliding.take_slot noxy.Sliding.drain
frees_a_slot = refl

run-new_store-total_example :
    (r : SharedState × List (Option ℕ)) × (run
        (new_store 1 100 0)
        (("a", 10) ∷ ("b", 20) ∷ ("a", 30) ∷ [])
      ≡ some r)
    × IsValid 1 100 30 r.0
run-new_store-total_example =
    run-new_store-total 1 100 0 (("a", 10) ∷ ("b", 20) ∷ ("a", 30) ∷ []) (omega arith)
      (omega arith, (omega arith, (omega arith, tt)))

at_once-le-count_example :
    at_once 100 120 ((120, none) ∷ (50, some 60) ∷ (20, none) ∷ (10, none) ∷ []) ≤ 2
unfolding serve take_queue noxy.Sliding.take_slot noxy.Sliding.drain
at_once-le-count_example =
    at_once-le-count 2 100 0 120 (10 ∷ 20 ∷ 50 ∷ []) (10 ∷ 20 ∷ 110 ∷ [])
      ((50, some 60) ∷ (20, none) ∷ (10, none) ∷ []) (110 ∷ 120 ∷ []) (omega arith)
      (omega arith, (omega arith, (omega arith, tt))) (omega arith) refl refl

delayed_together_example :
    (r : List ℕ × History) × (serve 1 100 (10 ∷ []) ((10, none) ∷ []) (20 ∷ 30 ∷ 40 ∷ []) ≡ some r)
    × (map release r.1 ≡ 110 ∷ 110 ∷ 110 ∷ 10 ∷ [])
delayed_together_example =
    delayed_together 1 100 10 [] ((10, none) ∷ []) (20 ∷ 30 ∷ 40 ∷ []) (omega arith)
      ((omega arith, omega arith), ((omega arith, omega arith), ((omega arith, omega arith), tt)))

abbrev list_set : SortedSet
list_set = record {
  Members = List ℕ;
  scores = λ z. z;
  remove_up_to = above;
  add = insert_score;
  card = length;
  first = lowest;
  scores-remove_up_to = λ c z. refl;
  scores-add = λ x z. refl;
  card-eq-length = λ z. refl;
  first-eq-lowest = λ z. refl;
}

sliding_window_lua-refines_example :
    let (z', delay_ms) = sliding_window_lua list_set 2 100 150 (60 ∷ 70 ∷ []) in
    take_queue 2 100 150 (60 ∷ 70 ∷ []) ≡ some (z', delay_of delay_ms)
sliding_window_lua-refines_example =
    sliding_window_lua-refines list_set 2 100 150 (60 ∷ 70 ∷ []) (omega arith) (omega arith)
      (omega arith, (omega arith, tt), (tt, tt), (omega arith, tt), inl (omega arith, tt))
