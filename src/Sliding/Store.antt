-- ===== src/Sliding/Store.antt =====
-- The keyed store of sliding_window.rs: no call panics, and its queues stay in order.
use mathlib.Core.Path.{ap₂}
use noxy.Common.{
  leb, ap, ℕ, ◌-◌, ◌≤◌, ◌<◌, Option, none, some, List, [], ◌∷◌, String, ltb, ◌≡◌, inl, inr, refl,
  Bool-cases, Option-cases, ◌∙◌,
}
use noxy.KeyMap.{retain, lookup, Distinct, AllValues}
use noxy.KeyMap.Lookup.{
  lookup-retain, if_kept, retain-Distinct, retain-AllValues, insert-Distinct, insert-AllValues,
  lookup-AllValues, AllValues-map,
}
use noxy.KeyMap.Evict.{evict_if_needed_self, evict_if_needed-Distinct, evict_if_needed-AllValues}
use noxy.Sliding.{
  effective_ttl, take_slot, drain, reserve, take_queue, WindowState, SharedState, new_store,
  maybe_cleanup, evict_one, prepare, timestamps_of, put_queue, take, run,
}
use noxy.Sliding.Queue.{IsQueue, IsQueue-later, take_queue-Taken}

-- The store as calls up to time `now` leave it.
pub record IsValid (count window now : ℕ) (s : SharedState) : Type 0 where
  pub count_kept : s.count ≡ count
  pub window_kept : s.window ≡ window
  pub distinct : Distinct s.windows
  pub queues : AllValues (λ w. IsQueue count window now w.timestamps) s.windows

module _ (count window : ℕ) where
  abbrev HasQueue : ℕ → WindowState → Type 0
  HasQueue now w = IsQueue count window now w.timestamps

  later-IsValid :
      (now later : ℕ) (s : SharedState)
      → now ≤ later
      → IsValid count window now s
      → IsValid count window later s
  later-IsValid now later s h v = record {
    count_kept = v.count_kept;
    window_kept = v.window_kept;
    distinct = v.distinct;
    queues =
        AllValues-map (HasQueue now) (HasQueue later)
          (λ w q. IsQueue-later count window now later w.timestamps h q) s.windows v.queues;
  }

  maybe_cleanup-IsValid :
      (now : ℕ) (s : SharedState)
      → IsValid count window now s
      → IsValid count window now (maybe_cleanup s now)
  unfolding maybe_cleanup
  maybe_cleanup-IsValid now s v = elim (Bool-cases (ltb now s.next_cleanup)) [
    | inl early ↦ rw early v
    | inr due ↦ rw due (record {
      count_kept = v.count_kept;
      window_kept = v.window_kept;
      distinct = retain-Distinct _ s.windows v.distinct;
      queues = retain-AllValues (HasQueue now) _ s.windows v.queues;
    })
  ]

  evict_one-IsValid :
      (now : ℕ) (s : SharedState) (key : String)
      → IsValid count window now s
      → IsValid count window now (evict_one s key now)
  unfolding evict_one
  evict_one-IsValid now s key v = record {
    count_kept = v.count_kept;
    window_kept = v.window_kept;
    distinct = evict_if_needed-Distinct _ _ _ key s.windows v.distinct;
    queues = evict_if_needed-AllValues _ _ _ key (HasQueue now) s.windows v.queues;
  }

  timestamps_of-IsQueue :
      (now : ℕ) (s : SharedState) (key : String)
      → IsValid count window now s
      → IsQueue count window now (timestamps_of (lookup key s.windows))
  timestamps_of-IsQueue now s key v = elim (Option-cases (lookup key s.windows)) [
    | inl missing ↦ rw missing tt
    | inr (w, found) ↦ rw found (lookup-AllValues (HasQueue now) key s.windows v.queues found)
  ]

  take-IsValid :
      (now : ℕ) (s : SharedState) (key : String)
      → 0 < count
      → IsValid count window now s
      → (r : SharedState × Option ℕ) × (take s key now ≡ some r) × IsValid count window now r.0
  unfolding take
  take-IsValid now s key pos v =
      let p = prepare s key now in
      let v' = evict_one-IsValid now (maybe_cleanup s now) key (maybe_cleanup-IsValid now s v) in
      let t =
        take_queue-Taken count window now (timestamps_of (lookup key p.windows)) pos
          (timestamps_of-IsQueue now p key v') in
      let ts = timestamps_of (lookup key p.windows) in
      let config =
        ap₂ (λ c w. put_queue p key now (take_queue c w now ts)) v'.count_kept v'.window_kept in
      (
        (_, t.delay),
        config ∙ ap (put_queue p key now) t.result,
        record {
          count_kept = v'.count_kept;
          window_kept = v'.window_kept;
          distinct = insert-Distinct key _ p.windows v'.distinct;
          queues = insert-AllValues (HasQueue now) key _ p.windows t.valid v'.queues;
        },
      )

-- The calls come in the order of their times, from `start` on.
abbrev pub Ascending : ℕ → List (String × ℕ) → Type 0
Ascending start [] = Unit
Ascending start ((key, now) ∷ calls) = (start ≤ now) × Ascending now calls

abbrev pub last_time : ℕ → List (String × ℕ) → ℕ
last_time start [] = start
last_time start ((key, now) ∷ calls) = last_time now calls

run-IsValid :
    (count window start : ℕ) (s : SharedState) (calls : List (String × ℕ))
    → 0 < count
    → Ascending start calls
    → IsValid count window start s
    → (r : SharedState × List (Option ℕ)) × (run s calls ≡ some r)
      × IsValid count window (last_time start calls) r.0
unfolding run
run-IsValid count window start s [] pos a v = ((s, []), refl, v)
run-IsValid count window start s ((key, now) ∷ calls) pos (h, a) v =
    let ((s', delay), taken, v') =
      take-IsValid count window now s key pos (later-IsValid count window start now s h v) in
    let ((t, delays), ran, v'') = run-IsValid count window now s' calls pos a v' in
    ((t, delay ∷ delays), rw (taken, ran) refl, v'')

-- With a positive count the sliding window store never panics: calls of `take` on a new store, for
-- any keys at ascending times, all return, and leave every queue in order.
pub run-new_store-total :
    (count window start : ℕ) (calls : List (String × ℕ))
    → 0 < count
    → Ascending start calls
    → (r : SharedState × List (Option ℕ)) × (run (new_store count window start) calls ≡ some r)
      × IsValid count window (last_time start calls) r.0
unfolding new_store
run-new_store-total count window start calls pos a =
    run-IsValid count window start _ calls pos a
      (record { count_kept = refl; window_kept = refl; distinct = tt; queues = tt })

prepare-missing :
    (s : SharedState) (key : String) (now : ℕ)
    → lookup key s.windows ≡ none
    → Distinct s.windows
    → (lookup key (prepare s key now).windows ≡ none) × ((prepare s key now).count ≡ s.count)
unfolding maybe_cleanup evict_one
prepare-missing s key now missing d = elim (Bool-cases (ltb now s.next_cleanup)) [
  | inl early ↦ rw early ((evict_if_needed_self _ _ s.max_keys key s.windows d ∙ missing), refl)
  | inr due ↦
      let cleaned = retain (λ w. leb (now - w.last_seen) (effective_ttl s)) s.windows in
      rw due (
        evict_if_needed_self _ _ s.max_keys key cleaned (retain-Distinct _ s.windows d)
            ∙ lookup-retain _ key s.windows d
            ∙ ap (if_kept _) missing,
        refl,
      )
]

-- With a count of 0 the first request of a key panics, at any time, and the store is lost with it.
pub take-zero_count-panics :
    (s : SharedState) (key : String) (now : ℕ)
    → s.count ≡ 0
    → lookup key s.windows ≡ none
    → Distinct s.windows
    → take s key now ≡ none
unfolding take
take-zero_count-panics s key now zero_count missing d =
    let (still, count) = prepare-missing s key now missing d in
    let p = prepare s key now in
    ap₂ (λ c ts. put_queue p key now (take_queue c p.window now ts)) (count ∙ zero_count)
      (ap timestamps_of still)
    ∙ unfold take_queue take_slot drain reserve in refl
