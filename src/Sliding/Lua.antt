-- ===== src/Sliding/Lua.antt =====
-- The Redis-backed store of sliding_window.rs: its Lua script against the in-memory queue, in
-- milliseconds. Redis is a parameter: `SortedSet` states what the script relies on of its sorted
-- sets. The script's `PEXPIRE` is left out.
use noxy.Common.{
  ℕ, suc, ◌+◌, ◌-◌, ◌≤◌, ◌<◌, true, false, Option, none, some, List, [], ◌∷◌, ◌++◌, ltb, leb,
  length, ◌≡◌, inl, inr, refl, arith, Bool-cases, All, if◌then◌else◌, ◌∙◌, ap, sym, lt→ltb, ltb→lt,
}
use noxy.Sliding.{drain, reserve, take_slot, take_queue}
use noxy.Sliding.Queue.{IsFresh, drain-IsFresh, IsQueue, Sorted, drain-IsQueue}

-- A new score goes behind those that are not greater.
abbrev pub insert_score : ℕ → List ℕ → List ℕ
insert_score x [] = x ∷ []
insert_score x (y ∷ ys) = if ltb x y then x ∷ y ∷ ys else y ∷ insert_score x ys

abbrev pub above : ℕ → List ℕ → List ℕ
above cutoff [] = []
above cutoff (x ∷ xs) = if leb x cutoff then above cutoff xs else x ∷ above cutoff xs

abbrev pub lowest : List ℕ → Option ℕ
lowest [] = none
lowest (x ∷ xs) = some x

-- A sorted set at one key of Redis, by its scores in ascending order: `ZREMRANGEBYSCORE key -inf c`
-- keeps the scores above `c`, `ZADD` with a new member adds one score in order, `ZCARD` is their
-- number, and `ZRANGEBYSCORE .. LIMIT 0 1` the lowest.
pub record SortedSet : Type 1 where
  pub Members : Type 0
  pub scores : Members → List ℕ
  pub remove_up_to : ℕ → Members → Members
  pub add : ℕ → Members → Members
  pub card : Members → ℕ
  pub first : Members → Option ℕ
  pub scores-remove_up_to : (c : ℕ) (z : Members) → scores (remove_up_to c z) ≡ above c (scores z)
  pub scores-add : (x : ℕ) (z : Members) → scores (add x z) ≡ insert_score x (scores z)
  pub card-eq-length : (z : Members) → card z ≡ length (scores z)
  pub first-eq-lowest : (z : Members) → first z ≡ lowest (scores z)

module _ (redis : SortedSet) where
  open redis use {
    Members, scores, remove_up_to, add, card, first, scores-remove_up_to, scores-add,
    card-eq-length, first-eq-lowest,
  }

  -- The branch `#oldest >= 2` of the script. The integer `window - (now - oldest)`, raised to 0, is
  -- the truncated difference.
  pub reserve_lua : ℕ → ℕ → Members → Option ℕ → Members × ℕ
  reserve_lua window_ms now_ms z none = (z, 0)
  reserve_lua window_ms now_ms z (some oldest_ms) =
      let delay_ms : ℕ = window_ms + oldest_ms - now_ms in (add (now_ms + delay_ms) z, delay_ms)

  pub admit_lua : ℕ → ℕ → ℕ → Members → Members × ℕ
  unfolding reserve_lua
  admit_lua count window_ms now_ms z =
      if ltb (card z) count then (add now_ms z, 0) else reserve_lua window_ms now_ms z (first z)

  -- `SLIDING_WINDOW_LUA`: the set after the call, and the delay.
  pub sliding_window_lua : ℕ → ℕ → ℕ → Members → Members × ℕ
  sliding_window_lua count window_ms now_ms z =
      admit_lua count window_ms now_ms (remove_up_to (now_ms - window_ms) z)

-- The store's reading of the script's reply: a positive number is a delay.
abbrev pub delay_of : ℕ → Option ℕ
delay_of delay_ms = if ltb 0 delay_ms then some delay_ms else none

above_id : (c t : ℕ) (xs : List ℕ) → c < t → All (λ y. t ≤ y) xs → above c xs ≡ xs
above_id c t [] h p = refl
above_id c t (x ∷ xs) h (p, ps) = ground (arith, above_id c t xs h ps)

above-drain :
    (window now : ℕ) (ts : List ℕ)
    → window ≤ now
    → Sorted ts
    → above (now - window) ts ≡ drain window now ts
unfolding drain
above-drain window now [] h s = refl
above-drain window now (t ∷ ts) h (least, s) = elim (Bool-cases (leb t (now - window))) [
  | inl old ↦ ground (arith, above-drain window now ts h s)
  | inr fresh ↦
      let bound : now - window < t = ground arith in
      ground (arith, above_id (now - window) t ts bound least)
]

insert_score-last : (x : ℕ) (ys : List ℕ) → All (λ y. y ≤ x) ys → insert_score x ys ≡ ys ++ x ∷ []
insert_score-last x [] h = refl
insert_score-last x (y ∷ ys) (p, h) = ground (arith, insert_score-last x ys h)

IsQueue-Sorted : (count window now : ℕ) (ts : List ℕ) → IsQueue count window now ts → Sorted ts
IsQueue-Sorted count window now [] q = tt
IsQueue-Sorted count window now (t ∷ ts) (p, least, s, rest, tail) = (least, s)

-- Both places for a new entry are behind the others.
past-now :
    (count window now : ℕ) (d : List ℕ)
    → IsQueue count window now d
    → length d < count
    → All (λ y. y ≤ now) d
past-now count window now [] q room = tt
past-now count window now (h ∷ ts) (p, least, s, near, inl past) room = (p, past)
past-now count window now (h ∷ ts) (p, least, s, near, inr long) room = absurd (omega arith)

module _ (redis : SortedSet) where
  open redis use {
    Members, scores, remove_up_to, add, card, first, scores-remove_up_to, scores-add,
    card-eq-length, first-eq-lowest,
  }

  admits-room :
      (count window now : ℕ) (z : Members) (d : List ℕ)
      → scores z ≡ d
      → IsQueue count window now d
      → length d < count
      → take_slot count window now d
        ≡ some (
          scores (admit_lua redis count window now z).0,
          delay_of (admit_lua redis count window now z).1,
        )
  unfolding admit_lua take_slot
  admits-room count window now z d e q room =
      let last = insert_score-last now d (past-now count window now d q room) in
      let added : scores (add now z) ≡ d ++ now ∷ [] =
        scores-add now z ∙ ap (insert_score now) e ∙ last in
      let cards : card z ≡ length d = card-eq-length z ∙ ap length e in
      rw (cards, lt→ltb (length d) count room) (ap (λ l. some (l, none)) (sym added))

  admits-full :
      (count window now : ℕ) (z : Members) (d : List ℕ)
      → 0 < count
      → scores z ≡ d
      → IsQueue count window now d
      → IsFresh window now d
      → count ≤ length d
      → take_slot count window now d
        ≡ some (
          scores (admit_lua redis count window now z).0,
          delay_of (admit_lua redis count window now z).1,
        )
  unfolding admit_lua take_slot reserve reserve_lua
  admits-full count window now z [] positive e q f full = absurd (omega arith)
  admits-full count window now z (h ∷ ts) positive e (p, least, s, near, tail) f full =
      let lowest_h : first z ≡ some h = first-eq-lowest z ∙ ap lowest e in
      let cards : card z ≡ suc (length ts) = card-eq-length z ∙ ap length e in
      let over : ltb (suc (length ts)) count ≡ false = ground arith in
      let wait : window - (now - h) ≡ window + h - now = omega arith in
      let slot : now + (window + h - now) ≡ h + window = omega arith in
      let waits : ltb 0 (window + h - now) ≡ true = lt→ltb 0 (window + h - now) (omega arith) in
      let last = insert_score-last (h + window) (h ∷ ts) (omega arith, near) in
      let added : scores (add (h + window) z) ≡ h ∷ ts ++ (h + window) ∷ [] =
        scores-add (h + window) z ∙ ap (insert_score (h + window)) e ∙ last in
      rw (cards, over, lowest_h, wait, slot, waits)
        (ap (λ l. some (l, some (window + h - now))) (sym added))

  -- On the scores of a queue in order, with a positive count, the script does what the in-memory
  -- `take` does to the queue, and replies with the same delay, if the server's clock is at least a
  -- window old.
  pub sliding_window_lua-refines :
      (count window_ms now_ms : ℕ) (z : Members)
      → 0 < count
      → window_ms ≤ now_ms
      → IsQueue count window_ms now_ms (scores z)
      → let (z', delay_ms) = sliding_window_lua redis count window_ms now_ms z in
        take_queue count window_ms now_ms (scores z) ≡ some (scores z', delay_of delay_ms)
  unfolding sliding_window_lua take_queue
  sliding_window_lua-refines count window_ms now_ms z positive epoch q =
      let d = drain window_ms now_ms (scores z) in
      let z' = remove_up_to (now_ms - window_ms) z in
      let drained =
        scores-remove_up_to (now_ms - window_ms) z
        ∙ above-drain window_ms now_ms (scores z) epoch (IsQueue-Sorted _ _ _ _ q) in
      let kept = drain-IsQueue count window_ms now_ms (scores z) q in
      elim (Bool-cases (ltb (length d) count)) [
        | inl room ↦ admits-room count window_ms now_ms z' d drained kept (ltb→lt _ _ room)
        | inr full ↦
            admits-full count window_ms now_ms z' d positive drained kept
              (drain-IsFresh window_ms now_ms (scores z)) (ground arith)
      ]
