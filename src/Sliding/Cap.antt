-- ===== src/Sliding/Cap.antt =====
-- What the sliding window of sliding_window.rs promises of one key, "a hard cap of `count` requests
-- per `window`": it holds of the requests that pass at once, and fails for those that wait.
use noxy.Common.{
  some_pair, replicate-append, sym, ℕ, suc, ◌+◌, ◌-◌, ◌≤◌, ◌<◌, false, Option, none, some, List, [],
  ◌∷◌, ◌++◌, ltb, leb, length, replicate, map, ◌≡◌, inl, inr, refl, arith, All, if◌then◌else◌, ◌∙◌,
  length-append,
}
use noxy.Sliding.{drain, reserve, take_slot, take_queue, ◌>>=◌}
use noxy.Sliding.Queue.{IsQueue, IsQueue-later, Taken, take_queue-Taken}

-- Requests of one key that were served, the last one first: the arrival of each and its delay.
abbrev pub History : Type 0
History = List (ℕ × Option ℕ)

-- Requests of one key, by their arrivals: the queue after them and their history, or a panic.
unfoldable pub serve : ℕ → ℕ → List ℕ → History → List ℕ → Option (List ℕ × History)
serve count window ts hist [] = some (ts, hist)
serve count window ts hist (now ∷ nows) = do
  (ts', delay) ← take_queue count window now ts
  serve count window ts' ((now, delay) ∷ hist) nows

-- When a request goes on: `sleep(delay)` if there is one.
abbrev pub release : ℕ × Option ℕ → ℕ
release (now, none) = now
release (now, some delay) = now + delay

-- How many requests of a history passed at once, less than a window before `now`.
abbrev pub at_once : ℕ → ℕ → History → ℕ
at_once window now [] = 0
at_once window now ((t, none) ∷ hist) =
    (if ltb now (t + window) then 1 else 0) + at_once window now hist
at_once window now ((t, some delay) ∷ hist) = at_once window now hist

-- How many entries of a queue are less than a window before `now`.
abbrev pub recent : ℕ → ℕ → List ℕ → ℕ
recent window now [] = 0
recent window now (t ∷ ts) = (if ltb now (t + window) then 1 else 0) + recent window now ts

recent-le-length : (window now : ℕ) (ts : List ℕ) → recent window now ts ≤ length ts
recent-le-length window now [] = omega arith
recent-le-length window now (t ∷ ts) = ground (arith, recent-le-length window now ts)

recent-append :
    (window now t : ℕ) (ts : List ℕ)
    → recent window now (ts ++ t ∷ [])
      ≡ recent window now ts + (if ltb now (t + window) then 1 else 0)
recent-append window now t [] = omega arith
recent-append window now t (x ∷ ts) = omega (arith, recent-append window now t ts)

recent-drain :
    (window now later : ℕ) (ts : List ℕ)
    → now ≤ later
    → recent window later (drain window now ts) ≡ recent window later ts
unfolding drain
recent-drain window now later [] h = refl
recent-drain window now later (t ∷ ts) h = ground (arith, recent-drain window now later ts h)

-- At every time from `now` on, a queue has an entry for each recent request that passed at once.
abbrev pub Covers : ℕ → ℕ → History → List ℕ → Type 0
Covers window now hist ts =
    (later : ℕ) → now ≤ later → at_once window later hist ≤ recent window later ts

module _ (count window : ℕ) (pos : 0 < count) where
  Taken-Covers :
      (now : ℕ) (hist : History) (ts : List ℕ) (t : Taken count window now ts)
      → Covers window now hist ts
      → Covers window now ((now, t.delay) ∷ hist) t.queue
  Taken-Covers now hist ts t c later h =
      let base : at_once window later hist ≤ recent window later ts = c later h in
      let kept = recent-drain window now later ts h in
      let grown = recent-append window later t.slot (drain window now ts) in
      elim t.passes [
        | inl (none_, slot, short) ↦
            rw (none_, t.appended, slot)
              (omega (arith, kept, recent-append window later now (drain window now ts)))
        | inr (waits, later_, long) ↦ rw (waits, t.appended) (omega (arith, kept, grown))
      ]

-- The arrivals come in order, from `start` on.
abbrev pub Ascending : ℕ → List ℕ → Type 0
Ascending start [] = Unit
Ascending start (now ∷ nows) = (start ≤ now) × Ascending now nows

abbrev pub last_arrival : ℕ → List ℕ → ℕ
last_arrival start [] = start
last_arrival start (now ∷ nows) = last_arrival now nows

Covers-later :
    (window now later : ℕ) (hist : History) (ts : List ℕ)
    → now ≤ later
    → Covers window now hist ts
    → Covers window later hist ts
Covers-later window now later hist ts h c t after = c t (omega arith)

record Served (count window last : ℕ) (start : Option (List ℕ × History)) : Type 0 where
  queue : List ℕ
  hist : History
  result : start ≡ some (queue, hist)
  valid : IsQueue count window last queue
  covers : Covers window last hist queue

serve-Served :
    (count window start : ℕ) (ts : List ℕ) (hist : History) (nows : List ℕ)
    → 0 < count
    → Ascending start nows
    → IsQueue count window start ts
    → Covers window start hist ts
    → Served count window (last_arrival start nows) (serve count window ts hist nows)
unfolding serve
serve-Served count window start ts hist [] pos a q c = record {
  queue = ts;
  hist = hist;
  result = refl;
  valid = q;
  covers = c;
}
serve-Served count window start ts hist (now ∷ nows) pos (h, a) q c =
    let t =
      take_queue-Taken count window now ts pos (IsQueue-later count window start now ts h q) in
    let c' =
      Taken-Covers count window pos now hist ts t (Covers-later window start now hist ts h c) in
    rw t.result
      (serve-Served count window now t.queue ((now, t.delay) ∷ hist) nows pos a t.valid c')

-- The cap holds of the requests that pass at once. Take any requests of one key, in the order of
-- their arrivals, and a further one that passes at once: with it, no more than `count` requests
-- passed at once within a window's length before it.
pub at_once-le-count :
    (count window start now : ℕ) (nows : List ℕ) (ts : List ℕ) (hist : History) (ts' : List ℕ)
    → 0 < count
    → Ascending start nows
    → last_arrival start nows ≤ now
    → serve count window [] [] nows ≡ some (ts, hist)
    → take_queue count window now ts ≡ some (ts', none)
    → at_once window now ((now, none) ∷ hist) ≤ count
at_once-le-count count window start now nows ts hist ts' pos a h served passed =
    let sv = serve-Served count window start [] [] nows pos a tt (λ t _. omega arith) in
    let (same_queue, same_hist) = some_pair (sym sv.result ∙ served) in
    let t =
      take_queue-Taken count window now ts pos
        (rw same_queue at (IsQueue-later count window _ now sv.queue h sv.valid)) in
    let covers =
      Taken-Covers count window pos now hist ts t
        (rw (same_queue, same_hist) at (Covers-later window _ now sv.hist sv.queue h sv.covers)) in
    let no_delay = (some_pair (sym t.result ∙ passed)).1 in
    elim t.passes [
      | inl (e, at_now, short) ↦
          omega
            (arith, rw no_delay at (covers now (omega arith)), recent-le-length window now t.queue)
      | inr (e, later, long) ↦ cc
    ]

-- The requests that wait are not spread out: each reserves the slot that the oldest entry leaves, so
-- those that come before it does all go on at one instant.
reserve_head :
    (count window h now : ℕ) (rest : List ℕ)
    → count ≤ suc (length rest)
    → h ≤ now
    → now < h + window
    → take_queue count window now (h ∷ rest)
      ≡ some (h ∷ rest ++ (h + window) ∷ [], some (h + window - now))
unfolding take_queue take_slot drain reserve
reserve_head count window h now rest full past inside =
    let fresh : leb (h + window) now ≡ false = ground arith in
    let no_room : ltb (suc (length rest)) count ≡ false = ground arith in
    let wait : window - (now - h) ≡ h + window - now = omega arith in
    let slot : now + (h + window - now) ≡ h + window = omega arith in
    rw fresh (rw no_room (rw (wait, slot)))

-- Requests that all come before the oldest entry of a full queue leaves the window go on together, at
-- the moment at which it leaves, however many they are: the cap of `count` requests per window does
-- not hold of requests that wait.
pub delayed_together :
    (count window h : ℕ) (rest : List ℕ) (hist : History) (nows : List ℕ)
    → count ≤ suc (length rest)
    → All (λ now. (h ≤ now) × (now < h + window)) nows
    → (r : List ℕ × History) × (serve count window (h ∷ rest) hist nows ≡ some r)
      × (map release r.1 ≡ replicate (length nows) (h + window) ++ map release hist)
unfolding serve
delayed_together count window h rest hist [] full inside = ((h ∷ rest, hist), refl, refl)
delayed_together count window h rest hist (now ∷ nows) full ((past, before), inside) =
    let taken = reserve_head count window h now rest full past before in
    let slot : now + (h + window - now) ≡ h + window = omega arith in
    let ((ts, hist'), served, together) =
      delayed_together count window h (rest ++ (h + window) ∷ [])
        ((now, some (h + window - now)) ∷ hist) nows
        (omega (arith, length-append rest ((h + window) ∷ []))) inside in
    (
      (ts, hist'),
      rw taken served,
      together ∙ rw slot (replicate-append (length nows) (h + window) (map release hist)),
    )
