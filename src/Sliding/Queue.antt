-- ===== src/Sliding/Queue.antt =====
-- The queue of one key of sliding_window.rs: its order, and that `take` never panics.
use noxy.Common.{
  ap, ltb→lt, ℕ, suc, ◌+◌, ◌-◌, ◌≤◌, ◌<◌, Option, none, some, List, [], ◌∷◌, ◌++◌, ltb, leb, length,
  length-append, ◌≡◌, ◌⊎◌, inl, inr, refl, arith, Bool-cases, All, All-append, leb→le,
}
use noxy.Sliding.{drain, reserve, take_slot, take_queue}

abbrev pub Sorted : List ℕ → Type 0
Sorted [] = Unit
Sorted (x ∷ xs) = All (λ y. x ≤ y) xs × Sorted xs

-- A queue as `take` leaves it, at a time no earlier than the last call: sorted, the oldest entry not
-- ahead of time, every entry within a window of it, and entries ahead of time, which are slots that
-- waiting requests reserved, only in a queue longer than the count.
abbrev pub IsQueue : ℕ → ℕ → ℕ → List ℕ → Type 0
IsQueue count window now [] = Unit
IsQueue count window now (h ∷ ts) =
    (h ≤ now)
    × All (λ x. h ≤ x) ts
    × Sorted ts
    × All (λ x. x ≤ h + window) ts
    × (All (λ x. x ≤ now) ts ⊎ (count < suc (length ts)))

All-weaken : (a b : ℕ) (xs : List ℕ) → a ≤ b → All (λ x. x ≤ a) xs → All (λ x. x ≤ b) xs
All-weaken a b [] h p = tt
All-weaken a b (x ∷ xs) h (p, ps) = (omega arith, All-weaken a b xs h ps)

pub IsQueue-later :
    (count window now later : ℕ) (ts : List ℕ)
    → now ≤ later
    → IsQueue count window now ts
    → IsQueue count window later ts
IsQueue-later count window now later [] h q = tt
IsQueue-later count window now later (x ∷ ts) h (head, least, sorted, near, inl past) =
    (omega arith, least, sorted, near, inl (All-weaken now later ts h past))
IsQueue-later count window now later (x ∷ ts) h (head, least, sorted, near, inr long) =
    (omega arith, least, sorted, near, inr long)

-- The head of a drained queue is inside the window.
abbrev pub IsFresh : ℕ → ℕ → List ℕ → Type 0
IsFresh window now [] = Unit
IsFresh window now (h ∷ ts) = now < h + window

pub drain-IsFresh : (window now : ℕ) (ts : List ℕ) → IsFresh window now (drain window now ts)
unfolding drain
drain-IsFresh window now [] = tt
drain-IsFresh window now (t ∷ ts) = elim (Bool-cases (leb (t + window) now)) [
  | inl old ↦ rw old (drain-IsFresh window now ts)
  | inr fresh ↦ rw fresh (ground arith)
]

drain-past :
    (count window now : ℕ) (ts : List ℕ)
    → All (λ x. x ≤ now) ts
    → Sorted ts
    → IsQueue count window now (drain window now ts)
unfolding drain
drain-past count window now [] p s = tt
drain-past count window now (t ∷ ts) (p, ps) (least, s) = elim (Bool-cases (leb (t + window) now)) [
  | inl old ↦ rw old (drain-past count window now ts ps s)
  | inr fresh ↦
      let inside : now ≤ t + window = ground arith in
      rw fresh (p, least, s, All-weaken now (t + window) ts inside ps, inl ps)
]

pub drain-IsQueue :
    (count window now : ℕ) (ts : List ℕ)
    → IsQueue count window now ts
    → IsQueue count window now (drain window now ts)
unfolding drain
drain-IsQueue count window now [] q = tt
drain-IsQueue count window now (t ∷ ts) (p, least, s, near, tail) =
    elim (Bool-cases (leb (t + window) now)) [
      | inl old ↦
          rw old (
            drain-past count window now ts (All-weaken (t + window) now ts (leb→le _ _ old) near) s)
      | inr fresh ↦ rw fresh (p, least, s, near, tail)
    ]

Sorted-append : (x : ℕ) (xs : List ℕ) → Sorted xs → All (λ y. y ≤ x) xs → Sorted (xs ++ x ∷ [])
Sorted-append x [] s h = (tt, tt)
Sorted-append x (y ∷ ys) (least, s) (p, h) =
    (All-append (λ z. y ≤ z) ys (x ∷ []) least (p, tt), Sorted-append x ys s h)

push-now :
    (count window now : ℕ) (ts : List ℕ)
    → IsQueue count window now ts
    → IsFresh window now ts
    → length ts < count
    → IsQueue count window now (ts ++ now ∷ [])
push-now count window now [] q f room = (omega arith, tt, tt, tt, inl tt)
push-now count window now (h ∷ ts) (p, least, s, near, inl past) f room = (
  p,
  All-append (λ x. h ≤ x) ts (now ∷ []) least (p, tt),
  Sorted-append now ts s past,
  All-append (λ x. x ≤ h + window) ts (now ∷ []) near (omega arith, tt),
  inl (All-append (λ x. x ≤ now) ts (now ∷ []) past (omega arith, tt)),
)
push-now count window now (h ∷ ts) (p, least, s, near, inr long) f room = absurd (omega arith)

push-slot :
    (count window now slot : ℕ) (h : ℕ) (ts : List ℕ)
    → IsQueue count window now (h ∷ ts)
    → count ≤ suc (length ts)
    → slot ≡ h + window
    → IsQueue count window now (h ∷ ts ++ slot ∷ [])
push-slot count window now slot h ts (p, least, s, near, tail) full e = (
  p,
  All-append (λ x. h ≤ x) ts (slot ∷ []) least (omega arith, tt),
  Sorted-append slot ts s (rw e near),
  All-append (λ x. x ≤ h + window) ts (slot ∷ []) near (omega arith, tt),
  inr (omega (arith, length-append ts (slot ∷ []))),
)

-- What `take` does to a queue: it appends the time at which the request goes on, which is now, or the
-- moment at which the oldest entry leaves the window.
pub record Taken (count window now : ℕ) (ts : List ℕ) : Type 0 where
  pub queue : List ℕ
  pub delay : Option ℕ
  pub result : take_queue count window now ts ≡ some (queue, delay)
  pub valid : IsQueue count window now queue
  pub slot : ℕ
  pub appended : queue ≡ drain window now ts ++ slot ∷ []
  pub passes :
      ((delay ≡ none) × (slot ≡ now) × (length queue ≤ count))
      ⊎ ((delay ≡ some (slot - now)) × (now < slot) × (count < length queue))

reserve-slot :
    (count window now : ℕ) (d : List ℕ)
    → 0 < count
    → IsQueue count window now d
    → IsFresh window now d
    → count ≤ length d
    → (slot : ℕ) × (now < slot)
      × (reserve window now d ≡ some (d ++ slot ∷ [], some (slot - now)))
      × IsQueue count window now (d ++ slot ∷ [])
unfolding reserve
reserve-slot count window now [] pos q f full = absurd (omega arith)
reserve-slot count window now (h ∷ ts) pos q f full =
    let slot : ℕ = now + (window - (now - h)) in
    let ends : slot ≡ h + window = omega (arith, q.0) in
    let wait : window - (now - h) ≡ slot - now = omega arith in
    (
      slot,
      omega (arith, q.0),
      ap (λ w. some ((h ∷ ts) ++ slot ∷ [], some w)) wait,
      push-slot count window now slot h ts q full ends,
    )

-- With a positive count, `take` on a queue that it left earlier does not panic.
pub take_queue-Taken :
    (count window now : ℕ) (ts : List ℕ)
    → 0 < count
    → IsQueue count window now ts
    → Taken count window now ts
unfolding take_queue take_slot
take_queue-Taken count window now ts pos q =
    let d = drain window now ts in
    let kept : IsQueue count window now d = drain-IsQueue count window now ts q in
    let fresh : IsFresh window now d = drain-IsFresh window now ts in
    elim (Bool-cases (ltb (length d) count)) [
      | inl room ↦ record {
        queue = d ++ now ∷ [];
        delay = none;
        result = rw room;
        valid = push-now count window now d kept fresh (ltb→lt _ _ room);
        slot = now;
        appended = refl;
        passes =
            inl
              (refl, refl, omega (arith, length-append d (now ∷ []), ltb→lt (length d) count room));
      }
      | inr full ↦
          let over : count ≤ length d = ground arith in
          let (slot, later, reserved, valid) =
            reserve-slot count window now d pos kept fresh over in
          record {
            queue = d ++ slot ∷ [];
            delay = some (slot - now);
            result = rw full reserved;
            valid = valid;
            slot = slot;
            appended = refl;
            passes = inr (refl, later, omega (arith, length-append d (slot ∷ [])));
          }
    ]
