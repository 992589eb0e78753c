-- ===== src/Throttle/Delivered.antt =====
-- bandwidth_throttle.rs: what a throttled body has passed on, by the frames that its polls yield.
use mathlib.Core.Path.{subst}
use native.Mathlib.Nat.{add-zero}
use noxy.Common.{
  ℕ, ◌+◌, ◌-◌, ◌*◌, ◌==◌, ◌≤◌, true, false, Option, none, some, List, [], ◌∷◌, leb, ◌≡◌, ◌⊎◌, refl,
  sym, ap, ◌∙◌, arith, inl, inr, Bool-cases, if◌then◌else◌, ==_iff, mul_flow,
}
use noxy.Throttle.{
  ThrottledBody, Frame, Poll, pending, ended, failed, ready, Clock, size, get_or_insert, byte_units,
  poll_with, poll_held, throttle, poll_inner, poll_frame, new_body,
}
use noxy.Throttle.Rate.{IsHeld, IsValid, MayPass, InOrder, end_of, poll_frame-StepsWell}

-- The data that a poll yields.
abbrev pub bytes_of : Poll → ℕ
bytes_of pending = 0
bytes_of ended = 0
bytes_of failed = 0
bytes_of (ready frame) = size frame

-- All data that is passed on in a sequence of polls.
unfoldable pub delivered : ThrottledBody → List (Clock × Poll) → ℕ
delivered b [] = 0
delivered b ((c, inner) ∷ polls) =
    bytes_of (poll_frame b c inner).1 + delivered (poll_frame b c inner).0 polls

-- When the inner body first yields data.
abbrev pub first_of : Option ℕ → Clock → Poll → Option ℕ
first_of (some t) c inner = some t
first_of none c pending = none
first_of none c ended = none
first_of none c failed = none
first_of none c (ready frame) = if size frame == 0 then none else some c.now

abbrev pub first_data : Option ℕ → List (Clock × Poll) → Option ℕ
first_data first [] = first
first_data first ((c, inner) ∷ polls) = first_data (first_of first c inner) polls

abbrev held_size : Option (Frame × ℕ) → ℕ
held_size none = 0
held_size (some (frame, deadline)) = size frame

-- The counter is what was passed on, `n`, and what is held; the start is the time of the first data.
record Accounted (rate n : ℕ) (first : Option ℕ) (b : ThrottledBody) : Type 0 where
  counted : b.bytes_delivered ≡ n + held_size b.held
  started : b.start ≡ first
  rate_kept : b.bytes_per_second ≡ rate

abbrev After : ℕ → ℕ → Option ℕ → ThrottledBody × Poll → Type 0
After rate n first (b, p) = Accounted rate (n + bytes_of p) first b

poll_held-Accounted :
    (rate n : ℕ) (first : Option ℕ) (b : ThrottledBody) (c : Clock) (frame : Frame) (deadline : ℕ)
    → b.bytes_delivered ≡ n + size frame
    → b.start ≡ first
    → b.bytes_per_second ≡ rate
    → After rate n first (poll_held b c frame deadline)
unfolding poll_held
poll_held-Accounted rate n first b c frame deadline counted started kept =
    elim (Bool-cases (leb deadline (c.polled * b.bytes_per_second))) [
      | inl over ↦
          rw over (record { counted = omega (arith, counted); started = started; rate_kept = kept })
      | inr early ↦
          rw early
            (record { counted = omega (arith, counted); started = started; rate_kept = kept })
    ]

throttle-Accounted :
    (rate n : ℕ) (first : Option ℕ) (b : ThrottledBody) (c : Clock) (frame : Frame) (start : ℕ)
    → b.held ≡ none
    → b.bytes_delivered ≡ n + size frame
    → b.start ≡ first
    → b.bytes_per_second ≡ rate
    → After rate n first (throttle b c frame start)
unfolding throttle
throttle-Accounted rate n first b c frame start free counted started kept =
    elim (Bool-cases
      (leb (b.bytes_delivered * byte_units) ((c.later - start) * b.bytes_per_second))) [
        | inl over ↦ rw over (record {
          counted = rw free (omega (arith, counted));
          started = started;
          rate_kept = kept;
        })
        | inr early ↦ rw early (poll_held-Accounted rate n first b c frame _ counted started kept)
      ]

unmoved :
    (rate n : ℕ) (first : Option ℕ) (b : ThrottledBody)
    → Accounted rate n first b
    → Accounted rate (n + 0) first b
unmoved rate n first b a = record {
  counted = omega (arith, a.counted);
  started = a.started;
  rate_kept = a.rate_kept;
}

first_of-start :
    (first : Option ℕ) (c : Clock) (frame : Frame)
    → (size frame == 0) ≡ false
    → some (get_or_insert first c.now) ≡ first_of first c (ready frame)
first_of-start none c frame full = rw full refl
first_of-start (some t) c frame full = refl

first_of-empty :
    (first : Option ℕ) (c : Clock) (frame : Frame)
    → (size frame == 0) ≡ true
    → first_of first c (ready frame) ≡ first
first_of-empty none c frame empty = rw empty refl
first_of-empty (some t) c frame empty = refl

first_of-still :
    (first : Option ℕ) (c : Clock)
    → (first_of first c pending ≡ first)
      × (first_of first c ended ≡ first)
      × (first_of first c failed ≡ first)
first_of-still none c = (refl, refl, refl)
first_of-still (some t) c = (refl, refl, refl)

poll_inner-Accounted :
    (rate n : ℕ) (first : Option ℕ) (b : ThrottledBody) (c : Clock) (inner : Poll)
    → b.held ≡ none
    → Accounted rate n first b
    → After rate n (first_of first c inner) (poll_inner b c inner)
unfolding poll_inner
poll_inner-Accounted rate n first b c pending free a =
    rw (first_of-still first c).0 (unmoved rate n first b a)
poll_inner-Accounted rate n first b c ended free a =
    rw (first_of-still first c).1 (unmoved rate n first b a)
poll_inner-Accounted rate n first b c failed free a =
    rw (first_of-still first c).2 (unmoved rate n first b a)
poll_inner-Accounted rate n first b c (ready frame) free a = elim (Bool-cases (size frame == 0)) [
  | inl empty ↦
      let none_passed : size frame ≡ 0 = (==_iff (size frame) 0).0 empty in
      rw (first_of-empty first c frame empty, empty)
        (record {
          counted = omega (arith, a.counted, none_passed);
          started = a.started;
          rate_kept = a.rate_kept;
        })
  | inr full ↦
      let begins : some (get_or_insert b.start c.now) ≡ first_of first c (ready frame) =
        ap (λ (s : Option ℕ). some (get_or_insert s c.now)) a.started
        ∙ first_of-start first c frame full in
      let bare : b.bytes_delivered ≡ n = a.counted ∙ (rw free (omega arith)) in
      rw full (
        throttle-Accounted rate n (first_of first c (ready frame)) _ c frame _ free
          (omega (arith, bare)) begins a.rate_kept)
]

first_of-some :
    (first : Option ℕ) (t : ℕ) (c : Clock) (inner : Poll)
    → first ≡ some t
    → first_of first c inner ≡ first
first_of-some first t c inner e = rw e refl

poll_with-Accounted :
    (h : Option (Frame × ℕ)) (rate n now : ℕ) (first : Option ℕ) (b : ThrottledBody) (c : Clock)
    (inner : Poll)
    → b.held ≡ h
    → IsHeld b h
    → Accounted rate n first b
    → After rate n (first_of first c inner) (poll_with h b c inner)
unfolding poll_with
poll_with-Accounted none rate n now first b c inner free held a =
    poll_inner-Accounted rate n first b c inner free a
poll_with-Accounted (some (frame, deadline)) rate n now first b c inner holds (t, begun, due) a =
    let seen : first ≡ some t = sym a.started ∙ begun in
    rw (first_of-some first t c inner seen) (
      poll_held-Accounted rate n first b c frame deadline
        (a.counted ∙ ap (λ (h : Option (Frame × ℕ)). n + held_size h) holds) a.started a.rate_kept)

poll_frame-Accounted :
    (rate n now : ℕ) (first : Option ℕ) (b : ThrottledBody) (c : Clock) (inner : Poll)
    → IsValid now b
    → Accounted rate n first b
    → After rate n (first_of first c inner) (poll_frame b c inner)
unfolding poll_frame
poll_frame-Accounted rate n now first b c inner (held, begun) a =
    poll_with-Accounted b.held rate n now first b c inner refl held a

-- Data in the amount of `n` has had its time at the rate, since the first data came.
abbrev pub WithinRate : ℕ → ℕ → Option ℕ → ℕ → Type 0
WithinRate rate n first time =
    (n ≡ 0) ⊎ ((t : ℕ) × (first ≡ some t) × (t * rate + n * byte_units ≤ time * rate))

WithinRate-later :
    (rate n : ℕ) (first : Option ℕ) (c : Clock) (inner : Poll) (now : ℕ)
    → now ≤ c.polled
    → WithinRate rate n first now
    → WithinRate rate n (first_of first c inner) c.polled
WithinRate-later rate n first c inner now le (inl none_yet) = inl none_yet
WithinRate-later rate n first c inner now le (inr (t, seen, due)) =
    let flow = mul_flow now c.polled rate le in
    inr (t, first_of-some first t c inner seen ∙ seen, omega (arith, flow, due))

passed-WithinRate :
    (rate n : ℕ) (first first' : Option ℕ) (b : ThrottledBody) (p : Poll) (time : ℕ)
    → WithinRate rate n first' time
    → Accounted rate (n + bytes_of p) first' b
    → MayPass b time p
    → WithinRate rate (n + bytes_of p) first' time
passed-WithinRate rate n first first' b pending time old a may = rw add-zero old
passed-WithinRate rate n first first' b ended time old a may = rw add-zero old
passed-WithinRate rate n first first' b failed time old a may = rw add-zero old
passed-WithinRate rate n first first' b (ready frame) time old a (inl empty) =
    rw (empty, add-zero) old
passed-WithinRate rate n first first' b (ready frame) time old a (inr (t, begun, due)) =
    let due' : t * rate + b.bytes_delivered * byte_units ≤ time * rate =
      subst (λ (r : ℕ). t * r + b.bytes_delivered * byte_units ≤ time * r) a.rate_kept due in
    inr (t, sym a.started ∙ begun, omega (arith, due', a.counted))

run-WithinRate :
    (rate n now : ℕ) (first : Option ℕ) (b : ThrottledBody) (polls : List (Clock × Poll))
    → InOrder now polls
    → IsValid now b
    → Accounted rate n first b
    → WithinRate rate n first now
    → WithinRate rate (n + delivered b polls) (first_data first polls) (end_of now polls)
unfolding delivered
run-WithinRate rate n now first b [] o v a within = rw add-zero within
run-WithinRate rate n now first b ((c, inner) ∷ polls) (o, os) v a within =
    let (v', may) = poll_frame-StepsWell b c inner now o v in
    let a' = poll_frame-Accounted rate n now first b c inner v a in
    let (b', p) = poll_frame b c inner in
    let within' =
      passed-WithinRate rate n first (first_of first c inner) b' p c.polled
        (WithinRate-later rate n first c inner now (omega (arith, o)) within) a' may in
    let whole : n + (bytes_of p + delivered b' polls) ≡ n + bytes_of p + delivered b' polls =
      omega arith in
    rw whole (
      run-WithinRate rate (n + bytes_of p) c.polled (first_of first c inner) b' polls os v' a'
        within')

-- However a throttled body is polled, at times in order, and whatever its inner body yields: if it has
-- passed on any data by the end, all the data that its polls have yielded has had its time at the
-- configured rate, counted from the poll in which the inner body first yielded data.
pub delivered-WithinRate :
    (bytes_per_second start : ℕ) (polls : List (Clock × Poll))
    → InOrder start polls
    → WithinRate bytes_per_second
        (delivered (new_body bytes_per_second) polls)
        (first_data none polls)
        (end_of start polls)
unfolding new_body
delivered-WithinRate bytes_per_second start polls os =
    let body = new_body bytes_per_second in
    let whole : 0 + delivered body polls ≡ delivered body polls = omega arith in
    subst (λ (n : ℕ). WithinRate bytes_per_second n (first_data none polls) (end_of start polls))
      whole
      (run-WithinRate bytes_per_second 0 start none body polls os (tt, tt)
        (record { counted = refl; started = refl; rate_kept = refl }) (inl refl))
