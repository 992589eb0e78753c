-- ===== src/Throttle/Rate.antt =====
-- bandwidth_throttle.rs: the rate at which data passes.
use mathlib.Core.Path.{subst}
use noxy.Common.{
  ==_iff, sym, ℕ, ◌+◌, ◌-◌, ◌*◌, ◌==◌, ◌≤◌, Option, none, some, List, [], ◌∷◌, leb, ◌≡◌, ◌⊎◌, refl,
  arith, inl, inr, Bool-cases, leb→le, mul_flow,
}
use noxy.Throttle.{
  poll_with, ThrottledBody, Frame, Poll, pending, ended, failed, ready, Clock, size, get_or_insert,
  byte_units, poll_held, throttle, poll_inner, poll_frame,
}

-- Clock readings in one poll, in order.
abbrev pub Ordered : ℕ → Clock → Type 0
Ordered start c = (start ≤ c.now) × (c.now ≤ c.later) × (c.later ≤ c.made) × (c.made ≤ c.polled)

-- At `t` the data counted so far has had its time.
abbrev pub HadTime : ThrottledBody → ℕ → Type 0
HadTime b units =
    (t : ℕ) × (b.start ≡ some t) × (t * b.bytes_per_second + b.bytes_delivered * byte_units ≤ units)

-- A body whose held frame, if any, waits until the data counted has had its time; it started, if it did,
-- by `now`.
abbrev pub IsHeld : ThrottledBody → Option (Frame × ℕ) → Type 0
IsHeld b none = Unit
IsHeld b (some (frame, deadline)) = HadTime b deadline

abbrev pub Started : ℕ → Option ℕ → Type 0
Started now none = Unit
Started now (some start) = start ≤ now

abbrev pub IsValid : ℕ → ThrottledBody → Type 0
IsValid now b = IsHeld b b.held × Started now b.start

-- What a poll yields may go on now: it is no data, or the data counted so far has had its time.
abbrev pub MayPass : ThrottledBody → ℕ → Poll → Type 0
MayPass b t pending = Unit
MayPass b t ended = Unit
MayPass b t failed = Unit
MayPass b t (ready frame) = (size frame ≡ 0) ⊎ HadTime b (t * b.bytes_per_second)

abbrev StepsWell : Clock → ThrottledBody × Poll → Type 0
StepsWell c (b, p) = IsValid c.polled b × MayPass b c.polled p

poll_held-StepsWell :
    (b : ThrottledBody) (c : Clock) (frame : Frame) (deadline : ℕ)
    → HadTime b deadline
    → Started c.polled b.start
    → StepsWell c (poll_held b c frame deadline)
unfolding poll_held
poll_held-StepsWell b c frame deadline (t, started, due) s =
    elim (Bool-cases (leb deadline (c.polled * b.bytes_per_second))) [
      | inl over ↦
          let past = leb→le deadline (c.polled * b.bytes_per_second) over in
          rw over ((tt, s), inr (t, started, omega arith))
      | inr early ↦ rw early (((t, started, due), s), tt)
    ]

throttle-StepsWell :
    (b : ThrottledBody) (c : Clock) (frame : Frame) (start : ℕ)
    → Ordered start c
    → b.start ≡ some start
    → b.held ≡ none
    → StepsWell c (throttle b c frame start)
unfolding throttle
throttle-StepsWell b c frame start (o1, o2, o3, o4) started free =
    let rate : ℕ = b.bytes_per_second in
    let expected : ℕ = b.bytes_delivered * byte_units in
    let elapsed : ℕ = (c.later - start) * rate in
    let flow = mul_flow start c.later rate (omega arith) in
    let made = mul_flow c.later c.made rate o3 in
    let end = mul_flow c.later c.polled rate (omega arith) in
    let before : Started c.polled b.start = subst (Started c.polled) (sym started) (omega arith) in
    elim (Bool-cases (leb expected elapsed)) [
      | inl over ↦
          let past = leb→le expected elapsed over in
          rw over (
            (subst (IsHeld b) (sym free) tt, before),
            inr (start, started, omega (arith, past, flow, end)),
          )
      | inr early ↦ rw early (
          poll_held-StepsWell b c frame (c.made * rate + (expected - elapsed))
            (start, started, omega (arith, flow, made)) before)
    ]

Started-later :
    (now later : ℕ) (start : Option ℕ) → now ≤ later → Started now start → Started later start
Started-later now later none h s = tt
Started-later now later (some start) h s = omega arith

get_or_insert-Ordered :
    (now : ℕ) (c : Clock) (start : Option ℕ)
    → Ordered now c
    → Started now start
    → Ordered (get_or_insert start c.now) c
get_or_insert-Ordered now c none o s = omega arith
get_or_insert-Ordered now c (some start) o s = omega arith

-- A poll of the inner body, where no frame is held.
poll_inner-StepsWell :
    (b : ThrottledBody) (c : Clock) (inner : Poll) (now : ℕ)
    → Ordered now c
    → b.held ≡ none
    → Started now b.start
    → StepsWell c (poll_inner b c inner)
unfolding poll_inner
poll_inner-StepsWell b c inner now o free s = go inner
  where
    idle : IsValid c.polled b
    idle = (subst (IsHeld b) (sym free) tt, Started-later now c.polled b.start (omega (arith, o)) s)

    go : (p : Poll) → StepsWell c (poll_inner b c p)
    go pending = (idle, tt)
    go ended = (idle, tt)
    go failed = (idle, tt)
    go (ready frame) = elim (Bool-cases (size frame == 0)) [
      | inl empty ↦ rw empty (idle, inl ((==_iff (size frame) 0).0 empty))
      | inr full ↦
          let start : ℕ = get_or_insert b.start c.now in
          let counted : ThrottledBody = record b {
            bytes_delivered = b.bytes_delivered + size frame;
            start = some start;
          } in
          rw full (
            throttle-StepsWell counted c frame start (get_or_insert-Ordered now c b.start o s) refl
              free)
    ]

poll_with-StepsWell :
    (h : Option (Frame × ℕ)) (b : ThrottledBody) (c : Clock) (inner : Poll) (now : ℕ)
    → Ordered now c
    → b.held ≡ h
    → IsHeld b h
    → Started now b.start
    → StepsWell c (poll_with h b c inner)
unfolding poll_with
poll_with-StepsWell none b c inner now o free held s = poll_inner-StepsWell b c inner now o free s
poll_with-StepsWell (some (frame, deadline)) b c inner now o holds held s =
    poll_held-StepsWell b c frame deadline held
      (Started-later now c.polled b.start (omega (arith, o)) s)

pub poll_frame-StepsWell :
    (b : ThrottledBody) (c : Clock) (inner : Poll) (now : ℕ)
    → Ordered now c
    → IsValid now b
    → StepsWell c (poll_frame b c inner)
unfolding poll_frame
poll_frame-StepsWell b c inner now o (held, s) =
    poll_with-StepsWell b.held b c inner now o refl held s

-- The clock goes on from poll to poll.
abbrev pub InOrder : ℕ → List (Clock × Poll) → Type 0
InOrder now [] = Unit
InOrder now ((c, inner) ∷ polls) = Ordered now c × InOrder c.polled polls

abbrev pub end_of : ℕ → List (Clock × Poll) → ℕ
end_of now [] = now
end_of now ((c, inner) ∷ polls) = end_of c.polled polls
