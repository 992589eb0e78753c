-- ===== src/Throttle.antt =====
-- src/middleware/bandwidth_throttle.rs: the throttled body, poll by poll. Times are in nanoseconds; a
-- deadline is in units of which `bytes_per_second` pass in one, so that a byte takes 10 ^ 9 of them and
-- nothing is rounded, where the source rounds to nanoseconds. The counter is a `u64` that no body fills.
pub mod Rate
pub mod Delivered
mod Tests
use noxy.Common.{
  ℕ, ◌+◌, ◌-◌, ◌*◌, ◌==◌, Bool, true, false, Option, none, some, List, [], ◌∷◌, leb, length,
  if◌then◌else◌,
}
use noxy.Http.{Bytes}

pub data Frame : Type 0 where
  data_frame : Bytes → Frame
  trailers : Frame

-- What a poll of a body comes to.
pub data Poll : Type 0 where
  pending ended failed : Poll
  ready : Frame → Poll

pub record ThrottledBody : Type 0 where
  pub bytes_per_second : ℕ
  pub bytes_delivered : ℕ
  pub start : Option ℕ
  pub held : Option (Frame × ℕ)

-- `ThrottledBody::new`
pub new_body : ℕ → ThrottledBody
new_body bytes_per_second = record {
  bytes_per_second = bytes_per_second;
  bytes_delivered = 0;
  start = none;
  held = none;
}

-- The clock in one poll: for the start, for the time elapsed, where the sleep is made, and where it is
-- polled.
pub record Clock : Type 0 where
  pub now : ℕ
  pub later : ℕ
  pub made : ℕ
  pub polled : ℕ

abbrev pub size : Frame → ℕ
size (data_frame bytes) = length bytes
size trailers = 0

abbrev pub get_or_insert : Option ℕ → ℕ → ℕ
get_or_insert none now = now
get_or_insert (some start) now = start

-- One byte, in units.
abbrev pub byte_units : ℕ
byte_units = 1_000_000_000

-- The poll of a held frame's sleep.
pub poll_held : ThrottledBody → Clock → Frame → ℕ → ThrottledBody × Poll
poll_held b c frame deadline =
    if leb deadline (c.polled * b.bytes_per_second)
    then (record b { held = none }, ready frame)
    else (record b { held = some (frame, deadline) }, pending)

-- A data frame, once it is counted.
pub throttle : ThrottledBody → Clock → Frame → ℕ → ThrottledBody × Poll
unfolding poll_held
throttle b c frame start =
    let expected : ℕ = b.bytes_delivered * byte_units in
    let elapsed : ℕ = (c.later - start) * b.bytes_per_second in
    if leb expected elapsed
    then (b, ready frame)
    else poll_held b c frame (c.made * b.bytes_per_second + (expected - elapsed))

-- What the inner body's poll comes to.
pub poll_inner : ThrottledBody → Clock → Poll → ThrottledBody × Poll
unfolding throttle
poll_inner b c pending = (b, pending)
poll_inner b c ended = (b, ended)
poll_inner b c failed = (b, failed)
poll_inner b c (ready frame) =
    if size frame == 0
    then (b, ready frame)
    else let start : ℕ = get_or_insert b.start c.now in
      throttle (record b { bytes_delivered = b.bytes_delivered + size frame; start = some start }) c
        frame start

-- Where a frame is held, the inner body is not polled.
pub poll_with : Option (Frame × ℕ) → ThrottledBody → Clock → Poll → ThrottledBody × Poll
unfolding poll_inner poll_held
poll_with none b c inner = poll_inner b c inner
poll_with (some (frame, deadline)) b c inner = poll_held b c frame deadline

-- `poll_frame`
unfoldable pub poll_frame : ThrottledBody → Clock → Poll → ThrottledBody × Poll
unfolding poll_with
poll_frame b c inner = poll_with b.held b c inner

unfoldable pub run : ThrottledBody → List (Clock × Poll) → ThrottledBody
unfolding poll_frame
run b [] = b
run b ((c, inner) ∷ polls) = run (poll_frame b c inner).0 polls
