-- ===== src/Throttle/Tests.antt =====
-- bandwidth_throttle.rs: polls of a body of three bytes, at one byte a second.
use noxy.Common.{◌⊎◌, some, ◌+◌, ◌*◌, ◌≤◌, ℕ, List, [], ◌∷◌, ◌≡◌, refl, arith}
use noxy.Throttle.{new_body, poll_frame, run, Clock, Poll, ready, pending, data_frame}
use noxy.Throttle.Delivered.{delivered, delivered-WithinRate}

abbrev at : ℕ → Clock
at t = record { now = t; later = t; made = t; polled = t }

abbrev polls : List (Clock × Poll)
polls = (at 5, ready (data_frame (1 ∷ 2 ∷ 3 ∷ []))) ∷ (at 2_000_000_005, pending) ∷ []

holds_the_frame : (poll_frame (run (new_body 1) polls) (at 2_999_999_999) pending).1 ≡ pending
unfolding poll_frame run new_body
holds_the_frame = refl

passes_the_frame :
    (poll_frame (run (new_body 1) polls) (at 3_000_000_005) pending).1
    ≡ ready (data_frame (1 ∷ 2 ∷ 3 ∷ []))
unfolding poll_frame run new_body
passes_the_frame = refl

-- Three bytes that come at 5 are passed on at 3 seconds and 5, and no earlier.
abbrev all_polls : List (Clock × Poll)
all_polls = (at 5, ready (data_frame (1 ∷ 2 ∷ 3 ∷ []))) ∷ (at 3_000_000_005, pending) ∷ []

delivers_three : delivered (new_body 1) all_polls ≡ 3
unfolding delivered poll_frame new_body
delivers_three = refl

delivered-WithinRate_example :
    (delivered (new_body 1) all_polls ≡ 0)
    ⊎ ((t : ℕ) × (some 5 ≡ some t)
        × (t * 1 + delivered (new_body 1) all_polls * 1_000_000_000 ≤ 3_000_000_005 * 1))
delivered-WithinRate_example = delivered-WithinRate 1 5 all_polls (ground arith)
