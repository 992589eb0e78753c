-- ===== src/Retry/Capture.antt =====
-- retry.rs, `ReplayCapture` and `RecordingBody`: the bytes of a streamed body, kept for a replay.
use mathlib.Core.List.{append-nil, append_assoc}
use noxy.Common.{
  le→leb, ap, sym, ◌∙◌, ℕ, ◌+◌, ◌-◌, ◌^◌, min, Bool, true, false, not, ◌&&◌, Option, none, some,
  List, [], ◌∷◌, ◌++◌, ltb, leb, length, if◌then◌else◌, ◌≤◌, ◌<◌, ◌≡◌, inl, inr, refl, arith,
  Bool-cases, length-append,
}
use noxy.Http.{Bytes}

pub record ReplayCapture : Type 0 where
  pub bytes : Bytes
  pub max_bytes : ℕ
  pub overflowed : Bool
  pub complete : Bool

-- `ReplayCapture::new`
unfoldable pub new_capture : ℕ → ReplayCapture
new_capture max_bytes = record {
  bytes = [];
  max_bytes = max_bytes;
  overflowed = false;
  complete = false;
}

abbrev pub usize_max : ℕ
usize_max = 2 ^ 64 - 1

-- `saturating_add` on `usize`.
abbrev pub saturating_add : ℕ → ℕ → ℕ
saturating_add a b = min (a + b) usize_max

unfoldable pub record_chunk : ReplayCapture → Bytes → ReplayCapture
record_chunk c chunk =
    if c.overflowed
    then c
    else if ltb c.max_bytes (saturating_add (length c.bytes) (length chunk))
    then record c { bytes = []; overflowed = true }
    else record c { bytes = c.bytes ++ chunk }

unfoldable pub snapshot : ReplayCapture → Option Bytes
snapshot c = if c.complete && not c.overflowed then some c.bytes else none

-- What a poll of the inner body yields; a frame that is not data holds trailers.
pub data Polled : Type 0 where
  pending : Polled
  data_frame : Bytes → Polled
  trailers : Polled
  failed : Polled
  ended : Polled

-- How a body came to its end, if it did.
pub data Ending : Type 0 where
  unfinished broken whole : Ending

abbrev pub last_polls : Ending → List Polled
last_polls unfinished = []
last_polls broken = failed ∷ []
last_polls whole = ended ∷ []

-- Polls before the end of a body.
abbrev pub Flowing : List Polled → Type 0
Flowing [] = Unit
Flowing (pending ∷ ps) = Flowing ps
Flowing (data_frame chunk ∷ ps) = Flowing ps
Flowing (trailers ∷ ps) = Flowing ps
Flowing (failed ∷ ps) = ⊥
Flowing (ended ∷ ps) = ⊥

-- The data of the polled frames.
abbrev pub data_of : List Polled → Bytes
data_of [] = []
data_of (pending ∷ ps) = data_of ps
data_of (data_frame chunk ∷ ps) = chunk ++ data_of ps
data_of (trailers ∷ ps) = data_of ps
data_of (failed ∷ ps) = data_of ps
data_of (ended ∷ ps) = data_of ps

-- `RecordingBody::poll_frame`, of which the caller sees what the inner body yields.
unfoldable pub poll_frame : ReplayCapture → Polled → ReplayCapture
poll_frame c pending = c
poll_frame c (data_frame chunk) = record_chunk c chunk
poll_frame c trailers = c
poll_frame c failed = record c { overflowed = true }
poll_frame c ended = record c { complete = true }

unfoldable pub poll_all : ReplayCapture → List Polled → ReplayCapture
poll_all c [] = c
poll_all c (p ∷ ps) = poll_all (poll_frame c p) ps

-- What a replay may send: the data of a body that was read to its end, if it is not too long.
abbrev pub replayable : ℕ → List Polled → Ending → Option Bytes
replayable max_bytes ps unfinished = none
replayable max_bytes ps broken = none
replayable max_bytes ps whole =
    if leb (length (data_of ps)) max_bytes then some (data_of ps) else none

record_chunk_overflowed :
    (c : ReplayCapture) (chunk : Bytes) → c.overflowed ≡ true → record_chunk c chunk ≡ c
unfolding record_chunk
record_chunk_overflowed c chunk o = ground arith

record_chunk_over :
    (c : ReplayCapture) (chunk : Bytes)
    → c.overflowed ≡ false
    → ltb c.max_bytes (saturating_add (length c.bytes) (length chunk)) ≡ true
    → record_chunk c chunk ≡ record c { bytes = []; overflowed = true }
unfolding record_chunk
record_chunk_over c chunk o over = ground arith

record_chunk_room :
    (c : ReplayCapture) (chunk : Bytes)
    → c.overflowed ≡ false
    → ltb c.max_bytes (saturating_add (length c.bytes) (length chunk)) ≡ false
    → record_chunk c chunk ≡ record c { bytes = c.bytes ++ chunk }
unfolding record_chunk
record_chunk_room c chunk o room = ground arith

overflowed_stays :
    (c : ReplayCapture) (ps : List Polled) (e : Ending)
    → c.overflowed ≡ true
    → snapshot (poll_all c (ps ++ last_polls e)) ≡ none
unfolding poll_all snapshot poll_frame
overflowed_stays c [] unfinished o = ground arith
overflowed_stays c [] broken o = ground arith
overflowed_stays c [] whole o = ground arith
overflowed_stays c (pending ∷ ps) e o = overflowed_stays c ps e o
overflowed_stays c (data_frame chunk ∷ ps) e o =
    ap (λ d. snapshot (poll_all d (ps ++ last_polls e))) (record_chunk_overflowed c chunk o)
    ∙ overflowed_stays c ps e o
overflowed_stays c (trailers ∷ ps) e o = overflowed_stays c ps e o
overflowed_stays c (failed ∷ ps) e o = overflowed_stays (record c { overflowed = true }) ps e refl
overflowed_stays c (ended ∷ ps) e o = overflowed_stays (record c { complete = true }) ps e o

too_long :
    (max_bytes : ℕ) (ps : List Polled) (e : Ending)
    → max_bytes < length (data_of ps)
    → replayable max_bytes ps e ≡ none
too_long max_bytes ps unfinished h = refl
too_long max_bytes ps broken h = refl
too_long max_bytes ps whole h = ground arith

merged :
    (max_bytes : ℕ) (kept chunk : Bytes) (ps : List Polled) (e : Ending)
    → replayable max_bytes (data_frame (kept ++ chunk) ∷ ps) e
      ≡ replayable max_bytes (data_frame kept ∷ data_frame chunk ∷ ps) e
merged max_bytes kept chunk ps unfinished = refl
merged max_bytes kept chunk ps broken = refl
merged max_bytes kept chunk ps whole = rw (append_assoc kept chunk (data_of ps)) refl

snapshot-poll_all :
    (c : ReplayCapture) (ps : List Polled) (e : Ending)
    → c.max_bytes < usize_max
    → length c.bytes ≤ c.max_bytes
    → c.overflowed ≡ false
    → c.complete ≡ false
    → Flowing ps
    → snapshot (poll_all c (ps ++ last_polls e))
      ≡ replayable c.max_bytes (data_frame c.bytes ∷ ps) e
unfolding poll_all snapshot poll_frame
snapshot-poll_all c [] unfinished small fits o n f = ground arith
snapshot-poll_all c [] broken small fits o n f = ground arith
snapshot-poll_all c [] whole small fits o n f =
    rw (o, append-nil c.bytes, le→leb (length c.bytes) c.max_bytes fits) refl
snapshot-poll_all c (pending ∷ ps) e small fits o n f = snapshot-poll_all c ps e small fits o n f
snapshot-poll_all c (data_frame chunk ∷ ps) e small fits o n f =
    elim (Bool-cases (ltb c.max_bytes (saturating_add (length c.bytes) (length chunk)))) [
      | inl over ↦
          let long = length-append c.bytes (chunk ++ data_of ps) in
          let rest = length-append chunk (data_of ps) in
          ap (λ d. snapshot (poll_all d (ps ++ last_polls e))) (record_chunk_over c chunk o over)
          ∙ overflowed_stays (record c { bytes = []; overflowed = true }) ps e refl
          ∙ sym (
              too_long c.max_bytes (data_frame c.bytes ∷ data_frame chunk ∷ ps) e
                (ground (arith, long, rest)))
      | inr room ↦
          let kept = c.bytes ++ chunk in
          let fits' : length kept ≤ c.max_bytes = ground (arith, length-append c.bytes chunk) in
          ap (λ d. snapshot (poll_all d (ps ++ last_polls e))) (record_chunk_room c chunk o room)
          ∙ snapshot-poll_all (record c { bytes = kept }) ps e small fits' o n f
          ∙ merged c.max_bytes c.bytes chunk ps e
    ]
snapshot-poll_all c (trailers ∷ ps) e small fits o n f = snapshot-poll_all c ps e small fits o n f
snapshot-poll_all c (failed ∷ ps) e small fits o n f = elim f [ ]
snapshot-poll_all c (ended ∷ ps) e small fits o n f = elim f [ ]

pub snapshot_new : (max_bytes : ℕ) → snapshot (new_capture max_bytes) ≡ none
unfolding snapshot new_capture
snapshot_new max_bytes = refl

-- What a capture offers for a replay, however the body was polled: all of the body's data, if it was
-- read to its end and is no longer than the limit, and otherwise nothing; after a stream error, and
-- before the end, nothing. The limit is less than the greatest `usize`.
pub snapshot-eq-replayable :
    (max_bytes : ℕ) (ps : List Polled) (e : Ending)
    → max_bytes < usize_max
    → Flowing ps
    → snapshot (poll_all (new_capture max_bytes) (ps ++ last_polls e)) ≡ replayable max_bytes ps e
unfolding new_capture
snapshot-eq-replayable max_bytes ps e small f =
    snapshot-poll_all (new_capture max_bytes) ps e small (omega arith) refl refl f
