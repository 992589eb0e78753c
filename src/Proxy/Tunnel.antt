-- ===== src/Proxy/Tunnel.antt =====
-- lib.rs, the relay of an upgraded connection: `copy_half`, `idle_watchdog` and `relay_tunnel`. What a
-- direction reads is a list of events in the order of their times; the two directions' tasks share the
-- counter of chunks.
pub mod Idle
use noxy.Common.{
  ℕ, zero, suc, ◌+◌, ◌%◌, ◌^◌, ◌==◌, max, Bool, true, false, Option, none, some, List, [], ◌∷◌,
  ◌++◌, leb, ltb, if◌then◌else◌,
}
use noxy.Http.{Bytes}

-- `read` at a time, and whether the bytes were then written and flushed.
pub data Read : Type 0 where
  chunk : ℕ → Bytes → Bool → Read
  failed : ℕ → Read

pub data TunnelOutcome : Type 0 where
  closed idle error : TunnelOutcome

-- How far a direction has come: what it wrote, when it bumped the counter, and its end, if it has come
-- to it: `Ok(())` after a shutdown of the writer, or an error.
pub record Half : Type 0 where
  pub written : Bytes
  pub activity : List ℕ
  pub ended : Option (ℕ × Bool)

abbrev wrote : ℕ → Bytes → Half → Half
wrote t bytes rest = record rest { written = bytes ++ rest.written; activity = t ∷ rest.activity }

abbrev stopped : List ℕ → ℕ → Bool → Half
stopped activity t succeeded = record {
  written = [];
  activity = activity;
  ended = some (t, succeeded);
}

-- `copy_half`; a read of no bytes is the end of the stream.
unfoldable pub copy_half : List Read → Half
copy_half [] = record { written = []; activity = []; ended = none }
copy_half (failed t ∷ reads) = stopped [] t false
copy_half (chunk t [] ok ∷ reads) = stopped [] t true
copy_half (chunk t (b ∷ bs) false ∷ reads) = stopped (t ∷ []) t false
copy_half (chunk t (b ∷ bs) true ∷ reads) = wrote t (b ∷ bs) (copy_half reads)

-- `tokio::try_join!`: an error of either direction ends the relay, the end of both closes it.
unfoldable pub join_halves : Option (ℕ × Bool) → Option (ℕ × Bool) → Option (ℕ × TunnelOutcome)
join_halves none none = none
join_halves (some (t, false)) none = some (t, error)
join_halves none (some (u, false)) = some (u, error)
join_halves (some (t, true)) none = none
join_halves none (some (u, true)) = none
join_halves (some (t, true)) (some (u, true)) = some (max t u, closed)
join_halves (some (t, false)) (some (u, true)) = some (t, error)
join_halves (some (t, true)) (some (u, false)) = some (u, error)
join_halves (some (t, false)) (some (u, false)) = some (if leb t u then t else u, error)

-- The chunks counted up to a time.
unfoldable pub count_until : ℕ → List ℕ → ℕ
count_until now [] = 0
count_until now (t ∷ times) = (if leb t now then 1 else 0) + count_until now times

-- The counter, a `u64`, at a time.
unfoldable pub activity_at : List ℕ → ℕ → ℕ
unfolding count_until
activity_at times now = count_until now times % 2 ^ 64

-- The loop of `idle_watchdog`, from `now` on; `none` is the fuel's end.
unfoldable pub watch : ℕ → ℕ → List ℕ → ℕ → ℕ → Option ℕ
unfolding activity_at
watch zero timeout times now last = none
watch (suc fuel) timeout times now last =
    let rest = watch fuel timeout times (now + timeout) (activity_at times (now + timeout)) in
    if activity_at times (now + timeout) == last then some (now + timeout) else rest

unfoldable pub idle_watchdog : ℕ → ℕ → List ℕ → ℕ → Option ℕ
unfolding watch
idle_watchdog fuel timeout times start = watch fuel timeout times start (activity_at times start)

-- `tokio::select!`; where both are ready at once, the generator picks.
unfoldable pub select : Bool → Option (ℕ × TunnelOutcome) → Option ℕ → Option (ℕ × TunnelOutcome)
select relay_first none none = none
select relay_first (some ended) none = some ended
select relay_first none (some t) = some (t, idle)
select relay_first (some (t, outcome)) (some u) =
    if ltb t u
    then some (t, outcome)
    else if ltb u t
    then some (u, idle)
    else if relay_first
    then some (t, outcome)
    else some (u, idle)

-- `relay_tunnel` from `start` on, given what the client and the upstream send.
unfoldable pub relay_tunnel :
    ℕ → Bool → Option ℕ → ℕ → List Read → List Read → Option (ℕ × TunnelOutcome)
unfolding copy_half join_halves idle_watchdog select
relay_tunnel fuel relay_first none start from_client from_upstream =
    join_halves (copy_half from_client).ended (copy_half from_upstream).ended
relay_tunnel fuel relay_first (some timeout) start from_client from_upstream =
    let to_upstream = copy_half from_client in
    let to_client = copy_half from_upstream in
    select relay_first (join_halves to_upstream.ended to_client.ended)
      (idle_watchdog fuel timeout (to_upstream.activity ++ to_client.activity) start)
