-- ===== src/Sliding.antt =====
-- src/middleware/sliding_window.rs: the in-memory store and the service of the sliding window. A
-- panic is `none`. Instants are numbers that a window can always be subtracted from, so the test
-- `t <= now - window` is written `t + window <= now`.
pub mod Queue
pub mod Store
pub mod Cap
pub mod Lua
mod Tests
use noxy.Common.{
  ◌>>=◌, ◌*◌, ℤ, pos, negsuc, ℤ, ℕ, ◌+◌, ◌-◌, max, Bool, true, false, Option, none, some, List, [],
  ◌∷◌, ◌++◌, String, ltb, leb, length, if◌then◌else◌,
}
use noxy.Http.{Request, Outcome, Service}
use noxy.KeyMap.{lookup, insert, retain, evict_if_needed}

pub record WindowState : Type 0 where
  pub timestamps : List ℕ
  pub last_seen : ℕ

pub record SharedState : Type 0 where
  pub windows : List (String × WindowState)
  pub count : ℕ
  pub window : ℕ
  pub max_keys : ℕ
  pub idle_ttl : ℕ
  pub next_cleanup : ℕ

abbrev pub cleanup_interval : ℕ
cleanup_interval = 30_000_000_000

-- `InMemorySlidingWindowStore::new` and its setters.
pub new_store : ℕ → ℕ → ℕ → SharedState
new_store count window now = record {
  windows = [];
  count = count;
  window = window;
  max_keys = 10_000;
  idle_ttl = 600_000_000_000;
  next_cleanup = now + cleanup_interval;
}

pub set_max_keys : SharedState → ℕ → SharedState
set_max_keys s n = record s { max_keys = max n 1 }

pub set_idle_ttl : SharedState → ℕ → SharedState
set_idle_ttl s ttl = record s { idle_ttl = ttl }

abbrev pub effective_ttl : SharedState → ℕ
effective_ttl s = max s.idle_ttl s.window

pub maybe_cleanup : SharedState → ℕ → SharedState
maybe_cleanup s now = if ltb now s.next_cleanup then s else record s {
  windows = retain (λ w. leb (now - w.last_seen) (effective_ttl s)) s.windows;
  next_cleanup = now + cleanup_interval;
}

pub evict_one : SharedState → String → ℕ → SharedState
evict_one s key now = record s {
  windows =
      evict_if_needed (λ w. ltb (effective_ttl s) (now - w.last_seen)) (λ w. w.last_seen) s.max_keys
        key s.windows;
}

-- "Drain entries older than the window."
pub drain : ℕ → ℕ → List ℕ → List ℕ
drain window now [] = []
drain window now (t ∷ ts) = if leb (t + window) now then drain window now ts else t ∷ ts

-- A request over the cap: `timestamps[0]` panics on an empty queue.
pub reserve : ℕ → ℕ → List ℕ → Option (List ℕ × Option ℕ)
reserve window now [] = none
reserve window now (oldest ∷ ts) =
    let delay : ℕ = window - (now - oldest) in
    some ((oldest ∷ ts) ++ (now + delay) ∷ [], some delay)

-- The rest of `take`, on a drained queue: the new queue, and the delay.
pub take_slot : ℕ → ℕ → ℕ → List ℕ → Option (List ℕ × Option ℕ)
unfolding reserve
take_slot count window now ts =
    if ltb (length ts) count then some (ts ++ now ∷ [], none) else reserve window now ts

-- `take` on the queue of one key.
pub take_queue : ℕ → ℕ → ℕ → List ℕ → Option (List ℕ × Option ℕ)
take_queue count window now ts = take_slot count window now (drain window now ts)

-- The queue that `entry(key).or_insert_with(..)` yields.
abbrev pub timestamps_of : Option WindowState → List ℕ
timestamps_of none = []
timestamps_of (some w) = w.timestamps

abbrev pub put_queue :
    SharedState → String → ℕ → Option (List ℕ × Option ℕ) → Option (SharedState × Option ℕ)
put_queue s key now none = none
put_queue s key now (some (ts, delay)) = some (
  record s { windows = insert key (record { timestamps = ts; last_seen = now }) s.windows },
  delay,
)

abbrev pub prepare : SharedState → String → ℕ → SharedState
prepare s key now = evict_one (maybe_cleanup s now) key now

-- `SharedState::take`
pub take : SharedState → String → ℕ → Option (SharedState × Option ℕ)
take s key now =
    let p = prepare s key now in
    put_queue p key now (take_queue p.count p.window now (timestamps_of (lookup key p.windows)))

-- Calls of `take` one after the other, each with its key and its time: the store after them and the
-- delays that they returned, or a panic.
pub run : SharedState → List (String × ℕ) → Option (SharedState × List (Option ℕ))
run s [] = some (s, [])
run s ((key, now) ∷ calls) = do
  (s', delay) ← take s key now
  (t, delays) ← run s' calls
  some (t, delay ∷ delays)

-- `SlidingWindowService::call`, from the store's answer on: the request goes on at once, or after the
-- delay. The state below the layer is given the time at which it is reached.
pub call : {W : Type 0} → Service (ℕ × W) → ℕ → Option ℕ → Request → W → Outcome × (ℕ × W)
call inner now none req w = inner req (now, w)
call inner now (some delay) req w = inner req (now + delay, w)

-- `RedisSlidingWindowStore::take`: what Redis answered, in milliseconds, or nothing where it could not
-- be reached or the script failed.
pub redis_take : SharedState → String → ℕ → Option ℤ → Option (SharedState × Option ℕ)
redis_take s key now none = take s key now
redis_take s key now (some (negsuc n)) = some (s, none)
redis_take s key now (some (pos delay_ms)) =
    if ltb 0 delay_ms then some (s, some (delay_ms * 1_000_000)) else some (s, none)
