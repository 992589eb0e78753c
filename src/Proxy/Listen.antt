-- ===== src/Proxy/Listen.antt =====
-- lib.rs, `listen_on_with_shutdown`: the loop that accepts connections under a limit, and the draining
-- after a shutdown. What the loop waits for is an event; an order of events is one of the orders in which
-- the tasks can run. An event that nothing waits for changes nothing.
pub mod Limit
use noxy.Common.{
  ℕ, zero, suc, ◌+◌, ◌-◌, ◌==◌, Bool, true, false, Option, none, some, List, [], ◌∷◌, if◌then◌else◌,
}

-- Where the loop stands: in its `select!`, in `acquire_owned().await` with a connection accepted, in the
-- draining after it, and at an end: by `Ok(())`, or by the error of an `accept`.
pub data Phase : Type 0 where
  selecting acquiring draining closed failed : Phase

pub record Server : Type 0 where
  -- The free permits of the semaphore, if there is a limit.
  pub available : Option ℕ
  -- The tasks of connections, `tasks`.
  pub running : ℕ
  pub drain_timeout : Option ℕ
  pub phase : Phase

pub data Event : Type 0 where
  -- `accept` yields a connection, or an error.
  connection accept_failed : Event
  -- A connection's task ends, and drops its permit.
  finished : Event
  -- The shutdown future is ready, and polled if the loop is in its `select!`.
  shutdown : Event
  -- The drain timeout elapses.
  drain_elapsed : Event

unfoldable pub new_server : Option ℕ → Option ℕ → Server
new_server max_connections drain_timeout = record {
  available = max_connections;
  running = 0;
  drain_timeout = drain_timeout;
  phase = selecting;
}

abbrev pub spawn : Server → Option ℕ → Server
spawn s available = record s { available = available; running = s.running + 1; phase = selecting }

unfoldable pub on_connection : Phase → Server → Server
on_connection selecting s = elim s.available [
  | none ↦ spawn s none
  | some zero ↦ record s { phase = acquiring }
  | some (suc n) ↦ spawn s (some n)
]
on_connection _ s = s

-- The end of the listener drops the set of tasks, which aborts them.
unfoldable pub on_accept_failed : Phase → Server → Server
on_accept_failed selecting s = record s { running = 0; phase = failed }
on_accept_failed _ s = s

abbrev pub add_permit : Option ℕ → Option ℕ
add_permit none = none
add_permit (some n) = some (suc n)

abbrev pub closed_if_done : Server → Server
closed_if_done s = record s { phase = if s.running == 0 then closed else draining }

-- A permit that is dropped goes to the accepted connection that waits for one.
unfoldable pub release : Phase → Server → Server
release acquiring s = record s { phase = selecting }
release draining s =
    closed_if_done (record s { available = add_permit s.available; running = s.running - 1 })
release _ s = record s { available = add_permit s.available; running = s.running - 1 }

unfoldable pub on_finished : Server → Server
unfolding release
on_finished s = if s.running == 0 then s else release s.phase s

unfoldable pub on_shutdown : Phase → Server → Server
on_shutdown selecting s = closed_if_done s
on_shutdown _ s = s

abbrev pub abort_all : Option ℕ → Server → Server
abort_all none s = s
abort_all (some timeout) s = record s { running = 0; phase = closed }

unfoldable pub on_drain_elapsed : Phase → Server → Server
on_drain_elapsed draining s = abort_all s.drain_timeout s
on_drain_elapsed _ s = s

unfoldable pub step : Server → Event → Server
unfolding on_connection on_accept_failed on_finished on_shutdown on_drain_elapsed
step s connection = on_connection s.phase s
step s accept_failed = on_accept_failed s.phase s
step s finished = on_finished s
step s shutdown = on_shutdown s.phase s
step s drain_elapsed = on_drain_elapsed s.phase s

unfoldable pub run : Server → List Event → Server
unfolding step
run s [] = s
run s (e ∷ events) = run (step s e) events
