-- ===== src/Proxy/Listen/Limit.antt =====
-- The limit of connections, and shutting down.
use noxy.Common.{ℕ, zero, suc, ◌+◌, ◌≤◌, Option, none, some, ◌∷◌, ◌≡◌, refl, arith, replicate}
use noxy.Proxy.Listen.{
  Server, selecting, draining, closed, Event, connection, accept_failed, finished, shutdown,
  drain_elapsed, step, run, on_connection, on_accept_failed, on_finished, on_shutdown,
  on_drain_elapsed, release,
}

-- Every permit is free or held by a task, until tasks are aborted.
abbrev Holds : ℕ → Option ℕ → ℕ → Type 0
Holds limit none running = ⊥
Holds limit (some n) running = n + running ≤ limit

pub step-Holds :
    (limit : ℕ) (s : Server) (e : Event)
    → Holds limit s.available s.running
    → Holds limit (step s e).available (step s e).running
unfolding step on_connection on_accept_failed on_finished on_shutdown on_drain_elapsed release
step-Holds limit s connection h = ground arith
step-Holds limit s accept_failed h = ground arith
step-Holds limit s finished h = ground arith
step-Holds limit s shutdown h = ground arith
step-Holds limit s drain_elapsed h = ground arith

draining-ends :
    (n : ℕ) (s : Server)
    → s.phase ≡ draining
    → s.running ≡ suc n
    → ((run s (replicate (suc n) finished)).phase ≡ closed)
      × ((run s (replicate (suc n) finished)).running ≡ 0)
unfolding run step on_finished release
draining-ends zero s drains count = ground arith
draining-ends (suc n) s drains count =
    draining-ends n (step s finished) (ground arith) (ground arith)

shutdown-closes_after :
    (n : ℕ) (s : Server)
    → s.phase ≡ selecting
    → s.running ≡ n
    → ((run s (shutdown ∷ replicate n finished)).phase ≡ closed)
      × ((run s (shutdown ∷ replicate n finished)).running ≡ 0)
unfolding run step on_shutdown
shutdown-closes_after zero s selects count = ground arith
shutdown-closes_after (suc n) s selects count =
    draining-ends n (step s shutdown) (ground arith) (ground arith)

-- A shutdown that the loop sees ends it once all connections have ended, with no drain timeout needed.
pub shutdown-closes :
    (s : Server)
    → s.phase ≡ selecting
    → ((run s (shutdown ∷ replicate s.running finished)).phase ≡ closed)
      × ((run s (shutdown ∷ replicate s.running finished)).running ≡ 0)
shutdown-closes s selects = shutdown-closes_after s.running s selects refl
