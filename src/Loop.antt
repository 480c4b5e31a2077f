-- ===== src/Loop.antt =====
-- The event loop, and the two calls that run it: pssh_connect of src/pssh.c and pssh_exec of
-- src/task.c. Each goes round a `for (;;)`: look at every entry or task, return if there is something
-- to report, else let libevent dispatch what is ready (event_base_loop with EVLOOP_ONCE).
-- What libevent finds ready is an input: one list of occurrences for each call of event_base_loop.
pub mod Dispatch
pub mod Connect
pub mod Exec
pub mod Cases
pub mod Callbacks
pub mod Reach
pub mod Owner
pub mod Marks
pub mod Board
use libpssh.Prelude.{ℕ, ℤ, Bool, List, Option}
use libpssh.Env.{Fired}

-- What libevent reports: the event of an entry fires, or evdns answers for an entry.
pub data Occurrence : Type 0 where
  fires : ℕ → Fired → Occurrence
  answers : ℕ → Bool → Option ℤ → Occurrence

-- The results of both calls: the anonymous enum of include/pssh.h.
pub data Ret : Type 0 where
  connected running timed_out failed success : Ret

-- A call returns a result and the entry or task that it is about, with the state that it leaves; or it
-- waits in event_base_loop when the occurrences are used up; or the process stops, or spins.
pub data Call (A : Type 0) : Type 0 where
  returned : Ret → Option ℕ → A → Call A
  waits : A → Call A
  stopped : Call A
  spins : Call A
