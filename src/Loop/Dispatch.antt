-- ===== src/Loop/Dispatch.antt =====
-- How libevent calls back into the library: one callback for each occurrence. An event fires only
-- while it is held, libevent lets go of it before the call, and the callback is the one that
-- `event_set` was last given (libevent's documented behaviour for an event that is not persistent).
use libpssh.Prelude.{
  ℕ, List, [], ◌∷◌, Option, none, some, get_elem?, set, Outcome, ok, abort, ◌>>=◌,
}
use libpssh.Env.{Fired, Env}
use libpssh.Session.{Handler, conn_handler, task_handler, Entry, Local}
use libpssh.Session.Fsm.{pssh_event_handler, pssh_dns_cb}
use libpssh.Task.{Task, TaskLocal, State}
use libpssh.Task.Fsm.{pssh_task_event_handler}
use libpssh.Loop.{Occurrence, fires, answers}

module _ {W : Type 0} where
  abbrev pub local_of : State W → Entry → Local W
  local_of s e = record { ent = e; sess = s.session.core; world = s.session.world }

  -- Put an entry's part of the state back.
  abbrev pub put_local : State W → ℕ → Local W → State W
  put_local s i l = record s {
    session = record { core = l.sess; entries = set s.session.entries i l.ent; world = l.world };
  }

  abbrev pub put_task : State W → ℕ → TaskLocal W → State W
  put_task s i t = record s {
    session = record s.session { entries = set s.session.entries i t.ent; world = t.world };
    tasks = set s.tasks t.self t.task;
  }

module _ {W : Type 0} (env : Env W) (fuel : ℕ) where
  -- The callback of a task gets the task, and follows its `sess_entry`, which is this entry.
  run_task_handler : State W → ℕ → Entry → Fired → ℕ → Option Task → Outcome (State W)
  run_task_handler s i e type k none = abort
  run_task_handler s i e type k (some t) = do
    t' ←
        pssh_task_event_handler env fuel
          (record { self = k; task = t; ent = e; world = s.session.world }) type
    ok (put_task s i t')

  run_handler : State W → ℕ → Entry → Fired → Option Handler → Outcome (State W)
  unfolding run_task_handler
  run_handler s i e type none = ok s
  run_handler s i e type (some conn_handler) = do
    l ← pssh_event_handler env (local_of s (record e { pending = none })) type
    ok (put_local s i l)
  run_handler s i e type (some (task_handler k)) =
      run_task_handler s i (record e { pending = none }) type k (get_elem? s.tasks k)

  on_entry : State W → ℕ → Option Entry → (Entry → Outcome (State W)) → Outcome (State W)
  on_entry s i none f = ok s
  on_entry s i (some e) f = f e

  unfoldable pub dispatch : State W → Occurrence → Outcome (State W)
  unfolding on_entry run_handler
  dispatch s (fires i type) =
      on_entry s i (get_elem? s.session.entries i) λ e. run_handler s i e type e.pending
  dispatch s (answers i found addr) =
      on_entry s i (get_elem? s.session.entries i)
        λ e. do l ← pssh_dns_cb env (local_of s e) found addr; ok (put_local s i l)

  -- One call of event_base_loop.
  unfoldable pub event_base_loop : State W → List Occurrence → Outcome (State W)
  event_base_loop s [] = ok s
  event_base_loop s (o ∷ os) = do s' ← dispatch s o; event_base_loop s' os
