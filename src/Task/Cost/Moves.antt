-- ===== src/Task/Cost/Moves.antt =====
-- What the callback of a task's event (pssh_task_event_handler of src/task.c) does to the steps that are
-- left: it always returns.
use libpssh.Prelude.{
  ℕ, ℤ, ◌+◌, ◌<◌, ◌≤◌, ◌≡◌, ◌≢◌, ◌⊎◌, inl, inr, refl, true, false, Bool-cases, Outcome-cases, ok,
  arith,
}
use libpssh.Env.{Env, Fired}
use libpssh.Task.{idle, Payload, copy, exec, TaskLocal}
use libpssh.Task.Copy.{pssh_task_run_copy_task}
use libpssh.Task.Exec.{pssh_task_run_exec_task}
use libpssh.Task.Events.{pssh_task_event_update, pssh_task_eagain_handle}
use libpssh.Task.Fsm.{only_timed_out, rearm, pssh_task_fsm, pssh_task_event_handler}
use libpssh.Task.Wakeup.{woken}
use libpssh.Task.Cost.Asking.{final-Advances}
use libpssh.Task.Cost.Transfer.{copy-Advances}
use libpssh.Task.Cost.Command.{exec-Advances}
use libpssh.Task.Thrift.{Thrift}
use libpssh.Task.Cost.{task_weight, is_final, is_live, Fits, Fits-le, over, patience, Advances}

module _ {W : Type 0} (env : Env W) (th : Thrift env) where
  abbrev P : W → ℕ
  P w = patience env th w

  -- Arming the next event lets the task be, or fails it.
  rearm-kept :
      (ret : ℤ) (u : TaskLocal W)
      → (((rearm env (ret, u)).task ≡ u.task) ⊎ (is_final (rearm env (ret, u)).task.stat ≡ true))
        × (P (rearm env (ret, u)).world ≤ P u.world)
  unfolding rearm pssh_task_event_update pssh_task_eagain_handle
  rearm-kept ret u = (ground arith, grind (arith, th.conn.event_add_keeps))

  rearm-Advances :
      (t u : TaskLocal W) (ret : ℤ)
      → is_final t.task.stat ≡ false
      → Advances env th t u
      → Advances env th t (rearm env (ret, u))
  rearm-Advances t u ret live a =
      let (kind, calm) = rearm-kept ret u in
      let calm' : P (rearm env (ret, u)).world ≤ P t.world = omega (arith, calm, a.calm) in
      elim kind [
        | inr final ↦ final-Advances env th t _ final live calm'
        | inl same ↦ record {
          fits = rw same (Fits-le _ _ _ _ u.task calm a.fits);
          calm = calm';
          less = rw same (omega (arith, a.less, calm));
        }
      ]

  -- The state machine runs one step of the task.
  run_step :
      (fuel : ℕ) (t : TaskLocal W) (p : Payload)
      → t.task.payload ≡ p
      → th.max_size ≤ fuel
      → P t.world < fuel
      → is_live t.task.stat ≡ true
      → Fits th.is_file th.max_size (P t.world) t.task
      → (t' : TaskLocal W) × (pssh_task_fsm env fuel t ≡ ok t') × Advances env th t t'
  unfolding pssh_task_fsm
  run_step fuel t (copy cp) p enough more live f =
      let (ret, u, run, a) = copy-Advances env th fuel t cp enough p live f in
      (rearm env (ret, u), ground (arith, run), rearm-Advances t u ret (ground arith) a)
  run_step fuel t (exec ex) p enough more live f =
      let (ret, u, run, a) = exec-Advances env th fuel t ex more p live f in
      (rearm env (ret, u), ground (arith, run), rearm-Advances t u ret (ground arith) a)

  -- What the callback leaves: a task that is no farther from its end, and nearer if it was live.
  pub record Moved (t t' : TaskLocal W) : Type 0 where
    pub fits : Fits th.is_file th.max_size (P t'.world) t'.task
    pub calm : P t'.world ≤ P t.world
    pub falls :
        task_weight th.max_size t'.task + P t'.world ≤ task_weight th.max_size t.task + P t.world
    pub nearer :
        is_live t.task.stat ≡ true
        → task_weight th.max_size t'.task + P t'.world < task_weight th.max_size t.task + P t.world

  Moved-of : (t t' : TaskLocal W) (type : Fired) → Advances env th (woken t type) t' → Moved t t'
  Moved-of t t' type a = record {
    fits = a.fits;
    calm = a.calm;
    falls = omega (arith, a.less);
    nearer = λ _. a.less;
  }

  -- The task is at its end.
  ends :
      (t t' : TaskLocal W)
      → t.task.stat ≢ idle
      → is_final t'.task.stat ≡ true
      → P t'.world ≤ P t.world
      → Moved t t'
  unfolding task_weight
  ends t t' begun f le = record {
    fits = over f;
    calm = le;
    falls = ground (arith, le);
    nearer = λ live. ground (arith, le);
  }

  -- A task that has failed and still holds the event lets go of it.
  final_step :
      (fuel : ℕ) (t : TaskLocal W) (p : Payload)
      → t.task.payload ≡ p
      → is_final t.task.stat ≡ true
      → pssh_task_fsm env fuel t ≡ ok t
  unfolding pssh_task_fsm pssh_task_run_copy_task pssh_task_run_exec_task rearm
  final_step fuel t (copy cp) p f = ground arith
  final_step fuel t (exec ex) p f = ground arith

  -- Whatever fires, the callback of a task that has been started returns.
  pub task_handler-Moved :
      (fuel : ℕ) (t : TaskLocal W) (type : Fired)
      → th.max_size ≤ fuel
      → P t.world < fuel
      → t.task.stat ≢ idle
      → Fits th.is_file th.max_size (P t.world) t.task
      → (t' : TaskLocal W) × (pssh_task_event_handler env fuel t type ≡ ok t') × Moved t t'
  unfolding pssh_task_event_handler
  task_handler-Moved fuel t type enough more begun f = elim (Bool-cases (only_timed_out type)) [
    | inl late ↦ elim (Outcome-cases (pssh_task_event_handler env fuel t type)) [
      | inl (t', run) ↦ (t', run, ends t t' begun (ground arith) (ground arith))
      | inr stop ↦ absurd (ground arith)
    ]
    | inr going ↦ elim (Bool-cases (is_live t.task.stat)) [
      | inl live ↦
          let (t', run, a) = run_step fuel (woken t type) t.task.payload refl enough more live f in
          (t', rw going run, Moved-of t t' type a)
      | inr dead ↦
          let final : is_final t.task.stat ≡ true = ground (arith, begun) in
          (
            woken t type,
            rw going (final_step fuel (woken t type) t.task.payload refl final),
            ends t (woken t type) begun final (omega arith),
          )
    ]
  ]
