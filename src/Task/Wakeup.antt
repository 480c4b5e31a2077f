-- ===== src/Task/Wakeup.antt =====
-- What the callback of a task's event does to the task and to the event (pssh_task_event_handler of
-- src/task.c).
use libpssh.Prelude.{
  ℕ, ℤ, ◌≡◌, ◌⊎◌, inl, inr, refl, sym, >>=-eq-ok, true, false, Bool, Bool-cases, some, ok, arith,
}
use libpssh.Env.{Env, Fired}
use libpssh.Session.{task_handler}
use libpssh.Session.Sound.{EventsAdded}
use libpssh.Task.{TaskStat, done, error, Payload, copy, exec, Task, TaskLocal}
use libpssh.Task.Events.{pssh_task_event_update, pssh_task_eagain_handle}
use libpssh.Task.Copy.{pssh_task_run_copy_task}
use libpssh.Task.Exec.{pssh_task_run_exec_task}
use libpssh.Task.Fsm.{only_timed_out, rearm, pssh_task_fsm, pssh_task_event_handler}
use libpssh.Task.Graph.{Edge, edges, is_command, Same, copy-Edge, copy-Same, exec-Step}

-- What a callback leaves alone of its task.
pub record SameTask (t t' : Task) : Type 0 where
  pub same_kind : is_command t'.payload ≡ is_command t.payload
  pub same_name : t'.hostname ≡ t.hostname
  pub same_server : t'.sess_entry ≡ t.sess_entry
  pub same_report : t'.is_reported ≡ t.is_reported
  pub same_timeout : t'.timeout ≡ t.timeout

module _ {W : Type 0} where
  -- Nothing more is to come of the task, or libevent holds the event of its server for it.
  abbrev pub IsArmed : ℕ → TaskLocal W → Type 0
  IsArmed k t =
      (t.task.stat ≡ done)
      ⊎ ((t.task.stat ≡ error) ⊎ ((t.ent.pending ≡ some (task_handler k)) × (t.ent.ev_up ≡ true)))

  -- The task with its entry as the callback hands it on.
  abbrev pub woken : TaskLocal W → Fired → TaskLocal W
  woken t type = record t { ent = record t.ent { ev_type = type; ev_up = false } }

module _ {W : Type 0} (env : Env W) (fuel : ℕ) where
  -- A run of the state machine is a step of the task, after which its event is armed again.
  pub fsm_step :
      (t t' : TaskLocal W) (p : Payload)
      → t.task.payload ≡ p
      → pssh_task_fsm env fuel t ≡ ok t'
      → (ret : ℤ) × (u : TaskLocal W) × Same t u
        × Edge (is_command p) t.task.stat u.task.stat
        × (rearm env (ret, u) ≡ t')
  unfolding pssh_task_fsm
  fsm_step t t' (copy cp) p h =
      let ((ret, u), run, rest) =
        >>=-eq-ok (pssh_task_run_copy_task env fuel t cp) (λ r. ok (rearm env r)) {result = t'}
          (ground arith) in
      (ret, u, copy-Same env fuel t u cp ret p run, copy-Edge env fuel t u cp ret run, ground arith)
  fsm_step t t' (exec ex) p h =
      let ((ret, u), run, rest) =
        >>=-eq-ok (pssh_task_run_exec_task env fuel t ex) (λ r. ok (rearm env r)) {result = t'}
          (ground arith) in
      let (same, edge) = exec-Step env fuel t u ex ret p run in (ret, u, same, edge, ground arith)

  rearm-Edge :
      (b : Bool) (s : TaskStat) (ret : ℤ) (u t' : TaskLocal W)
      → Edge b s u.task.stat
      → rearm env (ret, u) ≡ t'
      → Edge b s t'.task.stat × SameTask u.task t'.task
  unfolding rearm pssh_task_event_update pssh_task_eagain_handle
  rearm-Edge b s ret u t' e h = (grind (arith, edges), ground arith)

  rearm_arms :
      (ret : ℤ) (u t' : TaskLocal W)
      → EventsAdded env
      → u.ent.ev_up ≡ false
      → rearm env (ret, u) ≡ t'
      → IsArmed u.self t'
  unfolding rearm pssh_task_event_update pssh_task_eagain_handle
  rearm_arms ret u t' added down h = grind (arith, added)

  -- Whatever fires, the callback of a task's event that returns follows one edge of the diagram, and
  -- leaves alone all but the state, the channel and the data of the task.
  pub handler-Step :
      (t t' : TaskLocal W) (type : Fired)
      → pssh_task_event_handler env fuel t type ≡ ok t'
      → Edge (is_command t.task.payload) t.task.stat t'.task.stat × SameTask t.task t'.task
  unfolding pssh_task_event_handler
  handler-Step t t' type h = elim (Bool-cases (only_timed_out type)) [
    | inl late ↦ (grind (arith, edges), ground arith)
    | inr going ↦
        let (ret, u, same, edge, last) =
          fsm_step (woken t type) t' t.task.payload refl (rw going at h) in
        let (edge', kept) = rearm-Edge _ t.task.stat ret u t' edge last in
        (edge', ground (arith, same, kept))
  ]

  -- No wakeup is lost: when `event_add` succeeds, after the callback the task is done or has failed, or
  -- libevent holds the event of its server, with the callback and the place of this task.
  pub task_handler_arms :
      (t t' : TaskLocal W) (type : Fired)
      → EventsAdded env
      → pssh_task_event_handler env fuel t type ≡ ok t'
      → IsArmed t.self t'
  unfolding pssh_task_event_handler
  task_handler_arms t t' type added h = elim (Bool-cases (only_timed_out type)) [
    | inl late ↦ inr (inl (ground arith))
    | inr going ↦
        let (ret, u, same, edge, last) =
          fsm_step (woken t type) t' t.task.payload refl (rw going at h) in
        rw (sym same.same_self) (rearm_arms ret u t' added (ground (arith, same)) last)
  ]
