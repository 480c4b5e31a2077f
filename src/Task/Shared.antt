-- ===== src/Task/Shared.antt =====
-- What the callback of a task (pssh_task_event_handler of src/task.c) does to the entry that the task
-- shares with the connection and with the other tasks of its server.
use libpssh.Prelude.{ℕ, ℤ, ◌≡◌, refl, Bool-cases, inl, inr, none, some, ok, arith}
use libpssh.Env.{Env, Fired}
use libpssh.Session.{Entry, connected, task_handler}
use libpssh.Session.Sound.{IsSound}
use libpssh.Task.{TaskLocal}
use libpssh.Task.Events.{pssh_task_event_update, pssh_task_eagain_handle}
use libpssh.Task.Fsm.{only_timed_out, rearm, pssh_task_event_handler}
use libpssh.Task.Wakeup.{fsm_step, woken}

-- A sound entry whose event is a task's only if it is connected.
pub record IsShared (e : Entry) : Type 0 where
  pub sound : IsSound e
  pub owner : (k : ℕ) → e.pending ≡ some (task_handler k) → e.stat ≡ connected

module _ {W : Type 0} (env : Env W) where
  rearm-IsShared :
      (ret : ℤ) (u t' : TaskLocal W)
      → u.ent.pending ≡ none
      → u.ent.stat ≡ connected
      → IsSound u.ent
      → rearm env (ret, u) ≡ t'
      → IsShared t'.ent
  unfolding rearm pssh_task_event_update pssh_task_eagain_handle
  rearm-IsShared ret u t' p c v h = ground arith

  -- The callback of a task of a connected server, whose event libevent no longer holds, leaves the
  -- entry sound and connected, whatever fires.
  pub task_handler-IsShared :
      (fuel : ℕ) (t t' : TaskLocal W) (type : Fired)
      → t.ent.pending ≡ none
      → t.ent.stat ≡ connected
      → IsSound t.ent
      → pssh_task_event_handler env fuel t type ≡ ok t'
      → IsShared t'.ent
  unfolding pssh_task_event_handler
  task_handler-IsShared fuel t t' type p c v h = elim (Bool-cases (only_timed_out type)) [
    | inl late ↦ ground arith
    | inr going ↦
        let (ret, u, same, edge, last) =
          fsm_step env fuel (woken t type) t' t.task.payload refl (rw going at h) in
        rearm-IsShared ret u t' (ground (arith, same)) (ground (arith, same)) (ground (arith, same))
          last
  ]

  rearm_keeps :
      (ret : ℤ) (u t' : TaskLocal W)
      → rearm env (ret, u) ≡ t'
      → (t'.self ≡ u.self) × (t'.ent.is_reported ≡ u.ent.is_reported)
  unfolding rearm pssh_task_event_update pssh_task_eagain_handle
  rearm_keeps ret u t' h = (ground arith, ground arith)

  -- The callback leaves alone the place of its task and the mark of its server.
  pub task_handler_keeps :
      (fuel : ℕ) (t t' : TaskLocal W) (type : Fired)
      → pssh_task_event_handler env fuel t type ≡ ok t'
      → (t'.self ≡ t.self) × (t'.ent.is_reported ≡ t.ent.is_reported)
  unfolding pssh_task_event_handler
  task_handler_keeps fuel t t' type h = elim (Bool-cases (only_timed_out type)) [
    | inl late ↦ (ground arith, ground arith)
    | inr going ↦
        let (ret, u, same, edge, last) =
          fsm_step env fuel (woken t type) t' t.task.payload refl (rw going at h) in
        let kept = rearm_keeps ret u t' last in
        (ground (arith, same, kept), ground (arith, same, kept))
  ]

  rearm-stat : (ret : ℤ) (u t' : TaskLocal W) → rearm env (ret, u) ≡ t' → t'.ent.stat ≡ u.ent.stat
  unfolding rearm pssh_task_event_update pssh_task_eagain_handle
  rearm-stat ret u t' h = ground arith

  -- The callback leaves alone the state of the connection.
  pub task_handler-stat :
      (fuel : ℕ) (t t' : TaskLocal W) (type : Fired)
      → pssh_task_event_handler env fuel t type ≡ ok t'
      → t'.ent.stat ≡ t.ent.stat
  unfolding pssh_task_event_handler
  task_handler-stat fuel t t' type h = elim (Bool-cases (only_timed_out type)) [
    | inl late ↦ ground arith
    | inr going ↦
        let (ret, u, same, edge, last) =
          fsm_step env fuel (woken t type) t' t.task.payload refl (rw going at h) in
        ground (arith, same, rearm-stat ret u t' last)
  ]
