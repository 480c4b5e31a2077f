-- ===== src/Task/Events.antt =====
-- pssh_task_event_update and pssh_task_eagain_handle of src/task.c. The tasks of a server share the
-- event of its entry: while it is up, another task arms nothing.
use libpssh.Prelude.{ℕ, ℤ, pos, is_zero, ltb, true, Option, some, none, if◌then◌else◌}
use libpssh.Env.{Interest, Env}
use libpssh.Session.{Handler, task_handler}
use libpssh.Session.Events.{last_io}
use libpssh.Task.{TaskLocal}

-- A timeout of 0 seconds is none.
abbrev pub timeout_arg : ℕ → Option ℕ
timeout_arg n = if ltb 0 n then some n else none

module _ {W : Type 0} (env : Env W) where
  -- `ev_up` is set whatever `event_add` answers.
  abbrev armed : TaskLocal W → ℤ × W → ℤ × TaskLocal W
  armed t (res, w) =
      let held : Option Handler =
        if is_zero res then some (task_handler t.self) else t.ent.pending in
      (res, record t { ent = record t.ent { ev_up = true; pending = held }; world = w })

  unfoldable pub pssh_task_event_update : TaskLocal W → Interest → ℤ × TaskLocal W
  pssh_task_event_update t flags =
      if t.ent.ev_up
      then (pos 0, t)
      else armed t (env.event_add t.world t.ent.ssh_sess flags (timeout_arg t.task.timeout))

  unfoldable pub pssh_task_eagain_handle : TaskLocal W → ℤ × TaskLocal W
  pssh_task_eagain_handle t = pssh_task_event_update t (last_io env t.world t.ent.ssh_sess)
