-- ===== src/Task/Fsm.antt =====
-- The task state machine of src/task.c: pssh_task_fsm runs a task one step and arms its next event;
-- pssh_task_event_handler is the callback that drives it.
use libpssh.Prelude.{
  ℕ, ℤ, pos, is_zero, Bool, true, false, not, ◌&&◌, ◌||◌, if◌then◌else◌, Outcome, ok, ◌>>=◌, Option,
  none, some,
}
use libpssh.Env.{Fired, ev_read, ev_write, Env}
use libpssh.Session.{is_eagain}
use libpssh.Task.{
  TaskStat, error, cmd_running, done, Payload, copy, exec, Task, TaskLocal, set_task_stat,
  set_payload,
}
use libpssh.Task.Events.{pssh_task_event_update, pssh_task_eagain_handle}
use libpssh.Task.Copy.{pssh_task_run_copy_task}
use libpssh.Task.Exec.{pssh_task_run_exec_task}

abbrev pub is_done : TaskStat → Bool
is_done done = true
is_done _ = false

abbrev pub is_error : TaskStat → Bool
is_error error = true
is_error _ = false

abbrev pub is_cmd_running : TaskStat → Bool
is_cmd_running cmd_running = true
is_cmd_running _ = false

abbrev is_exec : Payload → Bool
is_exec (copy cp) = false
is_exec (exec ex) = true

-- A task that is NULL is no command.
unfoldable pub pssh_is_cmd_task : Option Task → Bool
pssh_is_cmd_task none = false
pssh_is_cmd_task (some t) = is_exec t.payload

-- type == EV_TIMEOUT
abbrev pub only_timed_out : Fired → Bool
only_timed_out type = type.timed_out && not (type.readable || type.writable)

module _ {W : Type 0} (env : Env W) where
  -- switch (t->type)
  run_task : ℕ → TaskLocal W → Payload → Outcome (ℤ × TaskLocal W)
  run_task fuel t (copy cp) = pssh_task_run_copy_task env fuel t cp
  run_task fuel t (exec ex) = pssh_task_run_exec_task env fuel t ex

  abbrev write_armed : ℤ × TaskLocal W → TaskLocal W
  write_armed (res, t) = if is_zero res then t else set_task_stat t error

  -- switch (ret): wait for the direction that blocked, go on as soon as the socket takes data, or fail.
  -- Only the second looks at what `event_add` answered.
  unfoldable pub rearm : ℤ × TaskLocal W → TaskLocal W
  rearm (ret, t) =
      if is_eagain env ret
      then (if is_cmd_running t.task.stat
          then pssh_task_event_update env t ev_read
          else pssh_task_eagain_handle env t).1
      else if is_zero ret
      then if is_done t.task.stat || is_error t.task.stat
        then t
        else write_armed (pssh_task_event_update env t ev_write)
      else set_task_stat t error

  unfoldable pub pssh_task_fsm : ℕ → TaskLocal W → Outcome (TaskLocal W)
  unfolding run_task rearm
  pssh_task_fsm fuel t = do r ← run_task fuel t t.task.payload; ok (rearm r)

  -- A command that timed out has the exit status 1.
  abbrev timed_out_payload : Payload → Payload
  timed_out_payload (copy cp) = copy cp
  timed_out_payload (exec ex) = exec (record ex { ret_code = pos 1 })

  unfoldable pub pssh_task_event_handler : ℕ → TaskLocal W → Fired → Outcome (TaskLocal W)
  pssh_task_event_handler fuel t type =
      let t' = record t { ent = record t.ent { ev_type = type; ev_up = false } } in
      if only_timed_out type
      then ok (set_task_stat (set_payload t' (timed_out_payload t.task.payload)) error)
      else pssh_task_fsm fuel t'
