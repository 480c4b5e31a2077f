-- ===== src/Task/Done.antt =====
-- A task that is done lets go of the event (pssh_task_fsm of src/task.c).
use libpssh.Prelude.{
  ℕ, zero, suc, ◌≡◌, ◌∙◌, ℤ, pos, refl, Bool-cases, inl, inr, is_zero, ◌&&◌, none, ok, >>=-eq-ok,
  arith,
}
use libpssh.Env.{Env, Fired}
use libpssh.Session.{is_eagain}
use libpssh.Task.{
  streams_readed, done, CopyTask, ExecTask, Payload, copy, exec, TaskLocal, take_channel,
  set_task_stat,
}
use libpssh.Task.Copy.{
  pssh_task_get_send_channel, pssh_task_get_recv_channel, pssh_task_send_data, pssh_task_recv_data,
  pssh_task_run_copy_task,
}
use libpssh.Task.Events.{pssh_task_event_update, pssh_task_eagain_handle}
use libpssh.Task.Exec.{
  pssh_task_get_exec_channel, pssh_task_do_cmd, pssh_task_cleanup_exec, read_both, cmd_loop,
  pssh_task_run_exec_task,
}
use libpssh.Task.Fsm.{only_timed_out, rearm, pssh_task_fsm, pssh_task_event_handler}
use libpssh.Task.Graph.{Running, round-Kept, copy-Same, exec-Step}
use libpssh.Task.Wakeup.{woken}

module _ {W : Type 0} (env : Env W) where
  copy_done :
      (fuel : ℕ) (t t' : TaskLocal W) (cp : CopyTask) (ret : ℤ)
      → pssh_task_run_copy_task env fuel t cp ≡ ok (ret, t')
      → t'.task.stat ≡ done
      → ret ≡ pos 0
  unfolding pssh_task_run_copy_task pssh_task_get_send_channel pssh_task_get_recv_channel
      pssh_task_send_data pssh_task_recv_data take_channel
  copy_done fuel t t' cp ret h d = ground arith

  cleanup_zero :
      (t t' : TaskLocal W) (ex : ExecTask) (ret : ℤ)
      → pssh_task_cleanup_exec env t ex ≡ ok (ret, t')
      → ret ≡ pos 0
  unfolding pssh_task_cleanup_exec
  cleanup_zero t t' ex ret h = ground arith

  loop_done :
      (fuel : ℕ) (t t' : TaskLocal W) (ex : ExecTask) (ret : ℤ)
      → Running env t.task.stat
      → cmd_loop env fuel t ex ≡ ok (ret, t')
      → t'.task.stat ≡ done
      → ret ≡ pos 0
  unfolding cmd_loop
  loop_done zero t t' ex ret r h d = cc
  loop_done (suc fuel) t t' ex ret r h d =
      let ((ret_err, ret_out, u, ex'), run, rest) = >>=-eq-ok (read_both env t ex) _ h in
      let kept = round-Kept env t u ex ex' ret_err ret_out run in
      elim (Bool-cases (is_zero ret_out && is_zero ret_err)) [
        | inl quiet ↦ cleanup_zero (set_task_stat u streams_readed) t' ex' ret (rw quiet at rest)
        | inr more ↦ elim (Bool-cases (is_eagain env ret_err && is_eagain env ret_out)) [
          | inl blocked ↦ absurd (ground (arith, kept.1 r))
          | inr bytes ↦ loop_done fuel u t' ex' ret (kept.1 r) (rw (more, bytes) at rest) d
        ]
      ]

  exec_done :
      (fuel : ℕ) (t t' : TaskLocal W) (ex : ExecTask) (ret : ℤ)
      → pssh_task_run_exec_task env fuel t ex ≡ ok (ret, t')
      → t'.task.stat ≡ done
      → ret ≡ pos 0
  unfolding pssh_task_run_exec_task pssh_task_get_exec_channel pssh_task_do_cmd
      pssh_task_cleanup_exec take_channel
  exec_done fuel t t' ex ret h d = ground (arith, loop_done fuel t t' ex ret)

  rearm_done :
      (ret : ℤ) (u t' : TaskLocal W)
      → (u.task.stat ≡ done → ret ≡ pos 0)
      → rearm env (ret, u) ≡ t'
      → t'.task.stat ≡ done
      → t'.ent.pending ≡ u.ent.pending
  unfolding rearm pssh_task_event_update pssh_task_eagain_handle
  rearm_done ret u t' z h d = ground (arith, z)

  fsm_done :
      (fuel : ℕ) (t t' : TaskLocal W) (p : Payload)
      → t.task.payload ≡ p
      → pssh_task_fsm env fuel t ≡ ok t'
      → t'.task.stat ≡ done
      → t'.ent.pending ≡ t.ent.pending
  unfolding pssh_task_fsm
  fsm_done fuel t t' (copy cp) p h d =
      let ((ret, u), run, rest) =
        >>=-eq-ok (pssh_task_run_copy_task env fuel t cp) (λ r. ok (rearm env r)) {result = t'}
          (ground arith) in
      let same = copy-Same env fuel t u cp ret p run in
      ground (arith, same.same_ent, rearm_done ret u t' (copy_done fuel t u cp ret run))
  fsm_done fuel t t' (exec ex) p h d =
      let ((ret, u), run, rest) =
        >>=-eq-ok (pssh_task_run_exec_task env fuel t ex) (λ r. ok (rearm env r)) {result = t'}
          (ground arith) in
      let (same, edge) = exec-Step env fuel t u ex ret p run in
      ground (arith, same.same_ent, rearm_done ret u t' (exec_done fuel t u ex ret run))

  -- After the callback of a task that is done, nothing holds the event that held it.
  pub done_lets_go :
      (fuel : ℕ) (t t' : TaskLocal W) (type : Fired)
      → t.ent.pending ≡ none
      → pssh_task_event_handler env fuel t type ≡ ok t'
      → t'.task.stat ≡ done
      → t'.ent.pending ≡ none
  unfolding pssh_task_event_handler
  done_lets_go fuel t t' type p h d = elim (Bool-cases (only_timed_out type)) [
    | inl late ↦ absurd (ground arith)
    | inr going ↦ fsm_done fuel (woken t type) t' t.task.payload refl (rw going at h) d ∙ p
  ]
