-- ===== src/Task/Graph.antt =====
-- The task state machine of src/task.c as a diagram of states, and that every callback follows it.
use libpssh.Prelude.{
  ℕ, zero, suc, ◌≡◌, ◌⊎◌, ◌∙◌, ℤ, Bool, true, false, Bool-cases, inl, inr, is_zero, ◌&&◌, ok,
  >>=-eq-ok, arith,
}
use mathlib.Core.Path.{subst}
use libpssh.Env.{Env}
use libpssh.Session.{is_eagain}
use libpssh.Task.{
  TaskStat, start, channel_ready, data_transfer, cmd_running, streams_readed, done, error, CopyTask,
  ExecTask, Payload, copy, exec, TaskLocal, take_channel, set_task_stat,
}
use libpssh.Task.Copy.{
  pssh_task_get_send_channel, pssh_task_get_recv_channel, pssh_task_send_data, pssh_task_recv_data,
  pssh_task_run_copy_task,
}
use libpssh.Task.Exec.{
  read_unless, pssh_task_get_exec_channel, pssh_task_do_cmd, pssh_task_read_stream, map_read,
  pssh_task_read_stdout, pssh_task_read_stderr, pssh_task_cleanup_exec, read_both, cmd_loop,
  pssh_task_run_exec_task,
}

-- The steps of a task, by whether it is a command.
pub data Edge : Bool → TaskStat → TaskStat → Type 0 where
  stay : {b : Bool} {s : TaskStat} → Edge b s s
  fail : {b : Bool} {s : TaskStat} → Edge b s error
  open_channel : {b : Bool} → Edge b start channel_ready
  start_cmd : Edge true channel_ready cmd_running
  collect : Edge true cmd_running done
  finish : Edge true streams_readed done
  move : Edge false channel_ready data_transfer
  give_back : Edge false data_transfer done

pub ruleset edges = (stay, fail, open_channel, start_cmd, collect, finish, move, give_back)

abbrev pub is_command : Payload → Bool
is_command (copy cp) = false
is_command (exec ex) = true

module _ {W : Type 0} where
  -- What a step of a task leaves alone: all but the state, the channel and the data of the task.
  pub record Same (t t' : TaskLocal W) : Type 0 where
    pub same_ent : t'.ent ≡ t.ent
    pub same_self : t'.self ≡ t.self
    pub same_kind : is_command t'.task.payload ≡ is_command t.task.payload
    pub same_name : t'.task.hostname ≡ t.task.hostname
    pub same_server : t'.task.sess_entry ≡ t.task.sess_entry
    pub same_report : t'.task.is_reported ≡ t.task.is_reported
    pub same_timeout : t'.task.timeout ≡ t.task.timeout

module _ {W : Type 0} (env : Env W) where
  pub copy-Edge :
      (fuel : ℕ) (t t' : TaskLocal W) (cp : CopyTask) (ret : ℤ)
      → pssh_task_run_copy_task env fuel t cp ≡ ok (ret, t')
      → Edge false t.task.stat t'.task.stat
  unfolding pssh_task_run_copy_task pssh_task_get_send_channel pssh_task_get_recv_channel
      pssh_task_send_data pssh_task_recv_data take_channel
  copy-Edge fuel t t' cp ret h = grind (arith, edges)

  pub copy-Same :
      (fuel : ℕ) (t t' : TaskLocal W) (cp : CopyTask) (ret : ℤ)
      → t.task.payload ≡ copy cp
      → pssh_task_run_copy_task env fuel t cp ≡ ok (ret, t')
      → Same t t'
  unfolding pssh_task_run_copy_task pssh_task_get_send_channel pssh_task_get_recv_channel
      pssh_task_send_data pssh_task_recv_data take_channel
  copy-Same fuel t t' cp ret p h = ground arith

  -- A read of a stream leaves the state as it is or sets it to an error, and nothing else of the task.
  abbrev pub Running : TaskStat → Type 0
  Running s = (s ≡ cmd_running) ⊎ (s ≡ error)

  abbrev pub Kept : TaskLocal W → TaskLocal W → Type 0
  Kept t t' = Same t t' × (Running t.task.stat → Running t'.task.stat)

  Kept-trans : (t t' t'' : TaskLocal W) → Kept t t' → Kept t' t'' → Kept t t''
  Kept-trans t t' t'' (a, f) (b, g) = (
    record {
      same_ent = b.same_ent ∙ a.same_ent;
      same_self = b.same_self ∙ a.same_self;
      same_kind = b.same_kind ∙ a.same_kind;
      same_name = b.same_name ∙ a.same_name;
      same_server = b.same_server ∙ a.same_server;
      same_report = b.same_report ∙ a.same_report;
      same_timeout = b.same_timeout ∙ a.same_timeout;
    },
    λ r. g (f r),
  )

  err-Kept :
      (t t' : TaskLocal W) (ex ex' : ExecTask) (ret : ℤ)
      → read_unless ex.err_stream.eof t ex (pssh_task_read_stderr env t ex) ≡ ok (ret, t', ex')
      → Kept t t'
  unfolding pssh_task_read_stderr pssh_task_read_stream map_read
  err-Kept t t' ex ex' ret h = (ground arith, ground arith)

  out-Kept :
      (eof : Bool) (t t' : TaskLocal W) (ex ex' : ExecTask) (ret : ℤ)
      → read_unless eof t ex (pssh_task_read_stdout env t ex) ≡ ok (ret, t', ex')
      → Kept t t'
  unfolding pssh_task_read_stdout pssh_task_read_stream map_read
  out-Kept true t t' ex ex' ret h = (ground arith, ground arith)
  out-Kept false t t' ex ex' ret h = (ground arith, ground arith)

  pub round-Kept :
      (t t' : TaskLocal W) (ex ex' : ExecTask) (ret_err ret_out : ℤ)
      → read_both env t ex ≡ ok (ret_err, ret_out, t', ex')
      → Kept t t'
  unfolding read_both
  round-Kept t t' ex ex' ret_err ret_out h =
      let ((r, u, ex1), run, rest) =
        >>=-eq-ok (read_unless ex.err_stream.eof t ex (pssh_task_read_stderr env t ex)) _ h in
      let ((q, v, ex2), run', last) =
        >>=-eq-ok (read_unless ex.out_stream.eof u ex1 (pssh_task_read_stdout env u ex1)) _ rest in
      let same : v ≡ t' = ground arith in
      subst (Kept t) same (
        Kept-trans t u v (err-Kept t u ex ex1 r run)
          (out-Kept ex.out_stream.eof u v ex1 ex2 q run'))

  -- How the loop ends: the state that the reads left, or done.
  abbrev Ends : TaskLocal W → TaskLocal W → Type 0
  Ends t t' = Same t t' × (Running t.task.stat → Edge true cmd_running t'.task.stat)

  cleanup-Same :
      (t t' : TaskLocal W) (ex : ExecTask) (ret : ℤ)
      → is_command t.task.payload ≡ true
      → pssh_task_cleanup_exec env t ex ≡ ok (ret, t')
      → Same t t' × (t'.task.stat ≡ done)
  unfolding pssh_task_cleanup_exec
  cleanup-Same t t' ex ret p h = (ground arith, ground arith)

  loop-Ends :
      (fuel : ℕ) (t t' : TaskLocal W) (ex : ExecTask) (ret : ℤ)
      → is_command t.task.payload ≡ true
      → cmd_loop env fuel t ex ≡ ok (ret, t')
      → Ends t t'
  unfolding cmd_loop
  loop-Ends zero t t' ex ret p h = cc
  loop-Ends (suc fuel) t t' ex ret p h =
      let ((ret_err, ret_out, u, ex'), run, rest) = >>=-eq-ok (read_both env t ex) _ h in
      let kept = round-Kept t u ex ex' ret_err ret_out run in
      let p' : is_command u.task.payload ≡ true = kept.0.same_kind ∙ p in
      elim (Bool-cases (is_zero ret_out && is_zero ret_err)) [
        | inl quiet ↦
            let (same, end) =
              cleanup-Same (set_task_stat u streams_readed) t' ex' ret p' (rw quiet at rest) in
            (ground (arith, kept.0, same), λ r. rw end collect)
        | inr more ↦ elim (Bool-cases (is_eagain env ret_err && is_eagain env ret_out)) [
          | inl blocked ↦ (ground (arith, kept.0), λ r. grind (arith, edges, kept.1 r))
          | inr bytes ↦
              let (same, edge) = loop-Ends fuel u t' ex' ret p' (rw (more, bytes) at rest) in
              (ground (arith, kept.0, same), λ r. edge (kept.1 r))
        ]
      ]

  pub exec-Step :
      (fuel : ℕ) (t t' : TaskLocal W) (ex : ExecTask) (ret : ℤ)
      → t.task.payload ≡ exec ex
      → pssh_task_run_exec_task env fuel t ex ≡ ok (ret, t')
      → Same t t' × Edge true t.task.stat t'.task.stat
  unfolding pssh_task_run_exec_task pssh_task_get_exec_channel pssh_task_do_cmd
      pssh_task_cleanup_exec take_channel
  exec-Step fuel t t' ex ret p h =
      (ground (arith, loop-Ends fuel t t' ex ret), grind (arith, edges, loop-Ends fuel t t' ex ret))
