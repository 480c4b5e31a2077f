-- ===== src/Task/Cost/Transfer.antt =====
-- What a step of a copy task (pssh_task_run_copy_task of src/task.c) does to the steps that are left.
use mathlib.Core.Path.{subst}
use libpssh.Prelude.{ℕ, pos, ◌≤◌, ◌≡◌, refl, true, some, none, ok, arith}
use libpssh.Env.{Env}
use libpssh.Task.{
  TaskStat, start, channel_ready, data_transfer, done, to_serv, from_serv, CopyTask, copy,
  TaskLocal,
}
use libpssh.Task.Copy.{
  pssh_task_get_send_channel, pssh_task_get_recv_channel, pssh_task_send_data, pssh_task_recv_data,
  pssh_task_run_copy_task,
}
use libpssh.Task.Cost.Asking.{Steps, final-Advances}
use libpssh.Task.Cost.Sending.{send_answer}
use libpssh.Task.Cost.Receiving.{recv_answer}
use libpssh.Task.Cost.Copying.{send_opened, send_channel, recv_channel}
use libpssh.Task.Thrift.{Thrift}
use libpssh.Task.Cost.{
  task_weight, is_first, is_live, Fits, to_run, to_start, to_collect, over, to_load, to_open,
  to_send, to_fetch, to_receive, to_close, patience,
}

module _ {W : Type 0} (env : Env W) (th : Thrift env) where
  copy_closed :
      (fuel : ℕ) (t : TaskLocal W) (cp : CopyTask) (c : ℕ)
      → t.task.payload ≡ copy cp
      → t.task.stat ≡ data_transfer
      → t.task.channel ≡ some c
      → Steps env th t (pssh_task_run_copy_task env fuel t cp)
  unfolding pssh_task_run_copy_task task_weight
  copy_closed fuel t cp c u s ch = (
    pos 0,
    record t {
      task = record t.task {
        payload = copy (record cp { buf = none });
        channel = none;
        stat = done;
      };
      world = env.channel_free t.world c;
    },
    ground arith,
    final-Advances env th t _ refl (ground arith) (th.channel_free_keeps t.world c),
  )

  abbrev OneStep : ℕ → TaskLocal W → CopyTask → Type 0
  OneStep fuel t cp = Steps env th t (pssh_task_run_copy_task env fuel t cp)

  begun : (s : TaskStat) → is_first s ≡ true → is_live s ≡ true → s ≡ start
  begun s f live = ground arith

  first_of :
      (fuel : ℕ) (t : TaskLocal W) (cp : CopyTask)
      → t.task.stat ≡ start
      → cp.dir ≡ to_serv
      → Steps env th t (pssh_task_get_send_channel env fuel t cp)
      → OneStep fuel t cp
  unfolding pssh_task_run_copy_task
  first_of fuel t cp s d (ret, t', run, adv) = (ret, t', ground (arith, run), adv)

  fetch_of :
      (fuel : ℕ) (t : TaskLocal W) (cp : CopyTask)
      → t.task.stat ≡ start
      → cp.dir ≡ from_serv
      → Steps env th t (ok (pssh_task_get_recv_channel env t cp))
      → OneStep fuel t cp
  unfolding pssh_task_run_copy_task
  fetch_of fuel t cp s d (ret, t', run, adv) = (ret, t', ground (arith, run), adv)

  send_of :
      (fuel : ℕ) (t : TaskLocal W) (cp : CopyTask)
      → t.task.stat ≡ channel_ready
      → cp.dir ≡ to_serv
      → Steps env th t (pssh_task_send_data env t cp)
      → OneStep fuel t cp
  unfolding pssh_task_run_copy_task
  send_of fuel t cp s d (ret, t', run, adv) = (ret, t', ground (arith, run), adv)

  receive_of :
      (fuel : ℕ) (t : TaskLocal W) (cp : CopyTask)
      → t.task.stat ≡ channel_ready
      → cp.dir ≡ from_serv
      → Steps env th t (pssh_task_recv_data env t cp)
      → OneStep fuel t cp
  unfolding pssh_task_run_copy_task
  receive_of fuel t cp s d (ret, t', run, adv) = (ret, t', ground (arith, run), adv)

  -- A step of a copy task comes to an end, and brings the task nearer to its own, with fuel for one round
  -- per byte of the longest file.
  pub copy-Advances :
      (fuel : ℕ) (t : TaskLocal W) (cp : CopyTask)
      → th.max_size ≤ fuel
      → t.task.payload ≡ copy cp
      → is_live t.task.stat ≡ true
      → Fits th.is_file th.max_size (patience env th t.world) t.task
      → Steps env th t (pssh_task_run_copy_task env fuel t cp)
  unfolding pssh_task_run_copy_task
  copy-Advances fuel t cp enough p live (over f) = absurd (ground arith)
  copy-Advances fuel t cp enough p live (to_load x u f d b) =
      let same : x ≡ cp = ground arith in
      subst (OneStep fuel t) same
        (first_of fuel t x (begun _ f live) d (send_channel env th fuel t x u f d b enough))
  copy-Advances fuel t cp enough p live (to_open x u f s z) =
      let same : x ≡ cp = ground arith in
      subst (OneStep fuel t) same
        (first_of fuel t x (begun _ f live) s.up (send_opened env th fuel t x u f s z))
  copy-Advances fuel t cp enough p live (to_send x c u s h f z) =
      let same : x ≡ cp = ground arith in
      subst (OneStep fuel t) same
        (send_of fuel t x s f.up (send_answer env th t x c _ u s h f z refl))
  copy-Advances fuel t cp enough p live (to_fetch x u f g) =
      let same : x ≡ cp = ground arith in
      subst (OneStep fuel t) same
        (fetch_of fuel t x (begun _ f live) g.down (recv_channel env th t x f g))
  copy-Advances fuel t cp enough p live (to_receive x c u s h i z g) =
      let same : x ≡ cp = ground arith in
      subst (OneStep fuel t) same
        (receive_of fuel t x s g.down (recv_answer env th t x c _ u s h i z g refl))
  copy-Advances fuel t cp enough p live (to_close x c u s h) = copy_closed fuel t cp c p s h
  copy-Advances fuel t cp enough p live (to_run ex u f g) = absurd (ground arith)
  copy-Advances fuel t cp enough p live (to_start ex c u s h g) = absurd (ground arith)
  copy-Advances fuel t cp enough p live (to_collect ex c u s h g) = absurd (ground arith)
