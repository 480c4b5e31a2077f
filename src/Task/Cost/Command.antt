-- ===== src/Task/Cost/Command.antt =====
-- What a step of a command task (pssh_task_run_exec_task of src/task.c) does to the steps that are left.
use mathlib.Core.Path.{subst}
use libpssh.Prelude.{ℕ, ℤ, pos, negsuc, ◌<◌, ◌≡◌, inl, inr, refl, true, Bool-cases, some, arith}
use libpssh.Env.{Env}
use libpssh.Session.{is_eagain}
use libpssh.Task.{
  TaskStat, start, error, channel_ready, cmd_running, ExecTask, exec, TaskLocal, set_task_stat,
  eagain_code,
}
use libpssh.Task.Exec.{
  cmd_loop, pssh_task_get_exec_channel, pssh_task_do_cmd, pssh_task_run_exec_task,
}
use libpssh.Task.Cost.Asking.{Steps, asks, final-Advances}
use libpssh.Task.Cost.Collecting.{Ends, loop-Ends}
use libpssh.Task.Thrift.{Thrift}
use libpssh.Task.Cost.{
  Collects, Collects-le, task_weight, is_first, is_live, Fits, over, to_load, to_open, to_send,
  to_fetch, to_receive, to_close, to_run, to_start, to_collect, patience,
}

module _ {W : Type 0} (env : Env W) (th : Thrift env) where
  abbrev P : W → ℕ
  P w = patience env th w

  abbrev OneStep : ℕ → TaskLocal W → ExecTask → Type 0
  OneStep fuel t ex = Steps env th t (pssh_task_run_exec_task env fuel t ex)

  -- The loop as a step of a task whose command runs.
  collect :
      (fuel : ℕ) (t : TaskLocal W) (ex : ExecTask) (c : ℕ)
      → t.task.stat ≡ cmd_running
      → Ends env th t c (cmd_loop env fuel t ex)
      → OneStep fuel t ex
  unfolding pssh_task_run_exec_task task_weight
  collect fuel t ex c s (ret, t', run, le, inl f) =
      (ret, t', ground (arith, run), final-Advances env th t t' f (ground arith) le)
  collect fuel t ex c s (ret, t', run, le, inr (spent, going, f)) =
      (ret, t', ground (arith, run), record { fits = f; calm = le; less = ground (arith, spent) })

  ask :
      (fuel : ℕ) (t : TaskLocal W) (ex : ExecTask)
      → t.task.stat ≡ start
      → t.task.payload ≡ exec ex
      → Collects (P t.world) ex
      → OneStep fuel t ex
  unfolding pssh_task_run_exec_task pssh_task_get_exec_channel
  ask fuel t ex s p f =
      let (answer, w) = env.channel_open_session t.world t.ent.ssh_sess in
      let keeps = th.channel_open_keeps t.world t.ent.ssh_sess in
      let f' = Collects-le (P t.world) (P w) ex keeps f in
      let (ret, t', run, adv) =
        asks env th t (record t { world = w }) answer (ground arith) refl (ground arith) keeps
          (λ c e. to_start ex c p refl refl f') (to_run ex p (ground arith) f')
          (λ e busy. th.channel_open_again t.world t.ent.ssh_sess busy e) in
      (ret, t', ground (arith, run), adv)

  begin_cmd :
      (fuel : ℕ) (t : TaskLocal W) (ex : ExecTask) (c : ℕ) (ret : ℤ)
      → t.task.stat ≡ channel_ready
      → t.task.payload ≡ exec ex
      → t.task.channel ≡ some c
      → Collects (P t.world) ex
      → (env.channel_exec t.world c ex.cmd).0 ≡ ret
      → OneStep fuel t ex
  unfolding pssh_task_run_exec_task pssh_task_do_cmd task_weight
  begin_cmd fuel t ex c (pos n) s p ch f e =
      let w = (env.channel_exec t.world c ex.cmd).1 in
      let keeps = th.channel_exec_keeps t.world c ex.cmd in
      (
        pos 0,
        set_task_stat (record t { world = w }) cmd_running,
        ground arith,
        record {
          fits = to_collect ex c p refl ch (Collects-le (P t.world) (P w) ex keeps f);
          calm = keeps;
          less = ground (arith, keeps);
        },
      )
  begin_cmd fuel t ex c (negsuc n) s p ch f e =
      let w = (env.channel_exec t.world c ex.cmd).1 in
      let keeps = th.channel_exec_keeps t.world c ex.cmd in
      elim (Bool-cases (is_eagain env (env.last_errno w t.ent.ssh_sess))) [
        | inl busy ↦
            let spent = th.channel_exec_again t.world c t.ent.ssh_sess n ex.cmd busy e in
            (
              eagain_code env,
              record t { world = w },
              ground arith,
              record {
                fits = to_start ex c p s ch (Collects-le (P t.world) (P w) ex keeps f);
                calm = keeps;
                less = ground (arith, spent);
              },
            )
        | inr refused ↦ (
          pos 0,
          set_task_stat (record t { world = w }) error,
          ground arith,
          final-Advances env th t _ refl (ground arith) keeps,
        )
      ]

  begun : (s : TaskStat) → is_first s ≡ true → is_live s ≡ true → s ≡ start
  begun s f live = ground arith

  -- A step of a command task comes to an end, and brings the task nearer to its own, with more fuel than
  -- patience.
  pub exec-Advances :
      (fuel : ℕ) (t : TaskLocal W) (ex : ExecTask)
      → P t.world < fuel
      → t.task.payload ≡ exec ex
      → is_live t.task.stat ≡ true
      → Fits th.is_file th.max_size (P t.world) t.task
      → Steps env th t (pssh_task_run_exec_task env fuel t ex)
  exec-Advances fuel t ex more p live (over f) = absurd (ground arith)
  exec-Advances fuel t ex more p live (to_run x u f g) =
      let same : x ≡ ex = ground arith in
      subst (OneStep fuel t) same (ask fuel t x (begun _ f live) u g)
  exec-Advances fuel t ex more p live (to_start x c u s h g) =
      let same : x ≡ ex = ground arith in
      subst (OneStep fuel t) same (begin_cmd fuel t x c _ s u h g refl)
  exec-Advances fuel t ex more p live (to_collect x c u s h g) =
      let same : x ≡ ex = ground arith in
      subst (OneStep fuel t) same
        (collect fuel t x c s (loop-Ends env th fuel t x c h (inl s) g more))
  exec-Advances fuel t ex more p live (to_load cp u f d b) = absurd (ground arith)
  exec-Advances fuel t ex more p live (to_open cp u f s z) = absurd (ground arith)
  exec-Advances fuel t ex more p live (to_send cp c u s h f z) = absurd (ground arith)
  exec-Advances fuel t ex more p live (to_fetch cp u f g) = absurd (ground arith)
  exec-Advances fuel t ex more p live (to_receive cp c u s h i z g) = absurd (ground arith)
  exec-Advances fuel t ex more p live (to_close cp c u s h) = absurd (ground arith)
