-- ===== src/Task/Exec/Chunks.antt =====
-- The sizes in which the output of a command comes in make no difference to what is collected
-- (pssh_task_run_exec_task of src/task.c).
use libpssh.Prelude.{ℕ, ◌<◌, ◌≡◌, sym, ap, ◌∙◌, ℤ, pos, ◌++◌, some, Outcome, ok}
use libpssh.Env.{Env}
use libpssh.Task.{TaskLocal, ExecTask, exec, done}
use libpssh.Task.Exec.{content, cmd_loop}
use libpssh.Task.Exec.Half.{Drains, Ready}
use libpssh.Task.Exec.Total.{left, loop_total}

-- Both runs end with the task done, and with the same bytes from stdout and from stderr.
abbrev pub Agree : {W V : Type 0} → Outcome (ℤ × TaskLocal W) → Outcome (ℤ × TaskLocal V) → Type 0
Agree {W} {V} r q =
    (t : TaskLocal W) × (u : TaskLocal V) × (ex ex' : ExecTask) × (r ≡ ok (pos 0, t))
    × (q ≡ ok (pos 0, u))
    × (t.task.stat ≡ done)
    × (u.task.stat ≡ done)
    × (t.task.payload ≡ exec ex)
    × (u.task.payload ≡ exec ex')
    × (content ex.out_stream ≡ content ex'.out_stream)
    × (content ex.err_stream ≡ content ex'.err_stream)

module _ {W V : Type 0} (env : Env W) (env' : Env V) (c c' : ℕ) (d : Drains env c)
    (d' : Drains env' c') where
  -- On two channels where the same output has arrived, which hand it out in pieces of whatever sizes,
  -- with more rounds than bytes pending and buffers that stay below 2 GB, the reading loop collects the
  -- same bytes of both streams and ends with both tasks done.
  pub chunks-Agree :
      (fuel fuel' : ℕ) (t : TaskLocal W) (u : TaskLocal V) (ex : ExecTask)
      → t.task.channel ≡ some c
      → u.task.channel ≡ some c'
      → Ready env c d 0 t ex.out_stream
      → Ready env c d 1 t ex.err_stream
      → Ready env' c' d' 0 u ex.out_stream
      → Ready env' c' d' 1 u ex.err_stream
      → d.pending t.world 0 ≡ d'.pending u.world 0
      → d.pending t.world 1 ≡ d'.pending u.world 1
      → left env c d t < fuel
      → left env' c' d' u < fuel'
      → Agree (cmd_loop env fuel t ex) (cmd_loop env' fuel' u ex)
  chunks-Agree fuel fuel' t u ex ch ch' out err out' err' same_out same_err more more' =
      let (t2, end, w, run, over, p, o, e, code, freed) =
        loop_total env c d fuel t ex ch out err more in
      let (u2, end', w', run', over', p', o', e', code', freed') =
        loop_total env' c' d' fuel' u ex ch' out' err' more' in
      (
        t2,
        u2,
        end,
        end',
        run,
        run',
        over,
        over',
        p,
        p',
        o ∙ ap (◌++◌ (content ex.out_stream)) same_out ∙ sym o',
        e ∙ ap (◌++◌ (content ex.err_stream)) same_err ∙ sym e',
      )
