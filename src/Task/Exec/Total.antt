-- ===== src/Task/Exec/Total.antt =====
-- The reading loop of a command (PSSH_TASK_STAT_CMD_RUNNING in src/task.c) on a channel that never
-- blocks: it ends, and it has collected all that the command wrote.
use libpssh.Prelude.{
  ℕ, zero, suc, ◌+◌, ◌<◌, ◌≡◌, refl, sym, ap, ◌∙◌, ℤ, pos, List, [], ◌++◌, some, length, Outcome,
  ok, arith,
}
use mathlib.Core.List.{append-nil}
use libpssh.Env.{Env}
use libpssh.Task.{TaskLocal, ExecTask, exec, streams_readed, done, set_task_stat}
use libpssh.Task.Exec.Half.{Drains, Ready, err_half, out_half, Half-Ready, Ready-other}
use libpssh.Task.Exec.{content, read_both, cmd_loop, pssh_task_cleanup_exec}

module _ {W : Type 0} (env : Env W) (c : ℕ) (d : Drains env c) where
  open d use {pending}

  collected : {xs ys : List ℕ} (zs : List ℕ) → ys ≡ [] → zs ++ ys ≡ xs → zs ≡ xs
  collected zs e h = sym (append-nil zs) ∙ rw e at h

  -- What one round leaves.
  record Round (t t' : TaskLocal W) (ex ex' : ExecTask) (m n : ℕ) : Type 0 where
    task_kept : t'.task ≡ t.task
    ent_kept : t'.ent ≡ t.ent
    out_kept :
        content ex'.out_stream ++ pending t'.world 0 ≡ content ex.out_stream ++ pending t.world 0
    err_kept :
        content ex'.err_stream ++ pending t'.world 1 ≡ content ex.err_stream ++ pending t.world 1
    out_ready : Ready env c d 0 t' ex'.out_stream
    err_ready : Ready env c d 1 t' ex'.err_stream
    less :
        length (pending t'.world 0) + length (pending t'.world 1) + m + n
        ≡ length (pending t.world 0) + length (pending t.world 1)
    out_quiet : n ≡ 0 → pending t'.world 0 ≡ []
    err_quiet : m ≡ 0 → pending t'.world 1 ≡ []

  round_lem :
      (t : TaskLocal W) (ex : ExecTask)
      → t.task.channel ≡ some c
      → Ready env c d 0 t ex.out_stream
      → Ready env c d 1 t ex.err_stream
      → (m n : ℕ) × (t' : TaskLocal W) × (ex' : ExecTask) × (read_both env t ex
          ≡ ok (pos m, pos n, t', ex'))
        × Round t t' ex ex' m n
  unfolding read_both
  round_lem t ex ch out err =
      let (m, t1, es, run_err, h) = err_half env c d t ex ch err in
      let ex1 : ExecTask = record ex { err_stream = es } in
      let out1 : Ready env c d 0 t1 ex.out_stream =
        Ready-other env c d 1 0 t t1 ex.err_stream es ex.out_stream m (omega arith) h out in
      let (n, t2, os, run_out, k) = out_half env c d t1 ex1 (rw h.same_task ch) out1 in
      (
        m,
        n,
        t2,
        record ex1 { out_stream = os },
        rw (run_err, run_out),
        record {
          task_kept = k.same_task ∙ h.same_task;
          ent_kept = k.same_ent ∙ h.same_ent;
          out_kept = k.kept ∙ ap (◌++◌ (content ex.out_stream)) (h.others 0 (omega arith));
          err_kept = ap (◌++◌ (content es)) (k.others 1 (omega arith)) ∙ h.kept;
          out_ready = Half-Ready env c d 0 t1 t2 ex.out_stream os n out1 k;
          err_ready =
              Ready-other env c d 0 1 t1 t2 ex.out_stream os es n (omega arith) k
                (Half-Ready env c d 1 t t1 ex.err_stream es m err h);
          less = omega (
            arith,
            h.fewer,
            k.fewer,
            ap length (h.others 0 (omega arith)),
            ap length (k.others 1 (omega arith)),
          );
          out_quiet = k.quiet;
          err_quiet = λ z. k.others 1 (omega arith) ∙ h.quiet z;
        },
      )

  -- How many bytes are pending.
  abbrev pub left : TaskLocal W → ℕ
  left t = length (pending t.world 0) + length (pending t.world 1)

  -- The task is done, with everything that was pending appended to its two buffers, the exit status of
  -- the channel, and the channel freed.
  abbrev pub Collects : TaskLocal W → ExecTask → Outcome (ℤ × TaskLocal W) → Type 0
  Collects t ex r =
      (t' : TaskLocal W) × (ex' : ExecTask) × (w : W) × (r ≡ ok (pos 0, t'))
      × (t'.task.stat ≡ done)
      × (t'.task.payload ≡ exec ex')
      × (content ex'.out_stream ≡ content ex.out_stream ++ pending t.world 0)
      × (content ex'.err_stream ≡ content ex.err_stream ++ pending t.world 1)
      × (ex'.ret_code ≡ env.channel_exit_status w c)
      × (t'.world ≡ env.channel_free w c)

  finish :
      (t t' : TaskLocal W) (ex ex' : ExecTask)
      → t.task.channel ≡ some c
      → Round t t' ex ex' 0 0
      → Collects t ex (pssh_task_cleanup_exec env (set_task_stat t' streams_readed) ex')
  unfolding pssh_task_cleanup_exec
  finish t t' ex ex' ch r =
      let end = record ex' { ret_code = env.channel_exit_status t'.world c } in
      (
        record t' {
          task = record t'.task { payload = exec end; stat = done };
          world = env.channel_free t'.world c;
        },
        end,
        t'.world,
        simp (r.task_kept, ch),
        refl,
        refl,
        collected (content ex'.out_stream) (r.out_quiet refl) r.out_kept,
        collected (content ex'.err_stream) (r.err_quiet refl) r.err_kept,
        refl,
        refl,
      )

  Collects-after :
      (t t' : TaskLocal W) (ex ex' : ExecTask) (m n : ℕ) (r : Outcome (ℤ × TaskLocal W))
      → Round t t' ex ex' m n
      → Collects t' ex' r
      → Collects t ex r
  Collects-after t t' ex ex' m n r k (u, end, w, e, s, p, o, x, v, f) =
      (u, end, w, e, s, p, o ∙ k.out_kept, x ∙ k.err_kept, v, f)

  -- A round that brought bytes is followed by another.
  go_on :
      (fuel m n : ℕ) (t t' : TaskLocal W) (ex ex' : ExecTask)
      → 0 < m + n
      → read_both env t ex ≡ ok (pos m, pos n, t', ex')
      → cmd_loop env (suc fuel) t ex ≡ cmd_loop env fuel t' ex'
  unfolding cmd_loop
  go_on fuel zero zero t t' ex ex' h run = absurd (omega arith)
  go_on fuel (suc m) zero t t' ex ex' h run = rw (run, cmd_loop) (ground arith)
  go_on fuel m (suc n) t t' ex ex' h run = rw (run, cmd_loop) (ground arith)

  loop_step :
      (fuel m n : ℕ) (t t' : TaskLocal W) (ex ex' : ExecTask)
      → t.task.channel ≡ some c
      → read_both env t ex ≡ ok (pos m, pos n, t', ex')
      → Round t t' ex ex' m n
      → (0 < m + n → Collects t' ex' (cmd_loop env fuel t' ex'))
      → Collects t ex (cmd_loop env (suc fuel) t ex)
  unfolding cmd_loop
  loop_step fuel zero zero t t' ex ex' ch run r rest = rw (run, cmd_loop) (finish t t' ex ex' ch r)
  loop_step fuel (suc m) zero t t' ex ex' ch run r rest =
      rw (go_on fuel (suc m) 0 t t' ex ex' (omega arith) run)
        (Collects-after t t' ex ex' (suc m) 0 _ r (rest (omega arith)))
  loop_step fuel m (suc n) t t' ex ex' ch run r rest =
      rw (go_on fuel m (suc n) t t' ex ex' (omega arith) run)
        (Collects-after t t' ex ex' m (suc n) _ r (rest (omega arith)))

  -- With more rounds than bytes pending, the loop ends, whatever sizes the reads come in: the task is
  -- done, each buffer has been given all of its stream, in order, the exit status is the channel's and
  -- the channel is freed.
  pub loop_total :
      (fuel : ℕ) (t : TaskLocal W) (ex : ExecTask)
      → t.task.channel ≡ some c
      → Ready env c d 0 t ex.out_stream
      → Ready env c d 1 t ex.err_stream
      → left t < fuel
      → Collects t ex (cmd_loop env fuel t ex)
  loop_total zero t ex ch out err h = absurd (omega arith)
  loop_total (suc fuel) t ex ch out err h =
      let (m, n, t', ex', run, r) = round_lem t ex ch out err in
      loop_step fuel m n t t' ex ex' ch run r λ p.
        loop_total fuel t' ex' (rw r.task_kept ch) r.out_ready r.err_ready (omega (arith, r.less))
