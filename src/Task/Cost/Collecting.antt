-- ===== src/Task/Cost/Collecting.antt =====
-- The reading loop of a command (PSSH_TASK_STAT_CMD_RUNNING in src/task.c) ends, whatever libssh2 answers,
-- within the patience that it has left.
use libpssh.Prelude.{
  ℕ, zero, suc, ℤ, pos, is_zero, ◌<◌, ◌≤◌, ◌≡◌, ◌⊎◌, inl, inr, refl, Bool, true, not, ◌&&◌,
  Bool-cases, some, Outcome, ok, ◌∙◌, arith,
}
use libpssh.Env.{Env}
use libpssh.Session.{is_eagain}
use libpssh.Task.{
  TaskStat, error, cmd_running, streams_readed, done, ExecTask, exec, TaskLocal, set_task_stat,
  set_payload, eagain_code,
}
use libpssh.Task.Exec.{read_both, cmd_loop, pssh_task_cleanup_exec}
use libpssh.Task.Cost.Reading.{err_spends, out_spends}
use libpssh.Task.Thrift.{Thrift}
use libpssh.Task.Cost.{StreamFits-le, Collects, is_final, Fits, to_collect, patience}

module _ {W : Type 0} (env : Env W) (th : Thrift env) where
  abbrev P : W → ℕ
  P w = patience env th w

  -- The command runs, or a read has failed.
  abbrev pub IsRunning : TaskStat → Type 0
  IsRunning s = (s ≡ cmd_running) ⊎ (s ≡ error)

  -- What a round of the loop leaves.
  record Round (t t' : TaskLocal W) (ex' : ExecTask) (busy : Bool) : Type 0 where
    same_channel : t'.task.channel ≡ t.task.channel
    running : IsRunning t'.task.stat
    streams : Collects (P t'.world) ex'
    calm : P t'.world ≤ P t.world
    spent : busy ≡ true → P t'.world < P t.world

  both-Round :
      (t : TaskLocal W) (ex : ExecTask) (c : ℕ)
      → t.task.channel ≡ some c
      → IsRunning t.task.stat
      → Collects (P t.world) ex
      → (r q : ℤ) × (t' : TaskLocal W) × (ex' : ExecTask) × (read_both env t ex
          ≡ ok (r, q, t', ex'))
        × Round t t' ex' (not (is_zero q && is_zero r))
  unfolding read_both
  both-Round t ex c ch run f =
      let (r, u, s, ran, h) = err_spends env th t ex c ch f.err in
      let ex1 = record ex { err_stream = s } in
      let out1 = StreamFits-le (P t.world) (P u.world) ex.out_stream h.calm f.out in
      let (q, v, o, ran', k) = out_spends env th u ex1 c (h.same_channel ∙ ch) out1 in
      (
        r,
        q,
        v,
        record ex1 { out_stream = o },
        rw (ran, ran'),
        record {
          same_channel = k.same_channel ∙ h.same_channel;
          running = ground (arith, run, h.running, k.running);
          streams = record {
            out = k.stream;
            err = StreamFits-le (P u.world) (P v.world) s k.calm h.stream;
          };
          calm = omega (arith, h.calm, k.calm);
          spent = λ b. ground (arith, h.calm, k.calm, h.spent, k.spent);
        },
      )

  -- The loop comes to an end: the task is final, or waits with its streams as they are by now.
  abbrev pub Ends : TaskLocal W → ℕ → Outcome (ℤ × TaskLocal W) → Type 0
  Ends t c r =
      (ret : ℤ) × (t' : TaskLocal W) × (r ≡ ok (ret, t'))
      × (P t'.world ≤ P t.world)
      × ((is_final t'.task.stat ≡ true)
          ⊎ ((P t'.world < P t.world)
              × (t'.task.stat ≡ cmd_running)
              × Fits th.is_file th.max_size (P t'.world) t'.task))

  cleaned :
      (t t' : TaskLocal W) (ex : ExecTask) (c : ℕ)
      → t'.task.channel ≡ some c
      → P t'.world ≤ P t.world
      → Ends t c (pssh_task_cleanup_exec env (set_task_stat t' streams_readed) ex)
  unfolding pssh_task_cleanup_exec
  cleaned t t' ex c ch le =
      let end = record ex { ret_code = env.channel_exit_status t'.world c } in
      (
        pos 0,
        record t' {
          task = record t'.task { payload = exec end; stat = done };
          world = env.channel_free t'.world c;
        },
        ground arith,
        omega (arith, le, th.channel_free_keeps t'.world c),
        inl refl,
      )

  blocked :
      (t t' : TaskLocal W) (ex : ExecTask) (c : ℕ)
      → t'.task.channel ≡ some c
      → P t'.world < P t.world
      → IsRunning t'.task.stat
      → Collects (P t'.world) ex
      → Ends t c (ok (eagain_code env, set_payload t' (exec ex)))
  blocked t t' ex c ch less (inl going) f = (
    eagain_code env,
    set_payload t' (exec ex),
    refl,
    omega (arith, less),
    inr (less, going, to_collect ex c refl going ch f),
  )
  blocked t t' ex c ch less (inr bad) f =
      (eagain_code env, set_payload t' (exec ex), refl, omega (arith, less), inl (rw bad))

  later :
      (t u : TaskLocal W) (c : ℕ) (r : Outcome (ℤ × TaskLocal W))
      → P u.world < P t.world
      → Ends u c r
      → Ends t c r
  later t u c r less (ret, t', end, le, inl f) = (ret, t', end, omega (arith, less, le), inl f)
  later t u c r less (ret, t', end, le, inr (spent, going, f)) =
      (ret, t', end, omega (arith, less, le), inr (omega (arith, less, spent), going, f))

  -- With more rounds than patience, the loop ends.
  pub loop-Ends :
      (fuel : ℕ) (t : TaskLocal W) (ex : ExecTask) (c : ℕ)
      → t.task.channel ≡ some c
      → IsRunning t.task.stat
      → Collects (P t.world) ex
      → P t.world < fuel
      → Ends t c (cmd_loop env fuel t ex)
  unfolding cmd_loop
  loop-Ends zero t ex c ch run f more = absurd (omega arith)
  loop-Ends (suc fuel) t ex c ch run f more =
      let (r, q, u, ex', ran, k) = both-Round t ex c ch run f in
      let ch' = k.same_channel ∙ ch in
      elim (Bool-cases (is_zero q && is_zero r)) [
        | inl quiet ↦ rw (ran, cmd_loop, quiet) (cleaned t u ex' c ch' k.calm)
        | inr busy ↦
            let spent : P u.world < P t.world = ground (arith, k.spent) in
            elim (Bool-cases (is_eagain env r && is_eagain env q)) [
              | inl again ↦
                  rw (ran, cmd_loop, busy, again) (blocked t u ex' c ch' spent k.running k.streams)
              | inr bytes ↦
                  rw (ran, cmd_loop, busy, bytes)
                    (later t u c _ spent
                      (loop-Ends fuel u ex' c ch' k.running k.streams (omega arith)))
            ]
      ]
