-- ===== src/Task/Exec/Faults.antt =====
-- What the reading loop of a command (PSSH_TASK_STAT_CMD_RUNNING in src/task.c) does when reads fail.
use libpssh.Prelude.{
  ℕ, zero, suc, negsuc, ◌<◌, ◌≡◌, refl, ℤ, pos, minus_one, is_zero, ◌&&◌, true, false, some, ok,
  spin, ◌⊎◌, inl, inr, Bool-cases, arith, ◌-◌, ◌∙◌, >>=-eq-ok,
}
use libpssh.Env.{Env, failed}
use libpssh.Session.{is_eagain}
use libpssh.Task.{
  TaskLocal, streams_readed, error, done, ExecTask, Stream, eagain_code, exec, set_task_stat,
}
use libpssh.Task.Exec.{
  first_alloc, pssh_task_read_stream, map_read, pssh_task_read_stdout, pssh_task_read_stderr,
  read_both, pssh_task_cleanup_exec, cmd_loop,
}

module _ {W : Type 0} (env : Env W) where
  cleanup_done :
      (t t' : TaskLocal W) (ex : ExecTask) (ret : ℤ)
      → pssh_task_cleanup_exec env t ex ≡ ok (ret, t')
      → (ret ≡ pos 0) × (t'.task.stat ≡ done)
  unfolding pssh_task_cleanup_exec
  cleanup_done t t' ex ret h = ground arith

  -- The loop returns in two ways only: with 0 and the task done, whatever the reads before did to its
  -- state, or with the answer "again" to be woken later.
  pub loop_returns :
      (fuel : ℕ) (t t' : TaskLocal W) (ex : ExecTask) (ret : ℤ)
      → cmd_loop env fuel t ex ≡ ok (ret, t')
      → ((ret ≡ pos 0) × (t'.task.stat ≡ done)) ⊎ (ret ≡ eagain_code env)
  unfolding cmd_loop
  loop_returns zero t t' ex ret h = cc
  loop_returns (suc fuel) t t' ex ret h =
      let ((ret_err, ret_out, u, ex'), run, rest) = >>=-eq-ok (read_both env t ex) _ h in
      elim (Bool-cases (is_zero ret_out && is_zero ret_err)) [
        | inl quiet ↦
            inl (cleanup_done (set_task_stat u streams_readed) t' ex' ret (rw quiet at rest))
        | inr more ↦ elim (Bool-cases (is_eagain env ret_err && is_eagain env ret_out)) [
          | inl blocked ↦ inr (ground arith)
          | inr bytes ↦ loop_returns fuel u t' ex' ret (rw (more, bytes) at rest)
        ]
      ]

-- Every read of the channel fails with the code -(1 + k), and not because it would block.
pub record ReadsFail {W : Type 0} (env : Env W) (c k : ℕ) : Type 0 where
  pub minus : (w : W) (i n : ℕ) → (env.channel_read_ex w c i n).0 ≡ failed k
  pub other : is_eagain env (negsuc k) ≡ false
  pub hard : (w : W) (s : ℕ) → is_eagain env (env.last_errno w s) ≡ false

-- Every read of one stream of the channel would block.
pub record Blocks {W : Type 0} (env : Env W) (c i : ℕ) : Type 0 where
  pub again : (w : W) (n : ℕ) → (env.channel_read_ex w c i n).0 ≡ failed env.eagain
  pub last : (w : W) (s : ℕ) → env.last_errno w s ≡ eagain_code env

module _ {W : Type 0} (env : Env W) (c : ℕ) where
  abbrev after : TaskLocal W → Stream → ℕ → TaskLocal W
  after t s i = record t {
    world = (env.channel_read_ex t.world c i ((first_alloc s).alloc - (first_alloc s).len)).1;
  }

  read_fails :
      (t : TaskLocal W) (s : Stream) (i : ℕ)
      → ReadsFail env c 0
      → t.task.channel ≡ some c
      → pssh_task_read_stream env t s i
        ≡ ok (minus_one, set_task_stat (after t s i) error, first_alloc s)
  unfolding pssh_task_read_stream
  read_fails t s i f ch = ground (
    arith,
    f.minus t.world i ((first_alloc s).alloc - (first_alloc s).len),
    f.hard (after t s i).world t.ent.ssh_sess,
  )

  round_fails :
      (t : TaskLocal W) (ex : ExecTask)
      → ReadsFail env c 0
      → t.task.channel ≡ some c
      → ex.err_stream.eof ≡ false
      → ex.out_stream.eof ≡ false
      → (t' : TaskLocal W) × (ex' : ExecTask) × (read_both env t ex ≡ ok (pos 0, pos 0, t', ex'))
        × (t'.task.stat ≡ error)
        × (t'.task.channel ≡ some c)
  unfolding read_both pssh_task_read_stdout pssh_task_read_stderr map_read
  round_fails t ex f ch err out =
      let t1 : TaskLocal W = set_task_stat (after t ex.err_stream 1) error in
      (
        set_task_stat (after t1 ex.out_stream 0) error,
        record ex {
          err_stream = first_alloc ex.err_stream;
          out_stream = first_alloc ex.out_stream;
        },
        simp (
          err,
          out,
          read_fails t ex.err_stream 1 f ch,
          f.hard (after t ex.err_stream 1).world t.ent.ssh_sess,
          read_fails t1 ex.out_stream 0 f ch,
          f.hard (after t1 ex.out_stream 0).world t.ent.ssh_sess,
        ),
        refl,
        ch,
      )

  minus_one_masked :
      (fuel : ℕ) (t : TaskLocal W) (ex : ExecTask)
      → ReadsFail env c 0
      → t.task.channel ≡ some c
      → ex.err_stream.eof ≡ false
      → ex.out_stream.eof ≡ false
      → (t' : TaskLocal W) × (cmd_loop env (suc fuel) t ex ≡ ok (pos 0, t')) × (t'.task.stat ≡ done)
  unfolding cmd_loop pssh_task_cleanup_exec
  minus_one_masked fuel t ex f ch err out =
      let (u, ex', run, failed_now, ch') = round_fails t ex f ch err out in
      let end : ExecTask = record ex' { ret_code = env.channel_exit_status u.world c } in
      (
        record u {
          task = record u.task { payload = exec end; stat = done };
          world = env.channel_free u.world c;
        },
        simp (run, ch'),
        refl,
      )

  eof-first_alloc : (s : Stream) → (first_alloc s).eof ≡ s.eof
  unfolding first_alloc
  eof-first_alloc s = ground arith

  read_other :
      (k : ℕ) (t : TaskLocal W) (s : Stream) (i : ℕ)
      → ReadsFail env c (suc k)
      → t.task.channel ≡ some c
      → pssh_task_read_stream env t s i
        ≡ ok (negsuc (suc k), set_task_stat (after t s i) error, first_alloc s)
  unfolding pssh_task_read_stream
  read_other k t s i f ch = ground (
    arith,
    f.minus t.world i ((first_alloc s).alloc - (first_alloc s).len),
    f.hard (after t s i).world t.ent.ssh_sess,
  )

  round_other :
      (k : ℕ) (t : TaskLocal W) (ex : ExecTask)
      → ReadsFail env c (suc k)
      → t.task.channel ≡ some c
      → ex.err_stream.eof ≡ false
      → ex.out_stream.eof ≡ false
      → (t' : TaskLocal W) × (ex' : ExecTask) × (read_both env t ex
          ≡ ok (negsuc (suc k), negsuc (suc k), t', ex'))
        × (t'.task.channel ≡ some c)
        × (ex'.err_stream.eof ≡ false)
        × (ex'.out_stream.eof ≡ false)
  unfolding read_both pssh_task_read_stdout pssh_task_read_stderr map_read
  round_other k t ex f ch err out =
      let t1 : TaskLocal W = set_task_stat (after t ex.err_stream 1) error in
      (
        set_task_stat (after t1 ex.out_stream 0) error,
        record ex {
          err_stream = first_alloc ex.err_stream;
          out_stream = first_alloc ex.out_stream;
        },
        ground (arith, read_other k t ex.err_stream 1 f ch, read_other k t1 ex.out_stream 0 f ch),
        ch,
        eof-first_alloc ex.err_stream ∙ err,
        eof-first_alloc ex.out_stream ∙ out,
      )

  other_spins :
      (k fuel : ℕ) (t : TaskLocal W) (ex : ExecTask)
      → ReadsFail env c (suc k)
      → t.task.channel ≡ some c
      → ex.err_stream.eof ≡ false
      → ex.out_stream.eof ≡ false
      → cmd_loop env fuel t ex ≡ spin
  unfolding cmd_loop
  other_spins k zero t ex f ch err out = refl
  other_spins k (suc fuel) t ex f ch err out =
      let (t', ex', run, ch', err', out') = round_other k t ex f ch err out in
      simp (run, f.other, other_spins k fuel t' ex' f ch' err' out')

  -- What the loop makes of reads that fail with the code -(1 + k).
  abbrev pub Lost : ℕ → TaskLocal W → ExecTask → Type 0
  Lost k t ex =
      ((k ≡ 0)
        × ((fuel : ℕ)
            → (t' : TaskLocal W) × (cmd_loop env (suc fuel) t ex ≡ ok (pos 0, t'))
              × (t'.task.stat ≡ done)))
      ⊎ ((0 < k) × ((fuel : ℕ) → cmd_loop env fuel t ex ≡ spin))

  -- When every read of a running command fails with the same code, and not because it would block, the
  -- error is lost: with -1 the loop ends the task as done, with the result 0; with any other code it has
  -- not ended after any number of rounds.
  pub errors_masked :
      (k : ℕ) (t : TaskLocal W) (ex : ExecTask)
      → ReadsFail env c k
      → t.task.channel ≡ some c
      → ex.err_stream.eof ≡ false
      → ex.out_stream.eof ≡ false
      → Lost k t ex
  errors_masked zero t ex f ch err out = inl (refl, λ fuel. minus_one_masked fuel t ex f ch err out)
  errors_masked (suc k) t ex f ch err out =
      inr (omega arith, λ fuel. other_spins k fuel t ex f ch err out)

  round-Blocks :
      (t : TaskLocal W) (ex : ExecTask)
      → Blocks env c 0
      → t.task.channel ≡ some c
      → ex.err_stream.eof ≡ true
      → ex.out_stream.eof ≡ false
      → read_both env t ex
        ≡ ok (
          pos 0,
          eagain_code env,
          after t ex.out_stream 0,
          record ex { out_stream = first_alloc ex.out_stream },
        )
  unfolding read_both pssh_task_read_stdout map_read pssh_task_read_stream
  round-Blocks t ex b ch err out = ground (
    arith,
    b.again t.world ((first_alloc ex.out_stream).alloc - (first_alloc ex.out_stream).len),
    b.last (after t ex.out_stream 0).world t.ent.ssh_sess,
  )

  -- Once stderr has ended while a read of stdout would block, the loop does not go back to the event
  -- loop: it has not ended after any number of rounds for which this stays so.
  pub loop_spins :
      (fuel : ℕ) (t : TaskLocal W) (ex : ExecTask)
      → Blocks env c 0
      → t.task.channel ≡ some c
      → ex.err_stream.eof ≡ true
      → ex.out_stream.eof ≡ false
      → cmd_loop env fuel t ex ≡ spin
  unfolding cmd_loop
  loop_spins zero t ex b ch err out = refl
  loop_spins (suc fuel) t ex b ch err out = simp (
    round-Blocks t ex b ch err out,
    loop_spins fuel (after t ex.out_stream 0) (record ex { out_stream = first_alloc ex.out_stream })
        b ch err (eof-first_alloc ex.out_stream ∙ out),
  )
