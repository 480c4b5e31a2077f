-- ===== src/Task/Exec.antt =====
-- The command tasks of src/task.c: open a channel, start the command, read both of its output streams
-- into buffers that grow, take the exit status.
pub mod Streams
pub mod Half
pub mod Total
pub mod Chunks
pub mod Faults
use libpssh.Prelude.{
  ℕ, zero, suc, ◌+◌, ◌-◌, ℤ, pos, negsuc, is_zero, is_minus_one, int_limit, ltb, ◌==◌, Bool, true,
  false, ◌&&◌, List, [], ◌++◌, none, some, if◌then◌else◌, length, Outcome, ok, abort, spin, ◌>>=◌,
}
use libpssh.Env.{ReadAnswer, got, failed, Env}
use libpssh.Session.{is_eagain}
use libpssh.Task.{
  TaskStat, idle, error, start, channel_ready, data_transfer, cmd_running, streams_readed, done,
  Stream, ExecTask, exec, TaskLocal, set_task_stat, set_payload, on_channel, eagain_code,
  last_again, take_channel,
}

-- PSSH_EXEC_ALLOC_SIZE
abbrev pub alloc_size : ℕ
alloc_size = 8192

-- if (s->data == NULL) ...
unfoldable pub first_alloc : Stream → Stream
first_alloc s = elim s.buf [
  | none ↦ record s { buf = some []; alloc = alloc_size; len = 0 }
  | some bs ↦ s
]

abbrev pub content : Stream → List ℕ
content s = elim s.buf [ none ↦ [] | some bs ↦ bs ]

-- What the read brought, and a larger buffer when it filled this one.
unfoldable pub append_read : Stream → List ℕ → Stream
append_read s bs =
    let n = s.len + length bs in
    record s {
      buf = some (content s ++ bs);
      len = n;
      alloc = if n == s.alloc then s.alloc + alloc_size else s.alloc;
    }

module _ {W : Type 0} where
  -- if (!eof) ret = ...; with `ret` 0 before
  abbrev pub read_unless :
      Bool
      → TaskLocal W
      → ExecTask
      → Outcome (ℤ × TaskLocal W × ExecTask)
      → Outcome (ℤ × TaskLocal W × ExecTask)
  read_unless true t ex read = ok (pos 0, t, ex)
  read_unless false t ex read = read

module _ {W : Type 0} (env : Env W) where
  unfoldable pub pssh_task_get_exec_channel : TaskLocal W → ℤ × TaskLocal W
  pssh_task_get_exec_channel t =
      let (answer, w) = env.channel_open_session t.world t.ent.ssh_sess in
      take_channel env (record t { world = w }) answer

  abbrev started : TaskLocal W → ℤ → ℤ × TaskLocal W
  started t (pos n) = (pos 0, set_task_stat t cmd_running)
  started t (negsuc n) =
      if last_again env t then (eagain_code env, t) else (pos 0, set_task_stat t error)

  unfoldable pub pssh_task_do_cmd : TaskLocal W → ExecTask → Outcome (ℤ × TaskLocal W)
  pssh_task_do_cmd t ex = on_channel t λ c.
      let (ret, w) = env.channel_exec t.world c ex.cmd in ok (started (record t { world = w }) ret)

  -- The three answers of libssh2_channel_read_ex; `alloc` is an `int`.
  abbrev pub read_answer : TaskLocal W → Stream → ReadAnswer → Outcome (ℤ × TaskLocal W × Stream)
  read_answer t s (failed n) =
      ok (negsuc n, if last_again env t then t else set_task_stat t error, s)
  read_answer t s (got bs) =
      if length bs == 0
      then ok (pos 0, t, record s { eof = true })
      else if ltb (append_read s bs).alloc int_limit
      then ok (pos (length bs), t, append_read s bs)
      else abort

  unfoldable pub pssh_task_read_stream :
      TaskLocal W → Stream → ℕ → Outcome (ℤ × TaskLocal W × Stream)
  pssh_task_read_stream t s stream_id = on_channel t λ c.
      let s' = first_alloc s in
      let (answer, w) = env.channel_read_ex t.world c stream_id (s'.alloc - s'.len) in
      read_answer (record t { world = w }) s' answer

  -- `switch (ret) { case -1: ... }`, the same for both streams.
  unfoldable pub map_read : ℤ × TaskLocal W × Stream → ℤ × TaskLocal W × Stream
  map_read (ret, t, s) =
      if is_minus_one ret
      then if last_again env t then (eagain_code env, t, s) else (pos 0, set_task_stat t error, s)
      else (ret, t, s)

  abbrev ssh_extended_data_stderr : ℕ
  ssh_extended_data_stderr = 1

  unfoldable pub pssh_task_read_stdout :
      TaskLocal W → ExecTask → Outcome (ℤ × TaskLocal W × ExecTask)
  pssh_task_read_stdout t ex = do
    r ← pssh_task_read_stream t ex.out_stream 0
    ok ((map_read r).0, (map_read r).1, record ex { out_stream = (map_read r).2 })

  unfoldable pub pssh_task_read_stderr :
      TaskLocal W → ExecTask → Outcome (ℤ × TaskLocal W × ExecTask)
  pssh_task_read_stderr t ex = do
    r ← pssh_task_read_stream t ex.err_stream ssh_extended_data_stderr
    ok ((map_read r).0, (map_read r).1, record ex { err_stream = (map_read r).2 })

  -- The exit status is kept, the output too; the channel is freed.
  unfoldable pub pssh_task_cleanup_exec : TaskLocal W → ExecTask → Outcome (ℤ × TaskLocal W)
  pssh_task_cleanup_exec t ex = on_channel t λ c.
      let ex' = record ex { ret_code = env.channel_exit_status t.world c } in
      ok (
        pos 0,
        record t {
          task = record t.task { payload = exec ex'; stat = done };
          world = env.channel_free t.world c;
        },
      )

  -- One round of the loop of PSSH_TASK_STAT_CMD_RUNNING: stderr, then stdout, each until its end.
  unfoldable pub read_both : TaskLocal W → ExecTask → Outcome (ℤ × ℤ × TaskLocal W × ExecTask)
  read_both t ex = do
    (ret_err, t1, ex1) ← read_unless ex.err_stream.eof t ex (pssh_task_read_stderr t ex)
    (ret_out, t2, ex2) ← read_unless ex.out_stream.eof t1 ex1 (pssh_task_read_stdout t1 ex1)
    ok (ret_err, ret_out, t2, ex2)

  -- The loop. It ends when neither read had anything to say, or both would block.
  unfoldable pub cmd_loop : ℕ → TaskLocal W → ExecTask → Outcome (ℤ × TaskLocal W)
  cmd_loop zero t ex = spin
  cmd_loop (suc fuel) t ex = do
    (ret_err, ret_out, t', ex') ← read_both t ex
    let rest = cmd_loop fuel t' ex'
    if is_zero ret_out && is_zero ret_err
        then pssh_task_cleanup_exec (set_task_stat t' streams_readed) ex'
        else if is_eagain env ret_err && is_eagain env ret_out
        then ok (eagain_code env, set_payload t' (exec ex'))
        else rest

  exec_dispatch : ℕ → TaskLocal W → ExecTask → TaskStat → Outcome (ℤ × TaskLocal W)
  exec_dispatch fuel t ex start = ok (pssh_task_get_exec_channel t)
  exec_dispatch fuel t ex channel_ready = pssh_task_do_cmd t ex
  exec_dispatch fuel t ex cmd_running = cmd_loop fuel t ex
  exec_dispatch fuel t ex streams_readed = pssh_task_cleanup_exec t ex
  exec_dispatch fuel t ex error = ok (pos 0, t)
  exec_dispatch fuel t ex done = ok (pos 0, t)
  exec_dispatch fuel t ex idle = abort
  exec_dispatch fuel t ex data_transfer = abort

  unfoldable pub pssh_task_run_exec_task : ℕ → TaskLocal W → ExecTask → Outcome (ℤ × TaskLocal W)
  unfolding exec_dispatch
  pssh_task_run_exec_task fuel t ex = exec_dispatch fuel t ex t.task.stat
