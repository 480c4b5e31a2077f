-- ===== src/Task/Copy.antt =====
-- The copy tasks of src/task.c: a file to a server (read it whole, open an scp channel, send it in
-- pieces) and a file from a server (open the channel, receive it whole, write it).
pub mod Load
pub mod Send
pub mod Receive
use libpssh.Prelude.{
  ℕ, zero, suc, ◌+◌, ◌-◌, ◌*◌, ◌%◌, ℤ, pos, negsuc, is_minus_one, sub_ℕ, to_int, to_size, eq_ℕ,
  ◌==◌, gtb_ℤ, int_limit, ltb, leb, Bool, true, false, List, [], ◌++◌, Option, none, some,
  if◌then◌else◌, length, drop, Outcome, ok, abort, spin, ◌>>=◌,
}
use libpssh.Env.{ReadAnswer, got, failed, FileInfo, Env}
use libpssh.Task.{
  TaskStat, idle, error, start, channel_ready, data_transfer, cmd_running, streams_readed, done,
  Direction, to_serv, from_serv, CopyTask, copy, TaskLocal, set_task_stat, set_payload, on_channel,
  eagain_code, last_again, take_channel,
}

-- int len = st_size - tcnt; if (len > 8 * 1024) len = 8 * 1024; as libssh2 takes it.
unfoldable pub send_len : CopyTask → ℕ
send_len cp =
    let len = to_int (sub_ℕ cp.st.st_size cp.tcnt) in
    to_size (if gtb_ℤ len (8 * 1024) then pos (8 * 1024) else len)

abbrev pub buffer : CopyTask → List ℕ
buffer cp = elim cp.buf [ none ↦ [] | some bs ↦ bs ]

-- if (cp->data == NULL) { cp->data = xmalloc(...); cp->tcnt = 0; }
abbrev pub recv_buffer : CopyTask → CopyTask
recv_buffer cp = elim cp.buf [ none ↦ record cp { buf = some []; tcnt = 0 } | some bs ↦ cp ]

module _ {W : Type 0} (env : Env W) where
  -- while (nread < cp->st.st_size) ...: whether the file was read to its size, and what was read.
  unfoldable pub read_rest : ℕ → W → ℕ → ℕ → List ℕ → Outcome (Bool × List ℕ × W)
  read_rest zero w fd size acc = if leb size (length acc) then ok (true, acc, w) else spin
  read_rest (suc fuel) w fd size acc =
      let (answer, w') = env.read w fd (size - length acc) in
      elim (leb size (length acc)) [
        | true ↦ ok (true, acc, w)
        | false ↦ elim answer [
          | got bs ↦ elim (ltb (length acc + length bs) int_limit) [
            | true ↦ read_rest fuel w' fd size (acc ++ bs)
            | false ↦ abort
          ]
          | failed n ↦ ok (false, acc, w')
        ]
      ]

  abbrev after_read : TaskLocal W → CopyTask → ℕ → Bool × List ℕ × W → Bool × TaskLocal W × CopyTask
  after_read t cp fd (true, bs, w) =
      (true, record t { world = (env.close w fd).1 }, record cp { buf = some bs; tcnt = 0 })
  after_read t cp fd (false, bs, w) =
      (false, record (set_task_stat t error) { world = w }, record cp { buf = some bs })

  abbrev opened_file :
      ℕ → TaskLocal W → CopyTask → Option ℕ × W → Outcome (Bool × TaskLocal W × CopyTask)
  opened_file fuel t cp (none, w) = ok (false, record (set_task_stat t error) { world = w }, cp)
  opened_file fuel t cp (some fd, w) = do
    r ← read_rest fuel w fd cp.st.st_size []
    ok (after_read t cp fd r)

  abbrev stated_file :
      ℕ → TaskLocal W → CopyTask → Option FileInfo × W → Outcome (Bool × TaskLocal W × CopyTask)
  stated_file fuel t cp (none, w) = ok (false, record (set_task_stat t error) { world = w }, cp)
  stated_file fuel t cp (some st, w) =
      opened_file fuel t (record cp { st = st }) (env.open_read w cp.l_fn)

  -- The part under `if (cp->data == NULL)`: whether the file is in memory.
  load_file : ℕ → TaskLocal W → CopyTask → Outcome (Bool × TaskLocal W × CopyTask)
  load_file fuel t cp = elim cp.buf [
    | some bs ↦ ok (true, t, cp)
    | none ↦ stated_file fuel t cp (env.stat t.world cp.l_fn)
  ]

  abbrev open_send : Bool × TaskLocal W × CopyTask → ℤ × TaskLocal W
  open_send (false, t, cp) = (pos 0, set_payload t (copy cp))
  open_send (true, t, cp) =
      let (answer, w) =
        env.scp_send t.world t.ent.ssh_sess cp.r_fn (cp.st.st_mode % 512) cp.st.st_size in
      take_channel env (record (set_payload t (copy cp)) { world = w }) answer

  unfoldable pub pssh_task_get_send_channel : ℕ → TaskLocal W → CopyTask → Outcome (ℤ × TaskLocal W)
  unfolding load_file
  pssh_task_get_send_channel fuel t cp = do r ← load_file fuel t cp; ok (open_send r)

  unfoldable pub pssh_task_get_recv_channel : TaskLocal W → CopyTask → ℤ × TaskLocal W
  pssh_task_get_recv_channel t cp =
      let ((answer, st), w) = env.scp_recv t.world t.ent.ssh_sess cp.r_fn in
      take_channel env (record (set_payload t (copy (record cp { st = st }))) { world = w }) answer

  pssh_task_get_scp_channel : ℕ → TaskLocal W → CopyTask → Direction → Outcome (ℤ × TaskLocal W)
  pssh_task_get_scp_channel fuel t cp to_serv = pssh_task_get_send_channel fuel t cp
  pssh_task_get_scp_channel fuel t cp from_serv = ok (pssh_task_get_recv_channel t cp)

  -- What libssh2_channel_write answered: a count of bytes taken, or an error.
  abbrev sent : TaskLocal W → CopyTask → ℤ → Outcome (ℤ × TaskLocal W)
  sent t cp (negsuc n) =
      ok (if last_again env t then (eagain_code env, t) else (pos 0, set_task_stat t error))
  sent t cp (pos n) =
      let t' = set_payload t (copy (record cp { tcnt = cp.tcnt + n })) in
      if ltb (cp.tcnt + n) int_limit
      then ok (pos 0, if cp.tcnt + n == cp.st.st_size then set_task_stat t' data_transfer else t')
      else abort

  -- `cp->data + tcnt` with a length that passes the end of the file's bytes is no buffer.
  unfoldable pub pssh_task_send_data : TaskLocal W → CopyTask → Outcome (ℤ × TaskLocal W)
  pssh_task_send_data t cp = on_channel t λ c.
      let rest = drop cp.tcnt (buffer cp) in
      let len = send_len cp in
      let (ret, w) = env.channel_write t.world c rest len in
      if leb len (length rest) then sent (record t { world = w }) cp ret else abort

  -- The file is complete: open, write, close; any failure is the task's.
  opened_output : TaskLocal W → CopyTask → Option ℕ × W → TaskLocal W
  opened_output t cp (none, w) = record (set_task_stat t error) { world = w }
  opened_output t cp (some fd, w) =
      let (ret, w') = env.write w fd (buffer cp) in
      let (closed, w'') = env.close w' fd in
      if eq_ℕ (to_int ret) cp.st.st_size
      then record (set_task_stat t (if is_minus_one closed then error else data_transfer)) {
        world = w'';
      }
      else record (set_task_stat t error) { world = w' }

  write_file : TaskLocal W → CopyTask → TaskLocal W
  unfolding opened_output
  write_file t cp = opened_output t cp (env.open_write t.world cp.l_fn cp.st.st_mode)

  abbrev received : TaskLocal W → CopyTask → ReadAnswer → Outcome (ℤ × TaskLocal W)
  received t cp (failed n) = ok (
      if n == env.eagain
      then (eagain_code env, set_payload t (copy cp))
      else (pos 0, set_task_stat (set_payload t (copy cp)) error))
  received t cp (got bs) =
      let n = cp.tcnt + length bs in
      let cp' = record cp { buf = some (buffer cp ++ bs); tcnt = n } in
      let t' = set_payload t (copy cp') in
      if ltb n int_limit
      then ok (pos 0, if n == cp.st.st_size then write_file t' cp' else t')
      else abort

  unfoldable pub pssh_task_recv_data : TaskLocal W → CopyTask → Outcome (ℤ × TaskLocal W)
  unfolding write_file
  pssh_task_recv_data t cp = on_channel t λ c.
      let cp' = recv_buffer cp in
      let (answer, w) = env.channel_read_ex t.world c 0 (to_size (sub_ℕ cp'.st.st_size cp'.tcnt)) in
      received (record t { world = w }) cp' answer

  pssh_task_transfer_data : TaskLocal W → CopyTask → Direction → Outcome (ℤ × TaskLocal W)
  pssh_task_transfer_data t cp to_serv = pssh_task_send_data t cp
  pssh_task_transfer_data t cp from_serv = pssh_task_recv_data t cp

  -- The data and the channel are given back.
  pssh_task_cleanup_copy : TaskLocal W → CopyTask → Outcome (ℤ × TaskLocal W)
  pssh_task_cleanup_copy t cp = on_channel t λ c. ok (
    pos 0,
    record t {
      task = record t.task {
        payload = copy (record cp { buf = none });
        channel = none;
        stat = done;
      };
      world = env.channel_free t.world c;
    },
  )

  copy_dispatch : ℕ → TaskLocal W → CopyTask → TaskStat → Outcome (ℤ × TaskLocal W)
  unfolding pssh_task_get_scp_channel pssh_task_transfer_data pssh_task_cleanup_copy
  copy_dispatch fuel t cp start = pssh_task_get_scp_channel fuel t cp cp.dir
  copy_dispatch fuel t cp channel_ready = pssh_task_transfer_data t cp cp.dir
  copy_dispatch fuel t cp data_transfer = pssh_task_cleanup_copy t cp
  copy_dispatch fuel t cp error = ok (pos 0, t)
  copy_dispatch fuel t cp done = ok (pos 0, t)
  copy_dispatch fuel t cp idle = abort
  copy_dispatch fuel t cp cmd_running = abort
  copy_dispatch fuel t cp streams_readed = abort

  unfoldable pub pssh_task_run_copy_task : ℕ → TaskLocal W → CopyTask → Outcome (ℤ × TaskLocal W)
  unfolding copy_dispatch
  pssh_task_run_copy_task fuel t cp = copy_dispatch fuel t cp t.task.stat
