-- ===== src/Task/Cost/Receiving.antt =====
-- What receiving a piece of a file (pssh_task_recv_data of src/task.c) does to the steps that are left.
use libpssh.Prelude.{
  ℕ, pos, true, false, ◌≤◌, ◌+◌, ◌<◌, ◌≡◌, inl, inr, refl, Bool-cases, ◌==◌, int_limit, List, ◌++◌,
  length, Option, some, none, arith, to_size, sub_ℕ, to_int, eq_ℕ, is_minus_one,
}
use libpssh.Env.{Env, ReadAnswer, got, failed}
use libpssh.Task.{
  error, channel_ready, data_transfer, CopyTask, copy, TaskLocal, set_payload, set_task_stat,
  eagain_code,
}
use libpssh.Task.Copy.{buffer, recv_buffer, pssh_task_recv_data}
use libpssh.Task.Cost.Asking.{Steps, final-Advances}
use libpssh.Task.Thrift.{Thrift}
use libpssh.Task.Cost.{task_weight, to_receive, to_close, Fetches, patience}

module _ {W : Type 0} (env : Env W) (th : Thrift env) where
  -- The file as it is in memory before a read, and the room that libssh2 is given.
  abbrev room : CopyTask → ℕ
  room cp = to_size (sub_ℕ (recv_buffer cp).st.st_size (recv_buffer cp).tcnt)

  abbrev after : TaskLocal W → CopyTask → ℕ → W
  after t cp c = (env.channel_read_ex t.world c 0 (room cp)).1

  -- The file with the bytes that came.
  abbrev grown : CopyTask → List ℕ → CopyTask
  grown cp bs = record (recv_buffer cp) {
    buf = some (buffer (recv_buffer cp) ++ bs);
    tcnt = (recv_buffer cp).tcnt + length bs;
  }

  abbrev got_more : TaskLocal W → CopyTask → ℕ → List ℕ → TaskLocal W
  got_more t cp c bs = record (set_payload t (copy (grown cp bs))) { world = after t cp c }

  -- The last bytes came, and the local file is written.
  write_answer :
      (t : TaskLocal W) (cp : CopyTask) (c : ℕ) (bs : List ℕ) (fd : Option ℕ)
      → t.task.payload ≡ copy cp
      → t.task.stat ≡ channel_ready
      → t.task.channel ≡ some c
      → (env.channel_read_ex t.world c 0 (room cp)).0 ≡ got bs
      → (grown cp bs).tcnt < int_limit
      → (grown cp bs).tcnt ≡ cp.st.st_size
      → (env.open_write (after t cp c) cp.l_fn cp.st.st_mode).0 ≡ fd
      → Steps env th t (pssh_task_recv_data env t cp)
  unfolding pssh_task_recv_data task_weight
  write_answer t cp c bs none u s ch e small all is_open =
      let keeps = th.open_write_keeps (after t cp c) cp.l_fn cp.st.st_mode in
      let calm = th.channel_read_keeps t.world c 0 (room cp) in
      (
        pos 0,
        record (set_task_stat (got_more t cp c bs) error) {
          world = (env.open_write (after t cp c) cp.l_fn cp.st.st_mode).1;
        },
        ground arith,
        final-Advances env th t _ refl (ground arith) (omega (arith, keeps, calm)),
      )
  write_answer t cp c bs (some fd) u s ch e small all is_open =
      let keeps = th.open_write_keeps (after t cp c) cp.l_fn cp.st.st_mode in
      let calm = th.channel_read_keeps t.world c 0 (room cp) in
      let w = (env.open_write (after t cp c) cp.l_fn cp.st.st_mode).1 in
      let (ret, w') = env.write w fd (buffer (grown cp bs)) in
      let (closed, w'') = env.close w' fd in
      let wrote = th.write_keeps w fd (buffer (grown cp bs)) in
      let shut = th.close_keeps w' fd in
      elim (Bool-cases (eq_ℕ (to_int ret) cp.st.st_size)) [
        | inr short ↦ (
          pos 0,
          record (set_task_stat (got_more t cp c bs) error) { world = w' },
          ground arith,
          final-Advances env th t _ refl (ground arith) (omega (arith, keeps, calm, wrote)),
        )
        | inl whole ↦ elim (Bool-cases (is_minus_one closed)) [
          | inl lost ↦ (
            pos 0,
            record (set_task_stat (got_more t cp c bs) error) { world = w'' },
            ground arith,
            final-Advances env th t _ refl (ground arith) (omega (arith, keeps, calm, wrote, shut)),
          )
          | inr fine ↦ (
            pos 0,
            record (set_task_stat (got_more t cp c bs) data_transfer) { world = w'' },
            ground arith,
            record {
              fits = to_close (grown cp bs) c refl refl ch;
              calm = omega (arith, keeps, calm, wrote, shut);
              less = ground (arith, keeps, calm, wrote, shut);
            },
          )
        ]
      ]

  -- While the file is not whole there is room for more of it.
  room_left :
      (cp : CopyTask) (bs : List ℕ) (w : W)
      → cp.st.st_size ≤ th.max_size
      → Fetches (patience env th w) cp
      → length bs ≤ room cp
      → ((grown cp bs).tcnt == cp.st.st_size) ≡ false
      → 0 < room cp
  unfolding to_size
  room_left cp bs w z g within more = ground (arith, th.small, z, g.room, within, more)

  -- What libssh2 answers to a read of the next piece of the file.
  pub recv_answer :
      (t : TaskLocal W) (cp : CopyTask) (c : ℕ) (a : ReadAnswer)
      → t.task.payload ≡ copy cp
      → t.task.stat ≡ channel_ready
      → t.task.channel ≡ some c
      → th.is_file c ≡ true
      → cp.st.st_size ≤ th.max_size
      → Fetches (patience env th t.world) cp
      → (env.channel_read_ex t.world c 0 (room cp)).0 ≡ a
      → Steps env th t (pssh_task_recv_data env t cp)
  unfolding pssh_task_recv_data task_weight
  recv_answer t cp c (got bs) u s ch is z g e =
      let spent = th.channel_read_bytes t.world c 0 (room cp) bs e in
      let within = th.channel_read_within t.world c 0 (room cp) bs e in
      let down = g.down in
      let small : (grown cp bs).tcnt < int_limit = ground (arith, g.room, g.brief) in
      elim (Bool-cases ((grown cp bs).tcnt == cp.st.st_size)) [
        | inl all ↦ write_answer t cp c bs _ u s ch e small (ground arith) refl
        | inr more ↦
            let some_left = room_left cp bs t.world z g within more in
            let brings = th.channel_read_file t.world c (room cp) bs is some_left e in
            let g' : Fetches (patience env th (after t cp c)) (grown cp bs) = record {
              down = ground arith;
              room = ground (arith, g.room, g.brief);
              brief = omega (arith, g.brief);
            } in
            (
              pos 0,
              got_more t cp c bs,
              ground arith,
              record {
                fits = to_receive (grown cp bs) c refl s ch is (ground (arith, z)) g';
                calm = omega (arith);
                less = ground (arith);
              },
            )
      ]
  recv_answer t cp c (failed n) u s ch is z g e =
      let kept : TaskLocal W = record (set_payload t (copy (recv_buffer cp))) {
        world = after t cp c;
      } in
      let calm = th.channel_read_keeps t.world c 0 (room cp) in
      let down = g.down in
      elim (Bool-cases (n == env.eagain)) [
        | inl busy ↦
            let spent = th.channel_read_busy t.world c 0 (room cp) (ground arith) in
            let g' : Fetches (patience env th (after t cp c)) (recv_buffer cp) = record {
              down = ground arith;
              room = ground (arith, g.room, g.brief);
              brief = omega (arith, g.brief);
            } in
            (
              eagain_code env,
              kept,
              ground arith,
              record {
                fits = to_receive (recv_buffer cp) c refl s ch is (ground (arith, z)) g';
                calm = calm;
                less = ground arith;
              },
            )
        | inr refused ↦ (
          pos 0,
          set_task_stat kept error,
          ground arith,
          final-Advances env th t _ refl (ground arith) calm,
        )
      ]
