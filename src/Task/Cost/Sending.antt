-- ===== src/Task/Cost/Sending.antt =====
-- What sending a piece of a file (pssh_task_send_data of src/task.c) does to the steps that are left.
use libpssh.Prelude.{
  ℕ, ℤ, pos, negsuc, ◌+◌, ◌<◌, ◌≤◌, ◌≡◌, inl, inr, refl, Bool-cases, ◌==◌, drop, some, arith,
}
use libpssh.Env.{Env}
use libpssh.Session.{is_eagain}
use libpssh.Task.{
  error, channel_ready, data_transfer, CopyTask, copy, TaskLocal, set_payload, set_task_stat,
  eagain_code,
}
use libpssh.Task.Copy.{send_len, buffer, pssh_task_send_data}
use libpssh.Task.Copy.Send.{IsSending, send_len-min}
use libpssh.Task.Cost.Asking.{Steps, final-Advances}
use libpssh.Task.Thrift.{Thrift}
use libpssh.Task.Cost.{task_weight, to_send, to_close, patience}

module _ {W : Type 0} (env : Env W) (th : Thrift env) where
  -- What libssh2 answers to an offer of the next piece of the file.
  pub send_answer :
      (t : TaskLocal W) (cp : CopyTask) (c : ℕ) (ret : ℤ)
      → t.task.payload ≡ copy cp
      → t.task.stat ≡ channel_ready
      → t.task.channel ≡ some c
      → IsSending cp
      → cp.st.st_size ≤ th.max_size
      → (env.channel_write t.world c (drop cp.tcnt (buffer cp)) (send_len cp)).0 ≡ ret
      → Steps env th t (pssh_task_send_data env t cp)
  unfolding pssh_task_send_data task_weight
  send_answer t cp c (pos k) u s ch file m e =
      let (len, within) = send_len-min cp file in
      let w = (env.channel_write t.world c (drop cp.tcnt (buffer cp)) (send_len cp)).1 in
      let keeps = th.channel_write_keeps t.world c (send_len cp) (drop cp.tcnt (buffer cp)) in
      let took = th.channel_write_within t.world c (send_len cp) k (drop cp.tcnt (buffer cp)) e in
      let cp' = record cp { tcnt = cp.tcnt + k } in
      let moved : TaskLocal W = record (set_payload t (copy cp')) { world = w } in
      let fits : cp.tcnt + k ≤ cp.st.st_size = ground (arith, file.gone) in
      let up = file.up in
      elim (Bool-cases (cp.tcnt + k == cp.st.st_size)) [
        | inl all ↦ (
          pos 0,
          set_task_stat moved data_transfer,
          ground (arith, file.small),
          record { fits = to_close cp' c refl refl ch; calm = keeps; less = ground (arith, keeps) },
        )
        | inr more ↦
            let spent : (k ≡ 0) → patience env th w < patience env th t.world = λ z.
              th.channel_write_nothing t.world c (send_len cp) (drop cp.tcnt (buffer cp))
                (ground arith) (rw z at e) in
            let file' : IsSending cp' = record {
              up = up;
              loaded = file.loaded;
              whole = file.whole;
              gone = fits;
              small = file.small;
            } in
            (
              pos 0,
              moved,
              ground (arith, file.small),
              record {
                fits = to_send cp' c refl s ch file' m;
                calm = keeps;
                less = ground (arith, keeps, spent);
              },
            )
      ]
  send_answer t cp c (negsuc k) u s ch file m e =
      let (len, within) = send_len-min cp file in
      let rest = drop cp.tcnt (buffer cp) in
      let w = (env.channel_write t.world c rest (send_len cp)).1 in
      let keeps = th.channel_write_keeps t.world c (send_len cp) rest in
      elim (Bool-cases (is_eagain env (env.last_errno w t.ent.ssh_sess))) [
        | inl busy ↦
            let spent =
              th.channel_write_again t.world c t.ent.ssh_sess (send_len cp) k rest busy e in
            (
              eagain_code env,
              record t { world = w },
              ground arith,
              record {
                fits = to_send cp c u s ch file m;
                calm = keeps;
                less = ground (arith, spent);
              },
            )
        | inr refused ↦ (
          pos 0,
          set_task_stat (record t { world = w }) error,
          ground arith,
          final-Advances env th t _ refl (ground arith) keeps,
        )
      ]
