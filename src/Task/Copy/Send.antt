-- ===== src/Task/Copy/Send.antt =====
-- Sending a file that is in memory (pssh_task_send_data of src/task.c, run by pssh_task_run_copy_task
-- for as long as the channel is ready).
use mathlib.Core.List.{append_assoc, append-nil}
use libpssh.Prelude.{
  ℕ, zero, suc, ◌+◌, ◌-◌, ◌*◌, ◌<◌, ◌≤◌, ◌≡◌, refl, sym, ap, ◌∙◌, pos, to_int, to_size, int_limit,
  leb, min, Bool-cases, inl, inr, List, ◌++◌, length, length-drop, take, drop, take-append-drop,
  drop-drop, drop_all, some, ok, arith,
}
use libpssh.Env.{Env}
use libpssh.Task.{
  channel_ready, data_transfer, to_serv, CopyTask, copy, TaskLocal, set_task_stat, set_payload,
}
use libpssh.Task.Copy.{send_len, buffer, pssh_task_send_data, pssh_task_run_copy_task}

-- A file in memory, `tcnt` bytes of which have gone, whose size is an `int`.
pub record IsSending (cp : CopyTask) : Type 0 where
  pub up : cp.dir ≡ to_serv
  pub loaded : cp.buf ≡ some (buffer cp)
  pub whole : length (buffer cp) ≡ cp.st.st_size
  pub gone : cp.tcnt ≤ cp.st.st_size
  pub small : cp.st.st_size < int_limit

-- The length offered to libssh2 is what is left of the file, and 8 KB at most; it stays inside the
-- buffer.
pub send_len-min :
    (cp : CopyTask)
    → IsSending cp
    → (send_len cp ≡ min (8 * 1024) (cp.st.st_size - cp.tcnt))
      × (send_len cp ≤ length (drop cp.tcnt (buffer cp)))
unfolding send_len to_int to_size
send_len-min cp v = ground (arith, length-drop cp.tcnt (buffer cp))

-- A file of 2 to 4 GB is not sent: at its start the length, an `int`, is negative, and as a `size_t`
-- it passes the end of the buffer.
pub send_len_big :
    (cp : CopyTask)
    → cp.tcnt ≡ 0
    → int_limit ≤ cp.st.st_size
    → cp.st.st_size < 0x1_0000_0000
    → length (buffer cp) ≡ cp.st.st_size
    → length (drop cp.tcnt (buffer cp)) < send_len cp
unfolding send_len to_int to_size
send_len_big cp z a b w = ground (arith, length-drop cp.tcnt (buffer cp))

-- A channel that takes bytes without blocking: of `n` offered it takes at least one, if `n` is not 0,
-- from the front; `taken` is all that it took (libssh2_channel_write with room in the window).
pub record IsSink {W : Type 0} (env : Env W) (c : ℕ) : Type 0 where
  pub taken : W → List ℕ
  pub accept :
      (w : W) (bs : List ℕ) (n : ℕ)
      → n ≤ length bs
      → (k : ℕ) × ((env.channel_write w c bs n).0 ≡ pos k)
        × (k ≤ n)
        × (0 < n → 0 < k)
        × (taken (env.channel_write w c bs n).1 ≡ taken w ++ take k bs)

module _ {W : Type 0} (env : Env W) (fuel : ℕ) where
  -- Calls of pssh_task_run_copy_task, one after the other, each of which returned 0.
  pub data Runs : TaskLocal W → TaskLocal W → Type 0 where
    rest : {t : TaskLocal W} → Runs t t
    call :
        {t t' t'' : TaskLocal W} (cp : CopyTask)
        → t.task.payload ≡ copy cp
        → pssh_task_run_copy_task env fuel t cp ≡ ok (pos 0, t')
        → Runs t' t''
        → Runs t t''

  module _ (c : ℕ) (sink : IsSink env c) where
    open sink use {taken, accept}

    -- A task that is sending `cp`.
    pub record Sending (t : TaskLocal W) (cp : CopyTask) : Type 0 where
      pub ready : t.task.stat ≡ channel_ready
      pub union : t.task.payload ≡ copy cp
      pub open_channel : t.task.channel ≡ some c
      pub file : IsSending cp

    -- The world after the call of libssh2, and the task after it took `k` bytes.
    abbrev written : TaskLocal W → CopyTask → W
    written t cp = (env.channel_write t.world c (drop cp.tcnt (buffer cp)) (send_len cp)).1

    abbrev moved : CopyTask → ℕ → CopyTask
    moved cp k = record cp { tcnt = cp.tcnt + k }

    abbrev sent_to : TaskLocal W → CopyTask → ℕ → TaskLocal W
    sent_to t cp k = set_payload (record t { world = written t cp }) (copy (moved cp k))

    abbrev Call : TaskLocal W → CopyTask → TaskLocal W → Type 0
    Call t cp t' = pssh_task_run_copy_task env fuel t cp ≡ ok (pos 0, t')

    call_ends :
        (t : TaskLocal W) (cp : CopyTask) (k : ℕ)
        → Sending t cp
        → (env.channel_write t.world c (drop cp.tcnt (buffer cp)) (send_len cp)).0 ≡ pos k
        → cp.tcnt + k ≡ cp.st.st_size
        → Call t cp (set_task_stat (sent_to t cp k) data_transfer)
    unfolding pssh_task_run_copy_task pssh_task_send_data
    call_ends t cp k v e h = ground (arith, send_len-min cp v.file, v.file)

    call_moves :
        (t : TaskLocal W) (cp : CopyTask) (k : ℕ)
        → Sending t cp
        → (env.channel_write t.world c (drop cp.tcnt (buffer cp)) (send_len cp)).0 ≡ pos k
        → cp.tcnt + k < cp.st.st_size
        → Call t cp (sent_to t cp k)
    unfolding pssh_task_run_copy_task pssh_task_send_data
    call_moves t cp k v e h = ground (arith, send_len-min cp v.file, v.file)

    -- What went out before and after a call make up what was left before it.
    resume :
        (xs ys : List ℕ) (m k : ℕ) (buf : List ℕ)
        → xs ≡ ys ++ take k (drop m buf)
        → xs ++ drop (m + k) buf ≡ ys ++ drop m buf
    resume xs ys m k buf e =
        rw (e, ← drop-drop m k buf, append_assoc ys (take k (drop m buf)) (drop k (drop m buf)))
          (ap (◌++◌ ys) (take-append-drop k (drop m buf)))

    moved-IsSending :
        (cp : CopyTask) (k : ℕ)
        → IsSending cp
        → cp.tcnt + k ≤ cp.st.st_size
        → IsSending (moved cp k)
    moved-IsSending cp k v h = record {
      up = v.up;
      loaded = v.loaded;
      whole = v.whole;
      gone = h;
      small = v.small;
    }

    -- A file goes out whole: in as many calls as it has bytes left, and one for an empty file, the task
    -- comes to the state "data transferred", and the channel has been given exactly the rest of the
    -- file, in order, whatever pieces it takes.
    pub send_total :
        (n : ℕ) (t : TaskLocal W) (cp : CopyTask)
        → Sending t cp
        → cp.st.st_size - cp.tcnt < n
        → (t' : TaskLocal W) × Runs t t'
          × (t'.task.stat ≡ data_transfer)
          × (taken t'.world ≡ taken t.world ++ drop cp.tcnt (buffer cp))
    send_total zero t cp v h = absurd (omega arith)
    send_total (suc n) t cp v h =
        let (len, room) = send_len-min cp v.file in
        let (k, e, within, some_gone, out) =
          accept t.world (drop cp.tcnt (buffer cp)) (send_len cp) room in
        let fits : cp.tcnt + k ≤ cp.st.st_size = omega (arith, v.file.gone) in
        let all_out = resume _ (taken t.world) cp.tcnt k (buffer cp) out in
        elim (Bool-cases (leb cp.st.st_size (cp.tcnt + k))) [
          | inl last ↦
              let end : cp.tcnt + k ≡ cp.st.st_size = ground arith in
              (
                set_task_stat (sent_to t cp k) data_transfer,
                call cp v.union (call_ends t cp k v e end) rest,
                refl,
                sym (append-nil _)
                    ∙ (ap (◌++◌ _)
                          (sym (drop_all (cp.tcnt + k) (buffer cp) (omega (arith, v.file.whole))))
                        ∙ all_out),
              )
          | inr more ↦
              let short : cp.tcnt + k < cp.st.st_size = ground arith in
              let v' : Sending (sent_to t cp k) (moved cp k) = record {
                ready = v.ready;
                union = refl;
                open_channel = v.open_channel;
                file = moved-IsSending cp k v.file fits;
              } in
              let (t', runs, s, o) =
                send_total n (sent_to t cp k) (moved cp k) v' (omega (arith, some_gone)) in
              (t', call cp v.union (call_moves t cp k v e short) runs, s, o ∙ all_out)
        ]
