-- ===== src/Task/Copy/Receive.antt =====
-- Receiving a file (pssh_task_recv_data of src/task.c, run by pssh_task_run_copy_task for as long as the
-- channel is ready), up to the local file that it writes.
use mathlib.Core.List.{append_assoc, append-nil}
use mathlib.Core.Path.{subst}
use libpssh.Prelude.{
  ℕ, zero, suc, ◌+◌, ◌-◌, ◌<◌, ◌≤◌, ◌≡◌, refl, sym, ap, ◌∙◌, pos, to_int, to_size, sub_ℕ, int_limit,
  leb, Bool-cases, inl, inr, List, [], ◌++◌, length, length-append, take, take-append_le, some, ok,
  arith,
}
use libpssh.Env.{Env, got}
use libpssh.Task.{
  channel_ready, data_transfer, from_serv, CopyTask, copy, TaskLocal, set_task_stat, set_payload,
}
use libpssh.Task.Copy.{buffer, pssh_task_recv_data, pssh_task_run_copy_task}
use libpssh.Task.Copy.Load.{nonempty}
use libpssh.Task.Copy.Send.{Runs, rest, call}

-- A channel that brings bytes without blocking: a read takes some of what is pending from the front, no
-- more than it has room for, and with room nothing only when nothing is left.
pub record IsSource {W : Type 0} (env : Env W) (c : ℕ) : Type 0 where
  pub pending : W → List ℕ
  pub read_some :
      (w : W) (n : ℕ)
      → (bs : List ℕ) × ((env.channel_read_ex w c 0 n).0 ≡ got bs)
        × (pending w ≡ bs ++ pending (env.channel_read_ex w c 0 n).1)
        × (length bs ≤ n)
        × (0 < n → bs ≡ [] → pending w ≡ [])

-- A disk that takes files whole: `file` is what stands under a name, `opened` the name behind a
-- descriptor.
pub record IsDisk {W : Type 0} (env : Env W) : Type 0 where
  pub file : W → List ℕ → List ℕ
  pub opened : W → ℕ → List ℕ
  pub opens :
      (w : W) (name : List ℕ) (mode : ℕ)
      → (fd : ℕ) × ((env.open_write w name mode).0 ≡ some fd)
        × (opened (env.open_write w name mode).1 fd ≡ name)
  pub writes :
      (w : W) (fd : ℕ) (bs : List ℕ)
      → ((env.write w fd bs).0 ≡ pos (length bs)) × (file (env.write w fd bs).1 (opened w fd) ≡ bs)
  pub closes :
      (w : W) (fd : ℕ)
      → ((env.close w fd).0 ≡ pos 0)
        × ((name : List ℕ) → file (env.close w fd).1 name ≡ file w name)

module _ {W : Type 0} (env : Env W) (fuel c : ℕ) (source : IsSource env c) (disk : IsDisk env) where
  open source use {pending, read_some}
  open disk use {file}

  -- A task that is receiving `cp`: the bytes in memory are those that were counted, the file is smaller
  -- than 2 GB, and the rest of it is pending.
  pub record Receiving (t : TaskLocal W) (cp : CopyTask) : Type 0 where
    pub ready : t.task.stat ≡ channel_ready
    pub union : t.task.payload ≡ copy cp
    pub open_channel : t.task.channel ≡ some c
    pub down : cp.dir ≡ from_serv
    pub counted : cp.tcnt ≡ length (buffer cp)
    pub part : cp.tcnt ≤ cp.st.st_size
    pub small : cp.st.st_size < int_limit
    pub enough : cp.st.st_size ≤ cp.tcnt + length (pending t.world)

  abbrev read_world : TaskLocal W → CopyTask → W
  read_world t cp = (env.channel_read_ex t.world c 0 (cp.st.st_size - cp.tcnt)).1

  abbrev grown : CopyTask → List ℕ → CopyTask
  grown cp bs = record cp { buf = some (buffer cp ++ bs); tcnt = cp.tcnt + length bs }

  abbrev got_more : TaskLocal W → CopyTask → List ℕ → TaskLocal W
  got_more t cp bs = set_payload (record t { world = read_world t cp }) (copy (grown cp bs))

  recv_room :
      (t : TaskLocal W) (cp : CopyTask)
      → Receiving t cp
      → to_size (sub_ℕ cp.st.st_size cp.tcnt) ≡ cp.st.st_size - cp.tcnt
  unfolding to_size
  recv_room t cp v = ground (arith, v)

  recv_more :
      (t : TaskLocal W) (cp : CopyTask) (bs : List ℕ)
      → Receiving t cp
      → (env.channel_read_ex t.world c 0 (cp.st.st_size - cp.tcnt)).0 ≡ got bs
      → cp.tcnt + length bs < cp.st.st_size
      → pssh_task_run_copy_task env fuel t cp ≡ ok (pos 0, got_more t cp bs)
  unfolding pssh_task_run_copy_task pssh_task_recv_data
  recv_more t cp bs v e h = ground (arith, v, recv_room t cp v)

  abbrev Done : TaskLocal W → List ℕ → List ℕ → Type 0
  Done t name xs = (t.task.stat ≡ data_transfer) × (file t.world name ≡ xs)

  recv_last :
      (t : TaskLocal W) (cp : CopyTask) (bs : List ℕ)
      → Receiving t cp
      → (env.channel_read_ex t.world c 0 (cp.st.st_size - cp.tcnt)).0 ≡ got bs
      → cp.tcnt + length bs ≡ cp.st.st_size
      → (t' : TaskLocal W) × (pssh_task_run_copy_task env fuel t cp ≡ ok (pos 0, t'))
        × Done t' cp.l_fn (buffer cp ++ bs)
  unfolding pssh_task_run_copy_task pssh_task_recv_data to_int
  recv_last t cp bs v e h =
      let whole = length-append (buffer cp) bs in
      let opening = env.open_write (read_world t cp) cp.l_fn cp.st.st_mode in
      let (fd, opened_fd, behind) = disk.opens (read_world t cp) cp.l_fn cp.st.st_mode in
      let writing = env.write opening.1 fd (buffer cp ++ bs) in
      let (wrote, stored) = disk.writes opening.1 fd (buffer cp ++ bs) in
      let (closed, kept) = disk.closes writing.1 fd in
      (
        set_task_stat (record (got_more t cp bs) { world = (env.close writing.1 fd).1 })
            data_transfer,
        ground (arith, v, recv_room t cp v),
        (refl, kept cp.l_fn ∙ subst (λ n. file writing.1 n ≡ buffer cp ++ bs) behind stored),
      )

  -- A file comes in whole: in as many calls as it has bytes left, and one for an empty file, the task
  -- comes to the state "data transferred", and the file of the local name holds what was in memory followed by the
  -- rest of the file's bytes, in the order in which the channel brought them, whatever pieces it brings.
  pub recv_total :
      (n : ℕ) (t : TaskLocal W) (cp : CopyTask)
      → Receiving t cp
      → cp.st.st_size - cp.tcnt < n
      → (t' : TaskLocal W) × Runs env fuel t t'
        × Done t' cp.l_fn (buffer cp ++ take (cp.st.st_size - cp.tcnt) (pending t.world))
  recv_total zero t cp v h = absurd (omega arith)
  recv_total (suc n) t cp v h =
      let (bs, e, front, within, nothing) = read_some t.world (cp.st.st_size - cp.tcnt) in
      let fits : cp.tcnt + length bs ≤ cp.st.st_size = omega (arith, v.part) in
      let split = ap length front in
      let sum = length-append bs (pending (read_world t cp)) in
      let first = take-append_le (cp.st.st_size - cp.tcnt) bs (pending (read_world t cp)) within in
      elim (Bool-cases (leb cp.st.st_size (cp.tcnt + length bs))) [
        | inl last ↦
            let end : cp.tcnt + length bs ≡ cp.st.st_size = ground arith in
            let (t', runs, (stat, stored)) = recv_last t cp bs v e end in
            let none_left : cp.st.st_size - cp.tcnt - length bs ≡ 0 = omega arith in
            let all : take (cp.st.st_size - cp.tcnt) (pending t.world) ≡ bs =
              rw (front, first, none_left) (append-nil bs) in
            (t', call cp v.union runs rest, (stat, stored ∙ ap (◌++◌ (buffer cp)) (sym all)))
        | inr more ↦
            let short : cp.tcnt + length bs < cp.st.st_size = ground arith in
            let some_read =
              nonempty (pending t.world) bs (nothing (omega arith)) (omega (arith, v.enough)) in
            let v' : Receiving (got_more t cp bs) (grown cp bs) = record {
              ready = v.ready;
              union = refl;
              open_channel = v.open_channel;
              down = v.down;
              counted = omega (arith, v.counted, length-append (buffer cp) bs);
              part = fits;
              small = v.small;
              enough = omega (arith, v.enough, split, sum);
            } in
            let (t', runs, (stat, stored)) =
              recv_total n (got_more t cp bs) (grown cp bs) v' (omega arith) in
            let left : cp.st.st_size - (cp.tcnt + length bs) ≡ cp.st.st_size - cp.tcnt - length bs =
              omega arith in
            (
              t',
              call cp v.union (recv_more t cp bs v e short) runs,
              (
                stat,
                stored
                    ∙ rw (front, first, left)
                        (append_assoc (buffer cp) bs
                          (take (cp.st.st_size - cp.tcnt - length bs) (pending (read_world t cp)))),
              ),
            )
      ]
