-- ===== src/Task/Cost/Copying.antt =====
-- What the first step of a copy task (pssh_task_get_send_channel and pssh_task_get_recv_channel of
-- src/task.c) does to the steps that are left.
use libpssh.Prelude.{
  ℕ, zero, suc, pos, ◌+◌, ◌-◌, ◌%◌, ◌<◌, ◌≤◌, ◌≡◌, inl, inr, refl, Bool, true, false, Bool-cases,
  Option-cases, leb, List, [], ◌++◌, length, length-append, some, none, Outcome, ok, arith,
}
use libpssh.Env.{Env, ReadAnswer, got, failed, FileInfo, ChannelAnswer}
use libpssh.Task.{
  error, to_serv, CopyTask, copy, TaskLocal, take_channel, set_payload, set_task_stat,
}
use libpssh.Task.Copy.{read_rest, pssh_task_get_send_channel, pssh_task_get_recv_channel}
use libpssh.Task.Copy.Send.{IsSending}
use libpssh.Task.Cost.Asking.{Steps, asks, final-Advances}
use libpssh.Task.Thrift.{Thrift}
use libpssh.Task.Cost.{is_first, to_open, to_send, to_fetch, to_receive, Fetches, patience}

module _ {W : Type 0} (env : Env W) (th : Thrift env) where
  -- The loop ends; if it says that the file was read, it was read to its size.
  abbrev Ends : ℕ → W → Outcome (Bool × List ℕ × W) → Type 0
  Ends size w r =
      (b : Bool) × (bs : List ℕ) × (w' : W) × (r ≡ ok (b, bs, w'))
      × (b ≡ true → length bs ≡ size)
      × (patience env th w' ≤ patience env th w)

  read_once :
      (fuel size fd : ℕ) (w : W) (acc : List ℕ) (a : ReadAnswer)
      → (env.read w fd (size - length acc)).0 ≡ a
      → length acc < size
      → size ≤ th.max_size
      → ((bs : List ℕ)
          → a ≡ got bs
          → Ends size
              (env.read w fd (size - length acc)).1
              (read_rest env fuel (env.read w fd (size - length acc)).1 fd size (acc ++ bs)))
      → Ends size w (read_rest env (suc fuel) w fd size acc)
  unfolding read_rest
  read_once fuel size fd w acc (failed n) e h m rest = (
    false,
    acc,
    (env.read w fd (size - length acc)).1,
    ground arith,
    λ f. cc,
    th.read_keeps w fd (size - length acc),
  )
  read_once fuel size fd w acc (got bs) e h m rest =
      let (b, xs, w', run, all, calm) = rest bs refl in
      let (more, within) = th.read_some w fd (size - length acc) bs (omega arith) e in
      let limit = th.small in
      (b, xs, w', ground arith, all, omega (arith, calm, th.read_keeps w fd (size - length acc)))

  -- Reading a file that has the size `size` at most ends, with fuel for one round per byte.
  read-Ends :
      (fuel size fd : ℕ) (w : W) (acc : List ℕ)
      → length acc ≤ size
      → size ≤ th.max_size
      → size ≤ length acc + fuel
      → Ends size w (read_rest env fuel w fd size acc)
  unfolding read_rest
  read-Ends zero size fd w acc le m f = (true, acc, w, ground arith, λ _. omega arith, omega arith)
  read-Ends (suc fuel) size fd w acc le m f = elim (Bool-cases (leb size (length acc))) [
    | inl all ↦ (true, acc, w, ground arith, λ _. ground arith, omega arith)
    | inr more ↦
        read_once fuel size fd w acc (env.read w fd (size - length acc)).0 refl (ground arith) m
          (λ bs e.
            let (some_read, within) = th.read_some w fd (size - length acc) bs (ground arith) e in
            read-Ends fuel size fd (env.read w fd (size - length acc)).1 (acc ++ bs)
              (ground (arith, length-append acc bs)) m (omega (arith, length-append acc bs)))
  ]

  -- The world after the call that asks for a channel to send `cp`.
  abbrev opening : TaskLocal W → CopyTask → W → ChannelAnswer × W
  opening t cp w = env.scp_send w t.ent.ssh_sess cp.r_fn (cp.st.st_mode % 512) cp.st.st_size

  abbrev asked : TaskLocal W → CopyTask → W → TaskLocal W
  asked t cp w = record (set_payload t (copy cp)) { world = (opening t cp w).1 }

  -- A channel is asked for, for a file that is in memory.
  ask_send :
      (t : TaskLocal W) (cp : CopyTask) (w : W)
      → is_first t.task.stat ≡ true
      → IsSending cp
      → cp.st.st_size ≤ th.max_size
      → patience env th w ≤ patience env th t.world
      → Steps env th t (ok (take_channel env (asked t cp w) (opening t cp w).0))
  ask_send t cp w f file m le =
      let keeps = th.scp_send_keeps w t.ent.ssh_sess cp.r_fn (cp.st.st_mode % 512) cp.st.st_size in
      let up = file.up in
      asks env th t (asked t cp w) (opening t cp w).0 f refl (ground arith) (omega arith)
        (λ c e. to_send cp c refl refl refl file m) (to_open cp refl f file m)
        (λ e busy.
          let spent =
            th.scp_send_again w t.ent.ssh_sess cp.r_fn (cp.st.st_mode % 512) cp.st.st_size busy e in
          omega arith)

  pub send_opened :
      (fuel : ℕ) (t : TaskLocal W) (cp : CopyTask)
      → t.task.payload ≡ copy cp
      → is_first t.task.stat ≡ true
      → IsSending cp
      → cp.st.st_size ≤ th.max_size
      → Steps env th t (pssh_task_get_send_channel env fuel t cp)
  unfolding pssh_task_get_send_channel
  send_opened fuel t cp u f file m =
      let b = file.loaded in
      let (ret, t', run, adv) = ask_send t cp t.world f file m (omega arith) in
      (ret, t', ground (arith, b, run), adv)

  -- The file as it is in memory after it was read.
  abbrev loaded : CopyTask → FileInfo → List ℕ → CopyTask
  loaded cp st bs = record cp { st = st; buf = some bs; tcnt = 0 }

  -- The file was not in memory: it has been read, or the read has failed.
  after_reading :
      (fuel fd : ℕ) (t : TaskLocal W) (cp : CopyTask) (st : FileInfo) (good : Bool) (bs : List ℕ)
      (end : W)
      → is_first t.task.stat ≡ true
      → cp.dir ≡ to_serv
      → cp.buf ≡ none
      → (env.stat t.world cp.l_fn).0 ≡ some st
      → (env.open_read (env.stat t.world cp.l_fn).1 cp.l_fn).0 ≡ some fd
      → st.st_size ≤ th.max_size
      → read_rest env fuel (env.open_read (env.stat t.world cp.l_fn).1 cp.l_fn).1 fd st.st_size []
        ≡ ok (good, bs, end)
      → (good ≡ true → length bs ≡ st.st_size)
      → patience env th end ≤ patience env th t.world
      → Steps env th t (pssh_task_get_send_channel env fuel t cp)
  unfolding pssh_task_get_send_channel
  after_reading fuel fd t cp st false bs end f up b found is_open size ran all calm = (
    pos 0,
    record (set_task_stat (set_payload t (copy (record cp { st = st; buf = some bs }))) error) {
      world = end;
    },
    ground (arith, b, found, is_open, ran),
    final-Advances env th t _ refl (ground arith) calm,
  )
  after_reading fuel fd t cp st true bs end f up b found is_open size ran all calm =
      let limit = th.small in
      let file : IsSending (loaded cp st bs) = record {
        up = up;
        loaded = refl;
        whole = all refl;
        gone = omega arith;
        small = omega (arith, size);
      } in
      let (ret, t', run, adv) =
        ask_send t (loaded cp st bs) (env.close end fd).1 f file size
          (omega (arith, calm, th.close_keeps end fd)) in
      (ret, t', ground (arith, b, found, is_open, ran, run), adv)

  send_loaded :
      (fuel fd : ℕ) (t : TaskLocal W) (cp : CopyTask) (st : FileInfo)
      → is_first t.task.stat ≡ true
      → cp.dir ≡ to_serv
      → cp.buf ≡ none
      → th.max_size ≤ fuel
      → (env.stat t.world cp.l_fn).0 ≡ some st
      → (env.open_read (env.stat t.world cp.l_fn).1 cp.l_fn).0 ≡ some fd
      → Steps env th t (pssh_task_get_send_channel env fuel t cp)
  send_loaded fuel fd t cp st f up b enough found is_open =
      let w = (env.stat t.world cp.l_fn).1 in
      let size = th.stat_size t.world cp.l_fn st found in
      let (good, bs, end, ran, all, calm) =
        read-Ends fuel st.st_size fd (env.open_read w cp.l_fn).1 [] (omega arith) size
          (omega (arith, enough)) in
      after_reading fuel fd t cp st good bs end f up b found is_open size ran all
        (omega (arith, calm, th.stat_keeps t.world cp.l_fn, th.open_read_keeps w cp.l_fn))

  pub send_channel :
      (fuel : ℕ) (t : TaskLocal W) (cp : CopyTask)
      → t.task.payload ≡ copy cp
      → is_first t.task.stat ≡ true
      → cp.dir ≡ to_serv
      → cp.buf ≡ none
      → th.max_size ≤ fuel
      → Steps env th t (pssh_task_get_send_channel env fuel t cp)
  unfolding pssh_task_get_send_channel
  send_channel fuel t cp u f up b enough =
      let w = (env.stat t.world cp.l_fn).1 in
      let keeps = th.stat_keeps t.world cp.l_fn in
      elim (Option-cases (env.stat t.world cp.l_fn).0) [
        | inl lost ↦ (
          pos 0,
          record (set_task_stat (set_payload t (copy cp)) error) { world = w },
          ground (arith, b, lost),
          final-Advances env th t _ refl (ground arith) keeps,
        )
        | inr (st, found) ↦ elim (Option-cases (env.open_read w cp.l_fn).0) [
          | inl shut ↦ (
            pos 0,
            record (set_task_stat (set_payload t (copy (record cp { st = st }))) error) {
              world = (env.open_read w cp.l_fn).1;
            },
            ground (arith, b, found, shut),
            final-Advances env th t _ refl (ground arith)
                (omega (arith, keeps, th.open_read_keeps w cp.l_fn)),
          )
          | inr (fd, is_open) ↦ send_loaded fuel fd t cp st f up b enough found is_open
        ]
      ]

  pub recv_channel :
      (t : TaskLocal W) (cp : CopyTask)
      → is_first t.task.stat ≡ true
      → Fetches (patience env th t.world) cp
      → Steps env th t (ok (pssh_task_get_recv_channel env t cp))
  unfolding pssh_task_get_recv_channel
  recv_channel t cp f g =
      let ((answer, st), w) = env.scp_recv t.world t.ent.ssh_sess cp.r_fn in
      let cp' = record cp { st = st } in
      let keeps = th.scp_recv_keeps t.world t.ent.ssh_sess cp.r_fn in
      let down = g.down in
      let size = th.scp_recv_size t.world t.ent.ssh_sess cp.r_fn in
      let g' : Fetches (patience env th w) cp' = record {
        down = down;
        room = omega (arith, g.room);
        brief = omega (arith, g.brief);
      } in
      asks env th t (record (set_payload t (copy cp')) { world = w }) answer f refl (ground arith)
        keeps
        (λ c e.
          to_receive cp' c refl refl refl (th.scp_recv_file t.world t.ent.ssh_sess c cp.r_fn e) size
            g')
        (to_fetch cp' refl f g') (λ e busy. th.scp_recv_again t.world t.ent.ssh_sess cp.r_fn busy e)
