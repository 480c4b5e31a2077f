-- ===== src/Task/Cost/Reading.antt =====
-- What one read of the output of a command (pssh_task_read_stdout and pssh_task_read_stderr of
-- src/task.c) does to the patience that is left.
use libpssh.Prelude.{
  ℕ, zero, suc, ℤ, pos, negsuc, is_zero, ◌+◌, ◌-◌, ◌<◌, ◌≤◌, ◌≡◌, ap, ◌∙◌, ◌⊎◌, inl, inr, refl,
  true, false, Bool-cases, ◌==◌, List, length, some, Outcome, ok, arith,
}
use libpssh.Env.{Env, ReadAnswer, got, failed}
use libpssh.Session.{is_eagain}
use libpssh.Task.{error, Stream, ExecTask, TaskLocal, set_task_stat, eagain_code}
use libpssh.Task.Exec.{
  first_alloc, append_read, content, read_unless, pssh_task_read_stream, map_read,
  pssh_task_read_stdout, pssh_task_read_stderr,
}
use libpssh.Task.Exec.Streams.{
  filled, first_alloc-IsFit, append_read-IsFit, ended-IsFit, alloc-append_read,
}
use libpssh.Task.Thrift.{Thrift}
use libpssh.Task.Cost.{StreamFits, patience}

len-first_alloc : (s : Stream) → (first_alloc s).len ≤ s.len
unfolding first_alloc
len-first_alloc s = ground arith

len-append_read : (s : Stream) (bs : List ℕ) → (append_read s bs).len ≡ s.len + length bs
unfolding append_read
len-append_read s bs = refl

first_alloc-StreamFits :
    (p q : ℕ) (s : Stream) → q ≤ p → StreamFits p s → StreamFits q (first_alloc s)
first_alloc-StreamFits p q s le f =
    let (b, l, m, u, k) = first_alloc-IsFit s f.fit in
    record {
      fit = filled (content (first_alloc s)) b l m u k;
      room = omega (arith, f.room, len-first_alloc s);
    }

module _ {W : Type 0} (env : Env W) (th : Thrift env) where
  abbrev P : W → ℕ
  P w = patience env th w

  -- What a read leaves alone, and what it uses up unless it says 0.
  pub record Spends (t t' : TaskLocal W) (s s' : Stream) (ret : ℤ) : Type 0 where
    pub same_channel : t'.task.channel ≡ t.task.channel
    pub running : (t'.task.stat ≡ t.task.stat) ⊎ (t'.task.stat ≡ error)
    pub stream : StreamFits (P t'.world) s'
    pub calm : P t'.world ≤ P t.world
    pub spent : is_zero ret ≡ false → P t'.world < P t.world

  abbrev Read : TaskLocal W → Stream → Outcome (ℤ × TaskLocal W × Stream) → Type 0
  Read t s r =
      (x : ℤ × TaskLocal W × Stream) × (ret : ℤ) × (t' : TaskLocal W) × (s' : Stream) × (r ≡ ok x)
      × (map_read env x ≡ (ret, t', s'))
      × Spends t t' s s' ret

  abbrev room : Stream → ℕ
  room s = (first_alloc s).alloc - (first_alloc s).len

  abbrev after : TaskLocal W → ℕ → ℕ → Stream → TaskLocal W
  after t c i s = record t { world = (env.channel_read_ex t.world c i (room s)).1 }

  stream-Read :
      (t : TaskLocal W) (s : Stream) (c i : ℕ) (a : ReadAnswer)
      → t.task.channel ≡ some c
      → StreamFits (P t.world) s
      → (env.channel_read_ex t.world c i (room s)).0 ≡ a
      → Read t s (pssh_task_read_stream env t s i)
  unfolding pssh_task_read_stream map_read
  stream-Read t s c i (failed zero) ch f e =
      let calm = th.channel_read_keeps t.world c i (room s) in
      let stream = first_alloc-StreamFits (P t.world) _ s calm f in
      elim (Bool-cases (is_eagain env (env.last_errno (after t c i s).world t.ent.ssh_sess))) [
        | inl busy ↦
            let spent = th.channel_read_again t.world c i (room s) t.ent.ssh_sess busy e in
            (
              (negsuc 0, after t c i s, first_alloc s),
              eagain_code env,
              after t c i s,
              first_alloc s,
              ground arith,
              ground arith,
              record {
                same_channel = refl;
                running = inl refl;
                stream = stream;
                calm = calm;
                spent = λ _. spent;
              },
            )
        | inr hard ↦ (
          (negsuc 0, set_task_stat (after t c i s) error, first_alloc s),
          pos 0,
          set_task_stat (after t c i s) error,
          first_alloc s,
          ground arith,
          ground arith,
          record {
            same_channel = refl;
            running = inr refl;
            stream = stream;
            calm = calm;
            spent = λ z. cc;
          },
        )
      ]
  stream-Read t s c i (failed (suc k)) ch f e =
      let code = th.channel_read_code t.world c i (room s) k e in
      let spent = th.channel_read_busy t.world c i (room s) (e ∙ ap failed code) in
      let stream = first_alloc-StreamFits (P t.world) _ s (omega (arith, spent)) f in
      elim (Bool-cases (is_eagain env (env.last_errno (after t c i s).world t.ent.ssh_sess))) [
        | inl busy ↦ (
          (negsuc (suc k), after t c i s, first_alloc s),
          negsuc (suc k),
          after t c i s,
          first_alloc s,
          ground arith,
          ground arith,
          record {
            same_channel = refl;
            running = inl refl;
            stream = stream;
            calm = omega (arith, spent);
            spent = λ _. spent;
          },
        )
        | inr hard ↦ (
          (negsuc (suc k), set_task_stat (after t c i s) error, first_alloc s),
          negsuc (suc k),
          set_task_stat (after t c i s) error,
          first_alloc s,
          ground arith,
          ground arith,
          record {
            same_channel = refl;
            running = inr refl;
            stream = stream;
            calm = omega (arith, spent);
            spent = λ _. spent;
          },
        )
      ]
  stream-Read t s c i (got bs) ch f e =
      let spent = th.channel_read_bytes t.world c i (room s) bs e in
      let within = th.channel_read_within t.world c i (room s) bs e in
      let (b, l, m, u, k) = first_alloc-IsFit s f.fit in
      let shorter = len-first_alloc s in
      elim (Bool-cases (length bs == 0)) [
        | inl none_left ↦ (
          (pos 0, after t c i s, record (first_alloc s) { eof = true }),
          pos 0,
          after t c i s,
          record (first_alloc s) { eof = true },
          ground arith,
          ground arith,
          record {
            same_channel = refl;
            running = inl refl;
            stream = record { fit = ended-IsFit s f.fit; room = omega (arith, f.room) };
            calm = omega (arith, spent);
            spent = λ z. cc;
          },
        )
        | inr more ↦
            let longer = alloc-append_read (first_alloc s) bs u in
            (
              (pos (length bs), after t c i s, append_read (first_alloc s) bs),
              pos (length bs),
              after t c i s,
              append_read (first_alloc s) bs,
              ground (arith, longer, f.room),
              refl,
              record {
                same_channel = refl;
                running = inl refl;
                stream = record {
                  fit = append_read-IsFit (first_alloc s) bs b l (omega arith) u k;
                  room = omega (arith, f.room, len-append_read (first_alloc s) bs);
                };
                calm = omega (arith, spent);
                spent = λ _. ground (arith, spent);
              },
            )
      ]

  -- The streams of a command between two reads.
  abbrev pub Half :
      TaskLocal W → Stream → Outcome (ℤ × TaskLocal W × ExecTask) → (Stream → ExecTask) → Type 0
  Half t s r put =
      (ret : ℤ) × (t' : TaskLocal W) × (s' : Stream) × (r ≡ ok (ret, t', put s'))
      × Spends t t' s s' ret

  skip : (t : TaskLocal W) (s : Stream) → StreamFits (P t.world) s → Spends t t s s (pos 0)
  skip t s f = record {
    same_channel = refl;
    running = inl refl;
    stream = f;
    calm = omega arith;
    spent = λ z. cc;
  }

  pub err_spends :
      (t : TaskLocal W) (ex : ExecTask) (c : ℕ)
      → t.task.channel ≡ some c
      → StreamFits (P t.world) ex.err_stream
      → Half t ex.err_stream
          (read_unless ex.err_stream.eof t ex (pssh_task_read_stderr env t ex))
          (λ s. record ex { err_stream = s })
  unfolding pssh_task_read_stderr
  err_spends t ex c ch f = elim (Bool-cases ex.err_stream.eof) [
    | inl e ↦ (pos 0, t, ex.err_stream, rw e, skip t ex.err_stream f)
    | inr e ↦
        let (x, ret, t', s', run, maps, spends) = stream-Read t ex.err_stream c 1 _ ch f refl in
        (ret, t', s', simp (e, run, maps), spends)
  ]

  pub out_spends :
      (t : TaskLocal W) (ex : ExecTask) (c : ℕ)
      → t.task.channel ≡ some c
      → StreamFits (P t.world) ex.out_stream
      → Half t ex.out_stream
          (read_unless ex.out_stream.eof t ex (pssh_task_read_stdout env t ex))
          (λ s. record ex { out_stream = s })
  unfolding pssh_task_read_stdout
  out_spends t ex c ch f = elim (Bool-cases ex.out_stream.eof) [
    | inl e ↦ (pos 0, t, ex.out_stream, rw e, skip t ex.out_stream f)
    | inr e ↦
        let (x, ret, t', s', run, maps, spends) = stream-Read t ex.out_stream c 0 _ ch f refl in
        (ret, t', s', simp (e, run, maps), spends)
  ]
