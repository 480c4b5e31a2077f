-- ===== src/Task/Exec/Half.antt =====
-- One read of a command's output (pssh_task_read_stdout and pssh_task_read_stderr in src/task.c) on a
-- channel that never blocks: what it takes and what it keeps.
use libpssh.Prelude.{
  ℕ, ◌+◌, ◌-◌, ◌<◌, ◌≤◌, ◌≡◌, ◌≢◌, refl, ap, pos, int_limit, List, [], ◌∷◌, ◌++◌, some, length,
  length-append, true, false, ok, arith, Bool-cases, inl, inr,
}
use mathlib.Core.List.{append_assoc}
use libpssh.Env.{Env, got}
use libpssh.Task.{TaskLocal, Stream, ExecTask}
use libpssh.Task.Exec.{
  first_alloc, append_read, content, alloc_size, read_unless, pssh_task_read_stream, map_read,
  pssh_task_read_stdout, pssh_task_read_stderr,
}
use libpssh.Task.Exec.Streams.{
  IsFit, first_alloc-IsFit, append_read-IsFit, ended-IsFit, content-first_alloc,
  content-append_read, eof-append_read, alloc-append_read,
}

-- A channel on which all output has arrived: `pending` is what is still to be read of a stream. A read
-- with room takes some of it from the front, and nothing only when nothing is left; it leaves the
-- other stream alone. This is what libssh2_channel_read_ex does once the remote side has closed.
pub record Drains {W : Type 0} (env : Env W) (c : ℕ) : Type 0 where
  pub pending : W → ℕ → List ℕ
  pub read_some :
      (w : W) (i n : ℕ)
      → 0 < n
      → (bs : List ℕ) × ((env.channel_read_ex w c i n).0 ≡ got bs)
        × (pending w i ≡ bs ++ pending (env.channel_read_ex w c i n).1 i)
        × (length bs ≤ n)
        × (bs ≡ [] → pending w i ≡ [])
  pub other_stream :
      (w : W) (i j n : ℕ) → j ≢ i → pending (env.channel_read_ex w c i n).1 j ≡ pending w j

module _ {W : Type 0} (env : Env W) (c : ℕ) (d : Drains env c) where
  open d use {pending}

  -- A read of one stream, in a loop, that returned `n`.
  pub record Half (i : ℕ) (t t' : TaskLocal W) (s s' : Stream) (n : ℕ) : Type 0 where
    pub same_task : t'.task ≡ t.task
    pub same_ent : t'.ent ≡ t.ent
    pub same_self : t'.self ≡ t.self
    pub kept : content s' ++ pending t'.world i ≡ content s ++ pending t.world i
    pub fit : IsFit s'
    pub ended : s'.eof ≡ true → pending t'.world i ≡ []
    pub fewer : length (pending t'.world i) + n ≡ length (pending t.world i)
    pub quiet : n ≡ 0 → pending t'.world i ≡ []
    pub others : (j : ℕ) → j ≢ i → pending t'.world j ≡ pending t.world j

  abbrev pub HasRoom : List ℕ → Stream → Type 0
  HasRoom p s = length (content s) + length p + alloc_size < int_limit

  -- What holds of a stream before a round of the loop.
  pub record Ready (i : ℕ) (t : TaskLocal W) (s : Stream) : Type 0 where
    pub is_fit : IsFit s
    pub room : HasRoom (pending t.world i) s
    pub at_end : s.eof ≡ true → pending t.world i ≡ []

  -- The world after the read.
  abbrev after : TaskLocal W → Stream → ℕ → TaskLocal W
  after t s i = record t {
    world = (env.channel_read_ex t.world c i ((first_alloc s).alloc - (first_alloc s).len)).1;
  }

  Taken : ℕ → TaskLocal W → Stream → List ℕ → Type 0
  Taken i t s bs =
      ((env.channel_read_ex t.world c i ((first_alloc s).alloc - (first_alloc s).len)).0 ≡ got bs)
      × (pending t.world i ≡ bs ++ pending (after t s i).world i)
      × (length bs ≤ (first_alloc s).alloc - (first_alloc s).len)
      × (bs ≡ [] → pending t.world i ≡ [])

  half_of :
      (i : ℕ) (t : TaskLocal W) (s : Stream) (bs : List ℕ)
      → t.task.channel ≡ some c
      → s.eof ≡ false
      → IsFit s
      → HasRoom (pending t.world i) s
      → Taken i t s bs
      → (n : ℕ) × (s' : Stream) × (pssh_task_read_stream env t s i ≡ ok (pos n, after t s i, s'))
        × Half i t (after t s i) s s' n
  unfolding pssh_task_read_stream Taken
  half_of i t s [] ch open_end fit room (e, p, l, q) = (
    0,
    record (first_alloc s) { eof = true },
    ground arith,
    record {
      same_task = refl;
      same_ent = refl;
      same_self = refl;
      kept = cc (content-first_alloc s);
      fit = ended-IsFit s fit;
      ended = λ _. cc (q refl);
      fewer = omega (arith, ap length p);
      quiet = λ _. cc (q refl);
      others = λ j ne. d.other_stream t.world i j _ ne;
    },
  )
  half_of i t s (b ∷ bs) ch open_end fit room (e, p, l, q) =
      let (whole, len, more, step, steps) = first_alloc-IsFit s fit in
      let small : (append_read (first_alloc s) (b ∷ bs)).alloc < int_limit = omega (
        arith,
        alloc-append_read (first_alloc s) (b ∷ bs) step,
        ap length p,
        length-append (b ∷ bs) (pending (after t s i).world i),
        ap length (content-first_alloc s),
      ) in
      (
        length (b ∷ bs),
        append_read (first_alloc s) (b ∷ bs),
        ground arith,
        record {
          same_task = refl;
          same_ent = refl;
          same_self = refl;
          kept =
              rw (content-append_read (first_alloc s) (b ∷ bs), content-first_alloc s, p)
                (append_assoc (content s) (b ∷ bs) (pending (after t s i).world i));
          fit = append_read-IsFit (first_alloc s) (b ∷ bs) whole len (omega arith) step steps;
          ended = λ up. cc (eof-append_read s (b ∷ bs));
          fewer =
              omega (arith, ap length p, length-append (b ∷ bs) (pending (after t s i).world i));
          quiet = λ z. absurd (omega arith);
          others = λ j ne. d.other_stream t.world i j _ ne;
        },
      )

  -- The end of a stream is not read again.
  half_done : (i : ℕ) (t : TaskLocal W) (s : Stream) → s.eof ≡ true → Ready i t s → Half i t t s s 0
  half_done i t s e r = record {
    same_task = refl;
    same_ent = refl;
    same_self = refl;
    kept = refl;
    fit = r.is_fit;
    ended = λ _. r.at_end e;
    fewer = omega arith;
    quiet = λ _. r.at_end e;
    others = λ j _. refl;
  }

  half_read :
      (i : ℕ) (t : TaskLocal W) (s : Stream)
      → t.task.channel ≡ some c
      → s.eof ≡ false
      → Ready i t s
      → (n : ℕ) × (s' : Stream) × (pssh_task_read_stream env t s i ≡ ok (pos n, after t s i, s'))
        × Half i t (after t s i) s s' n
  unfolding Taken
  half_read i t s ch e r =
      let (w, l, m, u, k) = first_alloc-IsFit s r.is_fit in
      let (bs, got_bs, front, within, nothing) =
        d.read_some t.world i ((first_alloc s).alloc - (first_alloc s).len) (omega arith) in
      half_of i t s bs ch e r.is_fit r.room (got_bs, front, within, nothing)

  pub err_half :
      (t : TaskLocal W) (ex : ExecTask)
      → t.task.channel ≡ some c
      → Ready 1 t ex.err_stream
      → (n : ℕ) × (t' : TaskLocal W) × (s' : Stream) × (read_unless ex.err_stream.eof t ex
            (pssh_task_read_stderr env t ex)
          ≡ ok (pos n, t', record ex { err_stream = s' }))
        × Half 1 t t' ex.err_stream s' n
  unfolding pssh_task_read_stderr map_read
  err_half t ex ch r = elim (Bool-cases ex.err_stream.eof) [
    | inl e ↦ (0, t, ex.err_stream, rw e, half_done 1 t ex.err_stream e r)
    | inr e ↦
        let (n, s', runs, h) = half_read 1 t ex.err_stream ch e r in
        (n, after t ex.err_stream 1, s', simp (e, runs), h)
  ]

  pub out_half :
      (t : TaskLocal W) (ex : ExecTask)
      → t.task.channel ≡ some c
      → Ready 0 t ex.out_stream
      → (n : ℕ) × (t' : TaskLocal W) × (s' : Stream) × (read_unless ex.out_stream.eof t ex
            (pssh_task_read_stdout env t ex)
          ≡ ok (pos n, t', record ex { out_stream = s' }))
        × Half 0 t t' ex.out_stream s' n
  unfolding pssh_task_read_stdout map_read
  out_half t ex ch r = elim (Bool-cases ex.out_stream.eof) [
    | inl e ↦ (0, t, ex.out_stream, rw e, half_done 0 t ex.out_stream e r)
    | inr e ↦
        let (n, s', runs, h) = half_read 0 t ex.out_stream ch e r in
        (n, after t ex.out_stream 0, s', simp (e, runs), h)
  ]

  -- A stream that was read, or that another read left alone, is ready again.
  pub Half-Ready :
      (i : ℕ) (t t' : TaskLocal W) (s s' : Stream) (n : ℕ)
      → Ready i t s
      → Half i t t' s s' n
      → Ready i t' s'
  Half-Ready i t t' s s' n r h = record {
    is_fit = h.fit;
    room = omega (
      arith,
      r.room,
      ap length h.kept,
      length-append (content s') (pending t'.world i),
      length-append (content s) (pending t.world i),
    );
    at_end = h.ended;
  }

  pub Ready-other :
      (i j : ℕ) (t t' : TaskLocal W) (s s' q : Stream) (n : ℕ)
      → j ≢ i
      → Half i t t' s s' n
      → Ready j t q
      → Ready j t' q
  Ready-other i j t t' s s' q n ne h r = record {
    is_fit = r.is_fit;
    room = rw (h.others j ne) r.room;
    at_end = rw (h.others j ne) r.at_end;
  }
