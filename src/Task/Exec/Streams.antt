-- ===== src/Task/Exec/Streams.antt =====
-- The output buffers of a command (pssh_task_read_stream of src/task.c).
use libpssh.Prelude.{
  ℕ, ◌+◌, ◌-◌, ◌%◌, ◌<◌, ◌≤◌, ◌≡◌, refl, ℤ, pos, negsuc, List, ◌++◌, some, none, length,
  length-append, true, ok, arith, Bool-cases, Option-cases, inl, inr, ◌==◌,
}
use libpssh.Env.{Env, ReadAnswer, got, failed}
use libpssh.Task.{TaskLocal, Stream}
use libpssh.Task.Exec.{
  first_alloc, append_read, content, alloc_size, read_answer, pssh_task_read_stream,
}

-- A stream that was read from: the buffer holds `len` bytes, has room for at least one more and for
-- one step at most, and was grown by whole steps. One that was not has no buffer.
pub data IsFit (s : Stream) : Type 0 where
  unread : s.buf ≡ none → IsFit s
  filled :
      (bs : List ℕ)
      → s.buf ≡ some bs
      → length bs ≡ s.len
      → s.len < s.alloc
      → s.alloc ≤ s.len + alloc_size
      → s.alloc % alloc_size ≡ 0
      → IsFit s

-- libssh2_channel_read_ex stores no more than it is given room for.
abbrev pub ReadsWithin : {W : Type 0} → Env W → Type 0
ReadsWithin {W} env =
    (w : W) (c stream n : ℕ) (bs : List ℕ)
    → (env.channel_read_ex w c stream n).0 ≡ got bs
    → length bs ≤ n

pub first_alloc-IsFit :
    (s : Stream)
    → IsFit s
    → let s' = first_alloc s in
      (s'.buf ≡ some (content s'))
      × (length (content s') ≡ s'.len)
      × (s'.len < s'.alloc)
      × (s'.alloc ≤ s'.len + alloc_size)
      × (s'.alloc % alloc_size ≡ 0)
unfolding first_alloc
first_alloc-IsFit s (unread e) = ground arith
first_alloc-IsFit s (filled bs e l r u m) = ground arith

pub append_read-IsFit :
    (s : Stream) (bs : List ℕ)
    → s.buf ≡ some (content s)
    → length (content s) ≡ s.len
    → s.len + length bs ≤ s.alloc
    → s.alloc ≤ s.len + alloc_size
    → s.alloc % alloc_size ≡ 0
    → IsFit (append_read s bs)
unfolding append_read
append_read-IsFit s bs b l r u m =
    filled (content s ++ bs) refl (omega (arith, length-append (content s) bs)) (ground arith)
      (ground arith) (ground arith)

pub content-first_alloc : (s : Stream) → content (first_alloc s) ≡ content s
unfolding first_alloc
content-first_alloc s = ground arith

pub content-append_read : (s : Stream) (bs : List ℕ) → content (append_read s bs) ≡ content s ++ bs
unfolding append_read
content-append_read s bs = refl

pub eof-append_read : (s : Stream) (bs : List ℕ) → (append_read (first_alloc s) bs).eof ≡ s.eof
unfolding append_read first_alloc
eof-append_read s bs = ground arith

pub alloc-append_read :
    (s : Stream) (bs : List ℕ)
    → s.alloc ≤ s.len + alloc_size
    → (append_read s bs).alloc ≤ s.len + length bs + alloc_size
unfolding append_read
alloc-append_read s bs h = ground arith

-- What one read does: it fails and brings nothing, it meets the end, or it brings bytes for which the
-- buffer had room.
pub data Reads (s s' : Stream) (ret : ℤ) : Type 0 where
  fails : (n : ℕ) → ret ≡ negsuc n → s' ≡ first_alloc s → Reads s s' ret
  ends : ret ≡ pos 0 → s' ≡ record (first_alloc s) { eof = true } → Reads s s' ret
  brings :
      (bs : List ℕ)
      → ret ≡ pos (length bs)
      → 0 < length bs
      → length bs ≤ (first_alloc s).alloc - (first_alloc s).len
      → s' ≡ append_read (first_alloc s) bs
      → Reads s s' ret

pub ended-IsFit : (s : Stream) → IsFit s → IsFit (record (first_alloc s) { eof = true })
ended-IsFit s fit =
    let (b, l, m, u, k) = first_alloc-IsFit s fit in filled (content (first_alloc s)) b l m u k

Reads-IsFit : (s s' : Stream) (ret : ℤ) → IsFit s → Reads s s' ret → IsFit s'
Reads-IsFit s s' ret fit (fails n r e) =
    let (b, l, m, u, k) = first_alloc-IsFit s fit in
    rw e (filled (content (first_alloc s)) b l m u k)
Reads-IsFit s s' ret fit (ends r e) = rw e (ended-IsFit s fit)
Reads-IsFit s s' ret fit (brings bs r p w e) =
    let (b, l, m, u, k) = first_alloc-IsFit s fit in
    rw e (append_read-IsFit (first_alloc s) bs b l (omega arith) u k)

module _ {W : Type 0} (env : Env W) where
  read_answer-Reads :
      (t t' : TaskLocal W) (s s' : Stream) (a : ReadAnswer) (ret : ℤ)
      → ((bs : List ℕ) → a ≡ got bs → length bs ≤ (first_alloc s).alloc - (first_alloc s).len)
      → read_answer env t (first_alloc s) a ≡ ok (ret, t', s')
      → Reads s s' ret
  read_answer-Reads t t' s s' (failed n) ret within h = fails n (ground arith) (ground arith)
  read_answer-Reads t t' s s' (got bs) ret within h = elim (Bool-cases (length bs == 0)) [
    | inl none_left ↦ ends (ground arith) (ground arith)
    | inr more ↦ brings bs (ground arith) (ground arith) (within bs refl) (ground arith)
  ]

  read_stream-Reads :
      (t t' : TaskLocal W) (s s' : Stream) (stream_id : ℕ) (ret : ℤ)
      → ReadsWithin env
      → pssh_task_read_stream env t s stream_id ≡ ok (ret, t', s')
      → Reads s s' ret
  unfolding pssh_task_read_stream
  read_stream-Reads t t' s s' stream_id ret within h = elim (Option-cases t.task.channel) [
    | inl e ↦ absurd (ground arith)
    | inr (c, e) ↦
        read_answer-Reads
          (record t {
            world =
                (env.channel_read_ex t.world c stream_id
                  ((first_alloc s).alloc - (first_alloc s).len)).1;
          })
          t' s s' _ ret (within t.world c stream_id _) (ground arith)
  ]

  -- Whatever a read answers, within the room that it is given, the buffer stays as long as its bytes,
  -- of a whole number of steps, with room for more and for no more than a step.
  pub read_stream-IsFit :
      (t t' : TaskLocal W) (s s' : Stream) (stream_id : ℕ) (ret : ℤ)
      → ReadsWithin env
      → IsFit s
      → pssh_task_read_stream env t s stream_id ≡ ok (ret, t', s')
      → IsFit s'
  read_stream-IsFit t t' s s' stream_id ret within fit h =
      Reads-IsFit s s' ret fit (read_stream-Reads t t' s s' stream_id ret within h)
