-- ===== src/Xsys/Ends.antt =====
-- xwrite of src/xsys.c ends, on a descriptor that takes bytes or fails: what it has written, and what it
-- answers.
use mathlib.Core.List.{append_assoc, append-nil}
use libpssh.Prelude.{
  ℕ, zero, suc, ◌+◌, ◌<◌, ◌≤◌, ◌≡◌, refl, sym, ap, ◌∙◌, pos, negsuc, ℤ, minus_one, List, [], ◌∷◌,
  ◌++◌, ◌⊎◌, inl, inr, if◌then◌else◌, length, length-drop, take, drop, take-add, drop-drop, Outcome,
  ok, arith,
}
use libpssh.Env.{Env}
use libpssh.Xsys.{xwrite_from, xwrite}

-- write(2) on a buffer that is not empty: it takes some bytes from the front, or it fails and takes none;
-- `written` is all that the descriptor took.
pub record IsPort {W : Type 0} (env : Env W) (fd : ℕ) : Type 0 where
  pub written : W → List ℕ
  pub answers :
      (w : W) (bs : List ℕ)
      → 0 < length bs
      → ((k : ℕ) × ((env.write w fd bs).0 ≡ pos k)
          × (0 < k)
          × (k ≤ length bs)
          × (written (env.write w fd bs).1 ≡ written w ++ take k bs))
        ⊎ ((e : ℕ) × ((env.write w fd bs).0 ≡ negsuc e)
            × (written (env.write w fd bs).1 ≡ written w))

module _ {W : Type 0} (env : Env W) (fd : ℕ) where
  -- What xwrite answers when write(2) has failed after `n` bytes.
  abbrev refusal : W → ℕ → ℤ
  refusal w n = if env.is_epipe w then pos n else minus_one

  -- The loop from `off` has ended in `w` and has written all of `bs`.
  abbrev pub IsWhole : Outcome (ℤ × W) → ℕ → List ℕ → ℕ → W → Type 0
  IsWhole run off bs n w = (run ≡ ok (pos (off + n), w)) × (n ≡ length bs)

  -- The loop has ended in `w`, where write(2) has failed on what was left after `n` bytes.
  abbrev pub IsRefused : Outcome (ℤ × W) → ℕ → List ℕ → ℕ → W → Type 0
  IsRefused run off bs n w =
      (run ≡ ok (refusal w (off + n), w))
      × (n < length bs)
      × (before : W) × (e : ℕ) × ((env.write before fd (drop n bs)).0 ≡ negsuc e)
      × ((env.write before fd (drop n bs)).1 ≡ w)

  -- One of the two.
  abbrev pub IsEnd : Outcome (ℤ × W) → ℕ → List ℕ → ℕ → W → Type 0
  IsEnd run off bs n w = IsWhole run off bs n w ⊎ IsRefused run off bs n w

  next_write :
      (fuel : ℕ) (w : W) (b : ℕ) (bs : List ℕ) (off k : ℕ)
      → (env.write w fd (b ∷ bs)).0 ≡ pos k
      → k ≤ length (b ∷ bs)
      → xwrite_from env (suc fuel) w fd (b ∷ bs) off
        ≡ xwrite_from env fuel (env.write w fd (b ∷ bs)).1 fd (drop k (b ∷ bs)) (off + k)
  unfolding xwrite_from
  next_write fuel w b bs off k e h = ground arith

  failed_write :
      (fuel : ℕ) (w : W) (b : ℕ) (bs : List ℕ) (off e : ℕ)
      → (env.write w fd (b ∷ bs)).0 ≡ negsuc e
      → xwrite_from env (suc fuel) w fd (b ∷ bs) off
        ≡ ok (refusal (env.write w fd (b ∷ bs)).1 (off + 0), (env.write w fd (b ∷ bs)).1)
  unfolding xwrite_from
  failed_write fuel w b bs off e p = ground arith

  -- The end of the loop after a call that took `k` bytes is the end of the loop before it.
  before_write :
      (run run' : Outcome (ℤ × W)) (off k n : ℕ) (bs : List ℕ) (w : W)
      → run ≡ run'
      → k ≤ length bs
      → IsEnd run' (off + k) (drop k bs) n w
      → IsEnd run off bs (k + n) w
  before_write run run' off k n bs w step h (inl (e, all)) =
      let left = length-drop k bs in
      let sum : off + k + n ≡ off + (k + n) = omega arith in
      inl (step ∙ (e ∙ ap (λ m. ok (pos m, w)) sum), omega arith)
  before_write run run' off k n bs w step h (inr (e, short, before, c, out, end)) =
      let left = length-drop k bs in
      let sum : off + k + n ≡ off + (k + n) = omega arith in
      let rest = drop-drop k n bs in
      inr (
        step ∙ (e ∙ ap (λ m. ok (refusal w m, w)) sum),
        omega arith,
        before,
        c,
        ap (λ xs. (env.write before fd xs).0) (sym rest) ∙ out,
        ap (λ xs. (env.write before fd xs).1) (sym rest) ∙ end,
      )

  module _ (port : IsPort env fd) where
    open port use {written, answers}

    write_from_ends :
        (fuel : ℕ) (w : W) (bs : List ℕ) (off : ℕ)
        → length bs ≤ fuel
        → (n : ℕ) × (w' : W) × IsEnd (xwrite_from env fuel w fd bs off) off bs n w'
          × (written w' ≡ written w ++ take n bs)
    unfolding xwrite_from
    write_from_ends fuel w [] off h =
        (0, w, inl (ap (λ n. ok (pos n, w)) (omega arith), refl), sym (append-nil (written w)))
    write_from_ends zero w (b ∷ bs) off h = absurd (omega arith)
    write_from_ends (suc fuel) w (b ∷ bs) off h =
        let w₁ = (env.write w fd (b ∷ bs)).1 in
        elim (answers w (b ∷ bs) (omega arith)) [
          | inl (k, e, some_out, within, out) ↦
              let left = length-drop k (b ∷ bs) in
              let (n, w', end, all) =
                write_from_ends fuel w₁ (drop k (b ∷ bs)) (off + k) (omega arith) in
              (
                k + n,
                w',
                before_write (xwrite_from env (suc fuel) w fd (b ∷ bs) off)
                    (xwrite_from env fuel w₁ fd (drop k (b ∷ bs)) (off + k)) off k n (b ∷ bs) w'
                    (next_write fuel w b bs off k e within) within end,
                all
                    ∙ (ap (λ xs. xs ++ take n (drop k (b ∷ bs))) out
                        ∙ (append_assoc (written w) (take k (b ∷ bs)) (take n (drop k (b ∷ bs)))
                            ∙ ap (◌++◌ (written w)) (sym (take-add k n (b ∷ bs))))),
              )
          | inr (c, e, out) ↦ (
            0,
            w₁,
            inr (failed_write fuel w b bs off c e, omega arith, w, c, e, refl),
            out ∙ sym (append-nil (written w)),
          )
        ]

    -- With as many calls of write(2) as the buffer has bytes, xwrite ends, and it has written the first `n`
    -- bytes of the buffer in order. Either these are the whole buffer, and the result is its length; or the
    -- last call has failed on the rest, and the result is `n` when the error is EPIPE and -1 else.
    pub xwrite_ends :
        (fuel : ℕ) (w : W) (buf : List ℕ)
        → length buf ≤ fuel
        → (n : ℕ) × (w' : W) × IsEnd (xwrite env fuel w fd buf) 0 buf n w'
          × (written w' ≡ written w ++ take n buf)
    unfolding xwrite
    xwrite_ends fuel w buf h = write_from_ends fuel w buf 0 h
