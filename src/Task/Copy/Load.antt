-- ===== src/Task/Copy/Load.antt =====
-- Reading the local file of a copy to a server (the loop of pssh_task_get_send_channel in src/task.c).
use mathlib.Core.List.{append_assoc, append-nil}
use libpssh.Prelude.{
  ℕ, zero, suc, ◌+◌, ◌-◌, ◌<◌, ◌≤◌, ◌≡◌, refl, ap, ◌∙◌, int_limit, leb, Bool, true, Bool-cases, inl,
  inr, List, [], ◌∷◌, ◌++◌, length, length-append, take, take-append_le, Outcome, ok, spin, arith,
}
use libpssh.Env.{Env, got}
use libpssh.Task.Copy.{read_rest}

-- A file that can be read: `pending` is what follows the descriptor's offset. A read with room takes
-- some of it, and nothing only at the end of the file (read(2) on a regular file).
pub record IsFile {W : Type 0} (env : Env W) (fd : ℕ) : Type 0 where
  pub pending : W → List ℕ
  pub read_some :
      (w : W) (n : ℕ)
      → 0 < n
      → (bs : List ℕ) × ((env.read w fd n).0 ≡ got bs)
        × (pending w ≡ bs ++ pending (env.read w fd n).1)
        × (length bs ≤ n)
        × (bs ≡ [] → pending w ≡ [])

pub nonempty : (ps bs : List ℕ) → (bs ≡ [] → ps ≡ []) → 0 < length ps → 0 < length bs
nonempty ps [] h p = absurd (omega (arith, ap length (h refl)))
nonempty ps (b ∷ bs) h p = omega arith

regroup :
    (size : ℕ) (acc bs ps qs : List ℕ)
    → ps ≡ bs ++ qs
    → length bs ≤ size - length acc
    → (acc ++ bs) ++ take (size - length (acc ++ bs)) qs ≡ acc ++ take (size - length acc) ps
regroup size acc bs ps qs e h =
    let same : size - length (acc ++ bs) ≡ size - length acc - length bs =
      omega (arith, length-append acc bs) in
    rw (e, take-append_le (size - length acc) bs qs h, same)
      (append_assoc acc bs (take (size - length acc - length bs) qs))

module _ {W : Type 0} (env : Env W) (fd : ℕ) (file : IsFile env fd) where
  open file use {pending, read_some}

  -- One read that is not the last step.
  next_read :
      (fuel size : ℕ) (w : W) (acc bs : List ℕ)
      → length acc < size
      → (env.read w fd (size - length acc)).0 ≡ got bs
      → length acc + length bs < int_limit
      → read_rest env (suc fuel) w fd size acc
        ≡ read_rest env fuel (env.read w fd (size - length acc)).1 fd size (acc ++ bs)
  unfolding read_rest
  next_read fuel size w acc bs h e small = ground arith

  load_step :
      (fuel size : ℕ) (w : W) (acc bs : List ℕ) {r : Outcome (Bool × List ℕ × W)}
      → length acc < size
      → (env.read w fd (size - length acc)).0 ≡ got bs
      → length acc + length bs < int_limit
      → read_rest env fuel (env.read w fd (size - length acc)).1 fd size (acc ++ bs) ≡ r
      → read_rest env (suc fuel) w fd size acc ≡ r
  load_step fuel size w acc bs h e small rest = next_read fuel size w acc bs h e small ∙ rest

  complete :
      (fuel size : ℕ) (w : W) (acc : List ℕ)
      → size ≤ length acc
      → read_rest env fuel w fd size acc ≡ ok (true, acc, w)
  unfolding read_rest
  complete zero size w acc h = ground arith
  complete (suc fuel) size w acc h = ground arith

  nothing_more :
      (w : W) (acc : List ℕ)
      → ◌≡◌ {A = Outcome (Bool × List ℕ × W)} (ok (true, acc, w)) (ok (true, acc ++ [], w))
  nothing_more w acc = rw append-nil

  -- A file that has at least the size that `stat` reported is read to exactly that size, in as many
  -- rounds as it has bytes at most, whatever sizes the reads come in, provided that the size is an `int`.
  pub load_total :
      (fuel size : ℕ) (w : W) (acc : List ℕ)
      → length acc ≤ size
      → size ≤ length acc + length (pending w)
      → size < int_limit
      → size ≤ length acc + fuel
      → (w' : W) × (read_rest env fuel w fd size acc
          ≡ ok (true, acc ++ take (size - length acc) (pending w), w'))
  load_total zero size w acc a b small f =
      let e : size - length acc ≡ 0 = omega arith in
      (w, rw e (complete 0 size w acc (omega arith) ∙ nothing_more w acc))
  load_total (suc fuel) size w acc a b small f = elim (Bool-cases (leb size (length acc))) [
    | inl all_read ↦
        let e : size - length acc ≡ 0 = ground arith in
        (w, rw e (complete (suc fuel) size w acc (ground arith) ∙ nothing_more w acc))
    | inr more ↦
        let here : length acc < size = ground arith in
        let (bs, e, front, within, nothing) = read_some w (size - length acc) (omega arith) in
        let whole = length-append bs (pending (env.read w fd (size - length acc)).1) in
        let some_read = nonempty (pending w) bs nothing (omega arith) in
        let (w', rest) =
          load_total fuel size (env.read w fd (size - length acc)).1 (acc ++ bs)
            (omega (arith, length-append acc bs))
            (omega (arith, length-append acc bs, ap length front, whole)) small
            (omega (arith, length-append acc bs)) in
        (
          w',
          load_step fuel size w acc bs here e (omega arith) rest
              ∙ ap (λ xs. ok (true, xs, w')) (regroup size acc bs (pending w) _ front within),
        )
  ]

  -- A file that has become shorter than the size that `stat` reported keeps the loop busy at its end:
  -- it has not ended after any number of rounds.
  pub short_spins :
      (fuel size : ℕ) (w : W) (acc : List ℕ)
      → length acc + length (pending w) < size
      → size < int_limit
      → read_rest env fuel w fd size acc ≡ spin
  unfolding read_rest
  short_spins zero size w acc h small = ground arith
  short_spins (suc fuel) size w acc h small =
      let (bs, e, front, within, nothing) = read_some w (size - length acc) (omega arith) in
      let whole = length-append bs (pending (env.read w fd (size - length acc)).1) in
      load_step fuel size w acc bs (omega arith) e (omega arith) (
        short_spins fuel size (env.read w fd (size - length acc)).1 (acc ++ bs)
          (omega (arith, length-append acc bs, ap length front, whole)) small)
