-- ===== src/Xsys/Whole.antt =====
-- xwrite of src/xsys.c writes the whole buffer, when no call of write(2) fails.
use libpssh.Prelude.{
  ℕ, ◌+◌, ◌<◌, ◌≤◌, ◌≡◌, sym, ap, ◌∙◌, pos, List, ◌++◌, length, length-drop, inl, inr, ℤ, Outcome,
  take, drop, take_all, ok, arith,
}
use libpssh.Env.{Env}
use libpssh.Xsys.{xwrite}
use libpssh.Xsys.Ends.{IsPort, IsEnd, xwrite_ends}

-- A descriptor that takes bytes: of a buffer that is not empty, at least one from the front; `written` is
-- all that it took (write(2) on a regular file with room).
pub record IsWriter {W : Type 0} (env : Env W) (fd : ℕ) : Type 0 where
  pub written : W → List ℕ
  pub accept :
      (w : W) (bs : List ℕ)
      → 0 < length bs
      → (k : ℕ) × ((env.write w fd bs).0 ≡ pos k)
        × (0 < k)
        × (k ≤ length bs)
        × (written (env.write w fd bs).1 ≡ written w ++ take k bs)

module _ {W : Type 0} (env : Env W) (fd : ℕ) (writer : IsWriter env fd) where
  open writer use {written, accept}

  abbrev port : IsPort env fd
  port = record { written = written; answers = λ w bs p. inl (accept w bs p) }

  whole_end :
      (run : Outcome (ℤ × W)) (buf : List ℕ) (n : ℕ) (w' : W)
      → IsEnd env fd run 0 buf n w'
      → (run ≡ ok (pos (length buf), w')) × (n ≡ length buf)
  whole_end run buf n w' (inl (e, all)) =
      let sum : 0 + n ≡ length buf = omega (arith, all) in (e ∙ ap (λ m. ok (pos m, w')) sum, all)
  whole_end run buf n w' (inr (e, short, before, c, out, end)) =
      let left = length-drop n buf in
      let (k, took, some_out, within, rest) = accept before (drop n buf) (omega arith) in
      absurd (ground (arith, sym took ∙ out))

  -- With as many calls of write(2) as the buffer has bytes, each of which takes one byte at least, the
  -- whole buffer is written in order, and the result is its length.
  pub xwrite_total :
      (fuel : ℕ) (w : W) (buf : List ℕ)
      → length buf ≤ fuel
      → (w' : W) × (xwrite env fuel w fd buf ≡ ok (pos (length buf), w'))
        × (written w' ≡ written w ++ buf)
  xwrite_total fuel w buf h =
      let (n, w', end, all) = xwrite_ends env fd port fuel w buf h in
      let (run, whole) = whole_end (xwrite env fuel w fd buf) buf n w' end in
      (w', run, all ∙ ap (◌++◌ (written w)) (take_all n buf (omega arith)))
