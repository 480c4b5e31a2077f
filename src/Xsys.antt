-- ===== src/Xsys.antt =====
-- xwrite of src/xsys.c: write a whole buffer, by as many calls of write(2) as it takes. (xmalloc,
-- xrealloc and xstrdup stop the process when memory runs out; the models take memory as given.)
pub mod Ends
pub mod Whole
use libpssh.Prelude.{
  ℕ, zero, suc, ◌+◌, ℤ, pos, negsuc, minus_one, leb, true, false, List, [], ◌∷◌, if◌then◌else◌,
  length, drop, Outcome, ok, abort, spin,
}
use libpssh.Env.{Env}

module _ {W : Type 0} (env : Env W) where
  -- What is left to write at `off`. An EPIPE ends the loop, another error the call; a count above what
  -- was asked for would wrap `count` round.
  unfoldable pub xwrite_from : ℕ → W → ℕ → List ℕ → ℕ → Outcome (ℤ × W)
  xwrite_from fuel w fd [] off = ok (pos off, w)
  xwrite_from zero w fd (b ∷ bs) off = spin
  xwrite_from (suc fuel) w fd (b ∷ bs) off =
      let (wr, w') = env.write w fd (b ∷ bs) in
      elim wr [
        | negsuc n ↦ ok (if env.is_epipe w' then pos off else minus_one, w')
        | pos n ↦ elim (leb n (length (b ∷ bs))) [
          | true ↦ xwrite_from fuel w' fd (drop n (b ∷ bs)) (off + n)
          | false ↦ abort
        ]
      ]

  unfoldable pub xwrite : ℕ → W → ℕ → List ℕ → Outcome (ℤ × W)
  unfolding xwrite_from
  xwrite fuel w fd buf = xwrite_from fuel w fd buf 0
