-- ===== src/Client/Returns.antt =====
-- A loop of a client (Client.poll) over calls that return, and leave what they work on fit for the next
-- call: the loop ends by an answer.
use mathlib.Core.Path.{subst}
use libpssh.Prelude.{
  ℕ, ◌==◌, ◌≡◌, ◌⊎◌, inl, inr, refl, Bool, true, false, ◌&&◌, Bool-cases, List, [], ◌∷◌, Option,
  arith, if◌then◌else◌,
}
use libpssh.Loop.{Ret, Call, returned, waits, stopped, spins}
use libpssh.Client.{Ended, by_call, cut, ret_code, poll}

module _ {S X : Type 0} (call : S → X → Call S) (again : Ret) (fits : S → X → Bool) where
  -- The inputs are fit for the calls, for as long as the loop goes on.
  unfoldable pub all_fit : S → List X → Bool
  unfolding ret_code
  all_fit s [] = true
  all_fit s (x ∷ xs) = fits s x && elim (call s x) [
    | returned ret i s' ↦
        let rest = all_fit s' xs in if ret_code ret == ret_code again then rest else true
    | _ ↦ true
  ]

  module _ (Inv : S → Type 0) where
    -- The call has returned, and if the loop goes on, the invariant holds again.
    abbrev pub Keeps : Call S → Type 0
    Keeps (returned ret i s') = (ret_code ret == ret_code again) ≡ true → Inv s'
    Keeps _ = ⊥

    -- The loop has ended by a call that was fit and answered otherwise.
    abbrev pub Answered : List (Option ℕ) × Ended S → Type 0
    Answered r =
        (u s' : S) × (x : X) × (ret : Ret) × (i : Option ℕ) × (r.1 ≡ by_call (returned ret i s'))
        × (call u x ≡ returned ret i s')
        × Inv u
        × (fits u x ≡ true)
        × ((ret_code ret == ret_code again) ≡ false)

    module _ (each : (s : S) (x : X) → Inv s → fits s x ≡ true → Keeps (call s x)) where
      one_call :
          (s : S) (x : X) (xs : List X) (r : Call S)
          → call s x ≡ r
          → Inv s
          → all_fit s (x ∷ xs) ≡ true
          → ((s' : S)
              → Inv s'
              → all_fit s' xs ≡ true
              → Answered (poll call again s' xs) ⊎ ((poll call again s' xs).1 ≡ cut))
          → Answered (poll call again s (x ∷ xs)) ⊎ ((poll call again s (x ∷ xs)).1 ≡ cut)
      unfolding poll all_fit
      one_call s x xs (returned ret i s') e v f rest =
          let good = each s x v (ground arith) in
          let next : (ret_code ret == ret_code again) ≡ true → Inv s' = subst Keeps e good in
          elim (Bool-cases (ret_code ret == ret_code again)) [
            | inl same ↦ rw (e, poll) (rw same (rest s' (next same) (ground (arith, e, same))))
            | inr other ↦
                inl (s, s', x, ret, i, rw (e, poll) (rw other refl), e, v, ground arith, other)
          ]
      one_call s x xs (waits s') e v f rest = absurd (subst Keeps e (each s x v (ground arith)))
      one_call s x xs stopped e v f rest = absurd (subst Keeps e (each s x v (ground arith)))
      one_call s x xs spins e v f rest = absurd (subst Keeps e (each s x v (ground arith)))

      -- The loop answers, or its inputs are used up.
      pub poll_answers :
          (s : S) (xs : List X)
          → Inv s
          → all_fit s xs ≡ true
          → Answered (poll call again s xs) ⊎ ((poll call again s xs).1 ≡ cut)
      unfolding poll
      poll_answers s [] v f = inr refl
      poll_answers s (x ∷ xs) v f =
          one_call s x xs (call s x) refl v f (λ s' v' f'. poll_answers s' xs v' f')
