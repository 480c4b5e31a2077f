-- ===== src/Client/Poll.antt =====
-- A loop of a client (Client.poll) over calls that mark what they report: it reports each thing once.
use libpssh.Prelude.{
  ℕ, zero, suc, ◌+◌, ◌<◌, ◌==◌, ◌≡◌, ◌≢◌, ◌⊎◌, inl, inr, refl, sym, ap, Bool, true, false, List, [],
  ◌∷◌, Option, some, get_elem?, get_elem?-set_self, get_elem?-set_ne, set, All, length,
  if◌then◌else◌, arith,
}
use libpssh.Loop.{Ret, Call, returned, waits, stopped, spins}
use libpssh.Loop.Marks.{Marks}
use libpssh.Client.{by_call, cut, ret_code, poll}

-- How many marks are not set.
unfoldable pub unset : List Bool → ℕ
unset [] = 0
unset (b ∷ bs) = (if b then 0 else 1) + unset bs

unset-set :
    (bs : List Bool) (k : ℕ) → get_elem? bs k ≡ some false → unset bs ≡ suc (unset (set bs k true))
unfolding unset
unset-set [] k h = cc
unset-set (b ∷ bs) zero h = ground arith
unset-set (b ∷ bs) (suc k) h = ground (arith, unset-set bs k h)

abbrev pub IsUnset : List Bool → Option ℕ → Type 0
IsUnset fs i = (k : ℕ) × (i ≡ some k) × (get_elem? fs k ≡ some false)

-- No two are the same.
abbrev pub Distinct : List (Option ℕ) → Type 0
Distinct [] = Unit {0}
Distinct (i ∷ is) = All (λ j. j ≢ i) is × Distinct is

-- What is unset after a mark was unset before, and is another.
earlier :
    (fs gs : List Bool) (i : Option ℕ)
    → Marks fs i gs
    → (is : List (Option ℕ)) → All (IsUnset gs) is
    → All (IsUnset fs) is × All (λ j. j ≢ i) is
earlier fs gs i m [] a = (tt, tt)
earlier fs gs i (k, e, off, g) (j ∷ js) ((l, e', off'), rest) =
    let (tail, others) = earlier fs gs i (k, e, off, g) js rest in
    let ne : l ≡ k → ⊥ = λ (same : l ≡ k). cc (get_elem?-set_self fs k true off) in
    (
      ((l, e', cc (get_elem?-set_ne fs k l true (λ (same : k ≡ l). ne (sym same)))), tail),
      (λ (same : j ≡ i). ne (ground arith), others),
    )

module _ {S X : Type 0} (call : S → X → Call S) (again : Ret) (flags : S → List Bool) where
  -- A call that answers `again` sets one mark, that of what it reports; another leaves the marks alone.
  abbrev pub IsMarking : Type 0
  IsMarking =
      (s s' : S) (x : X) (ret : Ret) (i : Option ℕ)
      → call s x ≡ returned ret i s'
      → (((ret_code ret == ret_code again) ≡ true) × Marks (flags s) i (flags s'))
        ⊎ (((ret_code ret == ret_code again) ≡ false) × (flags s' ≡ flags s))

  -- What a step of the loop is, by what the call answered.
  data Round (s : S) (x : X) (xs : List X) : Type 0 where
    goes_on :
        (s' : S) (i : Option ℕ)
        → Marks (flags s) i (flags s')
        → poll call again s (x ∷ xs) ≡ (i ∷ (poll call again s' xs).0, (poll call again s' xs).1)
        → Round s x xs
    ends :
        (r : Call S)
        → ((ret : Ret) (i : Option ℕ) (s' : S) → r ≡ returned ret i s' → flags s' ≡ flags s)
        → call s x ≡ r
        → poll call again s (x ∷ xs) ≡ ([], by_call r)
        → Round s x xs

  poll_nil : (s : S) → poll call again s [] ≡ ([], cut)
  unfolding poll
  poll_nil s = refl

  module _ (marking : IsMarking) where
    call_cases : (s : S) (x : X) (xs : List X) (r : Call S) → call s x ≡ r → Round s x xs
    unfolding poll
    call_cases s x xs (returned ret i s') e = elim (marking s s' x ret i e) [
      | inl (same, m) ↦ goes_on s' i m (rw (e, poll) (rw same refl))
      | inr (other, kept) ↦
          ends (returned ret i s') (λ q j u f. ground arith) e (rw (e, poll) (rw other refl))
    ]
    call_cases s x xs (waits s') e = ends (waits s') (λ q j u f. cc) e (rw (e, poll) refl)
    call_cases s x xs stopped e = ends stopped (λ q j u f. cc) e (rw (e, poll) refl)
    call_cases s x xs spins e = ends spins (λ q j u f. cc) e (rw (e, poll) refl)

    -- With more calls than marks that are not set, the loop ends by a call of its own.
    pub poll_ends :
        (s : S) (xs : List X)
        → unset (flags s) < length xs
        → (r : Call S) × ((poll call again s xs).1 ≡ by_call r)
    poll_ends s [] h = absurd (omega arith)
    poll_ends s (x ∷ xs) h = elim (call_cases s x xs (call s x) refl) [
      | ends r kept from e ↦ (r, rw e refl)
      | goes_on s' i (k, at, off, set_now) e ↦
          let (r, last) =
            poll_ends s' xs (omega (arith, unset-set (flags s) k off, ap unset set_now)) in
          (r, rw e last)
    ]

    -- It reports what was not marked before, nothing twice.
    pub poll-Distinct :
        (s : S) (xs : List X)
        → All (IsUnset (flags s)) (poll call again s xs).0 × Distinct (poll call again s xs).0
    poll-Distinct s [] = rw (poll_nil s) (tt, tt)
    poll-Distinct s (x ∷ xs) = elim (call_cases s x xs (call s x) refl) [
      | ends r kept from e ↦ rw e (tt, tt)
      | goes_on s' i (k, at, off, set_now) e ↦
          let (later, distinct) = poll-Distinct s' xs in
          let (all, others) =
            earlier (flags s) (flags s') i (k, at, off, set_now) (poll call again s' xs).0 later in
          rw e (((k, at, off), all), (others, distinct))
    ]

    -- When the loop ends by an answer, it has reported as many things as marks have been set.
    pub poll_counts :
        (s s' : S) (xs : List X) (ret : Ret) (i : Option ℕ)
        → (poll call again s xs).1 ≡ by_call (returned ret i s')
        → unset (flags s) ≡ length (poll call again s xs).0 + unset (flags s')
    poll_counts s s' [] ret i h = cc (rw (poll_nil s) at h)
    poll_counts s s' (x ∷ xs) ret i h = elim (call_cases s x xs (call s x) refl) [
      | ends r kept from e ↦
          let same : r ≡ returned ret i s' = cc (rw e at h) in
          rw e (omega (arith, ap unset (kept ret i s' same)))
      | goes_on u j (k, at, off, set_now) e ↦
          let more = poll_counts u s' xs ret i (rw e at h) in
          rw e (omega (arith, more, unset-set (flags s) k off, ap unset set_now))
    ]

    -- The answer that ends the loop is that of a call.
    pub poll_last :
        (s : S) (xs : List X) (r : Call S)
        → (poll call again s xs).1 ≡ by_call r
        → (u : S) × (x : X) × (call u x ≡ r)
    poll_last s [] r h = cc (rw (poll_nil s) at h)
    poll_last s (x ∷ xs) r h = elim (call_cases s x xs (call s x) refl) [
      | ends q kept from e ↦ (s, x, cc (rw e at h))
      | goes_on u j m e ↦ poll_last u xs r (rw e at h)
    ]
