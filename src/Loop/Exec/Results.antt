-- ===== src/Loop/Exec/Results.antt =====
-- What a result of pssh_exec (src/task.c) says of the tasks.
use mathlib.Core.Path.{subst}
use libpssh.Prelude.{
  ℕ, ◌+◌, ◌==◌, ◌≡◌, ◌⊎◌, inl, inr, refl, sym, ap, ◌∙◌, true, Bool-cases, Outcome-cases, List, [],
  ◌∷◌, Option, none, some, get_elem?, All, if◌then◌else◌, Outcome, ok, abort, spin, >>=-eq-ok,
  arith,
}
use libpssh.Env.{Env}
use libpssh.Task.{done, Task, State}
use libpssh.Loop.{Occurrence, Ret, connected, running, timed_out, failed, success, Call, returned}
use libpssh.Loop.Dispatch.{event_base_loop}
use libpssh.Loop.Exec.{
  Tally, no_tally, Walked, exec_walk, exec_result, put_walked, exec_round, pssh_exec,
}
use libpssh.Loop.Exec.Walk.{errors, IsCounted, walk_over, walk-All-IsCounted, walk_reports}
use libpssh.Loop.Exec.Over.{
  IsOver, IsFine, SomeErred, All-IsCounted, All-IsOver, All-IsFine, some-SomeErred,
}

module _ {W : Type 0} where
  -- What each result of pssh_exec promises of the state that it leaves.
  abbrev pub Post : Ret → Option ℕ → State W → Type 0
  Post running i s =
      (k : ℕ) × (t : Task) × (i ≡ some k)
      × (get_elem? s.tasks k ≡ some t)
      × (t.stat ≡ done)
      × (t.is_reported ≡ true)
  Post success i s = (i ≡ none) × All (IsFine s.session.entries) s.tasks
  Post failed i s =
      (i ≡ none) × All (IsOver s.session.entries) s.tasks × SomeErred s.session.entries s.tasks
  Post connected i s = ⊥
  Post timed_out i s = ⊥

  abbrev PostCall : Call (State W) → Type 0
  PostCall (returned ret i s) = Post ret i s
  PostCall _ = Unit {0}

module _ {W : Type 0} (env : Env W) where
  -- What the walk leaves when it went over tasks that are all over.
  abbrev unchanged : State W → Tally → Walked W
  unchanged s d = record {
    rest = s.tasks;
    entries = s.session.entries;
    world = s.session.world;
    report = none;
    tally = d;
  }

  over-Post :
      (s : State W) (d : Tally)
      → All (IsCounted s.session.entries) s.tasks
      → d.err ≡ 0 + errors s.session.entries s.tasks
      → Post (if d.err == 0 then success else failed) none (put_walked s (unchanged s d))
  over-Post s d a e = elim (Bool-cases (d.err == 0)) [
    | inl fine ↦ rw fine (refl, All-IsFine s.session.entries s.tasks a (ground arith))
    | inr bad ↦ rw bad (
      refl,
      All-IsOver s.session.entries s.tasks a,
      some-SomeErred s.session.entries s.tasks a (ground arith),
    )
  ]

  result-Post :
      (s : State W) (r : Walked W) (report : Option ℕ) (ret : Ret) (i : Option ℕ)
      → exec_walk env 0 s.tasks s.session.entries s.session.world no_tally ≡ ok r
      → r.report ≡ report
      → exec_result r ≡ some (ret, i)
      → Post ret i (put_walked s r)
  result-Post s r (some k) ret i run e h =
      let (j, t, at, there, d, rep) = walk_reports env 0 k _ _ _ no_tally r run e in
      let is_running : running ≡ ret = ground arith in
      let is_place : some k ≡ i = ground arith in
      let same : k ≡ j = omega arith in
      subst (λ x. Post x i (put_walked s r)) is_running
        (j, t, sym is_place ∙ ap some same, there, d, rep)
  result-Post s r none ret i run e h =
      let over = walk-All-IsCounted env 0 _ _ _ no_tally r run e (ground arith) in
      let (d, run', sum, bad) = walk_over env 0 _ _ s.session.world no_tally over in
      let same : unchanged s d ≡ r = ground arith in
      let is_ret : (if d.err == 0 then success else failed) ≡ ret = ground arith in
      let no_place : none ≡ i = ground arith in
      subst (λ x. Post ret i (put_walked s x)) same
        (subst (λ x. Post ret x (put_walked s (unchanged s d))) no_place
          (subst (λ x. Post x none (put_walked s (unchanged s d))) is_ret (over-Post s d over bad)))

  pub exec_round-Post :
      (s s' : State W) (o : Option (Ret × Option ℕ)) (ret : Ret) (i : Option ℕ)
      → exec_round env s ≡ ok (o, s')
      → o ≡ some (ret, i)
      → Post ret i s'
  unfolding exec_round
  exec_round-Post s s' o ret i h e =
      let (r, run, last) =
        >>=-eq-ok (exec_walk env 0 s.tasks s.session.entries s.session.world no_tally) _ h in
      let result : exec_result r ≡ o = ground arith in
      let state : put_walked s r ≡ s' = ground arith in
      subst (Post ret i) state (result-Post s r r.report ret i run refl (result ∙ e))

  pub round_call :
      (fuel : ℕ) (s s' : State W) (oss : List (List Occurrence)) (ret : Ret) (i : Option ℕ)
      → exec_round env s ≡ ok (some (ret, i), s')
      → pssh_exec env fuel s oss ≡ returned ret i s'
  unfolding pssh_exec
  round_call fuel s s' [] ret i e = rw (e, pssh_exec)
  round_call fuel s s' (os ∷ oss) ret i e = rw (e, pssh_exec)

  last_round :
      (fuel : ℕ) (s : State W) (m : Outcome (Option (Ret × Option ℕ) × State W))
      → exec_round env s ≡ m
      → PostCall (pssh_exec env fuel s [])
  unfolding pssh_exec
  last_round fuel s (ok (some (ret, i), s')) e =
      rw (e, pssh_exec) (exec_round-Post s s' _ ret i e refl)
  last_round fuel s (ok (none, s')) e = rw (e, pssh_exec) tt
  last_round fuel s abort e = rw (e, pssh_exec) tt
  last_round fuel s spin e = rw (e, pssh_exec) tt

  one_round :
      (fuel : ℕ) (s : State W) (os : List Occurrence) (oss : List (List Occurrence))
      (m : Outcome (Option (Ret × Option ℕ) × State W))
      → exec_round env s ≡ m
      → ((s' : State W) → PostCall (pssh_exec env fuel s' oss))
      → PostCall (pssh_exec env fuel s (os ∷ oss))
  unfolding pssh_exec
  one_round fuel s os oss (ok (some (ret, i), s')) e rest =
      rw (e, pssh_exec) (exec_round-Post s s' _ ret i e refl)
  one_round fuel s os oss (ok (none, s')) e rest =
      elim (Outcome-cases (event_base_loop env fuel s' os)) [
        | inl (s'', run) ↦ rw (e, run, pssh_exec) (rest s'')
        | inr (inl stop) ↦ rw (e, stop, pssh_exec) tt
        | inr (inr busy) ↦ rw (e, busy, pssh_exec) tt
      ]
  one_round fuel s os oss abort e rest = rw (e, pssh_exec) tt
  one_round fuel s os oss spin e rest = rw (e, pssh_exec) tt

  loop-Post :
      (fuel : ℕ) (s : State W) (oss : List (List Occurrence)) → PostCall (pssh_exec env fuel s oss)
  loop-Post fuel s [] = last_round fuel s (exec_round env s) refl
  loop-Post fuel s (os ∷ oss) =
      one_round fuel s os oss (exec_round env s) refl (λ s'. loop-Post fuel s' oss)

  -- After any number of rounds of any occurrences, what pssh_exec returns tells the truth: a task that
  -- it reports is done and now marked as reported; on success every task is skipped, for want of a
  -- connected server, or is done and has been reported; on failure every task is so or has failed, and
  -- one of a connected server has failed. It returns neither PSSH_CONNECTED nor PSSH_TIMEOUT.
  pub exec-Post :
      (fuel : ℕ) (s s' : State W) (oss : List (List Occurrence)) (ret : Ret) (i : Option ℕ)
      → pssh_exec env fuel s oss ≡ returned ret i s'
      → Post ret i s'
  exec-Post fuel s s' oss ret i h = subst PostCall h (loop-Post fuel s oss)

  counted_returns :
      (fuel : ℕ) (s : State W) (oss : List (List Occurrence))
      → All (IsCounted s.session.entries) s.tasks
      → pssh_exec env fuel s oss
        ≡ returned (if errors s.session.entries s.tasks == 0 then success else failed) none s
  unfolding exec_round
  counted_returns fuel s oss a =
      let (d, run, sum, bad) =
        walk_over env 0 s.tasks s.session.entries s.session.world no_tally a in
      let same : d.err ≡ errors s.session.entries s.tasks = omega (arith, bad) in
      let full : (d.okay + d.err + d.skip == d.tot) ≡ true = ground arith in
      round_call fuel s s oss (if errors s.session.entries s.tasks == 0 then success else failed)
        none (rw (run, exec_round) (ground arith))

  -- When every task is over, pssh_exec returns without waiting, whatever libevent might report later,
  -- and leaves the state as it is: with PSSH_SUCCESS when every task is skipped, or done and reported, and
  -- with PSSH_FAILED when a task of a connected server has failed.
  pub exec_returns :
      (fuel : ℕ) (s : State W)
      → All (IsOver s.session.entries) s.tasks
      → (ret : Ret) × ((oss : List (List Occurrence))
          → pssh_exec env fuel s oss ≡ returned ret none s)
        × (((ret ≡ success) × All (IsFine s.session.entries) s.tasks)
            ⊎ ((ret ≡ failed) × SomeErred s.session.entries s.tasks))
  exec_returns fuel s a =
      let es = s.session.entries in
      let all = All-IsCounted es s.tasks a in
      (
        if errors es s.tasks == 0 then success else failed,
        λ oss. counted_returns fuel s oss all,
        elim (Bool-cases (errors es s.tasks == 0)) [
          | inl fine ↦ inl (rw fine refl, All-IsFine es s.tasks all (ground arith))
          | inr bad ↦ inr (rw bad refl, some-SomeErred es s.tasks all (ground arith))
        ],
      )
