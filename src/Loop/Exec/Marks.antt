-- ===== src/Loop/Exec/Marks.antt =====
-- What pssh_exec (src/task.c) does to the marks of what it has reported.
use mathlib.Core.Path.{subst}
use libpssh.Prelude.{
  ℕ, suc, ◌+◌, ◌==◌, ◌≡◌, inl, inr, refl, sym, ap, ◌∙◌, Bool, true, false, Bool-cases,
  Outcome-cases, List, [], ◌∷◌, map, Option, none, some, get_elem?, set, ok, >>=-eq-ok, arith,
}
use libpssh.Env.{Env}
use libpssh.Session.{Entry}
use libpssh.Task.{Task, State}
use libpssh.Loop.{Occurrence, Ret, running, Call, returned}
use libpssh.Loop.Dispatch.{event_base_loop}
use libpssh.Loop.Marks.{Marks, task_mark, task_marks, loop-SameMarks}
use libpssh.Loop.Exec.{
  Tally, no_tally, Walked, classify, count, reports, launch_at, exec_walk, exec_result, put_walked,
  exec_round, pssh_exec,
}
use libpssh.Loop.Exec.Walk.{IsLaunch, stops, goes, step_of}

-- The place that a walk from `k` on reports is marked, and no other.
abbrev WalkMarks : ℕ → List Bool → Option ℕ → List Bool → Type 0
WalkMarks k fs none gs = gs ≡ fs
WalkMarks k fs (some i) gs =
    (j : ℕ) × (i ≡ k + j) × (get_elem? fs j ≡ some false) × (gs ≡ set fs j true)

WalkMarks-cons :
    (k : ℕ) (b : Bool) (fs gs : List Bool) (i : Option ℕ)
    → WalkMarks (suc k) fs i gs
    → WalkMarks k (b ∷ fs) i (b ∷ gs)
WalkMarks-cons k b fs gs none m = ap (◌∷◌ b) m
WalkMarks-cons k b fs gs (some i) (j, e, off, g) = (suc j, omega arith, off, ap (◌∷◌ b) g)

off : (t : Task) (es : List Entry) → classify es t ≡ reports → t.is_reported ≡ false
unfolding classify
off t es e = ground arith

module _ {W : Type 0} (env : Env W) where
  launch_mark :
      (k : ℕ) (t t' : Task) (es es' : List Entry) (w w' : W)
      → IsLaunch env k t es w t' es' w'
      → t'.is_reported ≡ t.is_reported
  unfolding launch_at
  launch_mark k t t' es es' w w' (cls, run) = ground arith

  walk-WalkMarks :
      (k : ℕ) (ts : List Task) (es : List Entry) (w : W) (c : Tally) (r : Walked W)
      → exec_walk env k ts es w c ≡ ok r
      → WalkMarks k (map task_mark ts) r.report (map task_mark r.rest)
  unfolding exec_walk
  walk-WalkMarks k [] es w c r h =
      let same : record { rest = []; entries = es; world = w; report = none; tally = c } ≡ r =
        ground arith in
      subst (λ x. WalkMarks k [] x.report (map task_mark x.rest)) same refl
  walk-WalkMarks k (t ∷ ts) es w c r h = elim (step_of env k t ts es w c r h) [
    | stops e q ↦ rw q (0, omega arith, ap some (off t es e), refl)
    | goes t' es' w' r' next q n o how ↦
        let tail = walk-WalkMarks (suc k) ts es' w' (count (classify es t) c) r' next in
        let same : task_mark t' ≡ task_mark t = elim how [
          | inl l ↦ launch_mark k t t' es es' w w' l
          | inr (_, kept) ↦ ap task_mark kept
        ] in
        rw (q, same)
          (WalkMarks-cons k (task_mark t) (map task_mark ts) (map task_mark r'.rest) r'.report tail)
  ]

module _ {W : Type 0} where
  -- What a call of pssh_exec has marked: the task that it reports, and no other.
  abbrev pub CallMarks : List Bool → Call (State W) → Type 0
  CallMarks fs (returned running i s) = Marks fs i (task_marks s)
  CallMarks fs (returned ret i s) = task_marks s ≡ fs
  CallMarks fs _ = Unit {0}

  abbrev RoundMarks : List Bool → Option (Ret × Option ℕ) → State W → Type 0
  RoundMarks fs none s = task_marks s ≡ fs
  RoundMarks fs (some (ret, i)) s = CallMarks fs (returned ret i s)

module _ {W : Type 0} (env : Env W) (fuel : ℕ) where
  result-RoundMarks :
      (s : State W) (r : Walked W) (i : Option ℕ)
      → r.report ≡ i
      → WalkMarks 0 (task_marks s) i (map task_mark r.rest)
      → RoundMarks (task_marks s) (exec_result r) (put_walked s r)
  result-RoundMarks s r (some k) e (j, at, off, g) = rw e (
    k,
    refl,
    (let same : j ≡ k = omega arith in rw (sym same) off),
    (let same : j ≡ k = omega arith in rw (sym same) g),
  )
  result-RoundMarks s r none e m =
      elim (Bool-cases (r.tally.okay + r.tally.err + r.tally.skip == r.tally.tot)) [
        | inr more ↦ rw (e, more) m
        | inl all ↦ elim (Bool-cases (r.tally.err == 0)) [
          | inl fine ↦ rw (e, all, fine) m
          | inr bad ↦ rw (e, all, bad) m
        ]
      ]

  round-RoundMarks :
      (s s' : State W) (o : Option (Ret × Option ℕ))
      → exec_round env s ≡ ok (o, s')
      → RoundMarks (task_marks s) o s'
  unfolding exec_round
  round-RoundMarks s s' o h =
      let (r, run, last) =
        >>=-eq-ok (exec_walk env 0 s.tasks s.session.entries s.session.world no_tally) _ h in
      let result : exec_result r ≡ o = ground arith in
      let state : put_walked s r ≡ s' = ground arith in
      subst (λ x. RoundMarks (task_marks s) x s') result
        (subst (RoundMarks (task_marks s) (exec_result r)) state (
          result-RoundMarks s r r.report refl
            (walk-WalkMarks env 0 s.tasks s.session.entries s.session.world no_tally r run)))

  -- A call of pssh_exec marks the task that it reports, and no other.
  pub exec-CallMarks :
      (s : State W) (oss : List (List Occurrence))
      → CallMarks (task_marks s) (pssh_exec env fuel s oss)
  unfolding pssh_exec
  exec-CallMarks s [] = elim (Outcome-cases (exec_round env s)) [
    | inl ((some (ret, i), s'), e) ↦ rw (e, pssh_exec) (round-RoundMarks s s' (some (ret, i)) e)
    | inl ((none, s'), e) ↦ rw (e, pssh_exec) tt
    | inr (inl e) ↦ rw (e, pssh_exec) tt
    | inr (inr e) ↦ rw (e, pssh_exec) tt
  ]
  exec-CallMarks s (os ∷ oss) = elim (Outcome-cases (exec_round env s)) [
    | inl ((some (ret, i), s'), e) ↦ rw (e, pssh_exec) (round-RoundMarks s s' (some (ret, i)) e)
    | inl ((none, s'), e) ↦ elim (Outcome-cases (event_base_loop env fuel s' os)) [
      | inl (u, run) ↦
          rw (e, run, pssh_exec)
            (subst (λ fs. CallMarks fs (pssh_exec env fuel u oss))
              ((loop-SameMarks env fuel s' u os run).1 ∙ round-RoundMarks s s' none e)
              (exec-CallMarks u oss))
      | inr (inl stop) ↦ rw (e, stop, pssh_exec) tt
      | inr (inr busy) ↦ rw (e, busy, pssh_exec) tt
    ]
    | inr (inl e) ↦ rw (e, pssh_exec) tt
    | inr (inr e) ↦ rw (e, pssh_exec) tt
  ]
