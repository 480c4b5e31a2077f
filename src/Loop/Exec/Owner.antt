-- ===== src/Loop/Exec/Owner.antt =====
-- A round of pssh_exec (src/task.c) takes no event from the task that holds it.
use mathlib.Core.Path.{subst}
use libpssh.Prelude.{
  ℕ, suc, ◌≡◌, inl, inr, refl, sym, true, false, Option-cases, List, [], ◌∷◌, ◌++◌, Option, none,
  some, get_elem?, set, get_elem?-append, set-append, snoc-append, length, length-append, All-get,
  All-set, ok, >>=-eq-ok, arith,
}
use libpssh.Env.{ev_write, Env}
use libpssh.Session.{Entry}
use libpssh.Session.Sound.{EventsAdded}
use libpssh.Task.{Task, TaskLocal, State, start}
use libpssh.Task.Events.{pssh_task_event_update}
use libpssh.Task.Shared.{IsShared}
use libpssh.Loop.{Ret}
use libpssh.Loop.Exec.{
  Tally, no_tally, Walked, classify, count, reports, launch_at, exec_walk, put_walked, exec_round,
}
use libpssh.Loop.Exec.Entries.{arm-IsShared}
use libpssh.Loop.Exec.Walk.{IsLaunch, stops, goes, step_of}
use libpssh.Loop.Owner.{Owned, OwnedState, is_between, set_both-Owned, set_task-Owned}

calm_report : (t : Task) (es : List Entry) → classify es t ≡ reports → is_between t.stat ≡ false
unfolding classify
calm_report t es h = ground arith

module _ {W : Type 0} (env : Env W) (added : EventsAdded env) where
  -- A launched task takes the event only if no task holds it.
  launch-Owned :
      (k : ℕ) (t t' : Task) (es es' : List Entry) (ts : List Task) (w w' : W)
      → IsLaunch env k t es w t' es' w'
      → Owned es ts
      → get_elem? ts k ≡ some t
      → Owned es' (set ts k t')
  unfolding classify launch_at pssh_task_event_update
  launch-Owned k t t' es es' ts w w' (cls, run) v there = elim (Option-cases t.sess_entry) [
    | inl e ↦ absurd (ground arith)
    | inr (i, to) ↦ elim (Option-cases (get_elem? es i)) [
      | inl lost ↦ absurd (ground arith)
      | inr (x, at) ↦
          let l : TaskLocal W = record { self = k; task = t; ent = x; world = w } in
          let y = (pssh_task_event_update env l ev_write).1.ent in
          let same : set es i y ≡ es' = ground arith in
          let begun : record t { stat = start } ≡ t' = ground arith in
          let sound = All-get IsShared es i v.shared at in
          subst (λ u. Owned es' (set ts k u)) begun
            (subst (λ xs. Owned xs (set ts k (record t { stat = start }))) same
              (set_both-Owned es ts v i x y k t (record t { stat = start }) at there to refl
                (λ j q. ground (arith, sound.sound.held))
                (λ j other q. ground (arith, sound.sound.held)) (λ b. cc) (λ q. (λ d. cc, λ d. cc))
                (All-set IsShared es i y v.shared (arm-IsShared env l sound (ground arith)))))
    ]
  ]

  walk-Owned :
      (pre ts : List Task) (es : List Entry) (w : W) (c : Tally) (r : Walked W)
      → Owned es (pre ++ ts)
      → exec_walk env (length pre) ts es w c ≡ ok r
      → Owned r.entries (pre ++ r.rest)
  unfolding exec_walk
  walk-Owned pre [] es w c r v h =
      let same : record { rest = []; entries = es; world = w; report = none; tally = c } ≡ r =
        ground arith in
      subst (λ x. Owned x.entries (pre ++ x.rest)) same v
  walk-Owned pre (t ∷ ts) es w c r v h = elim (step_of env (length pre) t ts es w c r h) [
    | stops e q ↦ rw q (
        subst (Owned es) (set-append pre ts t (record t { is_reported = true })) (
          set_task-Owned es (pre ++ t ∷ ts) (length pre) t (record t { is_reported = true }) v
            (get_elem?-append pre ts t) refl refl))
    | goes t' es' w' r' next q n o how ↦
        let one : length (pre ++ t' ∷ []) ≡ suc (length pre) =
          omega (arith, length-append pre (t' ∷ [])) in
        let first : Owned es' (pre ++ t' ∷ ts) = elim how [
          | inl launched ↦ subst (Owned es') (set-append pre ts t t') (
              launch-Owned (length pre) t t' es es' (pre ++ t ∷ ts) w w' launched v
                (get_elem?-append pre ts t))
          | inr (same, kept) ↦ rw (same, kept) v
        ] in
        let rest =
          walk-Owned (pre ++ t' ∷ []) ts es' w' (count (classify es t) c) r'
            (subst (Owned es') (sym (snoc-append pre ts t')) first) (rw one next) in
        rw q (subst (Owned r'.entries) (snoc-append pre r'.rest t') rest)
  ]

  pub exec_round-Owned :
      (s s' : State W) (o : Option (Ret × Option ℕ))
      → OwnedState s
      → exec_round env s ≡ ok (o, s')
      → OwnedState s'
  unfolding exec_round
  exec_round-Owned s s' o v h =
      let (r, run, last) =
        >>=-eq-ok (exec_walk env 0 s.tasks s.session.entries s.session.world no_tally) _ h in
      let held = walk-Owned [] s.tasks s.session.entries s.session.world no_tally r v run in
      let state : put_walked s r ≡ s' = ground arith in subst OwnedState state held
