-- ===== src/Loop/Exec/Cards.antt =====
-- A round of pssh_exec (src/task.c) changes no card.
use libpssh.Prelude.{
  ℕ, suc, ◌≡◌, inl, inr, refl, ap, ◌∙◌, Option-cases, List, [], ◌∷◌, Option, get_elem?, set, ok,
  >>=-eq-ok, arith,
}
use mathlib.Core.Path.{subst}
use libpssh.Env.{Env, ev_write}
use libpssh.Session.{Entry}
use libpssh.Session.Api.{pssh_stat}
use libpssh.Task.{Task, TaskLocal, State}
use libpssh.Task.Events.{pssh_task_event_update}
use libpssh.Loop.{Ret}
use libpssh.Loop.Board.Cards.{card, board}
use libpssh.Loop.Exec.{Tally, no_tally, Walked, classify, count, launch_at, exec_walk, exec_round}
use libpssh.Loop.Exec.Walk.{IsLaunch, stops, goes, step_of}
use libpssh.Loop.Marks.{map-set_same}

module _ {W : Type 0} (env : Env W) where
  arm-card : (t : TaskLocal W) → card (pssh_task_event_update env t ev_write).1.ent ≡ card t.ent
  unfolding pssh_task_event_update card pssh_stat
  arm-card t = ground arith

  launch-board :
      (k : ℕ) (t t' : Task) (es es' : List Entry) (w w' : W)
      → IsLaunch env k t es w t' es' w'
      → board es' ≡ board es
  unfolding classify launch_at
  launch-board k t t' es es' w w' (cls, run) = elim (Option-cases t.sess_entry) [
    | inl e ↦ absurd (ground arith)
    | inr (i, e) ↦ elim (Option-cases (get_elem? es i)) [
      | inl lost ↦ absurd (ground arith)
      | inr (x, at) ↦
          let l : TaskLocal W = record { self = k; task = t; ent = x; world = w } in
          let same : set es i (pssh_task_event_update env l ev_write).1.ent ≡ es' = ground arith in
          subst (λ xs. board xs ≡ board es) same (map-set_same card es i x _ at (arm-card l))
    ]
  ]

  walk-board :
      (k : ℕ) (ts : List Task) (es : List Entry) (w : W) (c : Tally) (r : Walked W)
      → exec_walk env k ts es w c ≡ ok r
      → board r.entries ≡ board es
  unfolding exec_walk
  walk-board k [] es w c r h = ground arith
  walk-board k (t ∷ ts) es w c r h = elim (step_of env k t ts es w c r h) [
    | stops e q ↦ rw q refl
    | goes t' es' w' r' next q n o how ↦
        let rest = walk-board (suc k) ts es' w' (count (classify es t) c) r' next in
        let first : board es' ≡ board es = elim how [
          | inl launched ↦ launch-board k t t' es es' w w' launched
          | inr (same, kept) ↦ ap board same
        ] in
        rw q (rest ∙ first)
  ]

  -- A round of pssh_exec changes no card.
  pub exec_round-board :
      (s s' : State W) (o : Option (Ret × Option ℕ))
      → exec_round env s ≡ ok (o, s')
      → board s'.session.entries ≡ board s.session.entries
  unfolding exec_round
  exec_round-board s s' o h =
      let (r, run, last) =
        >>=-eq-ok (exec_walk env 0 s.tasks s.session.entries s.session.world no_tally) _ h in
      let same = walk-board 0 s.tasks s.session.entries s.session.world no_tally r run in
      ground arith
