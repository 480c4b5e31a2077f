-- ===== src/Loop/Exec/Entries.antt =====
-- What a round of pssh_exec (src/task.c) does to the entries: it arms events of connected servers.
use mathlib.Core.Path.{subst}
use libpssh.Prelude.{
  ℕ, suc, ◌≡◌, List, [], ◌∷◌, Option, get_elem?, set, All, All-get, All-set, Option-cases, inl, inr,
  ok, >>=-eq-ok, arith,
}
use libpssh.Env.{ev_write, Env}
use libpssh.Session.{Entry, connected}
use libpssh.Task.{Task, TaskLocal, State}
use libpssh.Task.Events.{pssh_task_event_update}
use libpssh.Task.Shared.{IsShared}
use libpssh.Loop.{Ret}
use libpssh.Loop.Exec.{Tally, no_tally, Walked, classify, count, launch_at, exec_walk, exec_round}
use libpssh.Loop.Exec.Walk.{IsLaunch, stops, goes, step_of}

module _ {W : Type 0} (env : Env W) where
  pub arm-IsShared :
      (t : TaskLocal W)
      → IsShared t.ent
      → t.ent.stat ≡ connected
      → IsShared (pssh_task_event_update env t ev_write).1.ent
  unfolding pssh_task_event_update
  arm-IsShared t v c = ground (arith, v)

  launch-AllShared :
      (k : ℕ) (t t' : Task) (es es' : List Entry) (w w' : W)
      → IsLaunch env k t es w t' es' w'
      → All IsShared es
      → All IsShared es'
  unfolding classify launch_at
  launch-AllShared k t t' es es' w w' (cls, run) all = elim (Option-cases t.sess_entry) [
    | inl e ↦ absurd (ground arith)
    | inr (i, e) ↦ elim (Option-cases (get_elem? es i)) [
      | inl lost ↦ absurd (ground arith)
      | inr (x, at) ↦
          let l : TaskLocal W = record { self = k; task = t; ent = x; world = w } in
          let armed = arm-IsShared l (All-get IsShared es i all at) (ground arith) in
          let same : set es i (pssh_task_event_update env l ev_write).1.ent ≡ es' = ground arith in
          subst (All IsShared) same (All-set IsShared es i _ all armed)
    ]
  ]

  pub walk-AllShared :
      (k : ℕ) (ts : List Task) (es : List Entry) (w : W) (c : Tally) (r : Walked W)
      → All IsShared es
      → exec_walk env k ts es w c ≡ ok r
      → All IsShared r.entries
  unfolding exec_walk
  walk-AllShared k [] es w c r all h = ground arith
  walk-AllShared k (t ∷ ts) es w c r all h = elim (step_of env k t ts es w c r h) [
    | stops e q ↦ rw q all
    | goes t' es' w' r' next q n o (inl launched) ↦ rw q (
        walk-AllShared (suc k) ts es' w' (count (classify es t) c) r'
          (launch-AllShared k t t' es es' w w' launched all) next)
    | goes t' es' w' r' next q n o (inr (same, kept)) ↦
        rw q (walk-AllShared (suc k) ts es' w' (count (classify es t) c) r' (rw same all) next)
  ]

  pub exec_round-AllShared :
      (s s' : State W) (o : Option (Ret × Option ℕ))
      → All IsShared s.session.entries
      → exec_round env s ≡ ok (o, s')
      → All IsShared s'.session.entries
  unfolding exec_round
  exec_round-AllShared s s' o all h =
      let (r, run, last) =
        >>=-eq-ok (exec_walk env 0 s.tasks s.session.entries s.session.world no_tally) _ h in
      let held = walk-AllShared 0 s.tasks s.session.entries s.session.world no_tally r all run in
      ground arith
