-- ===== src/Loop/Connect/Again.antt =====
-- A call of pssh_connect (src/pssh.c) that reports a server leaves the session fit for the next call.
use mathlib.Core.Path.{subst}
use libpssh.Prelude.{
  ℕ, ◌≤◌, ◌≡◌, inl, inr, refl, true, not, ◌&&◌, Bool-cases, Option-cases, List, [], ◌∷◌, Option,
  none, some, get_elem?, set, All-get, All-set, arith,
}
use libpssh.Env.{Env}
use libpssh.Session.{Entry}
use libpssh.Session.Cost.{Patience}
use libpssh.Session.Own.{HasNoTask}
use libpssh.Session.Sound.{EventsAdded}
use libpssh.Task.{State}
use libpssh.Loop.{Occurrence, connected, returned}
use libpssh.Loop.Connect.{
  Walk, found, counted, connect_walk, no_counts, time_out, walk_result, is_empty, connect_round,
  connect_loop, pssh_connect, mark,
}
use libpssh.Loop.Connect.Fair.{is_fair}
use libpssh.Loop.Connect.Progress.{total-set, distance, NoTasks, loop-Nears, timed}

module _ {W : Type 0} (env : Env W) (fuel : ℕ) (added : EventsAdded env) (p : Patience env) where
  -- No task uses an event still, and the session is no farther from its end.
  abbrev pub IsNext : State W → State W → Type 0
  IsNext s s' =
      NoTasks env fuel added p s' × (distance env fuel added p s' ≤ distance env fuel added p s)

  mark-IsNext :
      (s s' : State W) (i : ℕ) (j : Option ℕ) (e : Option Entry)
      → get_elem? s.session.entries i ≡ e
      → walk_result s (found i) ≡ some (returned connected j s')
      → NoTasks env fuel added p s
      → IsNext s s'
  unfolding walk_result
  mark-IsNext s s' i j none at h quiet =
      let same : s ≡ s' = ground arith in subst (IsNext s) same (quiet, omega arith)
  mark-IsNext s s' i j (some e) at h quiet =
      let es = set s.session.entries i (mark e) in
      let same : record s { session = record s.session { entries = es } } ≡ s' = ground arith in
      let sum = total-set s.session.entries i e (mark e) at in
      subst (IsNext s) same (
        All-set HasNoTask s.session.entries i (mark e) quiet
            (All-get HasNoTask s.session.entries i quiet at),
        omega (arith, sum),
      )

  walk-IsNext :
      (s s' : State W) (w : Walk) (j : Option ℕ)
      → walk_result s w ≡ some (returned connected j s')
      → NoTasks env fuel added p s
      → IsNext s s'
  unfolding walk_result
  walk-IsNext s s' (found i) j h quiet =
      mark-IsNext s s' i j (get_elem? s.session.entries i) refl h quiet
  walk-IsNext s s' (counted c) j h quiet = absurd (ground arith)

  round-IsNext :
      (s s' : State W) (j : Option ℕ)
      → connect_round env s ≡ some (returned connected j s')
      → NoTasks env fuel added p s
      → IsNext s s'
  unfolding connect_round time_out
  round-IsNext s s' j h quiet =
      elim (Bool-cases (s.session.core.is_timeout && not (is_empty s.session.entries))) [
        | inl late ↦ absurd (ground arith)
        | inr going ↦
            walk-IsNext s s' (connect_walk 0 s.session.entries no_counts) j (rw going at h) quiet
      ]

  loop-IsNext :
      (s s' : State W) (j : Option ℕ) (oss : List (List Occurrence))
      → NoTasks env fuel added p s
      → is_fair env fuel s oss ≡ true
      → connect_loop env fuel s oss ≡ returned connected j s'
      → IsNext s s'
  unfolding connect_loop is_fair
  loop-IsNext s s' j [] quiet fair h = elim (Option-cases (connect_round env s)) [
    | inl e ↦ absurd (ground arith)
    | inr (r, e) ↦ round-IsNext s s' j (ground arith) quiet
  ]
  loop-IsNext s s' j (os ∷ oss) quiet fair h = elim (Option-cases (connect_round env s)) [
    | inr (r, e) ↦ round-IsNext s s' j (ground arith) quiet
    | inl e ↦
        let (u, ran, n) = loop-Nears env fuel added p s os quiet (ground (arith, e)) in
        let (quiet', less) =
          loop-IsNext u s' j oss n.no_task (ground (arith, e, ran))
            (rw (e, connect_loop, ran) at h) in
        (quiet', omega (arith, less, n.falls))
  ]

  pub connect-IsNext :
      (s s' : State W) (timeout : ℕ) (j : Option ℕ) (oss : List (List Occurrence))
      → NoTasks env fuel added p s
      → is_fair env fuel (timed s timeout) oss ≡ true
      → pssh_connect env fuel s timeout oss ≡ returned connected j s'
      → IsNext s s'
  unfolding pssh_connect
  connect-IsNext s s' timeout j oss quiet fair h =
      loop-IsNext (timed s timeout) s' j oss quiet fair h
