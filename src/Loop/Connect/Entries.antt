-- ===== src/Loop/Connect/Entries.antt =====
-- What a round of pssh_connect (src/pssh.c) does to the entries: it marks one as reported, or, after a
-- timeout, takes down all events and fails what is not connected.
use mathlib.Core.Path.{subst}
use libpssh.Prelude.{
  ℕ, ◌≡◌, Bool-cases, Option-cases, inl, inr, false, List, [], ◌∷◌, map, none, some, get_elem?, set,
  All, All-get, All-set, not, ◌&&◌, ◌==◌, ◌+◌, if◌then◌else◌, some_inj, arith,
}
use libpssh.Env.{Env}
use libpssh.Session.{Entry}
use libpssh.Task.{State}
use libpssh.Task.Shared.{IsShared}
use libpssh.Loop.{Call, returned}
use libpssh.Loop.Connect.{
  Walk, found, counted, connect_walk, no_counts, fail_unconnected, shutdown_entries,
  pssh_shutdown_events, time_out, walk_result, is_empty, connect_round, mark, mark_at,
}

mark_at-AllShared : (es : List Entry) (i : ℕ) → All IsShared es → All IsShared (mark_at es i)
mark_at-AllShared es i all = elim (Option-cases (get_elem? es i)) [
  | inl e ↦ let same : es ≡ mark_at es i = ground arith in subst (All IsShared) same all
  | inr (x, e) ↦
      let v = All-get IsShared es i all e in
      let same : set es i (mark x) ≡ mark_at es i = ground arith in
      subst (All IsShared) same (All-set IsShared es i (mark x) all (ground (arith, v)))
]

module _ {W : Type 0} where
  abbrev Leaves : Call (State W) → Type 0
  Leaves (returned ret i s) = All IsShared s.session.entries
  Leaves _ = Unit {0}

module _ {W : Type 0} (env : Env W) where
  closed-IsShared :
      (e : Entry)
      → IsShared e
      → IsShared
          (fail_unconnected (if e.ev_up then record e { ev_up = false; pending = none } else e))
  unfolding fail_unconnected
  closed-IsShared e v = ground (arith, v)

  shutdown-AllShared :
      (es : List Entry) (w : W)
      → All IsShared es
      → All IsShared (map fail_unconnected (shutdown_entries env es w).0)
  unfolding shutdown_entries
  shutdown-AllShared [] w all = tt
  shutdown-AllShared (e ∷ es) w all = (closed-IsShared e all.0, shutdown-AllShared es _ all.1)

  walk_result-AllShared :
      (s : State W) (k : Walk) (r : Call (State W))
      → All IsShared s.session.entries
      → walk_result s k ≡ some r
      → Leaves r
  unfolding walk_result
  walk_result-AllShared s (found i) r all h =
      subst Leaves (some_inj h) (mark_at-AllShared s.session.entries i all)
  walk_result-AllShared s (counted c) r all h = elim (Bool-cases (c.err + c.okay == c.tot)) [
    | inr more ↦ absurd (cc (rw more at h))
    | inl full ↦ subst Leaves (some_inj (rw full at h)) all
  ]

  pub connect_round-AllShared :
      (s : State W) (r : Call (State W))
      → All IsShared s.session.entries
      → connect_round env s ≡ some r
      → Leaves r
  unfolding connect_round time_out pssh_shutdown_events
  connect_round-AllShared s r all h =
      elim (Bool-cases (s.session.core.is_timeout && not (is_empty s.session.entries))) [
        | inl late ↦
            subst Leaves (some_inj (rw late at h))
              (shutdown-AllShared s.session.entries s.session.world all)
        | inr going ↦
            walk_result-AllShared s (connect_walk 0 s.session.entries no_counts) r all
              (rw going at h)
      ]
