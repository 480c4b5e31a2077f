-- ===== src/Loop/Connect/Marks.antt =====
-- What pssh_connect (src/pssh.c) does to the marks of what it has reported.
use mathlib.Core.Path.{subst}
use libpssh.Prelude.{
  ℕ, ◌+◌, ◌==◌, ◌≡◌, ◌&&◌, not, inl, inr, refl, sym, ap, ◌∙◌, Bool, false, Bool-cases, Option-cases,
  Outcome-cases, List, [], ◌∷◌, map, some, some_inj, get_elem?, set, if◌then◌else◌, arith,
}
use libpssh.Env.{Env}
use libpssh.Session.{Entry}
use libpssh.Task.{State}
use libpssh.Loop.{Occurrence, connected, Call, returned}
use libpssh.Loop.Dispatch.{event_base_loop}
use libpssh.Loop.Marks.{Marks, entry_mark, entry_marks, map-set, get_elem?-map, loop-SameMarks}
use libpssh.Loop.Connect.{
  Walk, found, counted, connect_walk, no_counts, fail_unconnected, shutdown_entries,
  pssh_shutdown_events, time_out, walk_result, is_empty, connect_round, connect_loop, pssh_connect,
  mark, mark_at,
}
use libpssh.Loop.Connect.Settled.{walk_found}

module _ {W : Type 0} where
  -- What a call of pssh_connect has marked: the server that it reports, and no other.
  abbrev pub CallMarks : List Bool → Call (State W) → Type 0
  CallMarks fs (returned connected i s) = Marks fs i (entry_marks s)
  CallMarks fs (returned ret i s) = entry_marks s ≡ fs
  CallMarks fs _ = Unit {0}

mark_at-Marks :
    (es : List Entry) (i : ℕ) (e : Entry)
    → get_elem? es i ≡ some e
    → e.is_reported ≡ false
    → Marks (map entry_mark es) (some i) (map entry_mark (mark_at es i))
mark_at-Marks es i e at off =
    let here : set es i (mark e) ≡ mark_at es i = ground arith in
    (
      i,
      refl,
      get_elem?-map entry_mark es i e at ∙ ap some off,
      ap (map entry_mark) (sym here) ∙ map-set entry_mark es i (mark e),
    )

module _ {W : Type 0} (env : Env W) (fuel : ℕ) where
  shutdown_marks :
      (es : List Entry) (w : W)
      → map entry_mark (map fail_unconnected (shutdown_entries env es w).0) ≡ map entry_mark es
  unfolding shutdown_entries fail_unconnected
  shutdown_marks [] w = refl
  shutdown_marks (e ∷ es) w =
      ground (arith, shutdown_marks es (if e.ev_up then env.event_del w e.ssh_sess else w))

  walk_result-CallMarks :
      (s : State W) (k : Walk) (r : Call (State W))
      → connect_walk 0 s.session.entries no_counts ≡ k
      → walk_result s k ≡ some r
      → CallMarks (entry_marks s) r
  unfolding walk_result
  walk_result-CallMarks s (found i) r w h =
      let (j, e, at, there, fresh) = walk_found 0 s.session.entries no_counts i w in
      let same : j ≡ i = omega arith in
      subst (CallMarks (entry_marks s)) (some_inj h)
        (mark_at-Marks s.session.entries i e (rw (sym same) there) (ground arith))
  walk_result-CallMarks s (counted c) r w h = elim (Bool-cases (c.err + c.okay == c.tot)) [
    | inr more ↦ absurd (cc (rw more at h))
    | inl full ↦ elim (Bool-cases (c.err == 0)) [
      | inl fine ↦ subst (CallMarks (entry_marks s)) (some_inj (rw (full, fine) at h)) refl
      | inr bad ↦ subst (CallMarks (entry_marks s)) (some_inj (rw (full, bad) at h)) refl
    ]
  ]

  round-CallMarks :
      (s : State W) (r : Call (State W))
      → connect_round env s ≡ some r
      → CallMarks (entry_marks s) r
  unfolding connect_round time_out pssh_shutdown_events
  round-CallMarks s r h =
      elim (Bool-cases (s.session.core.is_timeout && not (is_empty s.session.entries))) [
        | inl late ↦
            subst (CallMarks (entry_marks s)) (some_inj (rw late at h))
              (shutdown_marks s.session.entries s.session.world)
        | inr going ↦
            walk_result-CallMarks s (connect_walk 0 s.session.entries no_counts) r refl
              (rw going at h)
      ]

  loop-CallMarks :
      (s : State W) (oss : List (List Occurrence))
      → CallMarks (entry_marks s) (connect_loop env fuel s oss)
  unfolding connect_loop
  loop-CallMarks s [] = elim (Option-cases (connect_round env s)) [
    | inl e ↦ rw (e, connect_loop) tt
    | inr (r, e) ↦ rw (e, connect_loop) (round-CallMarks s r e)
  ]
  loop-CallMarks s (os ∷ oss) = elim (Option-cases (connect_round env s)) [
    | inr (r, e) ↦ rw (e, connect_loop) (round-CallMarks s r e)
    | inl e ↦ elim (Outcome-cases (event_base_loop env fuel s os)) [
      | inl (s', run) ↦
          rw (e, run, connect_loop)
            (subst (λ fs. CallMarks fs (connect_loop env fuel s' oss))
              (loop-SameMarks env fuel s s' os run).0 (loop-CallMarks s' oss))
      | inr (inl stop) ↦ rw (e, stop, connect_loop) tt
      | inr (inr busy) ↦ rw (e, busy, connect_loop) tt
    ]
  ]

  pub connect-CallMarks :
      (s : State W) (timeout : ℕ) (oss : List (List Occurrence))
      → CallMarks (entry_marks s) (pssh_connect env fuel s timeout oss)
  unfolding pssh_connect
  connect-CallMarks s timeout oss = loop-CallMarks _ oss
