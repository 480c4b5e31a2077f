-- ===== src/Loop/Connect/Cards.antt =====
-- What a round of pssh_connect (src/pssh.c) does to the cards: it tells of one server, or fails those that
-- are not connected.
use mathlib.Core.Path.{subst}
use libpssh.Prelude.{
  ℕ, ◌+◌, ◌==◌, ◌≡◌, ◌&&◌, not, inl, inr, refl, sym, true, false, none, Bool-cases, List, [], ◌∷◌,
  map, some, some_inj, get_elem?, set, if◌then◌else◌, arith,
}
use libpssh.Env.{Env}
use libpssh.Session.{Entry, is_connected}
use libpssh.Session.Api.{pssh_stat}
use libpssh.Task.{State}
use libpssh.Loop.{Call, returned}
use libpssh.Loop.Board.{Card, Move, stands, fails, tells, Moves}
use libpssh.Loop.Board.Cards.{card, board, set-Moves, same-Moves}
use libpssh.Loop.Connect.{
  Walk, found, counted, connect_walk, no_counts, fail_unconnected, shutdown_entries,
  pssh_shutdown_events, time_out, walk_result, is_empty, connect_round, mark, mark_at,
}
use libpssh.Loop.Connect.Settled.{walk_found, is_fresh}

told_of : (e : Entry) → is_fresh e ≡ true → Move (card e) (card (mark e))
unfolding card pssh_stat
told_of e h = tells (ground arith) (ground arith)

module _ {W : Type 0} where
  -- The cards that a call leaves, if it returns.
  abbrev pub LeavesMoved : List Card → Call (State W) → Type 0
  LeavesMoved cs (returned ret i s) = Moves cs (board s.session.entries)
  LeavesMoved cs _ = Unit {0}

mark_at-Moves :
    (es : List Entry) (i : ℕ) (e : Entry)
    → get_elem? es i ≡ some e
    → is_fresh e ≡ true
    → Moves (board es) (board (mark_at es i))
mark_at-Moves es i e at h =
    let here : set es i (mark e) ≡ mark_at es i = ground arith in
    subst (λ xs. Moves (board es) (board xs)) here (set-Moves es i e (mark e) at (told_of e h))

module _ {W : Type 0} (env : Env W) where
  closed-Move :
      (e : Entry)
      → Move (card e) (
          card
            (fail_unconnected (if e.ev_up then record e { ev_up = false; pending = none } else e)))
  unfolding card pssh_stat fail_unconnected
  closed-Move e = elim (Bool-cases (is_connected e.stat)) [
    | inl up ↦ subst (Move (card e)) (ground arith) stands
    | inr not_up ↦ subst (Move (card e)) (ground arith) (fails (ground arith))
  ]

  shutdown-Moves :
      (es : List Entry) (w : W)
      → Moves (board es) (board (map fail_unconnected (shutdown_entries env es w).0))
  unfolding shutdown_entries
  shutdown-Moves [] w = tt
  shutdown-Moves (e ∷ es) w = (closed-Move e, shutdown-Moves es _)

  walk_result-Moves :
      (s : State W) (k : Walk) (r : Call (State W))
      → connect_walk 0 s.session.entries no_counts ≡ k
      → walk_result s k ≡ some r
      → LeavesMoved (board s.session.entries) r
  unfolding walk_result
  walk_result-Moves s (found i) r w h =
      let (j, e, at, there, fresh) = walk_found 0 s.session.entries no_counts i w in
      let same : j ≡ i = omega arith in
      subst (LeavesMoved (board s.session.entries)) (some_inj h)
        (mark_at-Moves s.session.entries i e (rw (sym same) there) fresh)
  walk_result-Moves s (counted c) r w h = elim (Bool-cases (c.err + c.okay == c.tot)) [
    | inr more ↦ absurd (cc (rw more at h))
    | inl full ↦
        subst (LeavesMoved (board s.session.entries)) (some_inj (rw full at h))
          (same-Moves (board s.session.entries))
  ]

  pub connect_round-Moves :
      (s : State W) (r : Call (State W))
      → connect_round env s ≡ some r
      → LeavesMoved (board s.session.entries) r
  unfolding connect_round time_out pssh_shutdown_events
  connect_round-Moves s r h =
      elim (Bool-cases (s.session.core.is_timeout && not (is_empty s.session.entries))) [
        | inl late ↦
            subst (LeavesMoved (board s.session.entries)) (some_inj (rw late at h))
              (shutdown-Moves s.session.entries s.session.world)
        | inr going ↦
            walk_result-Moves s (connect_walk 0 s.session.entries no_counts) r refl (rw going at h)
      ]
