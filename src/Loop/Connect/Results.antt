-- ===== src/Loop/Connect/Results.antt =====
-- What a result of pssh_connect (src/pssh.c) says of the servers.
use mathlib.Core.Path.{subst}
use libpssh.Prelude.{
  ℕ, ◌+◌, ◌==◌, ◌≡◌, ◌⊎◌, inl, inr, refl, true, false, not, ◌&&◌, Bool-cases, Option-cases,
  Outcome-cases, List, [], ◌∷◌, map, Option, none, some, get_elem?, some_inj, get_elem?-set_self,
  All, arith,
}
use libpssh.Env.{Env}
use libpssh.Session.{Stat, error, Entry, Session, is_connected, is_error}
use libpssh.Session as S
use libpssh.Task.{State}
use libpssh.Loop.{
  Occurrence, Ret, connected, running, timed_out, failed, success, Call, returned, waits, stopped,
  spins,
}
use libpssh.Loop.Dispatch.{event_base_loop}
use libpssh.Loop.Connect.Settled.{
  IsSettled, IsReported, walk_found, walk_counted, ups-downs-le, All-IsSettled, All-IsReported,
  SomeFailed, some_failed, IsEnded, ended_counts,
}
use libpssh.Loop.Connect.{
  Walk, found, counted, connect_walk, no_counts, fail_unconnected, shutdown_entries,
  pssh_shutdown_events, time_out, walk_result, is_empty, connect_round, connect_loop, pssh_connect,
  mark, mark_at,
}

-- After a timeout: connected or failed, and no event is up.
abbrev pub IsClosed : Entry → Type 0
IsClosed e = ((is_connected e.stat ≡ true) ⊎ (e.stat ≡ S.error)) × (e.ev_up ≡ false)

fail_unconnected-IsClosed : (e : Entry) → e.ev_up ≡ false → IsClosed (fail_unconnected e)
unfolding fail_unconnected
fail_unconnected-IsClosed e h = ground arith

module _ {W : Type 0} where
  -- What each result promises of the entry that it names and of the state that it leaves.
  abbrev pub Post : Ret → Option ℕ → State W → Type 0
  Post connected i s =
      (k : ℕ) × (e : Entry) × (i ≡ some k) × (get_elem? s.session.entries k ≡ some e) × IsReported e
  Post success i s = (i ≡ none) × All IsReported s.session.entries
  Post failed i s = (i ≡ none) × All IsSettled s.session.entries × SomeFailed s.session.entries
  Post timed_out i s =
      (i ≡ none)
      × All IsClosed s.session.entries
      × (s.session.core.is_timeout ≡ false)
      × (s.session.core.last_connect ≡ 0)
  Post running i s = ⊥

  abbrev PostCall : Call (State W) → Type 0
  PostCall (returned ret i s) = Post ret i s
  PostCall _ = Unit {0}

  -- The call has returned, and what it returns tells the truth.
  abbrev pub Ensures : Call (State W) → Type 0
  Ensures (returned ret i s) = Post ret i s
  Ensures _ = ⊥

  weaken : (r : Call (State W)) → Ensures r → PostCall r
  weaken (returned ret i s) h = h
  weaken (waits s) h = tt
  weaken stopped h = tt
  weaken spins h = tt

marks :
    (es : List Entry) (i : ℕ) (e : Entry)
    → get_elem? es i ≡ some e
    → get_elem? (mark_at es i) i ≡ some (mark e)
marks es i e h = ground (arith, get_elem?-set_self es i (mark e) h)

module _ {W : Type 0} (env : Env W) where
  shutdown-closes :
      (es : List Entry) (w : W) → All IsClosed (map fail_unconnected (shutdown_entries env es w).0)
  unfolding shutdown_entries
  shutdown-closes [] w = tt
  shutdown-closes (e ∷ es) w = (
    elim (Bool-cases e.ev_up) [
      | inl up ↦ rw up (fail_unconnected-IsClosed _ refl)
      | inr down ↦ rw down (fail_unconnected-IsClosed _ refl)
    ],
    shutdown-closes es _,
  )

  time_out-Post : (s : State W) → Ensures (time_out env s)
  unfolding time_out pssh_shutdown_events
  time_out-Post s = (refl, shutdown-closes s.session.entries s.session.world, refl, refl)

  walk_result-Post :
      (s : State W) (k : Walk) (r : Call (State W))
      → connect_walk 0 s.session.entries no_counts ≡ k
      → walk_result s k ≡ some r
      → Ensures r
  unfolding walk_result
  walk_result-Post s (found i) r w h =
      let (j, e, at, there, fresh) = walk_found 0 s.session.entries no_counts i w in
      let same : i ≡ j = omega arith in
      let marked = marks s.session.entries i e (rw same there) in
      subst Ensures (some_inj h) (i, mark e, refl, marked, (ground arith, refl))
  walk_result-Post s (counted c) r w h =
      let (tot, err, okay, stale) = walk_counted 0 s.session.entries no_counts c w in
      let sum = ups-downs-le s.session.entries in
      elim (Bool-cases (c.err + c.okay == c.tot)) [
        | inr more ↦ absurd (cc (rw more at h))
        | inl all ↦
            let settled = All-IsSettled s.session.entries stale (ground arith) in
            elim (Bool-cases (c.err == 0)) [
              | inl fine ↦
                  subst Ensures (some_inj (rw (all, fine) at h))
                    (refl, All-IsReported s.session.entries settled (ground arith))
              | inr bad ↦
                  subst Ensures (some_inj (rw (all, bad) at h))
                    (refl, settled, some_failed s.session.entries (ground arith))
            ]
      ]

  pub round-Post : (s : State W) (r : Call (State W)) → connect_round env s ≡ some r → Ensures r
  unfolding connect_round
  round-Post s r h =
      elim (Bool-cases (s.session.core.is_timeout && not (is_empty s.session.entries))) [
        | inl late ↦ subst Ensures (some_inj (rw late at h)) (time_out-Post s)
        | inr going ↦
            walk_result-Post s (connect_walk 0 s.session.entries no_counts) r refl (rw going at h)
      ]

  loop-Post :
      (fuel : ℕ) (s : State W) (oss : List (List Occurrence))
      → PostCall (connect_loop env fuel s oss)
  unfolding connect_loop
  loop-Post fuel s [] = elim (Option-cases (connect_round env s)) [
    | inl e ↦ rw (e, connect_loop) tt
    | inr (r, e) ↦ rw (e, connect_loop) (weaken r (round-Post s r e))
  ]
  loop-Post fuel s (os ∷ oss) = elim (Option-cases (connect_round env s)) [
    | inr (r, e) ↦ rw (e, connect_loop) (weaken r (round-Post s r e))
    | inl e ↦ elim (Outcome-cases (event_base_loop env fuel s os)) [
      | inl (s', run) ↦ rw (e, run, connect_loop) (loop-Post fuel s' oss)
      | inr (inl stop) ↦ rw (e, stop, connect_loop) tt
      | inr (inr busy) ↦ rw (e, busy, connect_loop) tt
    ]
  ]

  -- After any number of rounds of any occurrences, what pssh_connect returns tells the truth: a server
  -- it reports is connected and now marked as reported; on success all are connected and reported; on
  -- failure each is, or has failed, and one has failed; on a timeout each is connected or has failed,
  -- no event is up, and the timer is reset. It never returns PSSH_RUNNING.
  pub connect-Post :
      (fuel : ℕ) (s s' : State W) (timeout : ℕ) (oss : List (List Occurrence)) (ret : Ret)
      (i : Option ℕ)
      → pssh_connect env fuel s timeout oss ≡ returned ret i s'
      → Post ret i s'
  unfolding pssh_connect
  connect-Post fuel s s' timeout oss ret i h = subst PostCall h (loop-Post fuel _ oss)

module _ {W : Type 0} (env : Env W) where
  walk_returns :
      (s : State W) (k : Walk)
      → connect_walk 0 s.session.entries no_counts ≡ k
      → All IsEnded s.session.entries
      → (r : Call (State W)) × (walk_result s k ≡ some r)
  unfolding walk_result
  walk_returns s (found i) w a = (_, refl)
  walk_returns s (counted c) w a =
      let (tot, err, okay, stale) = walk_counted 0 s.session.entries no_counts c w in
      let all = ended_counts s.session.entries a in
      elim (Option-cases (walk_result s (counted c))) [ inl e ↦ absurd (ground arith) | inr r ↦ r ]

  pub round_returns :
      (s : State W)
      → All IsEnded s.session.entries
      → (r : Call (State W)) × (connect_round env s ≡ some r)
  unfolding connect_round
  round_returns s a =
      elim (Bool-cases (s.session.core.is_timeout && not (is_empty s.session.entries))) [
        | inl late ↦ (time_out env s, rw late)
        | inr going ↦
            let (r, e) = walk_returns s (connect_walk 0 s.session.entries no_counts) refl a in
            (r, rw going e)
      ]

  pub loop_returns :
      (fuel : ℕ) (s : State W) (r : Call (State W)) (oss : List (List Occurrence))
      → connect_round env s ≡ some r
      → connect_loop env fuel s oss ≡ r
  unfolding connect_loop
  loop_returns fuel s r [] e = rw (e, connect_loop)
  loop_returns fuel s r (os ∷ oss) e = rw (e, connect_loop)

  -- When every server is connected or has failed, pssh_connect returns without waiting, with the one
  -- result whatever libevent might report later, and that result tells the truth.
  pub connect_returns :
      (fuel : ℕ) (s : State W) (timeout : ℕ)
      → All IsEnded s.session.entries
      → (r : Call (State W)) × Ensures r
        × ((oss : List (List Occurrence)) → pssh_connect env fuel s timeout oss ≡ r)
  unfolding pssh_connect
  connect_returns fuel s timeout a =
      let s0 : State W = record s {
        session = record s.session { core = record s.session.core { timeout = timeout } };
      } in
      let (r, e) = round_returns s0 a in
      (r, round-Post env s0 r e, λ oss. loop_returns fuel s0 r oss e)
