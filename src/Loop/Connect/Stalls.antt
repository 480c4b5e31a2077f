-- ===== src/Loop/Connect/Stalls.antt =====
-- pssh_connect (src/pssh.c) on a server whose connection stands at once: no event is added for it, and the
-- call waits for ever.
use libpssh.Prelude.{
  ℕ, ℤ, zero, suc, ◌≡◌, refl, is_minus_one, true, false, List, [], ◌∷◌, map, none, some, ok, arith,
}
use libpssh.Env.{Env, Fired, established}
use libpssh.Session.{Entry, idle, resolved}
use libpssh.Session.Cases.{located}
use libpssh.Session.Fsm.{pssh_dns_cb, pssh_fsm, to_u16}
use libpssh.Task.{State}
use libpssh.Loop.{Occurrence, fires, answers, waits}
use libpssh.Loop.Dispatch.{dispatch, event_base_loop}
use libpssh.Loop.Connect.{pssh_connect, connect_loop, connect_round, connect_walk}

-- Events alone, one list for each call of event_base_loop.
abbrev pub event : ℕ × Fired → Occurrence
event (i, type) = fires i type

abbrev pub events : List (List (ℕ × Fired)) → List (List Occurrence)
events fss = map (map event) fss

module _ {W : Type 0} where
  -- The session has this one server, and has not timed out.
  abbrev pub IsOnly : State W → Entry → Type 0
  IsOnly s e = (s.session.entries ≡ e ∷ []) × (s.session.core.is_timeout ≡ false)

  -- The server stands in "resolved", and libevent holds no event of it.
  abbrev pub IsStalled : State W → Entry → Type 0
  IsStalled s e = IsOnly s e × (e.stat ≡ resolved) × (e.pending ≡ none)

module _ {W : Type 0} (env : Env W) (fuel : ℕ) where
  fires-same :
      (s : State W) (e : Entry) (i : ℕ) (type : Fired)
      → IsStalled s e
      → dispatch env fuel s (fires i type) ≡ ok s
  unfolding dispatch
  fires-same s e zero type v = ground (arith, v)
  fires-same s e (suc i) type v = ground (arith, v)

  events-same :
      (s : State W) (e : Entry) (fs : List (ℕ × Fired))
      → IsStalled s e
      → event_base_loop env fuel s (map event fs) ≡ ok s
  unfolding event_base_loop
  events-same s e [] v = refl
  events-same s e ((i, type) ∷ fs) v = rw (fires-same s e i type v) (events-same s e fs v)

  round-none : (s : State W) (e : Entry) → IsStalled s e → connect_round env s ≡ none
  unfolding connect_round connect_walk
  round-none s e v = ground (arith, v)

  stalled_waits :
      (s : State W) (e : Entry) (fss : List (List (ℕ × Fired)))
      → IsStalled s e
      → connect_loop env fuel s (events fss) ≡ waits s
  unfolding connect_loop
  stalled_waits s e [] v = rw (round-none s e v, connect_loop) refl
  stalled_waits s e (fs ∷ fss) v =
      rw (round-none s e v, events-same s e fs v, connect_loop) (stalled_waits s e fss v)

  idle_round : (s : State W) (e : Entry) → IsOnly s e → e.stat ≡ idle → connect_round env s ≡ none
  unfolding connect_round connect_walk
  idle_round s e v z = ground (arith, v)

  -- The first call of event_base_loop brings the address, and connect(2) succeeds at once.
  abbrev Stands : State W → Entry → ℤ → Type 0
  Stands s e a =
      let sock = env.socket s.session.world in
      (is_minus_one sock.0 ≡ false)
      × ((env.connect sock.1 sock.0 a (to_u16 e.port)).0 ≡ established)

  abbrev stalled : State W → Entry → ℤ → State W
  stalled s e a =
      let sock = env.socket s.session.world in
      record s {
        session = record s.session {
          entries = record (located e a) { sock = sock.0 } ∷ [];
          world = (env.connect sock.1 sock.0 a (to_u16 e.port)).1;
        };
      }

  answer_stalls :
      (s : State W) (e : Entry) (a : ℤ)
      → IsOnly s e
      → Stands s e a
      → dispatch env fuel s (answers 0 true (some a)) ≡ ok (stalled s e a)
  unfolding dispatch pssh_dns_cb pssh_fsm
  answer_stalls s e a v stands = ground (arith, v, stands)

  -- A session of one server, whose name is being looked up: when the address comes and connect(2) succeeds
  -- at once, pssh_connect waits after any number of calls of event_base_loop, whatever events they
  -- report, and the server is still in the state "resolved", with no event held for it.
  pub established_waits :
      (s : State W) (e : Entry) (a : ℤ) (timeout : ℕ) (fss : List (List (ℕ × Fired)))
      → IsOnly s e
      → e.stat ≡ idle
      → e.pending ≡ none
      → Stands s e a
      → (u : State W) × (e' : Entry) × (pssh_connect env fuel s timeout
            ((answers 0 true (some a) ∷ []) ∷ events fss)
          ≡ waits u)
        × IsStalled u e'
  unfolding pssh_connect connect_loop event_base_loop
  established_waits s e a timeout fss v z free stands =
      let s0 : State W = record s {
        session = record s.session { core = record s.session.core { timeout = timeout } };
      } in
      let u = stalled s0 e a in
      let e' : Entry = record (located e a) { sock = (env.socket s.session.world).0 } in
      let still : IsStalled u e' = ((refl, v.1), refl, free) in
      (
        u,
        e',
        rw (idle_round s0 e v z, answer_stalls s0 e a v stands, connect_loop)
            (stalled_waits u e' fss still),
        still,
      )
