-- ===== src/Loop/Connect/Progress.antt =====
-- pssh_connect (src/pssh.c) makes progress: with fair occurrences it returns.
use mathlib.Core.Path.{subst}
use libpssh.Loop.Connect.Results.{Ensures, round-Post, round_returns, loop_returns}
use libpssh.Prelude.{
  sym, ℕ, zero, suc, ap, ◌+◌, ◌<◌, ◌≤◌, ◌≡◌, ◌⊎◌, inl, inr, refl, Bool, true, false, ◌||◌,
  Bool-cases, Option-cases, List, [], ◌∷◌, Option, none, some, get_elem?, set, All, All-get,
  All-set, length, ok, arith,
}
use libpssh.Env.{Env, Fired}
use libpssh.Session.{Entry, Local, conn_handler, task_handler, Handler}
use libpssh.Session.Cost.{weight, Patience}
use libpssh.Session.Cost.Moves.{Moved, handler-Moved, dns-Moved}
use libpssh.Session.Own.{HasNoTask}
use libpssh.Session.Sound.{EventsAdded}
use libpssh.Task.{State}
use libpssh.Loop.{Occurrence, fires, answers, Call}
use libpssh.Loop.Cases.{released}
use libpssh.Loop.Dispatch.{dispatch, event_base_loop, local_of, put_local}
use libpssh.Loop.Connect.{pssh_connect, connect_loop, connect_round, time_out}
use libpssh.Loop.Connect.Fair.{is_legal, is_useful, all_legal, some_useful, is_fair, wakes}

unfoldable pub total_weight : List Entry → ℕ
total_weight [] = 0
total_weight (e ∷ es) = weight e.stat + total_weight es

pub total-set :
    (es : List Entry) (i : ℕ) (e v : Entry)
    → get_elem? es i ≡ some e
    → total_weight (set es i v) + weight e.stat ≡ total_weight es + weight v.stat
unfolding total_weight
total-set [] i e v at = cc
total-set (x ∷ es) zero e v at = ground (arith, at)
total-set (x ∷ es) (suc i) e v at = omega (arith, total-set es i e v at)

module _ {W : Type 0} where
  -- The state in which pssh_connect goes round.
  abbrev pub timed : State W → ℕ → State W
  timed s timeout = record s {
    session = record s.session { core = record s.session.core { timeout = timeout } };
  }

module _ {W : Type 0} (env : Env W) (fuel : ℕ) (added : EventsAdded env) (p : Patience env) where
  -- The steps that the session is from its end at most.
  abbrev pub distance : State W → ℕ
  distance s = total_weight s.session.entries + p.patience s.session.world

  abbrev pub NoTasks : State W → Type 0
  NoTasks s = All HasNoTask s.session.entries

  -- What an occurrence does to the whole session.
  pub record Nears (s s' : State W) (useful : Bool) : Type 0 where
    pub falls : distance s' ≤ distance s
    pub no_task : NoTasks s'
    pub late : s.session.core.is_timeout ≡ true → s'.session.core.is_timeout ≡ true
    pub nearer : useful ≡ true → (distance s' < distance s) ⊎ (s'.session.core.is_timeout ≡ true)

  put-Nears :
      (s : State W) (i : ℕ) (e x : Entry) (l : Local W) (useful : Bool)
      → get_elem? s.session.entries i ≡ some e
      → x.stat ≡ e.stat
      → NoTasks s
      → Moved env added p (local_of s x) l useful
      → Nears s (put_local s i l) useful
  put-Nears s i e x l useful at same quiet m =
      let sum = total-set s.session.entries i e l.ent at in
      let fewer = m.falls in
      let w = ap weight same in
      record {
        falls = omega (arith, sum, fewer, w);
        no_task = All-set HasNoTask s.session.entries i l.ent quiet m.no_task;
        late = m.late;
        nearer = λ u. ground (arith, sum, w, m.nearer u);
      }

  stays : (s : State W) → NoTasks s → Nears s s false
  stays s quiet = record { falls = omega arith; no_task = quiet; late = λ t. t; nearer = λ u. cc }

  fires-Nears :
      (s : State W) (i : ℕ) (type : Fired) (e : Entry) (h : Option Handler)
      → NoTasks s
      → get_elem? s.session.entries i ≡ some e
      → e.pending ≡ h
      → (s' : State W) × (dispatch env fuel s (fires i type) ≡ ok s') × Nears s s' (wakes e type)
  unfolding dispatch
  fires-Nears s i type e none quiet at held = (s, ground arith, rw held (stays s quiet))
  fires-Nears s i type e (some conn_handler) quiet at held =
      let (l, ran, m) = handler-Moved env added p (local_of s (released e)) type (λ k. cc) in
      (
        put_local s i l,
        ground (arith, ran),
        rw held (put-Nears s i e (released e) l _ at refl quiet m),
      )
  fires-Nears s i type e (some (task_handler k)) quiet at held =
      absurd (All-get HasNoTask s.session.entries i quiet at k held)

  pub dispatch-Nears :
      (s : State W) (o : Occurrence)
      → NoTasks s
      → is_legal s o ≡ true
      → (s' : State W) × (dispatch env fuel s o ≡ ok s') × Nears s s' (is_useful s o)
  unfolding dispatch is_legal is_useful
  dispatch-Nears s (fires i type) quiet legal =
      elim (Option-cases (get_elem? s.session.entries i)) [
        | inl lost ↦ (s, rw lost, rw (lost, is_useful) (stays s quiet))
        | inr (e, at) ↦
            let (s', ran, n) = fires-Nears s i type e e.pending quiet at refl in
            (s', ran, rw (at, is_useful) n)
      ]
  dispatch-Nears s (answers i found addr) quiet legal =
      elim (Option-cases (get_elem? s.session.entries i)) [
        | inl lost ↦ absurd (ground arith)
        | inr (e, at) ↦
            let quiet_one = All-get HasNoTask s.session.entries i quiet at in
            let (l, ran, m) =
              dns-Moved env added p (local_of s e) found addr quiet_one (ground arith)
                (ground arith) in
            (put_local s i l, rw (at, ran), put-Nears s i e e l true at refl quiet m)
      ]

  then-Nears : (s u v : State W) (a b : Bool) → Nears s u a → Nears u v b → Nears s v (a || b)
  then-Nears s u v a b m n = record {
    falls = omega (arith, m.falls, n.falls);
    no_task = n.no_task;
    late = λ t. n.late (m.late t);
    nearer = λ h. elim (Bool-cases a) [
      | inl first ↦ elim (m.nearer first) [
        | inl less ↦ inl (omega (arith, less, n.falls))
        | inr out ↦ inr (n.late out)
      ]
      | inr not_first ↦ elim (n.nearer (ground arith)) [
        | inl less ↦ inl (omega (arith, less, m.falls))
        | inr out ↦ inr out
      ]
    ];
  }

  pub loop-Nears :
      (s : State W) (os : List Occurrence)
      → NoTasks s
      → all_legal env fuel s os ≡ true
      → (s' : State W) × (event_base_loop env fuel s os ≡ ok s')
        × Nears s s' (some_useful env fuel s os)
  unfolding event_base_loop all_legal some_useful
  loop-Nears s [] quiet legal = (s, refl, stays s quiet)
  loop-Nears s (o ∷ os) quiet legal =
      let (u, ran, m) = dispatch-Nears s o quiet (ground arith) in
      let (v, rest, n) = loop-Nears u os m.no_task (ground (arith, ran)) in
      (v, rw ran rest, rw (ran, some_useful) (then-Nears s u v _ _ m n))

  pub late_returns :
      (s : State W) (es : List Entry)
      → s.session.entries ≡ es
      → s.session.core.is_timeout ≡ true
      → (r : Call (State W)) × (connect_round env s ≡ some r)
  unfolding connect_round
  late_returns s [] none_left t = round_returns env s (rw none_left tt)
  late_returns s (e ∷ es) some_left t = (time_out env s, rw (t, some_left))

  round-Ensures :
      (s : State W) (oss : List (List Occurrence)) (r : Call (State W))
      → connect_round env s ≡ some r
      → Ensures (connect_loop env fuel s oss)
  round-Ensures s oss r h =
      subst Ensures (sym (loop_returns env fuel s r oss h)) (round-Post env s r h)

  fair_loop :
      (s : State W) (oss : List (List Occurrence))
      → NoTasks s
      → is_fair env fuel s oss ≡ true
      → distance s < length oss
      → Ensures (connect_loop env fuel s oss)
  unfolding connect_loop is_fair
  fair_loop s [] quiet fair far = absurd (omega arith)
  fair_loop s (os ∷ oss) quiet fair far = elim (Option-cases (connect_round env s)) [
    | inr (r, e) ↦ round-Ensures s (os ∷ oss) r e
    | inl e ↦
        let (s', ran, n) = loop-Nears s os quiet (ground (arith, e)) in
        rw (e, ran, connect_loop)
          (elim (n.nearer (ground (arith, e))) [
            | inl less ↦ fair_loop s' oss n.no_task (ground (arith, e, ran)) (omega arith)
            | inr out ↦
                let (r, h) = late_returns s' s'.session.entries refl out in round-Ensures s' oss r h
          ])
  ]

  -- pssh_connect returns, and what it returns tells the truth, when event_add succeeds, libssh2 says
  -- "again" a bounded number of times, no task uses an event, and the occurrences are fair, in more calls
  -- of event_base_loop than the session has steps to its end.
  pub connect_fair :
      (s : State W) (timeout : ℕ) (oss : List (List Occurrence))
      → NoTasks s
      → is_fair env fuel (timed s timeout) oss ≡ true
      → distance s < length oss
      → Ensures (pssh_connect env fuel s timeout oss)
  unfolding pssh_connect
  connect_fair s timeout oss quiet fair far = fair_loop (timed s timeout) oss quiet fair far
