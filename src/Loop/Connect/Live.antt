-- ===== src/Loop/Connect/Live.antt =====
-- pssh_connect (src/pssh.c) is never stuck: while it goes on, something useful can still happen, and fair occurrences exist.
use mathlib.Core.Path.{subst}
use libpssh.Prelude.{
  ℕ, zero, suc, pos, ◌≡◌, ◌⊎◌, inl, inr, refl, ap, true, false, Bool-cases, Option-cases, List, [],
  ◌∷◌, none, some, get_elem?, All, All-get, All-set, length, ok, arith,
}
use libpssh.Env.{Env, Fired}
use libpssh.Session.{Entry, is_connected, is_error}
use libpssh.Session.Awake.{IsAwake, NeverAtOnce, handler-IsAwake, dns-IsAwake}
use libpssh.Session.Cost.{Patience}
use libpssh.Session.Own.{HasNoTask}
use libpssh.Session.Sound.{EventsAdded}
use libpssh.Task.{State}
use libpssh.Loop.{Occurrence, fires, answers, Call}
use libpssh.Loop.Cases.{
  FiresTo, connection, task, AnswersTo, answer, fires_to, answers_to, released,
}
use libpssh.Loop.Dispatch.{dispatch, event_base_loop, local_of}
use libpssh.Loop.Connect.{connect_round}
use libpssh.Loop.Connect.Fair.{is_legal, is_useful, all_legal, some_useful, is_fair}
use libpssh.Loop.Connect.Progress.{NoTasks, dispatch-Nears, late_returns}
use libpssh.Loop.Connect.Results.{round_returns}
use libpssh.Loop.Connect.Settled.{IsEnded}

abbrev can_write : Fired
can_write = record { timed_out = false; readable = false; writable = true }

-- All entries have come to their end, or one that has not stands somewhere.
abbrev Searched : List Entry → Type 0
Searched es =
    All IsEnded es
    ⊎ ((i : ℕ) × (e : Entry) × (get_elem? es i ≡ some e)
        × (is_connected e.stat ≡ false)
        × (is_error e.stat ≡ false))

one_more : (e : Entry) (es : List Entry) → IsEnded e → Searched es → Searched (e ∷ es)
one_more e es v (inl all) = inl (v, all)
one_more e es v (inr (i, x, at, up, down)) = inr (suc i, x, at, up, down)

search_ended : (es : List Entry) → Searched es
search_ended [] = inl tt
search_ended (e ∷ es) =
    let rest = search_ended es in
    elim (Bool-cases (is_connected e.stat)) [
      | inl up ↦ one_more e es (inl up) rest
      | inr not_up ↦ elim (Bool-cases (is_error e.stat)) [
        | inl down ↦ one_more e es (inr (ground arith)) rest
        | inr not_down ↦ inr (0, e, refl, not_up, not_down)
      ]
    ]

module _ {W : Type 0} where
  abbrev pub AllAwake : State W → Type 0
  AllAwake s = All IsAwake s.session.entries

  -- What can happen to an awake entry that has not come to its end.
  useful_at :
      (s : State W) (i : ℕ) (e : Entry)
      → get_elem? s.session.entries i ≡ some e
      → IsAwake e
      → is_connected e.stat ≡ false
      → is_error e.stat ≡ false
      → (o : Occurrence) × (is_legal s o ≡ true) × (is_useful s o ≡ true)
  unfolding is_legal is_useful
  useful_at s i e at awake up down = elim (Bool-cases (is_useful s (fires i can_write))) [
    | inl useful ↦ (fires i can_write, refl, useful)
    | inr useless ↦ (answers i true (some (pos 0)), ground arith, refl)
  ]

module _ {W : Type 0} (env : Env W) where
  -- While pssh_connect goes on and every entry is awake, something useful can happen.
  awake_useful :
      (s : State W)
      → AllAwake s
      → connect_round env s ≡ none
      → (o : Occurrence) × (is_legal s o ≡ true) × (is_useful s o ≡ true)
  awake_useful s awake going = elim (search_ended s.session.entries) [
    | inl all ↦ let (r, h) = round_returns env s all in absurd (cc)
    | inr (i, e, at, up, down) ↦
        useful_at s i e at (All-get IsAwake s.session.entries i awake at) up down
  ]

module _ {W : Type 0} (env : Env W) (fuel : ℕ) (added : EventsAdded env) (slow : NeverAtOnce env)
    (p : Patience env) where
  -- Every entry stays awake, or the session has timed out.
  pub dispatch-AllAwake :
      (s s' : State W) (o : Occurrence)
      → AllAwake s
      → NoTasks env fuel added p s
      → dispatch env fuel s o ≡ ok s'
      → AllAwake s' ⊎ (s'.session.core.is_timeout ≡ true)
  dispatch-AllAwake s s' (fires i type) awake quiet run = elim (fires_to env fuel s s' i type run) [
    | FiresTo.nothing same ↦ inl (subst AllAwake same awake)
    | connection e l at held ran same ↦
        let one = All-get IsAwake s.session.entries i awake at in
        elim (handler-IsAwake env added slow (local_of s (released e)) l type (ground arith)
          (ground arith) ran) [
            | inl woke ↦
                inl (subst AllAwake same (All-set IsAwake s.session.entries i l.ent awake woke))
            | inr late ↦ inr (ground arith)
          ]
    | task e k t u at held there ran same ↦
        absurd (All-get HasNoTask s.session.entries i quiet at k held)
  ]
  dispatch-AllAwake s s' (answers i found addr) awake quiet run =
      elim (answers_to env fuel s s' i found addr run) [
        | AnswersTo.nothing same ↦ inl (subst AllAwake same awake)
        | answer e l at ran same ↦ inl (
            subst AllAwake same (
              All-set IsAwake s.session.entries i l.ent awake
                (dns-IsAwake env added slow (local_of s e) l found addr ran)))
      ]

  -- Any legal occurrences, one after the other.
  pub data Course (s : State W) : State W → Type 0 where
    here : Course s s
    occurs :
        {u v : State W} (o : Occurrence)
        → Course s u
        → is_legal u o ≡ true
        → dispatch env fuel u o ≡ ok v
        → Course s v

  -- No task uses an event, and every entry is awake, or the session has timed out.
  abbrev Alive : State W → Type 0
  Alive s = NoTasks env fuel added p s × (AllAwake s ⊎ (s.session.core.is_timeout ≡ true))

  -- What may still happen, taken once, and then again.
  fair_after :
      (n : ℕ) (s s' : State W) (o : Occurrence)
      → connect_round env s ≡ none
      → is_legal s o ≡ true
      → is_useful s o ≡ true
      → dispatch env fuel s o ≡ ok s'
      → (oss : List (List Occurrence)) × (length oss ≡ n) × (is_fair env fuel s' oss ≡ true)
      → (oss : List (List Occurrence)) × (length oss ≡ suc n) × (is_fair env fuel s oss ≡ true)
  unfolding is_fair all_legal some_useful event_base_loop
  fair_after n s s' o going legal useful run (oss, long, fair) =
      ((o ∷ []) ∷ oss, ap suc long, ground (arith, run))

  -- Once a round returns, nothing more is owed.
  fair_end :
      (n : ℕ) (s : State W) (r : Call (State W))
      → connect_round env s ≡ some r
      → (oss : List (List Occurrence)) × (length oss ≡ n) × (is_fair env fuel s oss ≡ true)
  unfolding is_fair
  fair_end zero s r h = ([], refl, refl)
  fair_end (suc n) s r h =
      let (oss, long, fair) = fair_end n s r h in ([] ∷ oss, ap suc long, rw (h, is_fair) refl)

  -- From any state with every entry awake and no task on an event, fair occurrences of any length exist.
  pub fair_exists :
      (n : ℕ) (s : State W)
      → AllAwake s
      → NoTasks env fuel added p s
      → (oss : List (List Occurrence)) × (length oss ≡ n) × (is_fair env fuel s oss ≡ true)
  unfolding is_fair
  fair_exists zero s awake quiet = ([], refl, refl)
  fair_exists (suc n) s awake quiet = elim (Option-cases (connect_round env s)) [
    | inr (r, h) ↦ fair_end (suc n) s r h
    | inl going ↦
        let (o, legal, useful) = awake_useful env s awake going in
        let (s', run, near) = dispatch-Nears env fuel added p s o quiet legal in
        elim (dispatch-AllAwake s s' o awake quiet run) [
          | inl awake' ↦
              fair_after n s s' o going legal useful run (fair_exists n s' awake' near.no_task)
          | inr late ↦
              let (r, h) = late_returns env fuel added p s' s'.session.entries refl late in
              fair_after n s s' o going legal useful run (fair_end n s' r h)
        ]
  ]
