-- ===== src/Loop/Cases.antt =====
-- What one occurrence comes to, by what libevent holds of the entry (Loop.Dispatch).
use libpssh.Prelude.{
  ℕ, ℤ, ◌≡◌, refl, Bool, Option, none, some, get_elem?, Option-cases, inl, inr, ok, >>=-eq-ok,
  arith,
}
use libpssh.Env.{Env, Fired}
use libpssh.Session.{Entry, Local, Handler, conn_handler, task_handler}
use libpssh.Session.Fsm.{pssh_event_handler, pssh_dns_cb}
use libpssh.Task.{Task, TaskLocal, State}
use libpssh.Task.Fsm.{pssh_task_event_handler}
use libpssh.Loop.{fires, answers}
use libpssh.Loop.Dispatch.{dispatch, local_of, put_local, put_task}

-- What a callback is called with: the event is no longer held.
abbrev pub released : Entry → Entry
released e = record e { pending = none }

module _ {W : Type 0} where
  abbrev pub task_local : State W → ℕ → Task → Entry → TaskLocal W
  task_local s k t e = record { self = k; task = t; ent = e; world = s.session.world }

module _ {W : Type 0} (env : Env W) (fuel : ℕ) where
  -- An event fires: nothing holds it, or its callback is that of the connection or of a task.
  pub data FiresTo (s s' : State W) (i : ℕ) (type : Fired) : Type 0 where
    nothing : s ≡ s' → FiresTo s s' i type
    connection :
        (e : Entry) (l : Local W)
        → get_elem? s.session.entries i ≡ some e
        → e.pending ≡ some conn_handler
        → pssh_event_handler env (local_of s (released e)) type ≡ ok l
        → put_local s i l ≡ s'
        → FiresTo s s' i type
    task :
        (e : Entry) (k : ℕ) (t : Task) (u : TaskLocal W)
        → get_elem? s.session.entries i ≡ some e
        → e.pending ≡ some (task_handler k)
        → get_elem? s.tasks k ≡ some t
        → pssh_task_event_handler env fuel (task_local s k t (released e)) type ≡ ok u
        → put_task s i u ≡ s'
        → FiresTo s s' i type

  fires_held :
      (s s' : State W) (i : ℕ) (type : Fired) (e : Entry) (h : Option Handler)
      → get_elem? s.session.entries i ≡ some e
      → e.pending ≡ h
      → dispatch env fuel s (fires i type) ≡ ok s'
      → FiresTo s s' i type
  unfolding dispatch
  fires_held s s' i type e none at p run = nothing (ground arith)
  fires_held s s' i type e (some conn_handler) at p run =
      let (l, ran, rest) =
        >>=-eq-ok (pssh_event_handler env (local_of s (released e)) type)
          (λ l. ok (put_local s i l)) {result = s'} (ground arith) in
      connection e l at p ran (ground arith)
  fires_held s s' i type e (some (task_handler k)) at p run =
      elim (Option-cases (get_elem? s.tasks k)) [
        | inl missing ↦ absurd (ground arith)
        | inr (t, there) ↦
            let (u, ran, rest) =
              >>=-eq-ok (pssh_task_event_handler env fuel (task_local s k t (released e)) type)
                (λ u. ok (put_task s i u)) {result = s'} (ground arith) in
            task e k t u at p there ran (ground arith)
      ]

  pub fires_to :
      (s s' : State W) (i : ℕ) (type : Fired)
      → dispatch env fuel s (fires i type) ≡ ok s'
      → FiresTo s s' i type
  unfolding dispatch
  fires_to s s' i type h = elim (Option-cases (get_elem? s.session.entries i)) [
    | inl lost ↦ nothing (ground arith)
    | inr (e, at) ↦ fires_held s s' i type e e.pending at refl h
  ]

  -- evdns answers, for an entry or for none.
  pub data AnswersTo (s s' : State W) (i : ℕ) (found : Bool) (addr : Option ℤ) : Type 0 where
    nothing : s ≡ s' → AnswersTo s s' i found addr
    answer :
        (e : Entry) (l : Local W)
        → get_elem? s.session.entries i ≡ some e
        → pssh_dns_cb env (local_of s e) found addr ≡ ok l
        → put_local s i l ≡ s'
        → AnswersTo s s' i found addr

  pub answers_to :
      (s s' : State W) (i : ℕ) (found : Bool) (addr : Option ℤ)
      → dispatch env fuel s (answers i found addr) ≡ ok s'
      → AnswersTo s s' i found addr
  unfolding dispatch
  answers_to s s' i found addr h = elim (Option-cases (get_elem? s.session.entries i)) [
    | inl lost ↦ nothing (ground arith)
    | inr (e, at) ↦
        let (l, ran, rest) =
          >>=-eq-ok (pssh_dns_cb env (local_of s e) found addr) (λ l. ok (put_local s i l))
            {result = s'} (ground arith) in
        answer e l at ran (ground arith)
  ]
