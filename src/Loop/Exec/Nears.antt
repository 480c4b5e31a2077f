-- ===== src/Loop/Exec/Nears.antt =====
-- What the occurrences that libevent and evdns report while pssh_exec (src/task.c) runs do to the steps
-- that its tasks are from their ends.
use libpssh.Prelude.{
  ℕ, zero, suc, ◌+◌, ◌<◌, ◌≤◌, ◌≡◌, inl, inr, refl, Bool, true, false, ◌||◌, Bool-cases,
  Option-cases, List, [], ◌∷◌, Option, none, some, get_elem?, set, All, All-get, All-set, ok, arith,
}
use libpssh.Env.{Env, Fired}
use libpssh.Session.{Entry, idle, Local, conn_handler, task_handler, Handler}
use libpssh.Session.Cost.Moves.{Moved, handler-Moved, dns-Moved}
use libpssh.Session.Own.{HasNoTask}
use libpssh.Session.Sound.{EventsAdded}
use libpssh.Task.{Task, TaskLocal, State}
use libpssh.Task.Shared.{task_handler_keeps, task_handler-stat}
use libpssh.Task.Thrift.{Thrift}
use libpssh.Task.Cost.{task_weight, is_live, Fits, Fits-le, patience}
use libpssh.Task.Cost.Moves as T
use libpssh.Loop.{Occurrence, fires, answers}
use libpssh.Loop.Callbacks.{idle-no_event}
use libpssh.Loop.Cases.{released, task_local}
use libpssh.Loop.Dispatch.{dispatch, event_base_loop, local_of, put_local, put_task}
use libpssh.Loop.Connect.Fair.{is_legal, all_legal}
use libpssh.Loop.Connect.Progress.{total_weight, total-set}
use libpssh.Loop.Exec.Fair.{is_for_live, is_service, some_service}
use libpssh.Loop.Owner.{OwnedState}
use libpssh.Loop.Owner.Events.{fires-Owned, answers-Owned}

-- The steps that the tasks are from their ends at most, together.
unfoldable pub tasks_weight : ℕ → List Task → ℕ
tasks_weight m [] = 0
tasks_weight m (t ∷ ts) = task_weight m t + tasks_weight m ts

tasks-set :
    (m : ℕ) (ts : List Task) (k : ℕ) (t v : Task)
    → get_elem? ts k ≡ some t
    → tasks_weight m (set ts k v) + task_weight m t ≡ tasks_weight m ts + task_weight m v
unfolding tasks_weight
tasks-set m [] k t v at = cc
tasks-set m (x ∷ ts) zero t v at = ground (arith, at)
tasks-set m (x ∷ ts) (suc k) t v at = omega (arith, tasks-set m ts k t v at)

pub All-Fits-le :
    (fs : ℕ → Bool) (m p q : ℕ) (ts : List Task)
    → q ≤ p
    → All (Fits fs m p) ts
    → All (Fits fs m q) ts
All-Fits-le fs m p q [] le a = tt
All-Fits-le fs m p q (t ∷ ts) le a = (Fits-le fs m p q t le a.0, All-Fits-le fs m p q ts le a.1)

module _ {W : Type 0} (env : Env W) (fuel : ℕ) (added : EventsAdded env) (th : Thrift env) where
  abbrev pub P : State W → ℕ
  P s = patience env th s.session.world

  -- The steps that the list is from its end at most.
  abbrev pub distance : State W → ℕ
  distance s = total_weight s.session.entries + tasks_weight th.max_size s.tasks + P s

  -- The tasks are as they are between two steps, and none takes the event of another.
  pub record Ready (s : State W) : Type 0 where
    pub owned : OwnedState s
    pub fits : All (Fits th.is_file th.max_size (P s)) s.tasks

  -- What an occurrence does to the whole list.
  pub record Nears (s s' : State W) (useful : Bool) : Type 0 where
    pub ready : Ready s'
    pub calm : P s' ≤ P s
    pub falls : distance s' ≤ distance s
    pub nearer : useful ≡ true → distance s' < distance s

  -- A callback of a connection.
  conn-Nears :
      (s : State W) (i : ℕ) (e x : Entry) (l : Local W) (b : Bool)
      → get_elem? s.session.entries i ≡ some e
      → x.stat ≡ e.stat
      → Ready s
      → OwnedState (put_local s i l)
      → Moved env added th.conn (local_of s x) l b
      → Nears s (put_local s i l) false
  conn-Nears s i e x l b at same v owned m =
      let sum = total-set s.session.entries i e l.ent at in
      record {
        ready = record {
          owned = owned;
          fits = All-Fits-le th.is_file th.max_size (P s) _ s.tasks m.calm v.fits;
        };
        calm = m.calm;
        falls = ground (arith, sum, m.falls);
        nearer = λ u. cc;
      }

  -- The callback of a task.
  task-Nears :
      (s : State W) (i k : ℕ) (e : Entry) (t : Task) (u : TaskLocal W)
      → get_elem? s.session.entries i ≡ some e
      → get_elem? s.tasks k ≡ some t
      → u.self ≡ k
      → u.ent.stat ≡ e.stat
      → Ready s
      → OwnedState (put_task s i u)
      → T.Moved env th (task_local s k t (released e)) u
      → Nears s (put_task s i u) (is_live t.stat)
  task-Nears s i k e t u at there self same v owned m =
      let sum = total-set s.session.entries i e u.ent at in
      let sum' = tasks-set th.max_size s.tasks k t u.task there in
      record {
        ready = record {
          owned = owned;
          fits = rw self (
              All-set (Fits th.is_file th.max_size _) s.tasks k u.task
                (All-Fits-le th.is_file th.max_size (P s) _ s.tasks m.calm v.fits) m.fits);
        };
        calm = m.calm;
        falls = rw self (ground (arith, sum, sum', same, m.falls));
        nearer = λ live. rw self (ground (arith, sum, sum', same, m.nearer live));
      }

  stays : (s : State W) → Ready s → Nears s s false
  stays s v = record { ready = v; calm = omega arith; falls = omega arith; nearer = λ u. cc }

  -- Enough fuel for the longest file and for all the patience.
  abbrev pub IsEnough : State W → Type 0
  IsEnough s = (th.max_size ≤ fuel) × (P s < fuel)

  fires-Nears :
      (s : State W) (i : ℕ) (type : Fired) (e : Entry) (h : Option Handler)
      → IsEnough s
      → Ready s
      → get_elem? s.session.entries i ≡ some e
      → e.pending ≡ h
      → (s' : State W) × (dispatch env fuel s (fires i type) ≡ ok s')
        × Nears s s' (is_for_live s.tasks h)
  unfolding dispatch
  fires-Nears s i type e none enough v at held = (s, ground arith, stays s v)
  fires-Nears s i type e (some conn_handler) enough v at held =
      let (l, ran, m) = handler-Moved env added th.conn (local_of s (released e)) type (λ k. cc) in
      let done : dispatch env fuel s (fires i type) ≡ ok (put_local s i l) = ground (arith, ran) in
      (
        put_local s i l,
        done,
        conn-Nears s i e (released e) l _ at refl v
            (fires-Owned env fuel added s _ i type v.owned done) m,
      )
  fires-Nears s i type e (some (task_handler k)) enough v at held =
      let (t, there, to, begun) = v.owned.owner i e k at held in
      let fits = All-get (Fits th.is_file th.max_size (P s)) s.tasks k v.fits there in
      let me = task_local s k t (released e) in
      let (u, ran, m) = T.task_handler-Moved env th fuel me type enough.0 enough.1 begun.1 fits in
      let done : dispatch env fuel s (fires i type) ≡ ok (put_task s i u) = ground (arith, ran) in
      let (self, told) = task_handler_keeps env fuel me u type ran in
      let same = task_handler-stat env fuel me u type ran in
      (
        put_task s i u,
        done,
        rw (there, is_for_live)
            (task-Nears s i k e t u at there self same v
              (fires-Owned env fuel added s _ i type v.owned done) m),
      )

  pub dispatch-Nears :
      (s : State W) (o : Occurrence)
      → IsEnough s
      → Ready s
      → is_legal s o ≡ true
      → (s' : State W) × (dispatch env fuel s o ≡ ok s') × Nears s s' (is_service s o)
  unfolding dispatch is_legal is_service
  dispatch-Nears s (fires i type) enough v legal =
      elim (Option-cases (get_elem? s.session.entries i)) [
        | inl lost ↦ (s, rw lost, rw (lost, is_service) (stays s v))
        | inr (e, at) ↦
            let (s', ran, n) = fires-Nears s i type e e.pending enough v at refl in
            (s', ran, rw (at, is_service) n)
      ]
  dispatch-Nears s (answers i found addr) enough v legal =
      elim (Option-cases (get_elem? s.session.entries i)) [
        | inl lost ↦ absurd (ground arith)
        | inr (e, at) ↦
            let z : e.stat ≡ idle = ground arith in
            let shared = All-get _ s.session.entries i v.owned.shared at in
            let quiet : HasNoTask e = λ k. rw (idle-no_event e shared z) cc in
            let (l, ran, m) =
              dns-Moved env added th.conn (local_of s e) found addr quiet z (ground arith) in
            let done : dispatch env fuel s (answers i found addr) ≡ ok (put_local s i l) =
              rw (at, ran) in
            (
              put_local s i l,
              done,
              conn-Nears s i e e l _ at refl v
                  (answers-Owned env fuel added s _ i found addr e v.owned at z done) m,
            )
      ]

  pub then-Nears : (s u v : State W) (a b : Bool) → Nears s u a → Nears u v b → Nears s v (a || b)
  then-Nears s u v a b m n = record {
    ready = n.ready;
    calm = omega (arith, m.calm, n.calm);
    falls = omega (arith, m.falls, n.falls);
    nearer = λ h. elim (Bool-cases a) [
      | inl first ↦ omega (arith, m.nearer first, n.falls)
      | inr not_first ↦ omega (arith, n.nearer (ground arith), m.falls)
    ];
  }

  pub loop-Nears :
      (s : State W) (os : List Occurrence)
      → IsEnough s
      → Ready s
      → all_legal env fuel s os ≡ true
      → (s' : State W) × (event_base_loop env fuel s os ≡ ok s')
        × Nears s s' (some_service env fuel s os)
  unfolding event_base_loop all_legal some_service
  loop-Nears s [] enough v legal = (s, refl, stays s v)
  loop-Nears s (o ∷ os) enough v legal =
      let (u, ran, m) = dispatch-Nears s o enough v (ground arith) in
      let (x, rest, n) =
        loop-Nears u os (enough.0, omega (arith, enough.1, m.calm)) m.ready (ground (arith, ran)) in
      (x, rw ran rest, rw (ran, some_service) (then-Nears s u x _ _ m n))
