-- ===== src/Loop/Owner/Steps.antt =====
-- The life of a task list as steps: tasks are added, events fire, evdns answers, pssh_exec goes its
-- rounds (src/task.c).
use mathlib.Core.Path.{subst}
use libpssh.Prelude.{
  ℕ, zero, suc, ℤ, ◌≡◌, ◌≢◌, ◌⊎◌, inl, inr, refl, Bool, true, false, List, [], ◌∷◌, ◌++◌, Option,
  none, some, ltb, length, Bool-cases, All-get, get_elem?, All, ok, arith,
}
use libpssh.Env.{Env, Fired}
use libpssh.Session.{Entry, Session, idle}
use libpssh.Session.Sound.{EventsAdded}
use libpssh.Task.{TaskStat, Task, Payload, State}
use libpssh.Task.Api.{add_task, pssh_find_ent, seconds, pssh_task_list_init}
use libpssh.Session.Api.{hostaddr_len}
use libpssh.Session.Own.{HasNoTask}
use libpssh.Task.Shared.{IsShared}
use libpssh.Loop.{fires, answers, Ret}
use libpssh.Loop.Dispatch.{dispatch}
use libpssh.Loop.Exec.{exec_round}
use libpssh.Loop.Exec.Owner.{exec_round-Owned}
use libpssh.Loop.Owner.{Owned, OwnedState, Owns, is_between, one_between}
use libpssh.Loop.Owner.Events.{fires-Owned, answers-Owned}

module _ {W : Type 0} (env : Env W) (fuel : ℕ) where
  -- One step. Every function that adds a task ends in `add_task`.
  pub data TaskStep (s : State W) : State W → Type 0 where
    adds :
        {s' : State W} (srv : List ℕ) (payload : Payload) (timeout_sec : ℤ)
        → ((r : ℤ) × (add_task s srv payload timeout_sec ≡ ok (r, some s')))
        → TaskStep s s'
    fired :
        {s' : State W} (i : ℕ) (type : Fired)
        → dispatch env fuel s (fires i type) ≡ ok s'
        → TaskStep s s'
    answered :
        {s' : State W} (i : ℕ) (e : Entry) (found : Bool) (addr : Option ℤ)
        → get_elem? s.session.entries i ≡ some e
        → e.stat ≡ idle
        → dispatch env fuel s (answers i found addr) ≡ ok s'
        → TaskStep s s'
    execs :
        {s' : State W} (o : Option (Ret × Option ℕ)) → exec_round env s ≡ ok (o, s') → TaskStep s s'

  pub data TaskRun (s : State W) : State W → Type 0 where
    here : TaskRun s s
    goes_on : {u v : State W} → TaskRun s u → TaskStep u v → TaskRun s v

module _ {W : Type 0} where
  -- A list that has just been made, for a session whose events are no task's.
  pub list_init-Owned :
      (sess : Session W)
      → All IsShared sess.entries
      → All HasNoTask sess.entries
      → OwnedState (pssh_task_list_init sess)
  unfolding pssh_task_list_init
  list_init-Owned sess all quiet = record {
    shared = all;
    owner = λ i e k at held. absurd (All-get HasNoTask sess.entries i quiet at k held);
    between = λ k t at busy. absurd (cc);
  }

-- A task behind the others is the last, or one of them.
append_cases :
    (ts : List Task) (t u : Task) (k : ℕ)
    → get_elem? (ts ++ t ∷ []) k ≡ some u
    → (u ≡ t) ⊎ (get_elem? ts k ≡ some u)
append_cases [] t u zero h = inl cc
append_cases [] t u (suc k) h = cc
append_cases (x ∷ ts) t u zero h = inr h
append_cases (x ∷ ts) t u (suc k) h = append_cases ts t u k h

append_keeps :
    (ts : List Task) (t u : Task) (k : ℕ)
    → get_elem? ts k ≡ some u
    → get_elem? (ts ++ t ∷ []) k ≡ some u
append_keeps [] t u k h = cc
append_keeps (x ∷ ts) t u zero h = h
append_keeps (x ∷ ts) t u (suc k) h = append_keeps ts t u k h

pub add-Owned :
    (es : List Entry) (ts : List Task) (t : Task)
    → Owned es ts
    → is_between t.stat ≡ false
    → Owned es (ts ++ t ∷ [])
add-Owned es ts t v calm = record {
  shared = v.shared;
  owner = λ i e k at held.
      let (u, there, to, alive) = v.owner i e k at held in
      (u, append_keeps ts t u k there, to, alive);
  between = λ k u at busy. elim (append_cases ts t u k at) [
    | inl new ↦ absurd (ground arith)
    | inr old ↦ v.between k u old busy
  ];
}

module _ {W : Type 0} (env : Env W) (fuel : ℕ) (added : EventsAdded env) where
  step-Owned : (s s' : State W) → OwnedState s → TaskStep env fuel s s' → OwnedState s'
  unfolding add_task
  step-Owned s s' v (adds srv payload timeout_sec (r, h)) =
      let t : Task = record {
        hostname = srv;
        is_reported = false;
        sess_entry = pssh_find_ent s.session.entries srv;
        stat = TaskStat.idle;
        channel = none;
        payload = payload;
        timeout = seconds timeout_sec;
      } in
      elim (Bool-cases (ltb (length srv) hostaddr_len)) [
        | inr full ↦ absurd (ground arith)
        | inl room ↦
            let same : record s { tasks = s.tasks ++ t ∷ [] } ≡ s' = ground arith in
            subst OwnedState same (add-Owned s.session.entries s.tasks t v refl)
      ]
  step-Owned s s' v (fired i type h) = fires-Owned env fuel added s s' i type v h
  step-Owned s s' v (answered i e found addr at z h) =
      answers-Owned env fuel added s s' i found addr e v at z h
  step-Owned s s' v (execs o h) = exec_round-Owned env added s s' o v h

  pub run-Owned : (s s' : State W) → OwnedState s → TaskRun env fuel s s' → OwnedState s'
  run-Owned s s' v here = v
  run-Owned s s' v (goes_on run step) = step-Owned _ s' (run-Owned s _ v run) step

  -- A server works on one task at a time: when event_add succeeds, whatever tasks are added, whatever
  -- events fire, whatever evdns answers for names being looked up and however many rounds pssh_exec goes,
  -- while one task of a server is between two steps, no other task of that server is.
  pub others_wait :
      (s s' : State W) (j k : ℕ) (t u : Task)
      → OwnedState s
      → TaskRun env fuel s s'
      → get_elem? s'.tasks j ≡ some t
      → get_elem? s'.tasks k ≡ some u
      → t.sess_entry ≡ u.sess_entry
      → j ≢ k
      → is_between t.stat ≡ true
      → is_between u.stat ≡ false
  others_wait s s' j k t u v run at at' same apart busy = elim (Bool-cases (is_between u.stat)) [
    | inr calm ↦ calm
    | inl busy' ↦ absurd (
        apart (
          one_between s'.session.entries s'.tasks j k t u (run-Owned s s' v run) at at' busy busy'
            same))
  ]

  -- No task is forgotten: in every such state, libevent holds the event of the server of a task that is
  -- between two steps, and holds it for that task.
  pub between-Owns :
      (s s' : State W) (k : ℕ) (t : Task)
      → OwnedState s
      → TaskRun env fuel s s'
      → get_elem? s'.tasks k ≡ some t
      → is_between t.stat ≡ true
      → Owns s'.session.entries k t
  between-Owns s s' k t v run = (run-Owned s s' v run).between k t
