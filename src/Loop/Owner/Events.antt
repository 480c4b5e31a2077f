-- ===== src/Loop/Owner/Events.antt =====
-- What the callbacks do to the owner of an event: a callback of a task leaves the event to that task or
-- to none, a callback of a connection to none.
use mathlib.Core.Path.{subst}
use libpssh.Prelude.{
  ℕ, ℤ, ◌≡◌, ◌≢◌, inl, inr, refl, sym, ap, ◌∙◌, Bool, true, Bool-cases, Option, none, some,
  get_elem?, All-get, ok, arith,
}
use libpssh.Env.{Env, Fired}
use libpssh.Session.{Entry, idle, task_handler}
use libpssh.Session.Own.{HasNoTask, handler-HasNoTask, dns-HasNoTask}
use libpssh.Session.Sound.{EventsAdded}
use libpssh.Task.{TaskStat, TaskLocal, State}
use libpssh.Task as T
use libpssh.Task.Graph.{Edge, stay, fail, open_channel, start_cmd, collect, finish, move, give_back}
use libpssh.Task.Done.{done_lets_go}
use libpssh.Task.Events.{pssh_task_event_update, pssh_task_eagain_handle}
use libpssh.Task.Fsm.{only_timed_out, rearm, pssh_task_event_handler}
use libpssh.Task.Shared.{IsShared, task_handler_keeps}
use libpssh.Task.Wakeup.{fsm_step, woken, handler-Step, task_handler_arms}
use libpssh.Loop.{fires, answers}
use libpssh.Loop.Callbacks.{AllShared, fires-AllShared, answers-AllShared, idle-no_event}
use libpssh.Loop.Cases.{
  released, task_local, FiresTo, connection, task, AnswersTo, answer, fires_to, answers_to,
}
use libpssh.Loop.Dispatch.{dispatch, local_of}
use libpssh.Loop.Owner.{OwnedState, is_between, set_entry-Owned, set_both-Owned}

-- No step leads back to a task that has not been started.
begun-Edge : {b : Bool} {s s' : TaskStat} → Edge b s s' → s ≢ T.idle → s' ≢ T.idle
begun-Edge stay begun = begun
begun-Edge fail begun = λ e. cc
begun-Edge open_channel begun = λ e. cc
begun-Edge start_cmd begun = λ e. cc
begun-Edge collect begun = λ e. cc
begun-Edge finish begun = λ e. cc
begun-Edge move begun = λ e. cc
begun-Edge give_back begun = λ e. cc

module _ {W : Type 0} (env : Env W) (fuel : ℕ) where
  rearm-own :
      (ret : ℤ) (u t' : TaskLocal W) (k : ℕ)
      → u.ent.pending ≡ none
      → rearm env (ret, u) ≡ t'
      → t'.ent.pending ≡ some (task_handler k)
      → k ≡ u.self
  unfolding rearm pssh_task_event_update pssh_task_eagain_handle
  rearm-own ret u t' k p h q = ground arith

  task_handler-own :
      (t t' : TaskLocal W) (type : Fired) (k : ℕ)
      → t.ent.pending ≡ none
      → pssh_task_event_handler env fuel t type ≡ ok t'
      → t'.ent.pending ≡ some (task_handler k)
      → k ≡ t.self
  unfolding pssh_task_event_handler
  task_handler-own t t' type k p h q = elim (Bool-cases (only_timed_out type)) [
    | inl late ↦ absurd (ground arith)
    | inr going ↦
        let (ret, u, same, edge, last) =
          fsm_step env fuel (woken t type) t' t.task.payload refl (rw going at h) in
        rearm-own ret u t' k (ground (arith, same)) last q ∙ same.same_self
  ]

  -- A task that is between two steps after its callback owns the event.
  between-own :
      (t t' : TaskLocal W) (type : Fired)
      → EventsAdded env
      → pssh_task_event_handler env fuel t type ≡ ok t'
      → is_between t'.task.stat ≡ true
      → t'.ent.pending ≡ some (task_handler t.self)
  between-own t t' type added h b = ground (arith, task_handler_arms env fuel t t' type added h)

module _ {W : Type 0} (env : Env W) (fuel : ℕ) (added : EventsAdded env) where
  pub fires-Owned :
      (s s' : State W) (i : ℕ) (type : Fired)
      → OwnedState s
      → dispatch env fuel s (fires i type) ≡ ok s'
      → OwnedState s'
  fires-Owned s s' i type v run =
      let all = fires-AllShared env fuel s s' i type v.shared run in
      elim (fires_to env fuel s s' i type run) [
        | FiresTo.nothing same ↦ subst OwnedState same v
        | connection e l at held ran same ↦ subst OwnedState same (
            set_entry-Owned s.session.entries s.tasks v i e l.ent at (λ k. rw held cc)
              (handler-HasNoTask env (local_of s (released e)) l type (λ k. cc) ran)
              (subst AllShared (sym same) all))
        | task e k t u at held there ran same ↦
            let me = task_local s k t (released e) in
            let (self, told) = task_handler_keeps env fuel me u type ran in
            let (edge, kept) = handler-Step env fuel me u type ran in
            let (mine, at', to, alive) = v.owner i e k at held in
            let one : mine ≡ t = ground arith in
            subst OwnedState same (
              rw self (
                set_both-Owned s.session.entries s.tasks v i e u.ent k t u.task at there
                  (ground arith) kept.same_server
                  (λ j q. inl (task_handler-own env fuel me u type j refl ran q))
                  (λ j other q. absurd (other (ground arith)))
                  (between-own env fuel me u type added ran)
                  (λ q. (
                    λ d. absurd (cc (done_lets_go env fuel me u type refl ran d)),
                    begun-Edge edge (λ d. alive.1 (ap (λ x. x.stat) one ∙ d)),
                  ))
                  (subst AllShared (sym same) all)))
      ]

  pub answers-Owned :
      (s s' : State W) (i : ℕ) (found : Bool) (addr : Option ℤ) (e : Entry)
      → OwnedState s
      → get_elem? s.session.entries i ≡ some e
      → e.stat ≡ idle
      → dispatch env fuel s (answers i found addr) ≡ ok s'
      → OwnedState s'
  answers-Owned s s' i found addr e v at z run =
      let all = answers-AllShared env fuel s s' i found addr e v.shared at z run in
      let empty = idle-no_event e (All-get IsShared s.session.entries i v.shared at) z in
      elim (answers_to env fuel s s' i found addr run) [
        | AnswersTo.nothing same ↦ subst OwnedState same v
        | answer x l there ran same ↦
            let one : x ≡ e = ground arith in
            let free : HasNoTask x = rw (one, empty) (λ k. cc) in
            subst OwnedState same (
              set_entry-Owned s.session.entries s.tasks v i x l.ent there free
                (dns-HasNoTask env (local_of s x) l found addr free ran)
                (subst AllShared (sym same) all))
      ]
