-- ===== src/Examples/Owners.antt =====
-- Two commands on one server in the small world (src/task.c): one of them gets its channel.
use libpssh.Prelude.{◌≡◌, refl, pos, none, some, true, false, [], ◌∷◌, ok, arith}
use libpssh.Env.{Fired}
use libpssh.Session as S
use libpssh.Session.{Entry, task_handler}
use libpssh.Task.{TaskStat, exec, Task, State, take_channel}
use libpssh.Task.Api.{add_task, pssh_find_ent, find_from, pssh_task_list_init, pssh_task_list_free}
use libpssh.Task.Events.{pssh_task_event_update}
use libpssh.Task.Exec.{pssh_task_run_exec_task, pssh_task_get_exec_channel}
use libpssh.Task.Fsm.{pssh_task_event_handler, pssh_task_fsm}
use libpssh.Task.Shared.{IsShared}
use libpssh.Loop.{fires, running, success}
use libpssh.Loop.Dispatch.{dispatch}
use libpssh.Loop.Exec.{exec_round, exec_walk, classify}
use libpssh.Loop.Owner.{OwnedState, Owns, is_between}
use libpssh.Loop.Owner.Steps.{
  TaskRun, here, goes_on, adds, fired, execs, others_wait, between-Owns, list_init-Owned,
}
use libpssh.Session.Own.{HasNoTask}
use libpssh.Prelude.{get_elem?, str_eq, ℕ, zero, suc, All, All-get}
use libpssh.Loop.Owner.Quiet.{quiet_end}
use libpssh.Examples.Sim.{Sim, sim, server, session, command, task, state}

abbrev writable : Fired
writable = record { timed_out = false; readable = false; writable = true }

abbrev up : Entry
up = server S.connected

abbrev fresh : Task
fresh = record (task TaskStat.idle (exec command)) { channel = none }

abbrev begun : Task
begun = record fresh { stat = TaskStat.start }

abbrev ready : Task
ready = task TaskStat.channel_ready (exec command)

abbrev taken : Entry
taken = record up { ev_up = true; pending = some (task_handler 0) }

abbrev empty : State Sim
empty = state (up ∷ []) []

abbrev queued : State Sim
queued = state (up ∷ []) (fresh ∷ fresh ∷ [])

abbrev launched : State Sim
launched = state (taken ∷ []) (begun ∷ begun ∷ [])

abbrev at_work : State Sim
at_work = state (record taken { ev_type = writable } ∷ []) (ready ∷ begun ∷ [])

add_test :
    add_task (state (up ∷ []) (fresh ∷ [])) (115 ∷ 118 ∷ []) (exec command) (pos 10)
    ≡ ok (pos 0, some queued)
unfolding add_task pssh_find_ent find_from str_eq
add_test = refl

first_test :
    add_task empty (115 ∷ 118 ∷ []) (exec command) (pos 10)
    ≡ ok (pos 0, some (state (up ∷ []) (fresh ∷ [])))
unfolding add_task pssh_find_ent find_from str_eq
first_test = refl

launch_test : exec_round sim queued ≡ ok (none, launched)
unfolding exec_round exec_walk classify pssh_task_event_update
launch_test = refl

work_test : dispatch sim 0 launched (fires 0 writable) ≡ ok at_work
unfolding dispatch pssh_task_event_handler pssh_task_fsm pssh_task_run_exec_task
    pssh_task_get_exec_channel take_channel pssh_task_event_update
work_test = refl

work : TaskRun sim 0 empty at_work
work =
    goes_on
      (goes_on
        (goes_on (goes_on here (adds (115 ∷ 118 ∷ []) (exec command) (pos 10) (pos 0, first_test)))
          (adds (115 ∷ 118 ∷ []) (exec command) (pos 10) (pos 0, add_test)))
        (execs none launch_test))
      (fired 0 writable work_test)

up-IsShared : IsShared up
up-IsShared = record {
  sound = record {
    held = λ n. absurd (n refl);
    resting = λ r. λ e. cc;
    started = λ h. refl;
    no_wait_resolve = λ e. cc;
    no_wait_sess = λ e. cc;
  };
  owner = λ k e. refl;
}

empty-Owned : OwnedState empty
unfolding pssh_task_list_init
empty-Owned = list_init-Owned (session (up ∷ [])) (up-IsShared, tt) ((λ k e. cc), tt)

others_wait_example : is_between begun.stat ≡ false
others_wait_example =
    others_wait sim 0 (λ w s i t. refl) empty at_work 0 1 ready begun empty-Owned work refl refl
      refl (λ e. omega (arith, e)) refl

between-Owns_example : Owns at_work.session.entries 0 ready
between-Owns_example =
    between-Owns sim 0 (λ w s i t. refl) empty at_work 0 ready empty-Owned work refl refl

-- A command that is done, its report, and the end of the list.
abbrev over : State Sim
over = state (up ∷ []) (task TaskStat.done (exec command) ∷ [])

abbrev told : State Sim
told = state (up ∷ []) (record (task TaskStat.done (exec command)) { is_reported = true } ∷ [])

over-Owned : OwnedState over
over-Owned = record {
  shared = (up-IsShared, tt);
  owner = λ i e k at held. absurd (All-get HasNoTask (up ∷ []) i ((λ k e. cc), tt) at k held);
  between = λ k t at busy. absurd (calm k t at busy);
}
  where
    calm : (k : ℕ) (t : Task) → get_elem? over.tasks k ≡ some t → is_between t.stat ≡ true → ⊥
    calm zero t at busy = ground arith
    calm (suc k) t at busy = cc

report_test : exec_round sim over ≡ ok (some (running, some 0), told)
unfolding exec_round exec_walk classify
report_test = refl

success_test : exec_round sim told ≡ ok (some (success, none), told)
unfolding exec_round exec_walk classify
success_test = refl

free_test : pssh_task_list_free (some told) ≡ some told.session
unfolding pssh_task_list_free
free_test = refl

quiet_end_example : All HasNoTask told.session.entries
quiet_end_example =
    quiet_end sim 0 (λ w s i t. refl) over told told none told.session over-Owned
      (goes_on here (execs (some (running, some 0)) report_test)) success_test free_test
