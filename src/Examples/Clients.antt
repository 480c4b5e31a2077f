-- ===== src/Examples/Clients.antt =====
-- A client (example/ex1.c) in the small world: what it reports, and the command `ls` on one server.
use libpssh.Prelude.{str_eq, true, false, ◌≡◌, refl, pos, none, some, List, [], ◌∷◌, All, length}
use libpssh.Env.{Fired}
use libpssh.Session as S
use libpssh.Session.{idle, error, Entry}
use libpssh.Session.Fsm.{pssh_fsm, pssh_event_handler, pssh_dns_cb}
use libpssh.Session.Events.{pssh_event_update}
use libpssh.Session.Api.{pssh_init, pssh_server_add}
use libpssh.Task.{take_channel, TaskStat, exec, State}
use libpssh.Task.Api.{
  pssh_task_stat, pssh_task_list_init, pssh_add_cmd, add_task, pssh_find_ent, find_from,
  pssh_task_first, pssh_task_stdout, pssh_task_stderr,
}
use libpssh.Task.Fsm.{pssh_task_event_handler, pssh_task_fsm}
use libpssh.Task.Events.{pssh_task_event_update}
use libpssh.Task.Exec.{
  pssh_task_run_exec_task, cmd_loop, pssh_task_read_stream, pssh_task_get_exec_channel,
  pssh_task_do_cmd, read_both, pssh_task_read_stderr, first_alloc, append_read,
  pssh_task_read_stdout, map_read, pssh_task_cleanup_exec,
}
use libpssh.Loop.{Occurrence, answers, fires, returned, success}
use libpssh.Loop.Dispatch.{event_base_loop, dispatch}
use libpssh.Loop.Connect.{pssh_connect, connect_loop, connect_round, connect_walk}
use libpssh.Loop.Connect.Settled.{IsReported}
use libpssh.Loop.Exec.{pssh_exec, exec_round, exec_walk, classify}
use libpssh.Loop.Marks.{entry_marks, task_marks}
use libpssh.Client.{by_call, connect_all, exec_all, poll, prints, main, name_of_stat}
use libpssh.Client.Poll.{IsUnset, Distinct}
use libpssh.Client.Reports.{
  unreported, connect_all-Distinct, connect_all_success, exec_all-Distinct,
}
use libpssh.Examples.Sim.{Sim, sim, busy, server, command, task, state}

abbrev writable : Fired
writable = record { timed_out = false; readable = false; writable = true }

abbrev connects : List (List (List Occurrence))
connects =
    ((answers 0 true (some (pos 1)) ∷ [])
      ∷ (fires 0 writable ∷ [])
      ∷ (fires 0 writable ∷ fires 0 writable ∷ [])
      ∷ [])
    ∷ []
    ∷ []

-- One server that is being looked up.
abbrev before : State Sim
before = state (server idle ∷ []) []

connect_all-Distinct_example :
    All (IsUnset (entry_marks before)) (connect_all sim 0 before 30 connects).0
    × Distinct (connect_all sim 0 before 30 connects).0
connect_all-Distinct_example = connect_all-Distinct sim 0 before 30 connects

-- Two servers are connected already, and one of them is reported.
abbrev two : State Sim
two = state (server S.connected ∷ record (server S.connected) { is_reported = true } ∷ []) []

abbrev two_told : State Sim
two_told =
    state
      (record (server S.connected) { is_reported = true }
        ∷ record (server S.connected) { is_reported = true }
        ∷ [])
      []

two_test : connect_all sim 0 two 30 ([] ∷ [] ∷ [] ∷ []) ≡ (
  some 0 ∷ [],
  by_call (
      returned success none (record two_told {
        session = record two_told.session { core = record two_told.session.core { timeout = 30 } };
      })),
)
unfolding connect_all poll pssh_connect connect_loop connect_round connect_walk
two_test = refl

abbrev two_after : State Sim
two_after = record two_told {
  session = record two_told.session { core = record two_told.session.core { timeout = 30 } };
}

connect_all_success_example :
    All IsReported two_after.session.entries
    × (length (connect_all sim 0 two 30 ([] ∷ [] ∷ [] ∷ [])).0 ≡ unreported two)
connect_all_success_example =
    connect_all_success sim 0 two two_after 30 ([] ∷ [] ∷ [] ∷ []) none (λ i. (two_test i).1)

-- A task that is done and one that has failed.
abbrev worked : State Sim
worked =
    state (server S.connected ∷ [])
      (task TaskStat.done (exec command) ∷ task TaskStat.error (exec command) ∷ [])

exec_all-Distinct_example :
    All (IsUnset (task_marks worked)) (exec_all sim 0 worked ([] ∷ [] ∷ [] ∷ [])).0
    × Distinct (exec_all sim 0 worked ([] ∷ [] ∷ [] ∷ [])).0
exec_all-Distinct_example = exec_all-Distinct sim 0 worked ([] ∷ [] ∷ [] ∷ [])

-- The name of a task that is done is past the table of example/ex.c.
stat_past_table_test : name_of_stat (task TaskStat.done (exec command)) ≡ none
unfolding name_of_stat pssh_task_stat
stat_past_table_test = refl

-- The whole program: the server is connected, the command is launched, and what it wrote is printed.
abbrev execs : List (List (List Occurrence))
execs =
    ((fires 0 writable ∷ [])
      ∷ (fires 0 writable ∷ [])
      ∷ (fires 0 writable ∷ [])
      ∷ (fires 0 writable ∷ [])
      ∷ [])
    ∷ []
    ∷ []

main_test :
    main sim 9 busy (115 ∷ 118 ∷ []) 30 (108 ∷ 115 ∷ []) connects execs
    ≡ prints
        (record { ret = success; calls = 2; out = some (104 ∷ 105 ∷ []); err = some (33 ∷ []) })
unfolding main connect_all exec_all poll pssh_init pssh_server_add pssh_task_list_init pssh_add_cmd
    add_task pssh_find_ent find_from pssh_connect connect_loop connect_round connect_walk
    event_base_loop dispatch pssh_dns_cb pssh_event_handler pssh_fsm pssh_event_update pssh_exec
    exec_round exec_walk classify pssh_task_event_handler pssh_task_fsm pssh_task_event_update
    pssh_task_run_exec_task cmd_loop pssh_task_read_stream pssh_task_first pssh_task_stdout
    pssh_task_stderr str_eq pssh_task_get_exec_channel take_channel pssh_task_do_cmd read_both
    pssh_task_read_stderr first_alloc append_read pssh_task_read_stdout map_read
    pssh_task_cleanup_exec
main_test = refl
