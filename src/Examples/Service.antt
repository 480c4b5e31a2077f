-- ===== src/Examples/Service.antt =====
-- pssh_exec (src/task.c) and a client's loop around it in a world that is a count of what libssh2 will
-- still answer: a command with one byte of output on a server that is connected.
use libpssh.Prelude.{
  ℕ, ◌+◌, ◌≡◌, refl, pos, false, true, List, [], ◌∷◌, Option, none, some, length, str_eq, All, ok,
  arith,
}
use libpssh.Env.{Fired}
use libpssh.Session as S
use libpssh.Session.{Session, Entry}
use libpssh.Task.{State, exec, take_channel}
use libpssh.Task as T
use libpssh.Task.Api.{pssh_task_list_init, pssh_add_cmd, add_task, pssh_find_ent, find_from}
use libpssh.Task.Cost.{task_weight}
use libpssh.Task.Shared.{IsShared}
use libpssh.Task.Fsm.{pssh_task_event_handler, pssh_task_fsm, rearm}
use libpssh.Task.Events.{pssh_task_event_update}
use libpssh.Task.Exec.{
  pssh_task_run_exec_task, cmd_loop, pssh_task_read_stream, pssh_task_get_exec_channel,
  pssh_task_do_cmd, read_both, pssh_task_read_stderr, first_alloc, append_read,
  pssh_task_read_stdout, map_read, pssh_task_cleanup_exec,
}
use libpssh.Loop.{Occurrence, fires, Ret, running, returned}
use libpssh.Loop.Dispatch.{event_base_loop, dispatch}
use libpssh.Loop.Marks.{task_marks}
use libpssh.Loop.Connect.Fair.{all_legal, is_legal}
use libpssh.Loop.Connect.Progress.{total_weight}
use libpssh.Loop.Exec.{pssh_exec, exec_round, exec_walk, classify}
use libpssh.Loop.Exec.Fair.{is_served, some_service, is_service}
use libpssh.Loop.Exec.Nears.{Ready, tasks_weight}
use libpssh.Loop.Exec.Fresh.{list_init-Ready, add_cmd-Ready}
use libpssh.Loop.Exec.Progress.{Ensures, exec_served}
use libpssh.Loop.Exec.Over.{IsOver}
use libpssh.Client.{by_call, exec_all, ret_code}
use libpssh.Client.Poll.{unset}
use libpssh.Client.Returns.{all_fit}
use libpssh.Client.Served.{IsFinal, exec_all_returns}
use libpssh.Examples.Sim.{server, core, command, task}
use libpssh.Examples.Thrifty.{thrifty, thrifty-EventsAdded, thrifty-Thrift}

abbrev up : Entry
up = server S.connected

abbrev no_tasks : State ℕ
no_tasks = pssh_task_list_init (record { core = core; entries = up ∷ []; world = 4 })

-- The list with the command on the server.
abbrev before : State ℕ
before = record {
  session = record { core = core; entries = up ∷ []; world = 4 };
  tasks = record (task T.idle (exec command)) { channel = none; timeout = 10 } ∷ [];
  curr_task = T.unset;
}

add_test :
    pssh_add_cmd thrifty (some no_tasks) (some (115 ∷ 118 ∷ [])) (some (108 ∷ 115 ∷ [])) (pos 10)
    ≡ ok (pos 0, some before)
unfolding pssh_add_cmd add_task pssh_find_ent find_from pssh_task_list_init str_eq
add_test = refl

abbrev writable : Fired
writable = record { timed_out = false; readable = false; writable = true }

abbrev history : List (List Occurrence)
history = (fires 0 writable ∷ []) ∷ (fires 0 writable ∷ []) ∷ (fires 0 writable ∷ []) ∷ []

served_test : is_served thrifty 10 22 before history ≡ true
unfolding is_served some_service is_service all_legal is_legal exec_round exec_walk classify
    event_base_loop dispatch pssh_task_event_handler pssh_task_fsm pssh_task_event_update
    pssh_task_run_exec_task cmd_loop pssh_task_read_stream pssh_task_get_exec_channel
    pssh_task_do_cmd read_both pssh_task_read_stderr first_alloc append_read pssh_task_read_stdout
    map_read pssh_task_cleanup_exec take_channel rearm
served_test = refl

all_fit_test :
    all_fit (pssh_exec thrifty 10) running (is_served thrifty 10 22) before (history ∷ [] ∷ [])
    ≡ true
unfolding pssh_exec ret_code is_served some_service is_service all_legal is_legal exec_round
    exec_walk classify event_base_loop dispatch pssh_task_event_handler pssh_task_fsm
    pssh_task_event_update pssh_task_run_exec_task cmd_loop pssh_task_read_stream
    pssh_task_get_exec_channel pssh_task_do_cmd read_both pssh_task_read_stderr first_alloc
    append_read pssh_task_read_stdout map_read pssh_task_cleanup_exec take_channel rearm all_fit
all_fit_test = refl

up-IsShared : IsShared up
up-IsShared = record {
  sound = record {
    held = λ n. absurd (n refl);
    resting = λ r. λ e. cc;
    started = λ h. refl;
    no_wait_resolve = λ e. cc;
    no_wait_sess = λ e. cc;
  };
  owner = λ k e. refl;
}

before-Ready : Ready thrifty 10 thrifty-EventsAdded thrifty-Thrift before
unfolding pssh_task_list_init thrifty-Thrift
before-Ready =
    add_cmd-Ready thrifty 10 thrifty-EventsAdded thrifty-Thrift no_tasks before _ _ (pos 10) (pos 0)
      (omega arith)
      (list_init-Ready thrifty 10 thrifty-EventsAdded thrifty-Thrift
        (record { core = core; entries = up ∷ []; world = 4 }) (up-IsShared, tt) ((λ k e. cc), tt))
      add_test

exec_served_example :
    Ensures thrifty 10 thrifty-EventsAdded thrifty-Thrift before
      (pssh_exec thrifty 10 before history)
unfolding thrifty-Thrift tasks_weight total_weight task_weight
exec_served_example =
    exec_served thrifty 10 thrifty-EventsAdded thrifty-Thrift 22 before history
      (omega arith, omega arith) before-Ready served_test (omega arith)

exec_all_returns_example :
    (ret : Ret) × (i : Option ℕ) × (s' : State ℕ) × ((exec_all thrifty 10 before
        (history ∷ [] ∷ [])).1
      ≡ by_call (returned ret i s'))
    × IsFinal ret
    × All (IsOver s'.session.entries) s'.tasks
    × (unset (task_marks before)
        ≡ length (exec_all thrifty 10 before (history ∷ [] ∷ [])).0 + unset (task_marks s'))
unfolding thrifty-Thrift tasks_weight total_weight task_weight unset
exec_all_returns_example =
    exec_all_returns thrifty 10 thrifty-EventsAdded thrifty-Thrift 22 before (history ∷ [] ∷ [])
      ((omega arith, omega arith), before-Ready, omega arith) all_fit_test (omega arith)
