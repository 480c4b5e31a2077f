-- ===== src/Examples/Loops.antt =====
-- The theorems on pssh_connect (src/pssh.c) and pssh_exec (src/task.c) at work on one server and one
-- task in a small world.
use libpssh.Prelude.{
  ok, get_elem?, ◌≡◌, ◌⊎◌, All, refl, inl, inr, pos, true, false, List, [], ◌∷◌, some, none,
}
use libpssh.Env.{Fired}
use libpssh.Session.Api.{pssh_server_add, new_entry}
use libpssh.Loop.Callbacks.{AllShared}
use libpssh.Loop.Reach.{Reaches, here, goes_on, adds, answered, fired, Reaches-AllShared}
use libpssh.Loop.Board.{BoardRun}
use libpssh.Loop.Board.Refine.{board_of, born, late, Life-BoardRun, connected_stays}
use libpssh.Session.{
  Entry, conn_handler, wait_conn, done_conn, idle, connected, wait_auth, error, Entry,
}
use libpssh.Session.Fsm.{pssh_fsm, pssh_event_handler, pssh_dns_cb}
use libpssh.Session.Events.{pssh_event_update}
use libpssh.Task.{TaskStat, exec, Task, State}
use libpssh.Loop.{
  Ret, Occurrence, fires, answers, connected, running, success, failed, Call, returned,
}
use libpssh.Loop.Dispatch.{event_base_loop, dispatch}
use libpssh.Loop.Connect.{pssh_connect, connect_loop, connect_round, connect_walk}
use libpssh.Loop.Connect.Results as C
use libpssh.Loop.Exec.{pssh_exec, exec_round, exec_walk, classify}
use libpssh.Loop.Exec.Results as X
use libpssh.Loop.Exec.Over.{IsFine, SomeErred}
use libpssh.Session as S
use libpssh.Examples.Sim.{Sim, sim, server, core, session, command, task, state}

abbrev writable : Fired
writable = record { timed_out = false; readable = false; writable = true }

-- evdns answers, then the socket becomes writable three times: the server is connected and reported.
abbrev history : List (List Occurrence)
history =
    (answers 0 true (some (pos 1)) ∷ [])
    ∷ (fires 0 writable ∷ [])
    ∷ (fires 0 writable ∷ fires 0 writable ∷ [])
    ∷ []

abbrev welcomed : State Sim
welcomed = record (state [] []) {
  session = record (session []) {
    core = record core { last_connect = 100 };
    entries = record (server S.connected) { is_reported = true; ev_type = writable } ∷ [];
  };
}

connect_test :
    pssh_connect sim 0 (state (server idle ∷ []) []) 30 history
    ≡ returned connected (some 0) welcomed
unfolding pssh_connect connect_loop connect_round connect_walk event_base_loop dispatch pssh_dns_cb
    pssh_event_handler pssh_fsm pssh_event_update
connect_test = refl

connect-Post_example : C.Post connected (some 0) welcomed
connect-Post_example =
    C.connect-Post sim 0 (state (server idle ∷ []) []) welcomed 30 history connected (some 0)
      connect_test

connect_returns_example :
    (r : Call (State Sim)) × C.Ensures r
    × ((oss : List (List Occurrence))
        → pssh_connect sim 0 (state (server S.connected ∷ server error ∷ []) []) 30 oss ≡ r)
connect_returns_example =
    C.connect_returns sim 0 (state (server S.connected ∷ server error ∷ []) []) 30
      (inl refl, (inr refl, tt))

-- A task that is done; one of a server that is not connected.
abbrev work : Task
work = task TaskStat.done (exec command)

abbrev lost : Task
lost = record work { sess_entry = none }

abbrev told : State Sim
told = state (server S.connected ∷ []) (record work { is_reported = true } ∷ lost ∷ [])

exec_test :
    pssh_exec sim 0 (state (server S.connected ∷ []) (work ∷ lost ∷ [])) []
    ≡ returned running (some 0) told
unfolding pssh_exec exec_round exec_walk classify
exec_test = refl

exec-Post_example : X.Post running (some 0) told
exec-Post_example =
    X.exec-Post sim 0 (state (server S.connected ∷ []) (work ∷ lost ∷ [])) told [] running (some 0)
      exec_test

exec_returns_example :
    (ret : Ret) × ((oss : List (List Occurrence))
      → pssh_exec sim 0 told oss ≡ returned ret none told)
    × (((ret ≡ success) × All (IsFine told.session.entries) told.tasks)
        ⊎ ((ret ≡ failed) × SomeErred told.session.entries told.tasks))
exec_returns_example =
    X.exec_returns sim 0 told
      (inl (inr (refl, refl)), (inl (inl λ served. let (i, e, to, at, up) = served in cc to), tt))

-- A server is added, its name is found, and its socket becomes writable.
abbrev fresh : Entry
fresh = new_entry (115 ∷ 118 ∷ []) 22 9

abbrev located : Entry
located = record fresh {
  hostaddr = pos 1;
  sock = pos 7;
  stat = wait_conn;
  ev_up = true;
  pending = some conn_handler;
}

add_test : pssh_server_add sim (session []) (115 ∷ 118 ∷ []) 22 ≡ ok (session (fresh ∷ []))
unfolding pssh_server_add
add_test = refl

answer_test :
    dispatch sim 0 (state (fresh ∷ []) []) (answers 0 true (some (pos 1)))
    ≡ ok (state (located ∷ []) [])
unfolding dispatch pssh_dns_cb pssh_fsm pssh_event_update
answer_test = refl

fire_test :
    dispatch sim 0 (state (located ∷ []) []) (fires 0 writable)
    ≡ ok (state (record located { stat = done_conn; ev_type = writable } ∷ []) [])
unfolding dispatch pssh_event_handler pssh_fsm pssh_event_update
fire_test = refl

life :
    Reaches sim 0
      (state [] [])
      (state (record located { stat = done_conn; ev_type = writable } ∷ []) [])
life =
    goes_on
      (goes_on (goes_on here (adds (115 ∷ 118 ∷ []) 22 add_test))
        (answered 0 fresh true (some (pos 1)) refl refl answer_test))
      (fired 0 writable fire_test)

Reaches-AllShared_example :
    AllShared (state (record located { stat = done_conn; ev_type = writable } ∷ []) [])
Reaches-AllShared_example =
    Reaches-AllShared sim 0 (state [] [])
      (state (record located { stat = done_conn; ev_type = writable } ∷ []) []) tt life

-- The answer of evdns comes after a timeout has failed the entry.
abbrev revived : State Sim
revived =
    state
      (record (server error) {
        hostaddr = pos 1;
        sock = pos 7;
        stat = wait_conn;
        ev_up = true;
        pending = some conn_handler;
      }
        ∷ [])
      []

late_test :
    dispatch sim 0 (state (server error ∷ []) []) (answers 0 true (some (pos 1))) ≡ ok revived
unfolding dispatch pssh_dns_cb pssh_fsm pssh_event_update
late_test = refl

Life-BoardRun_example :
    BoardRun (board_of {W = Sim} (state (server error ∷ []) [])) (board_of {W = Sim} revived)
Life-BoardRun_example =
    Life-BoardRun sim 0 (state (server error ∷ []) []) revived
      (late 0 (server error) true (some (pos 1)) born refl refl late_test)

-- A second server is added beside one that is connected.
abbrev both : State Sim
both = state (server S.connected ∷ fresh ∷ []) []

beside_test :
    pssh_server_add sim (session (server S.connected ∷ [])) (115 ∷ 118 ∷ []) 22 ≡ ok both.session
unfolding pssh_server_add
beside_test = refl

connected_stays_example :
    (e : Entry) × (get_elem? both.session.entries 0 ≡ some e)
    × (e.stat ≡ S.connected)
    × (e.hostaddr_str ≡ 115 ∷ 118 ∷ [])
    × (e.port ≡ 22)
connected_stays_example =
    connected_stays sim 0 (state (server S.connected ∷ []) []) both 0 (server S.connected)
      (goes_on here (adds (115 ∷ 118 ∷ []) 22 beside_test)) refl refl
