-- ===== src/Examples/Sessions.antt =====
-- The theorems on connections (src/pssh.c) at work on one server in a small world.
use Prim.Native.String.{String}
use libpssh.Prelude.{List, ℕ, ◌⊎◌, ◌≡◌, refl, pos, false, true, [], ◌∷◌, some, ok, arith}
use libpssh.Env.{Env, Fired}
use libpssh.Session.{error, idle, wait_conn, done_conn, wait_auth, connected, conn_handler, Local}
use libpssh.Session.Api.{pssh_stat_str, pssh_server_first}
use libpssh.Session.Events.{pssh_event_update}
use libpssh.Session.Fsm.{pssh_fsm, pssh_event_handler, pssh_dns_cb}
use libpssh.Session.Graph.{Edge, SameEntry, handler-Edge}
use libpssh.Session.Sound.{IsSound, EventsAdded, handler_arms, connected_by_auth}
use libpssh.Session.Names.{stat_named, stat_str-stat_named}
use libpssh.Session.Walk.{first-next_visits_all, visits, places}
use libpssh.Examples.Sim.{Sim, sim, busy, server, core, session, local}

abbrev writable : Fired
writable = record { timed_out = false; readable = false; writable = true }

-- After authentication; after the connection stands; after the answer of evdns.
abbrev logged_in : Local Sim
logged_in = record {
  ent = record (server wait_auth) { stat = connected; ev_type = writable };
  sess = record core { last_connect = 100 };
  world = busy;
}

abbrev reached : Local Sim
reached = record {
  ent = record (server done_conn) { ev_type = writable; ev_up = true; pending = some conn_handler };
  sess = core;
  world = busy;
}

abbrev looked_up : Local Sim
looked_up = record {
  ent = record (server wait_conn) { ev_up = true; pending = some conn_handler };
  sess = core;
  world = busy;
}

log_in_test : pssh_event_handler sim (local wait_auth) writable ≡ ok logged_in
unfolding pssh_event_handler pssh_fsm
log_in_test = refl

reach_test : pssh_event_handler sim (local wait_conn) writable ≡ ok reached
unfolding pssh_event_handler pssh_fsm pssh_event_update
reach_test = refl

look_up_test : pssh_dns_cb sim (local idle) true (some (pos 1)) ≡ ok looked_up
unfolding pssh_dns_cb pssh_fsm pssh_event_update
look_up_test = refl

sim-EventsAdded : EventsAdded sim
sim-EventsAdded w s i t = refl

idle-IsSound : IsSound (server idle)
idle-IsSound = ground arith

wait_conn-IsSound : IsSound (server wait_conn)
wait_conn-IsSound = ground arith

handler-Edge_example : Edge wait_auth connected × SameEntry (server wait_auth) logged_in.ent
handler-Edge_example = handler-Edge sim (local wait_auth) logged_in writable log_in_test

handler_arms_example : (reached.ent.pending ≡ some conn_handler) ⊎ (reached.sess.is_timeout ≡ true)
handler_arms_example =
    handler_arms sim (local wait_conn) reached writable sim-EventsAdded reach_test refl

fsm_test : pssh_fsm sim (local wait_auth) ≡ ok (record logged_in { ent = server connected })
unfolding pssh_fsm
fsm_test = refl

connected_by_auth_example :
    ((local wait_auth).ent.stat ≡ wait_auth)
    × ((sim.userauth busy 9).0 ≡ pos 0)
    × (logged_in.sess.last_connect ≡ (sim.time busy).0)
connected_by_auth_example =
    connected_by_auth sim (local wait_auth) (record logged_in { ent = server connected }) fsm_test
      (ground arith) refl

-- A peer that refuses: SO_ERROR is set.
abbrev refusing : Env Sim
refusing = record sim { getsockopt_error = λ w s. ((pos 0, pos 111), w) }

abbrev shut_out : Local Sim
shut_out = record (local error) {
  ent = record (server error) { ev_type = writable; ev_up = true; pending = some conn_handler };
}

abbrev woken_up : Local Sim
woken_up = record (local wait_conn) { ent = record (server wait_conn) { ev_type = writable } }

refused_test : pssh_fsm refusing woken_up ≡ ok shut_out
unfolding pssh_fsm pssh_event_update
refused_test = refl

abbrev host : List ℕ
host = 97 ∷ []

first-next_visits_all_example :
    visits 4
      (pssh_server_first (session (server idle ∷ server idle ∷ server idle ∷ []))).0
      (pssh_server_first (session (server idle ∷ server idle ∷ server idle ∷ []))).1
    ≡ places 0 3
first-next_visits_all_example =
    first-next_visits_all (session (server idle ∷ server idle ∷ server idle ∷ []))

stat_str-stat_named_example :
    (n : String) × (pssh_stat_str (server wait_auth) ≡ some n) × (stat_named n ≡ some wait_auth)
stat_str-stat_named_example = stat_str-stat_named (server wait_auth)
