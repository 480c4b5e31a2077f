-- ===== src/Examples/Progress.antt =====
-- pssh_connect (src/pssh.c) with fair occurrences, on one server in the small world.
use libpssh.Prelude.{
  ℕ, Option, ◌+◌, ◌≡◌, refl, pos, some, true, false, List, [], ◌∷◌, length, arith,
}
use libpssh.Env.{Env, established, Fired}
use libpssh.Session.{Entry, idle, wait_conn, conn_handler}
use libpssh.Session.Awake.{NeverAtOnce}
use libpssh.Session.Cost.{Patience}
use libpssh.Session.Sound.{EventsAdded}
use libpssh.Session.Fsm.{pssh_fsm, pssh_event_handler, pssh_dns_cb}
use libpssh.Session.Events.{pssh_event_update}
use libpssh.Task.{State}
use libpssh.Loop.{Occurrence, answers, fires, Ret, connected, returned, waits}
use libpssh.Loop.Connect.Stalls.{events, IsStalled, established_waits}
use libpssh.Loop.Marks.{entry_marks}
use libpssh.Client.{by_call, connect_all, ret_code}
use libpssh.Client.Fair.{is_long_fair, IsLast, connect_all_returns}
use libpssh.Client.Poll.{unset}
use libpssh.Client.Returns.{all_fit}
use libpssh.Loop.Dispatch.{event_base_loop, dispatch}
use libpssh.Loop.Connect.{pssh_connect, connect_loop, connect_round, connect_walk}
use libpssh.Loop.Connect.Fair.{is_fair, all_legal, some_useful, is_legal, is_useful}
use libpssh.Loop.Connect.Progress.{connect_fair, timed, total_weight}
use libpssh.Loop.Connect.Results.{Ensures, Post}
use libpssh.Examples.Sim.{Sim, sim, server, state}

abbrev writable : Fired
writable = record { timed_out = false; readable = false; writable = true }

abbrev sim-EventsAdded : EventsAdded sim
sim-EventsAdded w s i t = refl

abbrev sim-NeverAtOnce : NeverAtOnce sim
sim-NeverAtOnce w s a p = λ e. cc

unfoldable sim-Patience : Patience sim
sim-Patience = record {
  patience = λ w. 0;
  event_add_keeps = λ w s i t. omega arith;
  time_keeps = λ w. omega arith;
  socket_keeps = λ w. omega arith;
  connect_keeps = λ w s a p. omega arith;
  getsockopt_keeps = λ w s. omega arith;
  startup_keeps = λ w s k. omega arith;
  startup_again = λ w s k h. cc;
  userauth_keeps = λ w s. omega arith;
  userauth_again = λ w s h. cc;
}

abbrev before : State Sim
before = state (server idle ∷ []) []

-- Six calls of event_base_loop are allowed for; four are used.
abbrev history : List (List Occurrence)
history =
    (answers 0 true (some (pos 1)) ∷ [])
    ∷ (fires 0 writable ∷ [])
    ∷ (fires 0 writable ∷ [])
    ∷ (fires 0 writable ∷ [])
    ∷ []
    ∷ []
    ∷ []

fair_test : is_fair sim 0 (timed before 30) history ≡ true
unfolding is_fair all_legal some_useful is_legal is_useful connect_round connect_walk
    event_base_loop dispatch pssh_dns_cb pssh_event_handler pssh_fsm pssh_event_update
fair_test = refl

connect_fair_example : Ensures (pssh_connect sim 0 before 30 history)
unfolding sim-Patience total_weight
connect_fair_example =
    connect_fair sim 0 sim-EventsAdded sim-Patience before 30 history ((λ k. cc), tt) fair_test
      (omega arith)

-- After the answer of evdns, and after a wakeup that is not for writing.
abbrev asked : State Sim
asked =
    state
      (record (server idle) {
        hostaddr = pos 1;
        sock = pos 7;
        stat = wait_conn;
        ev_up = true;
        pending = some conn_handler;
      }
        ∷ [])
      []

abbrev readable : Fired
readable = record { timed_out = false; readable = true; writable = false }

abbrev woken : State Sim
woken =
    state
      (record (server idle) {
        hostaddr = pos 1;
        sock = pos 7;
        stat = wait_conn;
        ev_up = true;
        ev_type = readable;
        pending = some conn_handler;
      }
        ∷ [])
      []

-- connect(2) on a socket that stands at once, as on some systems for a local address.
abbrev at_once : Env Sim
at_once = record sim { connect = λ w s a p. (established, w) }

established_waits_example :
    (u : State Sim) × (e : Entry) × (pssh_connect at_once 0 before 30
        ((answers 0 true (some (pos 1)) ∷ []) ∷ events (((0, writable) ∷ []) ∷ [] ∷ []))
      ≡ waits u)
    × IsStalled u e
established_waits_example =
    established_waits at_once 0 before (server idle) (pos 1) 30 (((0, writable) ∷ []) ∷ [] ∷ [])
      (refl, refl) refl refl (refl, refl)

all_fit_test :
    all_fit
      (λ s oss. pssh_connect sim 0 s 30 oss)
      connected
      (is_long_fair sim 0 sim-EventsAdded sim-Patience 6 30)
      before
      (history ∷ history ∷ [])
    ≡ true
unfolding all_fit ret_code pssh_connect connect_loop is_fair all_legal some_useful is_legal
    is_useful connect_round connect_walk event_base_loop dispatch pssh_dns_cb pssh_event_handler
    pssh_fsm pssh_event_update
all_fit_test = refl

connect_all_returns_example :
    (ret : Ret) × (i : Option ℕ) × (s' : State Sim) × ((connect_all sim 0 before 30
        (history ∷ history ∷ [])).1
      ≡ by_call (returned ret i s'))
    × IsLast ret
    × Post ret i s'
    × (unset (entry_marks before)
        ≡ length (connect_all sim 0 before 30 (history ∷ history ∷ [])).0 + unset (entry_marks s'))
unfolding sim-Patience total_weight unset
connect_all_returns_example =
    connect_all_returns sim 0 sim-EventsAdded sim-Patience 6 30 before (history ∷ history ∷ [])
      (((λ k. cc), tt), omega arith) all_fit_test (omega arith)
