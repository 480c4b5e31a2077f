-- ===== src/Session/Graph.antt =====
-- The connection state machine of src/pssh.c as a diagram of states, and that every callback follows it.
use libpssh.Prelude.{◌≡◌, ok, arith}
use libpssh.Env.{Env, Fired}
use libpssh.Session.{
  Stat, error, resolved, wait_conn, done_conn, wait_auth, connected, Entry, Local,
}
use libpssh.Session.Events.{pssh_event_update, pssh_eagain_handle}
use libpssh.Session.Cases.{handler_cases}
use libpssh.Session.Fsm.{pssh_fsm, pssh_event_handler}

pub data Edge : Stat → Stat → Type 0 where
  stay : {s : Stat} → Edge s s
  wait : Edge resolved wait_conn
  reach : Edge wait_conn done_conn
  start_up : Edge done_conn wait_auth
  log_in : Edge wait_auth connected
  no_socket : Edge resolved error
  no_peer : Edge wait_conn error
  no_session : Edge done_conn error
  no_key : Edge wait_auth error

pub ruleset edges = (stay, wait, reach, start_up, log_in, no_socket, no_peer, no_session, no_key)

-- What the handlers of an entry leave alone.
pub record SameEntry (e e' : Entry) : Type 0 where
  pub same_name : e'.hostaddr_str ≡ e.hostaddr_str
  pub same_port : e'.port ≡ e.port
  pub same_session : e'.ssh_sess ≡ e.ssh_sess
  pub same_report : e'.is_reported ≡ e.is_reported

module _ {W : Type 0} (env : Env W) where
  pub fsm-Edge : (l l' : Local W) → pssh_fsm env l ≡ ok l' → Edge l.ent.stat l'.ent.stat
  unfolding pssh_fsm pssh_event_update pssh_eagain_handle
  fsm-Edge l l' h = grind (arith, edges)

  pub fsm-SameEntry : (l l' : Local W) → pssh_fsm env l ≡ ok l' → SameEntry l.ent l'.ent
  unfolding pssh_fsm pssh_event_update pssh_eagain_handle
  fsm-SameEntry l l' h = ground arith

  -- Whatever fires, the callback of an entry's event that returns follows one edge of the diagram, and
  -- changes neither the name, the port, the libssh2 session nor the mark of a report.
  pub handler-Edge :
      (l l' : Local W) (type : Fired)
      → pssh_event_handler env l type ≡ ok l'
      → Edge l.ent.stat l'.ent.stat × SameEntry l.ent l'.ent
  handler-Edge l l' type =
      handler_cases env l l' type _ (λ m e h. ground (arith, fsm-Edge m l' h, fsm-SameEntry m l' h))
        (λ e _. ground (arith, stay {s = l.ent.stat}))
