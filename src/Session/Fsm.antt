-- ===== src/Session/Fsm.antt =====
-- The connection state machine of src/pssh.c: pssh_conn, pssh_fsm, and the two callbacks that drive
-- it, pssh_event_handler and pssh_dns_cb.
use libpssh.Prelude.{
  ℕ, ◌%◌, ℤ, minus_one, is_zero, is_minus_one, Bool, true, false, not, ◌&&◌, Option, some, none,
  leb, ◌==◌, ◌+◌, if◌then◌else◌, [], length, Outcome, ok, abort,
}
use libpssh.Env.{Fired, ev_write, ConnectAnswer, established, in_progress, refused, Env}
use libpssh.Session.{
  Local, set_stat, Stat, error, resolved, wait_conn, done_conn, wait_auth, connected, is_eagain,
}
use libpssh.Session.Events.{pssh_event_update, pssh_eagain_handle, assert_zero}

abbrev pub host_addr_max_size : ℕ
host_addr_max_size = 256

-- htons takes 16 bits of the port.
abbrev pub to_u16 : ℕ → ℕ
to_u16 n = n % 65536

-- !addr
abbrev no_addr : Option ℤ → Bool
no_addr none = true
no_addr (some a) = false

module _ {W : Type 0} (env : Env W) where
  -- The three ways out of connect(2). When the connection stands at once, the source does nothing.
  conn_answer : Local W → ℕ → ConnectAnswer → Outcome (Local W)
  unfolding pssh_event_update
  conn_answer l timeout established = ok l
  conn_answer l timeout refused = ok (set_stat l error)
  conn_answer l timeout in_progress =
      assert_zero env (pssh_event_update env (set_stat l wait_conn) ev_write timeout)

  pssh_conn : Local W → ℕ → Outcome (Local W)
  unfolding conn_answer
  pssh_conn l timeout =
      let (sock, w) = env.socket l.world in
      let (answer, w') = env.connect w sock l.ent.hostaddr (to_u16 l.ent.port) in
      if is_minus_one sock
      then ok (record l { ent = record l.ent { sock = sock; stat = error }; world = w })
      else conn_answer (record l { ent = record l.ent { sock = sock }; world = w' }) timeout answer

  -- case PSSH_STAT_WAIT_CONN: a writable socket is asked for its error; the event is armed anyway.
  fsm_wait_conn : Local W → Local W
  unfolding pssh_event_update
  fsm_wait_conn l =
      let ((ret, conn_ret), w) = env.getsockopt_error l.world l.ent.sock in
      let l' =
        if l.ent.ev_type.writable
        then record (set_stat l (if is_zero ret && is_zero conn_ret then done_conn else error)) {
          world = w;
        }
        else l in
      (pssh_event_update env l' ev_write l.sess.timeout).1

  -- case PSSH_STAT_DONE_CONN
  fsm_done_conn : Local W → Outcome (Local W)
  unfolding pssh_event_update pssh_eagain_handle
  fsm_done_conn l =
      let (ret, w) = env.session_startup l.world l.ent.ssh_sess l.ent.sock in
      let l' = record l { world = w } in
      if is_zero ret
      then ok
          (pssh_event_update env
            (record l' { ent = record l.ent { ssh_sess_started = true; stat = wait_auth } })
            ev_write l.sess.timeout).1
      else if is_eagain env ret
      then assert_zero env (pssh_eagain_handle env l' l.sess.timeout)
      else ok (set_stat l' error)

  -- case PSSH_STAT_WAIT_AUTH
  fsm_wait_auth : Local W → Outcome (Local W)
  unfolding pssh_eagain_handle
  fsm_wait_auth l =
      let (ret, w) = env.userauth l.world l.ent.ssh_sess in
      let (now, w') = env.time w in
      let l' = record l { world = w } in
      if is_zero ret
      then ok (record (set_stat l connected) {
        sess = record l.sess { last_connect = now };
        world = w';
      })
      else if is_eagain env ret
      then assert_zero env (pssh_eagain_handle env l' l.sess.timeout)
      else ok (set_stat l' error)

  fsm_dispatch : Stat → Local W → Outcome (Local W)
  unfolding pssh_conn fsm_wait_conn fsm_done_conn fsm_wait_auth
  fsm_dispatch resolved l = pssh_conn l l.sess.timeout
  fsm_dispatch wait_conn l = ok (fsm_wait_conn l)
  fsm_dispatch done_conn l = fsm_done_conn l
  fsm_dispatch wait_auth l = fsm_wait_auth l
  fsm_dispatch _ l = ok l

  unfoldable pub pssh_fsm : Local W → Outcome (Local W)
  unfolding fsm_dispatch
  pssh_fsm l = fsm_dispatch l.ent.stat l

  -- The end of the handler: ent->ev_type = type; ent->ev_up = 0; pssh_fsm(ent);
  abbrev resume : Local W → Fired → Outcome (Local W)
  resume l type = pssh_fsm (record l { ent = record l.ent { ev_type = type; ev_up = false } })

  -- A timeout is one of the whole session, measured from the last server that connected.
  unfoldable pub pssh_event_handler : Local W → Fired → Outcome (Local W)
  pssh_event_handler l type =
      let (now, w) = env.time l.world in
      let l' = record l { world = w } in
      if not type.timed_out
      then resume l type
      else if l.sess.last_connect == 0
      then resume (record l' { sess = record l.sess { last_connect = now } }) type
      else if leb (l.sess.last_connect + l.sess.timeout) now
      then ok (record l' { sess = record l.sess { is_timeout = true } })
      else resume l' type

  -- ent->ev_up = 0; pssh_fsm(ent); for an entry that has its address
  abbrev has_address : Local W → ℤ → Outcome (Local W)
  has_address l a =
      pssh_fsm (record l { ent = record l.ent { hostaddr = a; stat = resolved; ev_up = false } })

  -- The answer of evdns: `true` is DNS_ERR_NONE; the address may be missing.
  unfoldable pub pssh_dns_cb : Local W → Bool → Option ℤ → Outcome (Local W)
  pssh_dns_cb l true (some a) = has_address l a
  pssh_dns_cb l true none = abort
  pssh_dns_cb l false addr =
      let name = l.ent.hostaddr_str in
      let too_long = leb host_addr_max_size (length name) in
      let ipa = if too_long then [] else name in
      if no_addr addr && not (env.inet_aton ipa)
      then ok (record l { ent = record l.ent { stat = error; hostaddr = minus_one } })
      else has_address l (env.inet_addr name)
