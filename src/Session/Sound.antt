-- ===== src/Session/Sound.antt =====
-- What holds of an entry between two callbacks (src/pssh.c).
use libpssh.Prelude.{
  ℕ, ℤ, pos, ◌≡◌, ◌≢◌, ◌⊎◌, inl, inr, Bool, true, false, Option, some, none, ok, arith,
}
use libpssh.Env.{Env, Fired, Interest}
use libpssh.Session.{
  Stat, idle, wait_resolve, resolved, wait_conn, done_conn, wait_sess, wait_auth, connected,
  conn_handler, Entry, Local,
}
use libpssh.Session.Events.{pssh_event_update, pssh_eagain_handle}
use libpssh.Session.Cases.{handler_cases, dns_cases}
use libpssh.Session.Fsm.{pssh_fsm, pssh_event_handler, pssh_dns_cb}

-- The states in which an entry waits for its socket.
abbrev pub waits_for_socket : Stat → Bool
waits_for_socket wait_conn = true
waits_for_socket done_conn = true
waits_for_socket wait_auth = true
waits_for_socket _ = false

-- The states after libssh2_session_startup.
abbrev pub has_session : Stat → Bool
has_session wait_auth = true
has_session connected = true
has_session _ = false

-- The states in which libevent holds no event for the connection.
abbrev pub rests : Stat → Bool
rests idle = true
rests resolved = true
rests connected = true
rests _ = false

-- An event that libevent holds is marked as up; only an entry that waits or has failed has one for its
-- connection; a connected one has a libssh2 session; two of the states are never entered.
pub record IsSound (e : Entry) : Type 0 where
  pub held : e.pending ≢ none → e.ev_up ≡ true
  pub resting : rests e.stat ≡ true → e.pending ≢ some conn_handler
  pub started : has_session e.stat ≡ true → e.ssh_sess_started ≡ true
  pub no_wait_resolve : e.stat ≢ wait_resolve
  pub no_wait_sess : e.stat ≢ wait_sess

-- `event_add` succeeds.
abbrev pub EventsAdded : {W : Type 0} → Env W → Type 0
EventsAdded {W} env =
    (w : W) (s : ℕ) (i : Interest) (t : Option ℕ) → (env.event_add w s i t).0 ≡ pos 0

module _ {W : Type 0} (env : Env W) where
  fsm-IsSound :
      (l l' : Local W)
      → l.ent.pending ≡ none
      → IsSound l.ent
      → pssh_fsm env l ≡ ok l'
      → IsSound l'.ent
  unfolding pssh_fsm pssh_event_update pssh_eagain_handle
  fsm-IsSound l l' p v h = ground arith

  -- Whatever fires, the callback of an entry's event, which libevent no longer holds, keeps the entry
  -- sound.
  pub handler-IsSound :
      (l l' : Local W) (type : Fired)
      → l.ent.pending ≡ none
      → IsSound l.ent
      → pssh_event_handler env l type ≡ ok l'
      → IsSound l'.ent
  handler-IsSound l l' type p v =
      handler_cases env l l' type _ (λ m e h. fsm-IsSound m l' (ground arith) (ground arith) h)
        (λ e _. ground arith)

  -- So does the answer of evdns for an entry that libevent holds no event of.
  pub dns-IsSound :
      (l l' : Local W) (found : Bool) (addr : Option ℤ)
      → l.ent.pending ≡ none
      → IsSound l.ent
      → pssh_dns_cb env l found addr ≡ ok l'
      → IsSound l'.ent
  dns-IsSound l l' found addr p v =
      dns_cases env l l' found addr _ (λ a h. fsm-IsSound _ l' (ground arith) (ground arith) h)
        (λ e. ground arith)

  fsm_arms :
      (l l' : Local W)
      → EventsAdded env
      → pssh_fsm env l ≡ ok l'
      → waits_for_socket l'.ent.stat ≡ true
      → l'.ent.pending ≡ some conn_handler
  unfolding pssh_fsm pssh_event_update pssh_eagain_handle
  fsm_arms l l' added h w = grind (arith, added)

  -- No wakeup is lost: when `event_add` succeeds, an entry that waits for its socket after a callback
  -- has its event held by libevent, unless the whole session has timed out.
  pub handler_arms :
      (l l' : Local W) (type : Fired)
      → EventsAdded env
      → pssh_event_handler env l type ≡ ok l'
      → waits_for_socket l'.ent.stat ≡ true
      → (l'.ent.pending ≡ some conn_handler) ⊎ (l'.sess.is_timeout ≡ true)
  handler_arms l l' type added h w =
      handler_cases env l l' type _ (λ m e f. inl (fsm_arms m l' added f w)) (λ e t. inr t) h

  -- Nor after the answer of evdns.
  pub dns_arms :
      (l l' : Local W) (found : Bool) (addr : Option ℤ)
      → EventsAdded env
      → pssh_dns_cb env l found addr ≡ ok l'
      → waits_for_socket l'.ent.stat ≡ true
      → l'.ent.pending ≡ some conn_handler
  dns_arms l l' found addr added h w =
      dns_cases env l l' found addr _ (λ a f. fsm_arms _ l' added f w) (λ e. ground arith) h

  -- A server that is connected is so because authentication succeeded, in the call that ended there,
  -- and the session's timer starts anew from that moment.
  pub connected_by_auth :
      (l l' : Local W)
      → pssh_fsm env l ≡ ok l'
      → l.ent.stat ≢ connected
      → l'.ent.stat ≡ connected
      → let auth = env.userauth l.world l.ent.ssh_sess in
        (l.ent.stat ≡ wait_auth) × (auth.0 ≡ pos 0) × (l'.sess.last_connect ≡ (env.time auth.1).0)
  unfolding pssh_fsm pssh_event_update pssh_eagain_handle
  connected_by_auth l l' h n c = ground arith
