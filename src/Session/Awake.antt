-- ===== src/Session/Awake.antt =====
-- An entry that has not come to its end is never left without the event or the answer that it waits for
-- (src/pssh.c).
use libpssh.Prelude.{
  ℕ, ℤ, ◌≡◌, ◌≢◌, ◌⊎◌, inl, inr, Bool, true, false, Option, none, some, ok, arith,
}
use libpssh.Env.{Env, Fired, established}
use libpssh.Session.{
  Stat, error, idle, wait_resolve, resolved, wait_sess, connected, conn_handler, task_handler,
  Handler, Entry, Local,
}
use libpssh.Session.Cases.{handler_cases, dns_cases}
use libpssh.Session.Events.{pssh_event_update, pssh_eagain_handle}
use libpssh.Session.Fsm.{pssh_fsm, pssh_event_handler, pssh_dns_cb}
use libpssh.Session.Sound.{EventsAdded}

abbrev pub is_conn : Option Handler → Bool
is_conn none = false
is_conn (some conn_handler) = true
is_conn (some (task_handler k)) = false

-- Its name is being looked up, or libevent holds its event, or it is connected or has failed.
abbrev pub is_awake : Stat → Option Handler → Bool
is_awake idle h = true
is_awake connected h = true
is_awake error h = true
is_awake resolved h = false
is_awake wait_resolve h = false
is_awake wait_sess h = false
is_awake _ h = is_conn h

abbrev pub IsAwake : Entry → Type 0
IsAwake e = is_awake e.stat e.pending ≡ true

-- connect(2) on a non-blocking socket does not succeed at once.
abbrev pub NeverAtOnce : {W : Type 0} → Env W → Type 0
NeverAtOnce {W} env = (w : W) (s a : ℤ) (p : ℕ) → (env.connect w s a p).0 ≢ established

module _ {W : Type 0} (env : Env W) (added : EventsAdded env) (slow : NeverAtOnce env) where
  fsm-IsAwake :
      (l l' : Local W)
      → l.ent.stat ≢ wait_resolve
      → l.ent.stat ≢ wait_sess
      → pssh_fsm env l ≡ ok l'
      → IsAwake l'.ent
  unfolding pssh_fsm pssh_event_update pssh_eagain_handle
  fsm-IsAwake l l' a b h = grind (arith, added, slow)

  pub handler-IsAwake :
      (l l' : Local W) (type : Fired)
      → l.ent.stat ≢ wait_resolve
      → l.ent.stat ≢ wait_sess
      → pssh_event_handler env l type ≡ ok l'
      → IsAwake l'.ent ⊎ (l'.sess.is_timeout ≡ true)
  handler-IsAwake l l' type a b =
      handler_cases env l l' type _
        (λ m e h. inl (fsm-IsAwake m l' (ground arith) (ground arith) h)) (λ e t. inr t)

  pub dns-IsAwake :
      (l l' : Local W) (found : Bool) (addr : Option ℤ)
      → pssh_dns_cb env l found addr ≡ ok l'
      → IsAwake l'.ent
  dns-IsAwake l l' found addr =
      dns_cases env l l' found addr _ (λ a h. fsm-IsAwake _ l' (ground arith) (ground arith) h)
        (λ e. ground arith)
