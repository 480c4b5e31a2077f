-- ===== src/Session/Cost.antt =====
-- How far an entry is from its end: the callbacks of src/pssh.c always return, and bring an entry
-- nearer to it, or use up some of the patience of libssh2.
pub mod Moves
use libpssh.Prelude.{
  ℕ, ℤ, minus_one, ◌+◌, ◌<◌, ◌≤◌, ◌≡◌, ◌⊎◌, inl, inr, refl, Bool, true, false, Option, some, none,
  ok, Outcome-cases, Bool-cases, ◌==◌, leb, ◌∙◌, List, [], length, if◌then◌else◌, arith,
}
use libpssh.Env.{Env, Fired, Interest}
use libpssh.Session.{Stat, error, idle, resolved, wait_conn, done_conn, wait_auth, Local, is_eagain}
use libpssh.Session.Events.{pssh_event_update, pssh_eagain_handle}
use libpssh.Session.Cases.{woken, located}
use libpssh.Session.Fsm.{host_addr_max_size, pssh_fsm, pssh_event_handler, pssh_dns_cb}
use libpssh.Session.Own.{HasNoTask, fsm-HasNoTask}
use libpssh.Session.Sound.{EventsAdded}

-- The steps that an entry is from its end at most.
abbrev pub weight : Stat → ℕ
weight idle = 5
weight resolved = 4
weight wait_conn = 3
weight done_conn = 2
weight wait_auth = 1
weight _ = 0

-- libssh2 says "again" so many times at most in all, whatever else is called between.
pub record Patience {W : Type 0} (env : Env W) : Type 0 where
  pub patience : W → ℕ
  pub event_add_keeps :
      (w : W) (s : ℕ) (i : Interest) (t : Option ℕ)
      → patience (env.event_add w s i t).1 ≤ patience w
  pub time_keeps : (w : W) → patience (env.time w).1 ≤ patience w
  pub socket_keeps : (w : W) → patience (env.socket w).1 ≤ patience w
  pub connect_keeps : (w : W) (s a : ℤ) (p : ℕ) → patience (env.connect w s a p).1 ≤ patience w
  pub getsockopt_keeps : (w : W) (s : ℤ) → patience (env.getsockopt_error w s).1 ≤ patience w
  pub startup_keeps : (w : W) (s : ℕ) (k : ℤ) → patience (env.session_startup w s k).1 ≤ patience w
  pub startup_again :
      (w : W) (s : ℕ) (k : ℤ)
      → is_eagain env (env.session_startup w s k).0 ≡ true
      → patience (env.session_startup w s k).1 < patience w
  pub userauth_keeps : (w : W) (s : ℕ) → patience (env.userauth w s).1 ≤ patience w
  pub userauth_again :
      (w : W) (s : ℕ)
      → is_eagain env (env.userauth w s).0 ≡ true
      → patience (env.userauth w s).1 < patience w

-- A callback of the connection has something to go on with.
abbrev pub can_move : Stat → Bool → Bool
can_move wait_conn writable = writable
can_move done_conn writable = true
can_move wait_auth writable = true
can_move _ writable = false

-- evdns gives an address whenever it says that it found the name.
abbrev pub has_answer : Bool → Option ℤ → Bool
has_answer true none = false
has_answer _ _ = true

module _ {W : Type 0} (env : Env W) (added : EventsAdded env) (p : Patience env) where
  abbrev cost : Local W → ℕ
  cost l = weight l.ent.stat + p.patience l.world

  fsm_returns : (l : Local W) → (l' : Local W) × (pssh_fsm env l ≡ ok l')
  unfolding pssh_fsm pssh_event_update pssh_eagain_handle
  fsm_returns l = elim (Outcome-cases (pssh_fsm env l)) [
    | inl ran ↦ ran
    | inr (inl stop) ↦ absurd (grind (arith, added))
    | inr (inr busy) ↦ absurd (grind (arith, added))
  ]

  fsm_falls : (l l' : Local W) → pssh_fsm env l ≡ ok l' → cost l' ≤ cost l
  unfolding pssh_fsm pssh_event_update pssh_eagain_handle
  fsm_falls l l' h = grind (
    arith, p.event_add_keeps, p.socket_keeps, p.connect_keeps, p.getsockopt_keeps, p.startup_keeps,
    p.userauth_keeps, p.time_keeps,
  )

  fsm_calm : (l l' : Local W) → pssh_fsm env l ≡ ok l' → p.patience l'.world ≤ p.patience l.world
  unfolding pssh_fsm pssh_event_update pssh_eagain_handle
  fsm_calm l l' h = grind (
    arith, p.event_add_keeps, p.socket_keeps, p.connect_keeps, p.getsockopt_keeps, p.startup_keeps,
    p.userauth_keeps, p.time_keeps,
  )

  fsm_moves :
      (l l' : Local W)
      → can_move l.ent.stat l.ent.ev_type.writable ≡ true
      → pssh_fsm env l ≡ ok l'
      → cost l' < cost l
  unfolding pssh_fsm pssh_event_update pssh_eagain_handle
  fsm_moves l l' m h = grind (
    arith, p.event_add_keeps, p.getsockopt_keeps, p.startup_keeps, p.startup_again,
    p.userauth_keeps, p.userauth_again, p.time_keeps,
  )

  fsm_timeout : (l l' : Local W) → pssh_fsm env l ≡ ok l' → l'.sess.is_timeout ≡ l.sess.is_timeout
  unfolding pssh_fsm pssh_event_update pssh_eagain_handle
  fsm_timeout l l' h = ground arith
