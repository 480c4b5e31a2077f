-- ===== src/Session.antt =====
-- The data of src/pssh_priv.h and include/pssh.h for connections: a server's entry, the session that
-- holds the entries, and the part of both that one call of the state machine works on.
pub mod Events
pub mod Fsm
pub mod Api
pub mod Cases
pub mod Graph
pub mod Sound
pub mod Stalls
pub mod Names
pub mod Own
pub mod Awake
pub mod Cost
pub mod Walk
use libpssh.Prelude.{ℕ, ℤ, Bool, true, false, List, Option, ◌==◌}
use libpssh.Env.{Fired, Env}

-- pssh_int_stat_t
pub data Stat : Type 0 where
  error idle wait_resolve resolved wait_conn done_conn wait_sess wait_auth connected : Stat

-- The callback and its argument that `event_set` writes into an event: pssh_event_handler with the
-- entry, or pssh_task_event_handler with a task, by its place in the task list.
pub data Handler : Type 0 where
  conn_handler : Handler
  task_handler : ℕ → Handler

-- struct pssh_sess_entry. `pending` is the callback of `ev` while libevent holds the event, that is,
-- from a successful `event_add` until it fires or `event_del` takes it away.
pub record Entry : Type 0 where
  pub hostaddr_str : List ℕ
  pub hostaddr : ℤ
  pub port : ℕ
  pub sock : ℤ
  pub is_reported : Bool
  pub stat : Stat
  pub ssh_sess : ℕ
  pub ssh_sess_started : Bool
  pub ev_up : Bool
  pub ev_type : Fired
  pub pending : Option Handler

-- struct pssh_session_t without the list of entries. An entry is named by its place in the list.
pub record Core : Type 0 where
  pub username : List ℕ
  pub public_key : List ℕ
  pub priv_key : Option (List ℕ)
  pub password : List ℕ
  pub timeout : ℕ
  pub is_timeout : Bool
  pub last_connect : ℕ
  pub curr_server : Option ℕ
  pub no_search : Bool

-- What a handler of one entry reads and writes: the entry, its `self_sess`, the world outside.
pub record Local (W : Type 0) : Type 0 where
  pub ent : Entry
  pub sess : Core
  pub world : W

-- A whole session: its own fields, `sessions` in the order of the queue, the world outside.
pub record Session (W : Type 0) : Type 0 where
  pub core : Core
  pub entries : List Entry
  pub world : W

module _ {W : Type 0} where
  abbrev pub set_stat : Local W → Stat → Local W
  set_stat l s = record l { ent = record l.ent { stat = s } }

abbrev pub is_connected : Stat → Bool
is_connected connected = true
is_connected _ = false

abbrev pub is_error : Stat → Bool
is_error error = true
is_error _ = false

-- ret == LIBSSH2_ERROR_EAGAIN
abbrev pub is_eagain : {W : Type 0} → Env W → ℤ → Bool
is_eagain env (ℤ.pos n) = false
is_eagain env (ℤ.negsuc n) = n == env.eagain
