-- ===== src/Session/Api.antt =====
-- The functions of src/pssh.c that a user calls around pssh_connect: pssh_init, pssh_server_add, the
-- walk pssh_server_first and pssh_server_next, what is asked of an entry, pssh_free.
use libpssh.Prelude.{
  ℕ, suc, pos, minus_one, is_zero, Bool, false, List, [], ◌∷◌, ◌++◌, Option, none, some, ltb,
  if◌then◌else◌, get_elem?, length, Outcome, ok, abort,
}
use libpssh.Env.{Fired, Env}
use Prim.Native.String.{String}
use libpssh.Session.{
  Entry, Session, Stat, error, idle, wait_resolve, resolved, wait_conn, done_conn, wait_sess,
  wait_auth, connected,
}

-- PSSH_HOSTADDR_LEN
abbrev pub hostaddr_len : ℕ
hostaddr_len = 100

abbrev pub no_flags : Fired
no_flags = record { timed_out = false; readable = false; writable = false }

abbrev or_empty : Option (List ℕ) → List ℕ
or_empty none = []
or_empty (some s) = s

abbrev pub new_entry : List ℕ → ℕ → ℕ → Entry
new_entry serv_name port ssh_sess = record {
  hostaddr_str = serv_name;
  hostaddr = pos 0;
  port = port;
  sock = minus_one;
  is_reported = false;
  stat = idle;
  ssh_sess = ssh_sess;
  ssh_sess_started = false;
  ev_up = false;
  ev_type = no_flags;
  pending = none;
}

module _ {W : Type 0} (env : Env W) where
  -- The new session, or NULL when /etc/resolv.conf cannot be read.
  unfoldable pub pssh_init :
      W → List ℕ → List ℕ → Option (List ℕ) → Option (List ℕ) → Bool → Option (Session W)
  pssh_init w username public_key priv_key password no_search =
      let (ret, w') = env.resolv_conf_parse w no_search in
      if is_zero ret
      then some (record {
        core = record {
          username = username;
          public_key = public_key;
          priv_key = priv_key;
          password = or_empty password;
          timeout = 0;
          is_timeout = false;
          last_connect = 0;
          curr_server = none;
          no_search = no_search;
        };
        entries = [];
        world = w';
      })
      else none

  -- `strcpy` into `hostaddr_str` writes past the field when the name and its 0 do not fit: what C leaves
  -- undefined is `abort`.
  unfoldable pub pssh_server_add : Session W → List ℕ → ℕ → Outcome (Session W)
  pssh_server_add s serv_name port =
      let (ssh_sess, w) = env.session_init s.world in
      if ltb (length serv_name) hostaddr_len
      then ok (record s {
        entries = s.entries ++ new_entry serv_name port ssh_sess ∷ [];
        world = env.resolve_ipv4 w serv_name s.core.no_search;
      })
      else abort

  -- The sessions are closed in the order of the queue.
  pub free_entries : List Entry → W → W
  free_entries [] w = w
  free_entries (e ∷ es) w = free_entries es (
      env.session_free (if e.ssh_sess_started then env.session_disconnect w e.ssh_sess else w)
        e.ssh_sess)

  unfoldable pub pssh_free : Session W → W
  unfolding free_entries
  pssh_free s = free_entries s.entries s.world

-- TAILQ_NEXT of the element at a place.
abbrev next_place {ℓ} : {A : Type ℓ} → List A → ℕ → Option ℕ
next_place xs i = if ltb (suc i) (length xs) then some (suc i) else none

module _ {W : Type 0} where
  unfoldable pub pssh_server_first : Session W → Session W × Option ℕ
  pssh_server_first s =
      let first = if ltb 0 (length s.entries) then some 0 else none in
      (record s { core = record s.core { curr_server = first } }, first)

  next_server : Session W → Option ℕ → Session W × Option ℕ
  next_server s none = (s, none)
  next_server s (some i) =
      let next = next_place s.entries i in
      (record s { core = record s.core { curr_server = next } }, next)

  -- A session that is NULL, or has no current server, has no next one.
  unfoldable pub pssh_server_next : Session W → Session W × Option ℕ
  unfolding next_server
  pssh_server_next s = next_server s s.core.curr_server

-- pssh_stat_t
pub data PubStat : Type 0 where
  pssh_none pssh_error pssh_inprogress pssh_done : PubStat

abbrev stat_of : Stat → PubStat
stat_of idle = pssh_none
stat_of error = pssh_error
stat_of connected = pssh_done
stat_of _ = pssh_inprogress

unfoldable pub pssh_stat : Entry → PubStat
pssh_stat e = stat_of e.stat

-- The codes of pssh_int_stat_t, as C numbers an enum.
unfoldable pub stat_code : Stat → ℕ
stat_code error = 0
stat_code idle = 1
stat_code wait_resolve = 2
stat_code resolved = 3
stat_code wait_conn = 4
stat_code done_conn = 5
stat_code wait_sess = 6
stat_code wait_auth = 7
stat_code connected = 8

abbrev pub stat_names : List String
stat_names =
    "PSSH_STAT_ERROR" ∷ "PSSH_STAT_NONE" ∷ "PSSH_STAT_WAIT_RESOLVE" ∷ "PSSH_STAT_RESOLVED"
    ∷ "PSSH_STAT_WAIT_CONN" ∷ "PSSH_STAT_DONE_CONN" ∷ "PSSH_STAT_WAIT_SESS" ∷ "PSSH_STAT_WAIT_AUTH"
    ∷ "PSSH_STAT_CONNECTED" ∷ []

-- `none` is a code past the end of the table.
unfoldable pub pssh_stat_str : Entry → Option String
unfolding stat_code
pssh_stat_str e = get_elem? stat_names (stat_code e.stat)

unfoldable pub pssh_serv_name : Option Entry → Option (List ℕ)
pssh_serv_name none = none
pssh_serv_name (some e) = some e.hostaddr_str

unfoldable pub pssh_serv_port : Entry → ℕ
pssh_serv_port e = e.port
