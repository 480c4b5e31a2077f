-- ===== src/Examples/Sim.antt =====
-- A small world outside, in which the models run: one channel with pending output, a sink for what is
-- sent, a file on disk, a clock. Every call succeeds unless a run puts another answer in its place.
use libpssh.Prelude.{
  ℕ, zero, suc, ◌<◌, ◌≤◌, ◌≡◌, refl, sym, pos, min, false, List, [], ◌∷◌, ◌++◌, some, none, take,
  drop, length, take-append-drop, length-take, arith,
}
use libpssh.Env.{Env, in_progress, ReadAnswer, got, opened}
use libpssh.Session.{Stat, connected, Entry, Core, Session, Local}
use libpssh.Session.Api.{no_flags}
use libpssh.Session.Sound.{has_session}
use libpssh.Task.{TaskStat, to_serv, CopyTask, ExecTask, Payload, Task, TaskLocal, unset, State}
use libpssh.Task.Api.{no_stream}
use libpssh.Task.Exec.Half.{Drains}
use libpssh.Task.Copy.Load.{IsFile}
use libpssh.Task.Copy.Send.{IsSink}

pub record Sim : Type 0 where
  pub out : List ℕ
  pub err : List ℕ
  pub sunk : List ℕ
  pub disk : List ℕ
  pub now : ℕ

abbrev pub read_stream : Sim → ℕ → ℕ → ReadAnswer × Sim
read_stream w zero n = (got (take n w.out), record w { out = drop n w.out })
read_stream w (suc zero) n = (got (take n w.err), record w { err = drop n w.err })
read_stream w (suc (suc i)) n = (got [], w)

abbrev pub pending : Sim → ℕ → List ℕ
pending w zero = w.out
pending w (suc zero) = w.err
pending w (suc (suc i)) = []

-- The channel takes three bytes at a time.
abbrev pub sim : Env Sim
sim = record {
  eagain = 36;
  event_add = λ w s i t. (pos 0, w);
  event_del = λ w s. w;
  resolv_conf_parse = λ w b. (pos 0, w);
  resolve_ipv4 = λ w n b. w;
  time = λ w. (w.now, w);
  socket = λ w. (pos 7, w);
  connect = λ w s a p. (in_progress, w);
  getsockopt_error = λ w s. ((pos 0, pos 0), w);
  maxpathlen = 4096;
  inet_aton = λ n. false;
  inet_addr = λ n. pos 0;
  stat = λ w n. (some (record { st_mode = 420; st_size = length w.disk }), w);
  open_read = λ w n. (some 4, w);
  open_write = λ w n m. (some 4, w);
  read = λ w fd n. (got (take n w.disk), record w { disk = drop n w.disk });
  write = λ w fd bs. (pos (length bs), w);
  is_epipe = λ w. false;
  close = λ w fd. (pos 0, w);
  session_init = λ w. (9, w);
  session_startup = λ w s k. (pos 0, w);
  userauth = λ w s. (pos 0, w);
  last_io_send = λ w s. false;
  last_errno = λ w s. pos 0;
  scp_send = λ w s n m z. (opened 5, w);
  scp_recv = λ w s n. ((opened 5, record { st_mode = 420; st_size = 0 }), w);
  channel_open_session = λ w s. (opened 5, w);
  channel_exec = λ w c n. (pos 0, w);
  channel_write = λ w c bs n. (pos (min n 3), record w { sunk = w.sunk ++ take (min n 3) bs });
  channel_read_ex = λ w c i n. read_stream w i n;
  channel_exit_status = λ w c. pos 0;
  channel_free = λ w c. w;
  session_disconnect = λ w s. w;
  session_free = λ w s. w;
}

abbrev pub busy : Sim
busy = record {
  out = 104 ∷ 105 ∷ [];
  err = 33 ∷ [];
  sunk = [];
  disk = 1 ∷ 2 ∷ 3 ∷ 4 ∷ 5 ∷ [];
  now = 100;
}

pub take_nothing : (n : ℕ) (xs : List ℕ) → 0 < n → take n xs ≡ [] → xs ≡ []
take_nothing zero xs p h = absurd (omega arith)
take_nothing (suc n) [] p h = refl
take_nothing (suc n) (x ∷ xs) p h = cc

unfoldable pub sim-Drains : Drains sim 5
sim-Drains = record { pending = pending; read_some = some_of; other_stream = other }
  where
    some_of :
        (w : Sim) (i n : ℕ)
        → 0 < n
        → (bs : List ℕ) × ((read_stream w i n).0 ≡ got bs)
          × (pending w i ≡ bs ++ pending (read_stream w i n).1 i)
          × (length bs ≤ n)
          × (bs ≡ [] → pending w i ≡ [])
    some_of w zero n p = (
      take n w.out,
      refl,
      sym (take-append-drop n w.out),
      omega (arith, length-take n w.out),
      take_nothing n w.out p,
    )
    some_of w (suc zero) n p = (
      take n w.err,
      refl,
      sym (take-append-drop n w.err),
      omega (arith, length-take n w.err),
      take_nothing n w.err p,
    )
    some_of w (suc (suc i)) n p = ([], refl, refl, omega arith, λ e. refl)

    other : (w : Sim) (i j n : ℕ) → (j ≡ i → ⊥) → pending (read_stream w i n).1 j ≡ pending w j
    other w zero zero n ne = absurd (ne refl)
    other w zero (suc zero) n ne = refl
    other w zero (suc (suc j)) n ne = refl
    other w (suc zero) zero n ne = refl
    other w (suc zero) (suc zero) n ne = absurd (ne refl)
    other w (suc zero) (suc (suc j)) n ne = refl
    other w (suc (suc i)) j n ne = refl

unfoldable pub sim-IsFile : IsFile sim 4
sim-IsFile = record {
  pending = λ w. w.disk;
  read_some = λ w n p. (
    take n w.disk,
    refl,
    sym (take-append-drop n w.disk),
    omega (arith, length-take n w.disk),
    take_nothing n w.disk p,
  );
}

unfoldable pub sim-IsSink : IsSink sim 5
sim-IsSink = record {
  taken = λ w. w.sunk;
  accept = λ w bs n h. (min n 3, refl, omega arith, λ p. omega arith, refl);
}

-- A server in each state of a connection, a session, and what a handler of the server works on.
abbrev pub server : Stat → Entry
server s = record {
  hostaddr_str = 115 ∷ 118 ∷ [];
  hostaddr = pos 1;
  port = 22;
  sock = pos 7;
  is_reported = false;
  stat = s;
  ssh_sess = 9;
  ssh_sess_started = has_session s;
  ev_up = false;
  ev_type = no_flags;
  pending = none;
}

abbrev pub core : Core
core = record {
  username = 117 ∷ [];
  public_key = [];
  priv_key = none;
  password = [];
  timeout = 30;
  is_timeout = false;
  last_connect = 0;
  curr_server = none;
  no_search = false;
}

abbrev pub session : List Entry → Session Sim
session es = record { core = core; entries = es; world = busy }

abbrev pub local : Stat → Local Sim
local s = record { ent = server s; sess = core; world = busy }

-- A task of that server, its command and its copy of a file of five bytes.
abbrev pub command : ExecTask
command = record {
  cmd = 108 ∷ 115 ∷ [];
  out_stream = no_stream;
  err_stream = no_stream;
  ret_code = pos 0;
}

abbrev pub upload : CopyTask
upload = record {
  dir = to_serv;
  l_fn = 97 ∷ [];
  r_fn = 98 ∷ [];
  buf = some busy.disk;
  tcnt = 0;
  st = record { st_mode = 420; st_size = 5 };
}

abbrev pub task : TaskStat → Payload → Task
task s p = record {
  hostname = 115 ∷ 118 ∷ [];
  is_reported = false;
  sess_entry = some 0;
  stat = s;
  channel = some 5;
  payload = p;
  timeout = 10;
}

abbrev pub on_server : TaskStat → Payload → TaskLocal Sim
on_server s p = record { self = 0; task = task s p; ent = server connected; world = busy }

abbrev pub state : List Entry → List Task → State Sim
state es ts = record { session = session es; tasks = ts; curr_task = unset }
