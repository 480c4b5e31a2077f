-- ===== src/Task/Api.antt =====
-- The functions of src/task.c that a user calls around pssh_exec: pssh_task_list_init, the functions
-- that add a task, the walk over the list, what is asked of a task.
use libpssh.Prelude.{
  ℕ, suc, ℤ, pos, negsuc, minus_one, Bool, true, false, ◌&&◌, ◌||◌, List, [], ◌∷◌, ◌++◌, Option,
  none, some, ltb, leb, str_eq, if◌then◌else◌, length, Outcome, ok, abort,
}
use libpssh.Env.{FileInfo, Env}
use libpssh.Session.{Entry, Session}
use libpssh.Session.Api.{hostaddr_len}
use libpssh.Task.{
  TaskStat, idle, error, done, Direction, to_serv, from_serv, CopyTask, Stream, ExecTask, Payload,
  copy, exec, Task, Cursor, unset, end, place, State,
}

-- The first entry of that name, by its place counted from `i`.
unfoldable pub find_from : ℕ → List Entry → List ℕ → Option ℕ
find_from i [] srv = none
find_from i (e ∷ es) srv =
    let rest = find_from (suc i) es srv in if str_eq e.hostaddr_str srv then some i else rest

unfoldable pub pssh_find_ent : List Entry → List ℕ → Option ℕ
pssh_find_ent es srv = find_from 0 es srv

-- A string that is NULL or empty: -1.
abbrev pub check_zero_str : Option (List ℕ) → Bool
check_zero_str none = true
check_zero_str (some []) = true
check_zero_str (some (c ∷ s)) = false

module _ {W : Type 0} where
  unfoldable pub pssh_task_list_init : Session W → State W
  pssh_task_list_init sess = record { session = sess; tasks = []; curr_task = unset }

-- The characters of a string that is not NULL.
abbrev pub str : Option (List ℕ) → List ℕ
str none = []
str (some s) = s

-- (timeout_sec > 0) ? timeout_sec : 0
abbrev pub seconds : ℤ → ℕ
seconds (pos n) = n
seconds (negsuc n) = 0

module _ {W : Type 0} where
  -- pssh_init_common_task and TAILQ_INSERT_TAIL. `strcpy` of a name that does not fit writes past
  -- `hostname`: what C leaves undefined is `abort`.
  unfoldable pub add_task : State W → List ℕ → Payload → ℤ → Outcome (ℤ × Option (State W))
  add_task s srv payload timeout_sec =
      let t : Task = record {
        hostname = srv;
        is_reported = false;
        sess_entry = pssh_find_ent s.session.entries srv;
        stat = idle;
        channel = none;
        payload = payload;
        timeout = seconds timeout_sec;
      } in
      if ltb (length srv) hostaddr_len
      then ok (pos 0, some (record s { tasks = s.tasks ++ t ∷ [] }))
      else abort

abbrev pub no_info : FileInfo
no_info = record { st_mode = 0; st_size = 0 }

abbrev pub no_stream : Stream
no_stream = record { buf = none; alloc = 0; len = 0; eof = false }

module _ {W : Type 0} (env : Env W) where
  -- A file name or a command has room for MAXPATHLEN characters; `strcpy` of a longer one writes past its
  -- field: what C leaves undefined is `abort`.
  abbrev pub fits : List ℕ → Bool
  fits s = leb (length s) env.maxpathlen

  unfoldable pub pssh_add_cp_task :
      Option (State W)
      → Option (List ℕ)
      → Option (List ℕ)
      → Option (List ℕ)
      → Direction
      → ℤ
      → Outcome (ℤ × Option (State W))
  pssh_add_cp_task none srv l_fn r_fn dir timeout_sec = ok (minus_one, none)
  pssh_add_cp_task (some s) srv l_fn r_fn dir timeout_sec =
      let cp : CopyTask = record {
        dir = dir;
        l_fn = str l_fn;
        r_fn = str r_fn;
        buf = none;
        tcnt = 0;
        st = no_info;
      } in
      if check_zero_str srv || check_zero_str l_fn || check_zero_str r_fn
      then ok (minus_one, some s)
      else if fits (str l_fn) && fits (str r_fn)
      then add_task s (str srv) (copy cp) timeout_sec
      else abort

  unfoldable pub pssh_cp_to_server :
      Option (State W)
      → Option (List ℕ)
      → Option (List ℕ)
      → Option (List ℕ)
      → ℤ
      → Outcome (ℤ × Option (State W))
  pssh_cp_to_server tl srv l_fn r_fn timeout_sec =
      pssh_add_cp_task tl srv l_fn r_fn to_serv timeout_sec

  unfoldable pub pssh_cp_from_server :
      Option (State W)
      → Option (List ℕ)
      → Option (List ℕ)
      → Option (List ℕ)
      → ℤ
      → Outcome (ℤ × Option (State W))
  pssh_cp_from_server tl srv l_fn r_fn timeout_sec =
      pssh_add_cp_task tl srv l_fn r_fn from_serv timeout_sec

  unfoldable pub pssh_add_cmd :
      Option (State W) → Option (List ℕ) → Option (List ℕ) → ℤ → Outcome (ℤ × Option (State W))
  pssh_add_cmd none srv cmd timeout_sec = ok (minus_one, none)
  pssh_add_cmd (some s) srv cmd timeout_sec =
      let ex : ExecTask = record {
        cmd = str cmd;
        out_stream = no_stream;
        err_stream = no_stream;
        ret_code = pos 0;
      } in
      if check_zero_str srv || check_zero_str cmd
      then ok (minus_one, some s)
      else if fits (str cmd)
      then add_task s (str srv) (exec ex) timeout_sec
      else abort

module _ {W : Type 0} where
  -- TAILQ_FIRST and TAILQ_NEXT
  abbrev cursor_at : State W → ℕ → Cursor
  cursor_at s i = if ltb i (length s.tasks) then place i else end

  unfoldable pub pssh_task_first : Option (State W) → Cursor × Option (State W)
  pssh_task_first none = (end, none)
  pssh_task_first (some s) = (cursor_at s 0, some (record s { curr_task = cursor_at s 0 }))

  -- A `curr_task` that is NULL or was never set is followed all the same.
  next_task : State W → Cursor → Outcome (Cursor × Option (State W))
  next_task s (place i) =
      ok (cursor_at s (suc i), some (record s { curr_task = cursor_at s (suc i) }))
  next_task s end = abort
  next_task s unset = abort

  unfoldable pub pssh_task_next : Option (State W) → Outcome (Cursor × Option (State W))
  unfolding next_task
  pssh_task_next none = ok (end, none)
  pssh_task_next (some s) = next_task s s.curr_task

-- pssh_task_stat_t
pub data PubTaskStat : Type 0 where
  task_none task_error task_inprogress task_done : PubTaskStat

abbrev stat_of : TaskStat → PubTaskStat
stat_of idle = task_none
stat_of error = task_error
stat_of done = task_done
stat_of _ = task_inprogress

unfoldable pub pssh_task_stat : Task → PubTaskStat
pssh_task_stat t = stat_of t.stat

unfoldable pub pssh_task_server_name : Option Task → Option (List ℕ)
pssh_task_server_name none = none
pssh_task_server_name (some t) = some t.hostname

abbrev cmd_of : Payload → List ℕ
cmd_of (copy cp) = cp.l_fn
cmd_of (exec ex) = ex.cmd

unfoldable pub pssh_task_get_cmd : Option Task → Option (List ℕ)
pssh_task_get_cmd none = none
pssh_task_get_cmd (some t) = some (cmd_of t.payload)

-- The accessors of a command; -1 or NULL for a task that is none.
abbrev out_of : Payload → Option Stream
out_of (copy cp) = none
out_of (exec ex) = some ex.out_stream

abbrev err_of : Payload → Option Stream
err_of (copy cp) = none
err_of (exec ex) = some ex.err_stream

abbrev len_of : Option Stream → ℤ
len_of none = minus_one
len_of (some s) = pos s.len

abbrev buf_of : Option Stream → Option (List ℕ)
buf_of none = none
buf_of (some s) = s.buf

abbrev stream_if : Option Task → (Payload → Option Stream) → Option Stream
stream_if none f = none
stream_if (some t) f = f t.payload

unfoldable pub pssh_task_stdout_len : Option Task → ℤ
pssh_task_stdout_len t = len_of (stream_if t out_of)

unfoldable pub pssh_task_stdout : Option Task → Option (List ℕ)
pssh_task_stdout t = buf_of (stream_if t out_of)

unfoldable pub pssh_task_stderr_len : Option Task → ℤ
pssh_task_stderr_len t = len_of (stream_if t err_of)

unfoldable pub pssh_task_stderr : Option Task → Option (List ℕ)
pssh_task_stderr t = buf_of (stream_if t err_of)

abbrev code_of : Payload → ℤ
code_of (copy cp) = minus_one
code_of (exec ex) = ex.ret_code

unfoldable pub pssh_task_exit_status : Option Task → ℤ
pssh_task_exit_status none = minus_one
pssh_task_exit_status (some t) = code_of t.payload

-- pssh_task_type_t
pub data TaskType : Type 0 where
  task_type_copy task_type_exec : TaskType

abbrev type_of : Payload → TaskType
type_of (copy cp) = task_type_copy
type_of (exec ex) = task_type_exec

unfoldable pub pssh_task_type : Task → TaskType
pssh_task_type t = type_of t.payload

module _ {W : Type 0} where
  -- The tasks are given back one by one; the session is left as it is, with the events that libevent
  -- holds for it.
  unfoldable pub pssh_task_list_free : Option (State W) → Option (Session W)
  pssh_task_list_free none = none
  pssh_task_list_free (some s) = some s.session
