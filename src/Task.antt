-- ===== src/Task.antt =====
-- The data of src/pssh_priv.h and include/pssh.h for tasks, and what the task functions of src/task.c
-- share: the part of the state that they work on, and the answers of libssh2 that mean "try again".
pub mod Events
pub mod Copy
pub mod Exec
pub mod Fsm
pub mod Api
pub mod Listing
pub mod Lookup
pub mod Graph
pub mod Wakeup
pub mod Done
pub mod Shared
pub mod Thrift
pub mod Cost
use libpssh.Prelude.{
  ℕ, ℤ, pos, negsuc, Bool, true, false, not, List, Option, some, none, ◌==◌, if◌then◌else◌, Outcome,
  ok, abort,
}
use libpssh.Env.{FileInfo, ChannelAnswer, opened, null, Env}
use libpssh.Session.{Entry, Session, is_eagain}

-- pssh_task_int_stat_t
pub data TaskStat : Type 0 where
  idle error start channel_ready data_transfer cmd_running streams_readed done : TaskStat

-- pssh_copy_direction_t
pub data Direction : Type 0 where
  to_serv from_serv : Direction

-- pssh_copy_task_t. `buf` is `data`, NULL or the bytes that have been stored there.
pub record CopyTask : Type 0 where
  pub dir : Direction
  pub l_fn : List ℕ
  pub r_fn : List ℕ
  pub buf : Option (List ℕ)
  pub tcnt : ℕ
  pub st : FileInfo

-- pssh_exec_stream_t. `buf` is `data`, NULL or the bytes that have been stored there.
pub record Stream : Type 0 where
  pub buf : Option (List ℕ)
  pub alloc : ℕ
  pub len : ℕ
  pub eof : Bool

-- pssh_exec_task_t
pub record ExecTask : Type 0 where
  pub cmd : List ℕ
  pub out_stream : Stream
  pub err_stream : Stream
  pub ret_code : ℤ

-- The union of struct pssh_task_t with its `type`.
pub data Payload : Type 0 where
  copy : CopyTask → Payload
  exec : ExecTask → Payload

-- struct pssh_task_t. `sess_entry` is the place of the entry in the session's queue.
pub record Task : Type 0 where
  pub hostname : List ℕ
  pub is_reported : Bool
  pub sess_entry : Option ℕ
  pub stat : TaskStat
  pub channel : Option ℕ
  pub payload : Payload
  pub timeout : ℕ

-- What a handler of one task reads and writes: the task and its place in the list, the entry that it
-- shares with the other tasks of the server, the world outside.
pub record TaskLocal (W : Type 0) : Type 0 where
  pub self : ℕ
  pub task : Task
  pub ent : Entry
  pub world : W

-- `curr_task`: pssh_task_list_init leaves it unset.
pub data Cursor : Type 0 where
  unset end : Cursor
  place : ℕ → Cursor

-- struct pssh_task_list_t with its session.
pub record State (W : Type 0) : Type 0 where
  pub session : Session W
  pub tasks : List Task
  pub curr_task : Cursor

module _ {W : Type 0} where
  abbrev pub set_task_stat : TaskLocal W → TaskStat → TaskLocal W
  set_task_stat t s = record t { task = record t.task { stat = s } }

  abbrev pub set_payload : TaskLocal W → Payload → TaskLocal W
  set_payload t p = record t { task = record t.task { payload = p } }

  -- A call on the task's channel; a channel that is NULL is no argument for libssh2.
  abbrev pub on_channel : {A : Type 0} → TaskLocal W → (ℕ → Outcome A) → Outcome A
  on_channel t f = elim t.task.channel [ none ↦ abort | some c ↦ f c ]

module _ {W : Type 0} (env : Env W) where
  -- PSSH_EAGAIN
  abbrev pub eagain_code : ℤ
  eagain_code = negsuc env.eagain

  -- libssh2_session_last_errno(...) == LIBSSH2_ERROR_EAGAIN
  abbrev pub last_again : TaskLocal W → Bool
  last_again t = is_eagain env (env.last_errno t.world t.ent.ssh_sess)

  -- What every call that asks for a channel does with its answer: a channel makes the task ready, NULL
  -- is an error unless libssh2 says to try again.
  unfoldable pub take_channel : TaskLocal W → ChannelAnswer → ℤ × TaskLocal W
  take_channel t (opened c) =
      (pos 0, record t { task = record t.task { channel = some c; stat = channel_ready } })
  take_channel t null =
      let t' = record t { task = record t.task { channel = none } } in
      if last_again t then (eagain_code, t') else (pos 0, set_task_stat t' error)
