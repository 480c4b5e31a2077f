-- ===== src/Task/Cost.antt =====
-- How far a task of src/task.c is from its end, and what it is like between two of its steps.
pub mod Asking
pub mod Reading
pub mod Collecting
pub mod Command
pub mod Copying
pub mod Sending
pub mod Receiving
pub mod Transfer
pub mod Moves
use libpssh.Prelude.{
  ℕ, ℤ, pos, negsuc, suc, ◌+◌, ◌-◌, ◌<◌, ◌≤◌, ◌≡◌, Bool, true, false, not, List, length, Option,
  some, none, int_limit, arith,
}
use libpssh.Env.{Env}
use libpssh.Task.Thrift.{Thrift}
use libpssh.Task.{
  TaskStat, idle, error, start, channel_ready, data_transfer, cmd_running, streams_readed, done,
  Direction, to_serv, from_serv, CopyTask, Stream, ExecTask, Payload, copy, exec, Task, TaskLocal,
}
use libpssh.Task.Copy.Send.{IsSending}
use libpssh.Task.Exec.{alloc_size}
use libpssh.Task.Exec.Streams.{IsFit}

-- What is left of a file that is sent.
abbrev pub left_to_send : Payload → ℕ
left_to_send (exec ex) = 0
left_to_send (copy cp) = elim cp.dir [ to_serv ↦ cp.st.st_size - cp.tcnt | from_serv ↦ 0 ]

-- The steps that a task is from its end at most, where files are no longer than `m`.
abbrev pub steps_left : ℕ → TaskStat → Payload → ℕ
steps_left m idle p = m + 7
steps_left m start p = m + 6
steps_left m channel_ready p = 4 + left_to_send p
steps_left m cmd_running p = 3
steps_left m data_transfer p = 2
steps_left m streams_readed p = 2
steps_left m error p = 0
steps_left m done p = 0

unfoldable pub task_weight : ℕ → Task → ℕ
task_weight m t = steps_left m t.stat t.payload

-- Nothing has been asked of the server.
abbrev pub is_first : TaskStat → Bool
is_first idle = true
is_first start = true
is_first _ = false

-- Nothing more is done for the task.
abbrev pub is_final : TaskStat → Bool
is_final error = true
is_final done = true
is_final _ = false

-- The task has been started, and is not at its end.
abbrev pub is_live : TaskStat → Bool
is_live idle = false
is_live s = not (is_final s)

-- With patience `p`, no stream grows to 2 GB, nor does a file that comes in.
pub record StreamFits (p : ℕ) (s : Stream) : Type 0 where
  pub fit : IsFit s
  pub room : s.len + p + alloc_size < int_limit

pub record Collects (p : ℕ) (ex : ExecTask) : Type 0 where
  pub out : StreamFits p ex.out_stream
  pub err : StreamFits p ex.err_stream

pub record Fetches (p : ℕ) (cp : CopyTask) : Type 0 where
  pub down : cp.dir ≡ from_serv
  pub room : cp.tcnt + p < int_limit
  pub brief : p < int_limit

-- What a task is between two of its steps, with patience `p`; `fs` are the channels of files from the
-- server, and `m` is the size of the largest file.
pub data Fits (fs : ℕ → Bool) (m p : ℕ) (t : Task) : Type 0 where
  over : is_final t.stat ≡ true → Fits fs m p t
  to_load :
      (cp : CopyTask)
      → t.payload ≡ copy cp
      → is_first t.stat ≡ true
      → cp.dir ≡ to_serv
      → cp.buf ≡ none
      → Fits fs m p t
  to_open :
      (cp : CopyTask)
      → t.payload ≡ copy cp
      → is_first t.stat ≡ true
      → IsSending cp
      → cp.st.st_size ≤ m
      → Fits fs m p t
  to_send :
      (cp : CopyTask) (c : ℕ)
      → t.payload ≡ copy cp
      → t.stat ≡ channel_ready
      → t.channel ≡ some c
      → IsSending cp
      → cp.st.st_size ≤ m
      → Fits fs m p t
  to_fetch :
      (cp : CopyTask) → t.payload ≡ copy cp → is_first t.stat ≡ true → Fetches p cp → Fits fs m p t
  to_receive :
      (cp : CopyTask) (c : ℕ)
      → t.payload ≡ copy cp
      → t.stat ≡ channel_ready
      → t.channel ≡ some c
      → fs c ≡ true
      → cp.st.st_size ≤ m
      → Fetches p cp
      → Fits fs m p t
  to_close :
      (cp : CopyTask) (c : ℕ)
      → t.payload ≡ copy cp
      → t.stat ≡ data_transfer
      → t.channel ≡ some c
      → Fits fs m p t
  to_run :
      (ex : ExecTask) → t.payload ≡ exec ex → is_first t.stat ≡ true → Collects p ex → Fits fs m p t
  to_start :
      (ex : ExecTask) (c : ℕ)
      → t.payload ≡ exec ex
      → t.stat ≡ channel_ready
      → t.channel ≡ some c
      → Collects p ex
      → Fits fs m p t
  to_collect :
      (ex : ExecTask) (c : ℕ)
      → t.payload ≡ exec ex
      → t.stat ≡ cmd_running
      → t.channel ≡ some c
      → Collects p ex
      → Fits fs m p t

pub StreamFits-le : (p q : ℕ) (s : Stream) → q ≤ p → StreamFits p s → StreamFits q s
StreamFits-le p q s le f = record { fit = f.fit; room = omega (arith, f.room) }

pub Collects-le : (p q : ℕ) (ex : ExecTask) → q ≤ p → Collects p ex → Collects q ex
Collects-le p q ex le f = record {
  out = StreamFits-le p q ex.out_stream le f.out;
  err = StreamFits-le p q ex.err_stream le f.err;
}

Fetches-le : (p q : ℕ) (cp : CopyTask) → q ≤ p → Fetches p cp → Fetches q cp
Fetches-le p q cp le f = record {
  down = f.down;
  room = omega (arith, f.room);
  brief = omega (arith, f.brief);
}

-- Patience that others use up does no harm.
pub Fits-le : (fs : ℕ → Bool) (m p q : ℕ) (t : Task) → q ≤ p → Fits fs m p t → Fits fs m q t
Fits-le fs m p q t le (over f) = over f
Fits-le fs m p q t le (to_load cp u f d b) = to_load cp u f d b
Fits-le fs m p q t le (to_open cp u f s z) = to_open cp u f s z
Fits-le fs m p q t le (to_send cp c u s h f z) = to_send cp c u s h f z
Fits-le fs m p q t le (to_fetch cp u f g) = to_fetch cp u f (Fetches-le p q cp le g)
Fits-le fs m p q t le (to_receive cp c u s h i z g) =
    to_receive cp c u s h i z (Fetches-le p q cp le g)
Fits-le fs m p q t le (to_close cp c u s h) = to_close cp c u s h
Fits-le fs m p q t le (to_run ex u f g) = to_run ex u f (Collects-le p q ex le g)
Fits-le fs m p q t le (to_start ex c u s h g) = to_start ex c u s h (Collects-le p q ex le g)
Fits-le fs m p q t le (to_collect ex c u s h g) = to_collect ex c u s h (Collects-le p q ex le g)

module _ {W : Type 0} (env : Env W) (th : Thrift env) where
  abbrev pub patience : W → ℕ
  patience w = th.conn.patience w

  -- What a step leaves: a task nearer to its end, or less patience.
  pub record Advances (t t' : TaskLocal W) : Type 0 where
    pub fits : Fits th.is_file th.max_size (patience t'.world) t'.task
    pub calm : patience t'.world ≤ patience t.world
    pub less :
        task_weight th.max_size t'.task + patience t'.world
        < task_weight th.max_size t.task + patience t.world
