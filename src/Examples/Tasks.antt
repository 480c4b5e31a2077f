-- ===== src/Examples/Tasks.antt =====
-- The theorems on tasks (src/task.c) at work on one task in a small world.
use libpssh.Prelude.{
  ℕ, zero, suc, ◌-◌, ◌*◌, ◌≤◌, ◌≡◌, refl, pos, negsuc, min, false, true, List, [], ◌∷◌, ◌++◌,
  Option, some, none, take, drop, length, length-take, ok, spin, arith,
}
use libpssh.Env.{Fired, Env, failed}
use libpssh.Session.Api.{pssh_server_add}
use libpssh.Session.{Session, Entry, task_handler, idle, connected}
use libpssh.Task.{
  start, take_channel, cmd_running, channel_ready, data_transfer, done, to_serv, CopyTask, ExecTask,
  Stream, copy, exec, TaskLocal, State,
}
use libpssh.Task.Copy.{send_len, buffer, read_rest}
use libpssh.Task.Copy.Load.{load_total}
use libpssh.Task.Copy.Send.{IsSending, Runs, send_len-min, send_total}
use libpssh.Task.Exec.{
  pssh_task_run_exec_task, pssh_task_get_exec_channel, first_alloc, pssh_task_read_stream, cmd_loop,
  read_both, map_read, pssh_task_read_stdout, pssh_task_read_stderr, pssh_task_cleanup_exec,
  append_read,
}
use libpssh.Task.Exec.Streams.{IsFit, unread, ReadsWithin, read_stream-IsFit}
use libpssh.Task.Exec.Chunks.{Agree, chunks-Agree}
use libpssh.Task.Exec.Half.{Drains}
use libpssh.Task.Exec.Total.{Collects, loop_total}
use libpssh.Task.Exec.Faults.{Lost, errors_masked, loop_spins}
use libpssh.Task.Events.{pssh_task_event_update}
use libpssh.Task.Fsm.{rearm, pssh_task_fsm, pssh_task_event_handler}
use libpssh.Task.Graph.{Edge}
use libpssh.Task.Wakeup.{SameTask, IsArmed, handler-Step, task_handler_arms}
use libpssh.Task.Api.{no_stream, pssh_find_ent, pssh_add_cmd, str, no_info}
use libpssh.Task.Listing.{Finds, find_ent-Finds, CommandResult, add_cmd_lem}
use libpssh.Task.Lookup.{Added, server_add-find_ent}
use libpssh.Examples.Sim.{
  read_stream, pending, Sim, sim, busy, server, command, upload, task, on_server, state, sim-Drains,
  sim-IsFile, sim-IsSink,
}

abbrev running : TaskLocal Sim
running = on_server cmd_running (exec command)

loop_total_example : Collects sim 5 sim-Drains running command (cmd_loop sim 4 running command)
unfolding sim-Drains
loop_total_example =
    loop_total sim 5 sim-Drains 4 running command refl
      (record { is_fit = unread refl; room = omega arith; at_end = λ e. cc })
      (record { is_fit = unread refl; room = omega arith; at_end = λ e. cc }) (omega arith)

-- The same channel, byte by byte.
abbrev drip : Env Sim
drip = record sim { channel_read_ex = λ w c i n. read_stream w i (min n 1) }

unfoldable drip-Drains : Drains drip 5
unfolding sim-Drains
drip-Drains = record {
  pending = pending;
  read_some = λ w i n p.
      let (bs, e, split, short, end) = sim-Drains.read_some w i (min n 1) (omega arith) in
      (bs, e, split, omega (arith, short), end);
  other_stream = λ w i j n ne. sim-Drains.other_stream w i j (min n 1) ne;
}

chunks-Agree_example : Agree (cmd_loop sim 4 running command) (cmd_loop drip 9 running command)
unfolding sim-Drains drip-Drains
chunks-Agree_example =
    chunks-Agree sim drip 5 5 sim-Drains drip-Drains 4 9 running running command refl refl
      (record { is_fit = unread refl; room = omega arith; at_end = λ e. cc })
      (record { is_fit = unread refl; room = omega arith; at_end = λ e. cc })
      (record { is_fit = unread refl; room = omega arith; at_end = λ e. cc })
      (record { is_fit = unread refl; room = omega arith; at_end = λ e. cc }) refl refl
      (omega arith) (omega arith)

abbrev read_out : Stream
read_out = record { buf = some (104 ∷ 105 ∷ []); alloc = 8192; len = 2; eof = false }

read_test :
    pssh_task_read_stream sim running no_stream 0
    ≡ ok (pos 2, record running { world = record busy { out = [] } }, read_out)
unfolding pssh_task_read_stream first_alloc append_read
read_test = refl

sim-ReadsWithin : ReadsWithin sim
sim-ReadsWithin w c zero n bs h = ground (arith, length-take n w.out)
sim-ReadsWithin w c (suc zero) n bs h = ground (arith, length-take n w.err)
sim-ReadsWithin w c (suc (suc i)) n bs h = ground arith

read_stream-IsFit_example : IsFit read_out
read_stream-IsFit_example =
    read_stream-IsFit sim running (record running { world = record busy { out = [] } }) no_stream
      read_out 0 (pos 2) sim-ReadsWithin (unread refl) read_test

-- What the command of that task ends with.
abbrev finished : TaskLocal Sim
finished = record running {
  world = record busy { out = []; err = [] };
  task = task done (
      exec (record command {
        out_stream = record read_out { eof = true };
        err_stream = record { buf = some (33 ∷ []); alloc = 8192; len = 1; eof = true };
      }));
}

cmd_test : cmd_loop sim 4 running command ≡ ok (pos 0, finished)
unfolding cmd_loop read_both pssh_task_read_stdout pssh_task_read_stderr pssh_task_read_stream
    first_alloc append_read pssh_task_cleanup_exec map_read
cmd_test = refl

-- A channel whose reads fail; one whose reads of stdout would block.
abbrev broken : Env Sim
broken = record sim { channel_read_ex = λ w c i n. (failed 0, w) }

errors_masked_example : Lost broken 5 0 running command
errors_masked_example =
    errors_masked broken 5 0 running command
      (record { minus = λ w i n. refl; other = refl; hard = λ w s. refl }) refl refl refl

abbrev silent : Env Sim
silent = record sim { channel_read_ex = λ w c i n. (failed 36, w); last_errno = λ w s. negsuc 36 }

abbrev half_read : ExecTask
half_read = record command { err_stream = record no_stream { eof = true } }

loop_spins_example : cmd_loop silent 1000 running half_read ≡ spin
loop_spins_example =
    loop_spins silent 5 1000 running half_read (record { again = λ w n. refl; last = λ w s. refl })
      refl refl refl

upload-IsSending : IsSending upload
upload-IsSending = record {
  up = refl;
  loaded = refl;
  whole = refl;
  gone = omega arith;
  small = omega arith;
}

send_len-min_example :
    (send_len upload ≡ min (8 * 1024) (upload.st.st_size - upload.tcnt))
    × (send_len upload ≤ length (drop upload.tcnt (buffer upload)))
send_len-min_example = send_len-min upload upload-IsSending

send_total_example :
    (t' : TaskLocal Sim) × Runs sim 0 (on_server channel_ready (copy upload)) t'
    × (t'.task.stat ≡ data_transfer)
    × (t'.world.sunk ≡ [] ++ drop 0 busy.disk)
unfolding sim-IsSink
send_total_example =
    send_total sim 0 5 sim-IsSink 6 (on_server channel_ready (copy upload)) upload
      (record { ready = refl; union = refl; open_channel = refl; file = upload-IsSending })
      (omega arith)

load_total_example :
    (w' : Sim) × (read_rest sim 5 busy 4 5 []
      ≡ ok (true, [] ++ take (5 - length {A = ℕ} []) busy.disk, w'))
unfolding sim-IsFile
load_total_example =
    load_total sim 4 sim-IsFile 5 5 busy [] (omega arith) (omega arith) (omega arith) (omega arith)

find_ent-Finds_example :
    Finds (server idle ∷ []) (115 ∷ 118 ∷ []) (pssh_find_ent (server idle ∷ []) (115 ∷ 118 ∷ []))
find_ent-Finds_example = find_ent-Finds (server idle ∷ []) (115 ∷ 118 ∷ [])

abbrev empty_list : State Sim
empty_list = state (server connected ∷ []) []

abbrev name : Option (List ℕ)
name = some (115 ∷ 118 ∷ [])

add_cmd_lem_example :
    CommandResult sim empty_list name name
      (pos 10)
      (pssh_add_cmd sim (some empty_list) name name (pos 10))
add_cmd_lem_example = add_cmd_lem sim empty_list name name (pos 10)

server_add-find_ent_example :
    (s' : Session Sim) × (e : Entry) × (pssh_server_add sim (state [] []).session (97 ∷ []) 22
      ≡ ok s')
    × Added sim (state [] []).session s' e (97 ∷ []) 22
server_add-find_ent_example =
    server_add-find_ent sim (state [] []).session (97 ∷ []) 22 (omega arith)

abbrev file : CopyTask
file = record {
  dir = to_serv;
  l_fn = str name;
  r_fn = str name;
  buf = none;
  tcnt = 0;
  st = no_info;
}

-- The first callback of a command: it opens the channel.
abbrev writable : Fired
writable = record { timed_out = false; readable = false; writable = true }

abbrev begun : TaskLocal Sim
begun = record (on_server start (exec command)) {
  task = record (task start (exec command)) { channel = none };
}

abbrev opened_up : TaskLocal Sim
opened_up = record (on_server channel_ready (exec command)) {
  ent = record (server connected) {
    ev_type = writable;
    ev_up = true;
    pending = some (task_handler 0);
  };
}

open_test : pssh_task_event_handler sim 0 begun writable ≡ ok opened_up
unfolding pssh_task_event_handler pssh_task_fsm pssh_task_run_exec_task pssh_task_get_exec_channel
    take_channel rearm pssh_task_event_update
open_test = refl

handler-Step_example : Edge true start channel_ready × SameTask begun.task opened_up.task
handler-Step_example = handler-Step sim 0 begun opened_up writable open_test

task_handler_arms_example : IsArmed 0 opened_up
task_handler_arms_example =
    task_handler_arms sim 0 begun opened_up writable (λ w s i t. refl) open_test
