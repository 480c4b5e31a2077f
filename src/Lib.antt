-- ===== src/Lib.antt =====
-- libpssh: connections to many ssh servers, commands and copies on them, driven by one event loop.
--
-- The program (src/, include/pssh.h). A session (src/pssh.c) holds one entry for each server. An entry
-- goes through name resolution, connect, the start of libssh2 and authentication: each step runs in a
-- callback of libevent or evdns, and ends by asking for the next event. pssh_connect goes round the
-- entries and the event loop until there is a server to report. A task list (src/task.c) holds commands
-- and copies, each bound to an entry by name; pssh_exec launches the tasks of connected servers on the
-- event of their entry, and goes round the tasks and the event loop in the same way.
--
-- What models what.
--   Prelude         shared notation, lists and options over the native numbers, `int` and `size_t`,
--                   and `Outcome`: a call returns (ok), stops the process or does what C leaves
--                   undefined (abort), or has not ended when the fuel is used up (spin).
--   Env             every call of libssh2, libevent, evdns, the C library and the kernel, as one record
--                   of functions on a state of the outside world; a theorem names what it assumes.
--   Session         src/pssh_priv.h, for connections. Session.Events: pssh_event_update,
--                   pssh_eagain_handle. Session.Fsm: pssh_conn, pssh_fsm, pssh_event_handler,
--                   pssh_dns_cb. Session.Api: pssh_init, pssh_server_add, pssh_server_first, pssh_free
--                   and the accessors. Session.Cases, Graph, Sound, Stalls, Walk, Names, Awake, Cost, Own:
--                   proofs.
--   Task            src/pssh_priv.h, for tasks. Task.Events: the events of tasks. Task.Copy: copies,
--                   with proofs in Copy.Load (the local file), Copy.Send and Copy.Receive. Task.Exec:
--                   commands, with proofs in Exec.Streams (buffers), Exec.Half, Exec.Total and
--                   Exec.Chunks (the reading loop) and Exec.Faults. Task.Fsm: pssh_task_fsm and
--                   its callback. Task.Api: the task list, with proofs in Task.Listing
--                   and Task.Lookup. Proofs on the callback: Task.Graph, Wakeup, Shared, Done; Task.Thrift and Task.Cost: how far a task
--                   is from its end.
--   Loop            Loop.Dispatch: event_base_loop and the callbacks, by cases in Loop.Cases.
--                   Loop.Connect: pssh_connect, with proofs in Connect.Settled and Connect.Results (what
--                   it returns), Connect.Fair, Connect.Progress and Connect.Live (that it
--                   returns), Connect.Stalls (where it does not).
--                   Loop.Exec: pssh_exec, with proofs in Exec.Walk and Exec.Results (what it returns),
--                   Exec.Over (when a task is over), Exec.Fair, Exec.Nears, Exec.Rounds, Exec.Progress
--                   and Exec.Fresh (that it returns).
--                   Loop.Reach: a session's life as steps, with what the callbacks and the rounds do to all
--                   entries in Loop.Callbacks, Connect.Entries and Exec.Entries. Loop.Marks, Connect.Marks
--                   and Exec.Marks: the marks of what has been reported. Loop.Board: what a user sees, as
--                   a specification, with Board.Cards, Connect.Cards, Exec.Cards and Board.Refine.
--                   Loop.Owner: which task an event is held for, with Owner.Events, Exec.Owner,
--                   Owner.Steps and Owner.Quiet.
--   Xsys            xwrite of src/xsys.c. Xsys.Ends: its end, with and without errors; Xsys.Whole: without.
--   Client          `main` of example/ex1.c, on all of the above. Client.Poll: a loop around a call that
--                   marks what it reports; Client.Reports: this for both calls; Client.Returns, Served and
--                   Fair: such a loop comes to its end. Client.Files and Client.Batch: `main` of
--                   example/ex.c, with a proof in Batch.Plan and Batch.Copies.
--   Examples        a small world, and the theorems and some runs in it.
--
-- How the state corresponds. An entry is named by its place in the queue, a task by its place in the
-- list; `sess_entry` and the argument of an event are such places, so that tasks of one server share
-- its entry. `pending` of an entry is the callback of its event while libevent holds it; `ev_up` is the
-- field of the source. A handler works on the part of the state that it can reach (Local, TaskLocal),
-- and Loop.Dispatch puts that part back. What libevent finds ready is an input: one list of occurrences
-- for each call of event_base_loop; a call of pssh_connect or pssh_exec whose occurrences are used up
-- waits.
--
-- Bounds. Lengths in the reading loop and in pssh_task_send_data go through `int` and `size_t`, of 32 and
-- 64 bits. The fuel of the loop over read(2), of the reading loop of a command and of xwrite is the
-- number of rounds: one for each byte still to come is enough for a file, and one more for a command,
-- since a round that brings no byte is the last. Where libssh2 may say "again", a count of its patience
-- (Session.Cost, Task.Thrift) bounds the rounds, and the fuel is to be above it.
--
-- Not modelled: the truncation to `int` of what libssh2_channel_read and libssh2_channel_write answer
-- (a file of 2 GB or more from a server is `abort`); for which direction (EV_READ, EV_WRITE) an event of
-- an entry is held; a timeout of pssh_connect below 0; what a write past a field leaves behind (`abort`
-- stands for it); the allocator behind xmalloc, xrealloc and xstrdup; debug output (src/debug.h);
-- src/oper.h, whose functions are not written; fcntl; the text that the examples print on the way; what
-- libssh2, libevent and the kernel do inside.
pub mod Prelude
pub mod Env
pub mod Session
pub mod Task
pub mod Loop
pub mod Xsys
pub mod Client
mod Examples
