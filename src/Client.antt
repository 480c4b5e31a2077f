-- ===== src/Client.antt =====
-- The programs that come with the library, example/ex1.c and example/ex.c: how a client calls it. Each
-- call of pssh_connect or pssh_exec runs on its own lists of occurrences.
pub mod Poll
pub mod Reports
pub mod Returns
pub mod Served
pub mod Fair
pub mod Files
pub mod Batch
use Prim.Native.String.{String}
use libpssh.Prelude.{
  ℕ, suc, length, spin, ◌==◌, Bool, true, false, List, [], ◌∷◌, Option, none, some, get_elem?, pos,
  Outcome, ok, abort, if◌then◌else◌,
}
use libpssh.Env.{Env}
use libpssh.Session.{Session}
use libpssh.Session.Api.{pssh_init, pssh_server_add}
use libpssh.Task.{Task, State, Cursor, place, end, unset}
use libpssh.Task.Api.{
  PubTaskStat, task_none, task_error, task_inprogress, task_done, pssh_task_stat,
  pssh_task_list_init, pssh_add_cmd, pssh_task_first, pssh_task_stdout, pssh_task_stderr,
}
use libpssh.Loop.{
  Occurrence, Ret, connected, running, timed_out, failed, success, Call, returned, waits, stopped,
  spins,
}
use libpssh.Loop.Connect.{pssh_connect}
use libpssh.Loop.Exec.{pssh_exec}

-- The codes of the results, as C numbers the enum.
unfoldable pub ret_code : Ret → ℕ
ret_code connected = 0
ret_code running = 1
ret_code timed_out = 2
ret_code failed = 3
ret_code success = 4

abbrev pub conn_ret_str : List String
conn_ret_str =
    "PSSH_CONNECTED" ∷ "PSSH_RUNNING" ∷ "PSSH_TIMEOUT" ∷ "PSSH_FAILED" ∷ "PSSH_SUCCESS" ∷ []

unfoldable pub task_stat_code : PubTaskStat → ℕ
task_stat_code task_none = 0
task_stat_code task_error = 1
task_stat_code task_inprogress = 2
task_stat_code task_done = 3

-- The table of example/ex.c: two literals with no comma between them are one name.
abbrev pub statstr : List String
statstr =
    "PSSH_TASK_STAT_NONE" ∷ "PSSH_TASK_STAT_ERROR" ∷ "PSSH_TASK_INPROGRESSPSSH_TASK_STAT_DONE" ∷ []

-- `do { ret = call; ... } while (ret == again);` with one input for each call. It ends with a call that
-- answers otherwise or does not return, or the inputs are used up. The first part is what was reported.
pub data Ended (S : Type 0) : Type 0 where
  by_call : Call S → Ended S
  cut : Ended S

module _ {S X : Type 0} (call : S → X → Call S) (again : Ret) where
  unfoldable pub poll : S → List X → List (Option ℕ) × Ended S
  unfolding ret_code
  poll s [] = ([], cut)
  poll s (x ∷ xs) = elim (call s x) [
    | returned ret i s' ↦
        let rest = poll s' xs in
        if ret_code ret == ret_code again
        then (i ∷ rest.0, rest.1)
        else ([], by_call (returned ret i s'))
    | waits s' ↦ ([], by_call (waits s'))
    | stopped ↦ ([], by_call stopped)
    | spins ↦ ([], by_call spins)
  ]

module _ {W : Type 0} (env : Env W) (fuel : ℕ) where
  -- The loops of both programs.
  unfoldable pub connect_all :
      State W → ℕ → List (List (List Occurrence)) → List (Option ℕ) × Ended (State W)
  connect_all s timeout = poll (λ t oss. pssh_connect env fuel t timeout oss) connected s

  unfoldable pub exec_all :
      State W → List (List (List Occurrence)) → List (Option ℕ) × Ended (State W)
  exec_all = poll (pssh_exec env fuel) running

abbrev the_username : List ℕ
the_username = 114 ∷ 117 ∷ 115 ∷ 104 ∷ 98 ∷ 97 ∷ []

abbrev the_public_key : List ℕ
the_public_key =
    47 ∷ 104 ∷ 111 ∷ 109 ∷ 101 ∷ 47 ∷ 114 ∷ 117 ∷ 115 ∷ 104 ∷ 98 ∷ 97 ∷ 47 ∷ 46 ∷ 115 ∷ 115 ∷ 104
    ∷ 47 ∷ 105 ∷ 100 ∷ 95 ∷ 100 ∷ 115 ∷ 97 ∷ 46 ∷ 112 ∷ 117 ∷ 98 ∷ []

-- What `main` of example/ex1.c ends with: an assertion that fails, a call that does not return, or what
-- it prints at the end.
pub record Printed : Type 0 where
  pub ret : Ret
  pub calls : ℕ
  pub out : Option (List ℕ)
  pub err : Option (List ℕ)

pub data Main (W : Type 0) : Type 0 where
  prints : Printed → Main W
  no_session : Main W
  ends_in : Ended (State W) → Main W

abbrev at_cursor : List Task → Cursor → Option Task
at_cursor ts (place i) = get_elem? ts i
at_cursor ts end = none
at_cursor ts unset = none

module _ {W : Type 0} where
  abbrev first_task : State W → Option Task
  first_task s = at_cursor s.tasks (pssh_task_first (some s)).0

  -- The end of `main`, by how the loop around pssh_exec ended.
  print_result : List (Option ℕ) → Ended (State W) → Main W
  print_result told (by_call (returned ret i s)) = prints (record {
    ret = ret;
    calls = suc (length told);
    out = pssh_task_stdout (first_task s);
    err = pssh_task_stderr (first_task s);
  })
  print_result told r = ends_in r

module _ {W : Type 0} (env : Env W) (fuel : ℕ) where
  -- The command is added, whatever the loop around pssh_connect ended with.
  run_command : List ℕ → ℕ → List ℕ → Session W → List (List (List Occurrence)) → Main W
  unfolding print_result
  run_command hostname timeout cmd sess osss =
      elim (pssh_add_cmd env (some (pssh_task_list_init sess)) (some hostname) (some cmd)
        (pos timeout)) [
          | ok (_, some s) ↦ (let (told, r) = exec_all env fuel s osss in print_result told r)
          | ok (_, none) ↦ no_session
          | abort ↦ ends_in (by_call stopped)
          | spin ↦ ends_in (by_call spins)
        ]

  after_connect : List ℕ → ℕ → List ℕ → Ended (State W) → List (List (List Occurrence)) → Main W
  unfolding run_command
  after_connect hostname timeout cmd (by_call (returned ret i s)) osss =
      run_command hostname timeout cmd s.session osss
  after_connect hostname timeout cmd r osss = ends_in r

  -- `main` with its arguments read and a timeout that is not negative, in the world before the call.
  unfoldable pub main :
      W
      → List ℕ
      → ℕ
      → List ℕ
      → List (List (List Occurrence))
      → List (List (List Occurrence))
      → Main W
  unfolding after_connect
  main w hostname timeout cmd connects execs =
      elim (pssh_init env w the_username the_public_key none (some []) true) [
        | none ↦ no_session
        | some sess ↦ elim (pssh_server_add env sess hostname 22) [
          | ok sess' ↦
              let s : State W = pssh_task_list_init sess' in
              after_connect hostname timeout cmd (connect_all env fuel s timeout connects).1 execs
          | abort ↦ ends_in (by_call stopped)
          | spin ↦ ends_in (by_call spins)
        ]
      ]

-- The table of example/ex.c at the state of a task; `none` is past its end.
unfoldable pub name_of_stat : Task → Option String
unfolding task_stat_code
name_of_stat t = get_elem? statstr (task_stat_code (pssh_task_stat t))
