-- ===== src/Loop/Exec/Fresh.antt =====
-- A list that a client has made (src/task.c: pssh_task_list_init and the functions that add a task) is
-- ready for pssh_exec.
use mathlib.Core.Path.{subst}
use libpssh.Prelude.{
  ℕ, ℤ, pos, ◌+◌, ◌<◌, ◌≡◌, inl, inr, refl, false, ◌&&◌, ◌||◌, Bool-cases, List, [], ◌∷◌, ◌++◌,
  Option, none, some, ltb, All, All-append, length, int_limit, ok, arith,
}
use libpssh.Env.{Env}
use libpssh.Session.{Session}
use libpssh.Session.Api.{hostaddr_len}
use libpssh.Session.Own.{HasNoTask}
use libpssh.Session.Sound.{EventsAdded}
use libpssh.Task as T
use libpssh.Task.{
  Direction, to_serv, from_serv, CopyTask, Stream, ExecTask, Task, Payload, copy, exec, State,
}
use libpssh.Task.Api.{
  pssh_task_list_init, add_task, pssh_find_ent, seconds, no_stream, pssh_add_cmd, pssh_add_cp_task,
  check_zero_str, fits, str, no_info,
}
use libpssh.Task.Exec.{alloc_size}
use libpssh.Task.Exec.Streams.{unread}
use libpssh.Task.Thrift.{Thrift}
use libpssh.Task.Shared.{IsShared}
use libpssh.Task.Cost.{StreamFits, Fits, to_load, to_fetch, to_run, patience}
use libpssh.Loop.Exec.Nears.{Ready}
use libpssh.Loop.Owner.Steps.{list_init-Owned, add-Owned}

-- What the two functions put into a task.
abbrev new_command : Option (List ℕ) → ExecTask
new_command cmd = record {
  cmd = str cmd;
  out_stream = no_stream;
  err_stream = no_stream;
  ret_code = pos 0;
}

abbrev new_copy : Option (List ℕ) → Option (List ℕ) → Direction → CopyTask
new_copy l_fn r_fn dir = record {
  dir = dir;
  l_fn = str l_fn;
  r_fn = str r_fn;
  buf = none;
  tcnt = 0;
  st = no_info;
}

module _ {W : Type 0} (env : Env W) (fuel : ℕ) (added : EventsAdded env) (th : Thrift env) where
  abbrev P : State W → ℕ
  P s = patience env th s.session.world

  -- A list that has just been made, for a session whose events are no task's.
  pub list_init-Ready :
      (sess : Session W)
      → All IsShared sess.entries
      → All HasNoTask sess.entries
      → Ready env fuel added th (pssh_task_list_init sess)
  unfolding pssh_task_list_init
  list_init-Ready sess all quiet = record { owned = list_init-Owned sess all quiet; fits = tt }

  -- The task that `add_task` makes.
  abbrev new_task : State W → List ℕ → Payload → ℤ → Task
  new_task s srv payload timeout_sec = record {
    hostname = srv;
    is_reported = false;
    sess_entry = pssh_find_ent s.session.entries srv;
    stat = T.idle;
    channel = none;
    payload = payload;
    timeout = seconds timeout_sec;
  }

  add_task-Ready :
      (s s' : State W) (srv : List ℕ) (payload : Payload) (timeout_sec r : ℤ)
      → Ready env fuel added th s
      → Fits th.is_file th.max_size (P s) (new_task s srv payload timeout_sec)
      → add_task s srv payload timeout_sec ≡ ok (r, some s')
      → Ready env fuel added th s'
  unfolding add_task
  add_task-Ready s s' srv payload timeout_sec r v f h =
      let t = new_task s srv payload timeout_sec in
      elim (Bool-cases (ltb (length srv) hostaddr_len)) [
        | inr full ↦ absurd (ground arith)
        | inl room ↦
            let same : record s { tasks = s.tasks ++ t ∷ [] } ≡ s' = ground arith in
            subst (Ready env fuel added th) same (record {
              owned = add-Owned s.session.entries s.tasks t v.owned refl;
              fits = All-append (Fits th.is_file th.max_size (P s)) s.tasks (t ∷ []) v.fits (f, tt);
            })
      ]

  unread-StreamFits : (p : ℕ) → p + alloc_size < int_limit → StreamFits p no_stream
  unread-StreamFits p h = record { fit = unread refl; room = omega arith }

  -- Adding a command keeps the list ready, if the patience is no more than a stream can grow.
  pub add_cmd-Ready :
      (s s' : State W) (srv cmd : Option (List ℕ)) (timeout_sec r : ℤ)
      → P s + alloc_size < int_limit
      → Ready env fuel added th s
      → pssh_add_cmd env (some s) srv cmd timeout_sec ≡ ok (r, some s')
      → Ready env fuel added th s'
  unfolding pssh_add_cmd
  add_cmd-Ready s s' srv cmd timeout_sec r small v h =
      elim (Bool-cases (check_zero_str srv || check_zero_str cmd)) [
        | inl refused ↦ let same : s ≡ s' = ground arith in subst (Ready env fuel added th) same v
        | inr named ↦ elim (Bool-cases (fits env (str cmd))) [
          | inr long ↦ absurd (ground arith)
          | inl short ↦
              let streams = unread-StreamFits (P s) small in
              add_task-Ready s s' (str srv) (exec (new_command cmd)) timeout_sec r v
                (to_run (new_command cmd) refl refl (record { out = streams; err = streams }))
                (ground arith)
        ]
      ]

  new_copy-Fits :
      (s : State W) (srv : List ℕ) (l_fn r_fn : Option (List ℕ)) (dir : Direction) (timeout_sec : ℤ)
      → P s < int_limit
      → Fits th.is_file th.max_size
          (P s)
          (new_task s srv (copy (new_copy l_fn r_fn dir)) timeout_sec)
  new_copy-Fits s srv l_fn r_fn to_serv timeout_sec small =
      to_load (new_copy l_fn r_fn to_serv) refl refl refl refl
  new_copy-Fits s srv l_fn r_fn from_serv timeout_sec small =
      to_fetch (new_copy l_fn r_fn from_serv) refl refl
        (record { down = refl; room = omega arith; brief = small })

  -- So does adding a copy.
  pub add_cp-Ready :
      (s s' : State W) (srv l_fn r_fn : Option (List ℕ)) (dir : Direction) (timeout_sec r : ℤ)
      → P s < int_limit
      → Ready env fuel added th s
      → pssh_add_cp_task env (some s) srv l_fn r_fn dir timeout_sec ≡ ok (r, some s')
      → Ready env fuel added th s'
  unfolding pssh_add_cp_task
  add_cp-Ready s s' srv l_fn r_fn dir timeout_sec r small v h =
      elim (Bool-cases (check_zero_str srv || check_zero_str l_fn || check_zero_str r_fn)) [
        | inl refused ↦ let same : s ≡ s' = ground arith in subst (Ready env fuel added th) same v
        | inr named ↦ elim (Bool-cases (fits env (str l_fn) && fits env (str r_fn))) [
          | inr long ↦ absurd (ground arith)
          | inl short ↦
              add_task-Ready s s' (str srv) (copy (new_copy l_fn r_fn dir)) timeout_sec r v
                (new_copy-Fits s (str srv) l_fn r_fn dir timeout_sec small) (ground arith)
        ]
      ]
