-- ===== src/Client/Batch.antt =====
-- `main` of example/ex.c: groups of nine servers, one after the other, and a fixed list of copies to each
-- server. What it prints on the way is left out.
pub mod Plan
pub mod Copies
use libpssh.Prelude.{
  ℕ, zero, suc, pos, is_minus_one, ◌+◌, ◌*◌, ◌/◌, ◌%◌, ◌==◌, ◌||◌, Bool, true, false, ℤ, List, [],
  ◌∷◌, Option, none, some, get_elem?, length, if◌then◌else◌, Outcome, ok, abort, spin, ◌>>=◌, ◌>>◌,
  assert,
}
use libpssh.Env.{Env}
use libpssh.Session.{Session}
use libpssh.Session.Api.{
  pssh_init, pssh_server_add, pssh_server_first, pssh_server_next, pssh_stat_str, pssh_free,
}
use libpssh.Task.{Task, State, Cursor, place, end, unset}
use libpssh.Task.Api.{
  pssh_task_list_init, pssh_cp_to_server, pssh_add_cmd, pssh_task_first, pssh_task_next,
  pssh_task_list_free, pssh_task_type, TaskType, task_type_copy, task_type_exec,
}
use libpssh.Loop.{Occurrence, Ret, success, Call, returned, stopped, spins}
use Prim.Native.String.{String}
use libpssh.Client.Files.{
  batch_public_key, arg_a, arg_b, arg_c, arg_s, time_limit, groups, members, server_name,
  copies_for,
}
use libpssh.Client.{Ended, by_call, connect_all, exec_all, the_username, name_of_stat}

module _ {W : Type 0} where
  -- The task list behind the pointer that was handed in.
  abbrev pub list_of : State W → Option (State W) → State W
  list_of s none = s
  list_of s (some s') = s'

module _ {W : Type 0} (env : Env W) where
  unfoldable pub add_servers : Session W → ℕ → List ℕ → Outcome (Session W)
  add_servers sess j [] = ok sess
  add_servers sess j (i ∷ is) = do
    sess' ← pssh_server_add env sess (server_name j i) 22
    add_servers sess' j is

  unfoldable pub add_copies : State W → List ℕ → List (List ℕ × List ℕ) → Outcome (State W)
  add_copies s name [] = ok s
  add_copies s name ((l_fn, r_fn) ∷ fns) = do
    r ← pssh_cp_to_server env (some s) (some name) (some l_fn) (some r_fn) (pos time_limit)
    add_copies (list_of s r.1) name fns

  unfoldable pub add_tasks : State W → ℕ → List ℕ → Outcome (State W)
  add_tasks s j [] = ok s
  add_tasks s j (i ∷ is) = do s' ← add_copies s (server_name j i) (copies_for i); add_tasks s' j is

  -- ret = ...; assert(ret == -1);
  abbrev refused : State W → Outcome (ℤ × Option (State W)) → Outcome (State W)
  refused s call = do r ← call; assert (is_minus_one r.0) >> ok (list_of s r.1)

  -- The five wrong calls.
  unfoldable pub wrong_calls : State W → Outcome (State W)
  wrong_calls s0 = do
    s1 ←
        refused s0
          (pssh_cp_to_server env (some s0) (some []) (some arg_a) (some arg_b) (pos time_limit))
    s2 ←
        refused s1
          (pssh_cp_to_server env (some s1) (some arg_s) (some []) (some arg_b) (pos time_limit))
    s3 ←
        refused s2
          (pssh_cp_to_server env (some s2) (some arg_s) (some arg_a) (some []) (pos time_limit))
    s4 ← refused s3 (pssh_add_cmd env (some s3) (some []) (some arg_c) (pos time_limit))
    refused s4 (pssh_add_cmd env (some s4) (some arg_s) (some []) (pos time_limit))

  -- A new list for a session, the wrong calls, and the tasks of the group.
  unfoldable pub make_list : Session W → ℕ → Outcome (State W)
  make_list sess j = do s ← wrong_calls (pssh_task_list_init sess); add_tasks s j members

-- What a pointer that is not NULL points at; a NULL that is followed stops the process.
abbrev follow : {A : Type 0} → Option A → Outcome A
follow none = abort
follow (some x) = ok x

module _ {W : Type 0} where
  -- while (ent != NULL) ...: the state of each entry is looked up in the table of names.
  unfoldable pub walk_servers : ℕ → Session W → Option ℕ → Outcome (Session W)
  walk_servers zero sess i = spin
  walk_servers (suc n) sess none = ok sess
  walk_servers (suc n) sess (some i) = do
    e ← follow (get_elem? sess.entries i)
    name ← follow (pssh_stat_str e)
    let r = pssh_server_next sess
    walk_servers n r.0 r.1

  -- while (task != NULL) ...: the process goes on if `look` says so of the task.
  unfoldable pub walk_tasks : (Task → Bool) → ℕ → State W → Cursor → Outcome (State W)
  walk_tasks look zero s at = spin
  walk_tasks look (suc n) s end = ok s
  walk_tasks look (suc n) s unset = abort
  walk_tasks look (suc n) s (place k) = do
    t ← follow (get_elem? s.tasks k)
    r ← assert (look t) >> pssh_task_next (some s)
    walk_tasks look n (list_of s r.1) r.0

  unfoldable pub visit_servers : Session W → Outcome (Session W)
  visit_servers sess =
      let (sess', first) = pssh_server_first sess in
      walk_servers (suc (length sess.entries)) sess' first

  unfoldable pub visit_tasks : (Task → Bool) → State W → Outcome (State W)
  visit_tasks look s =
      let (first, s') = pssh_task_first (some s) in
      walk_tasks look (suc (length s.tasks)) (list_of s s') first

-- pssh_task_type(task) == PSSH_TASK_TYPE_EXEC, or PSSH_TASK_TYPE_COPY, or abort()
unfoldable pub is_known : Task → Bool
is_known t = elim (pssh_task_type t) [ task_type_exec ↦ true | task_type_copy ↦ true ]

-- statstr[pssh_task_stat(task)] lies in the table.
unfoldable pub has_name : Task → Bool
has_name t = elim (name_of_stat t) [ none ↦ false | some name ↦ true ]

-- What libevent finds ready in a group: lists for the loop around pssh_connect and for the one around
-- pssh_exec.
pub record Inputs : Type 0 where
  pub connects : List (List (List Occurrence))
  pub execs : List (List (List Occurrence))

module _ {W : Type 0} where
  abbrev after_call : {A : Type 0} → Outcome A → (A → Ended (State W)) → Ended (State W)
  after_call (ok x) go = go x
  after_call abort go = by_call stopped
  after_call spin go = by_call spins

  -- Both loops go on with what follows them, whatever they were told.
  abbrev after_loop : Ended (State W) → (Ret → State W → Ended (State W)) → Ended (State W)
  after_loop (by_call (returned ret i s)) go = go ret s
  after_loop r go = r

module _ {W : Type 0} (env : Env W) where
  -- if (old_pssh) pssh_free(old_pssh), in the world after pssh_init.
  abbrev free_old : Option (State W) → Session W → Session W
  free_old none sess = sess
  free_old (some s) sess = record sess {
    world = pssh_free env (record s.session { world = sess.world });
  }

module _ {W : Type 0} (env : Env W) (fuel : ℕ) where
  -- The part of a group on its task list.
  unfoldable pub run_group : Session W → ℕ → List (List (List Occurrence)) → Ended (State W)
  run_group sess j execs = after_call (make_list env sess j) λ s.
      after_loop (exec_all env fuel s execs).1
        λ ret s'. after_call (visit_tasks is_known s') λ s''. by_call (returned ret none s'')

  -- The body of the loop over the groups: a new session, and the old one is freed.
  unfoldable pub one_group : Option (State W) → W → ℕ → Inputs → Ended (State W)
  one_group old w j inputs =
      elim (pssh_init env w the_username batch_public_key none (some []) true) [
        | none ↦ by_call stopped
        | some new ↦ after_call (add_servers env (free_old env old new) j members) λ sess.
            let s = pssh_task_list_init (pssh_server_next sess).0 in
            after_loop (connect_all env fuel s time_limit inputs.connects).1 λ ret s'.
              after_call (visit_servers s'.session) λ sess'. run_group sess' j inputs.execs
      ]

  -- The loop over the groups.
  unfoldable pub all_groups : Option (State W) → W → List ℕ → (ℕ → Inputs) → Ended (State W)
  all_groups none w [] inputs = by_call stopped
  all_groups (some s) w [] inputs = by_call (returned success none s)
  all_groups old w (j ∷ js) inputs =
      after_loop (one_group old w j (inputs j))
        λ ret s. all_groups (some s) s.session.world js inputs

-- What `main` ends with: it has freed the last list and its session and prints a result, or it does not
-- come so far.
pub data BatchEnd (W : Type 0) : Type 0 where
  frees : Ret → W → BatchEnd W
  breaks : Ended (State W) → BatchEnd W

module _ {W : Type 0} (env : Env W) where
  abbrev free_all : Ret → Option (Session W) → BatchEnd W
  free_all ret none = breaks (by_call stopped)
  free_all ret (some sess) = frees ret (pssh_free env sess)

  -- The end of `main`, by how the listing behind the last loop around pssh_exec ended.
  abbrev close : Ended (State W) → BatchEnd W
  close (by_call (returned ret i s)) = free_all ret (pssh_task_list_free (some s))
  close r = breaks r

module _ {W : Type 0} (env : Env W) (fuel : ℕ) where
  -- `main` in the world before the call, with inputs for each group, and for the loop behind them.
  unfoldable pub batch_main : W → (ℕ → Inputs) → List (List (List Occurrence)) → BatchEnd W
  batch_main w inputs execs = close env (
      after_loop (all_groups env fuel none w groups inputs) λ _ s.
        after_loop (exec_all env fuel s execs).1
          λ ret s'. after_call (visit_tasks has_name s') λ s''. by_call (returned ret none s''))
