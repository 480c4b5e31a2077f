-- ===== src/Client/Batch/Copies.antt =====
-- The task list of a group of example/ex.c: the tasks, one by one, each bound to the server that it names.
use mathlib.Core.List.{append_assoc, append-nil}
use libpssh.Prelude.{
  ℕ, suc, pos, ◌≤◌, ◌≡◌, refl, sym, ap, ◌∙◌, true, false, List, [], ◌∷◌, ◌++◌, map, Option, none,
  some, get_elem?, All, All-append, str_eq, str_eq_refl, Bool-cases, inl, inr, ◌==◌, ◌||◌, Outcome,
  ok, arith,
}
use libpssh.Env.{Env}
use libpssh.Session.{Entry, Session}
use libpssh.Task.{Task, State, copy, to_serv, idle}
use libpssh.Task.Api.{
  pssh_task_list_init, pssh_find_ent, pssh_cp_to_server, pssh_add_cp_task, pssh_add_cmd, add_task,
  check_zero_str, no_info, fits,
}
use libpssh.Task.Listing.{Finds, missing, first, find_ent-Finds}
use libpssh.Client.Files.{time_limit, members, server_name, copies_for}
use libpssh.Client.Batch.Plan.{
  Row, row_of, www, plan, row_for, rows_of, rows-cong, map-cong, map-append, All-www, members_low,
  plan_rows,
}
use libpssh.Client.Batch.{wrong_calls, add_copies, add_tasks, make_list}

-- The task is bound to an entry of its own name.
abbrev pub IsBound : List Entry → Task → Type 0
IsBound es t =
    (k : ℕ) × (e : Entry) × (t.sess_entry ≡ some k)
    × (get_elem? es k ≡ some e)
    × (e.hostaddr_str ≡ t.hostname)

-- Some entry has the name.
abbrev IsPresent : List Entry → List ℕ → Type 0
IsPresent es name = (k : ℕ) × (e : Entry) × (get_elem? es k ≡ some e) × (e.hostaddr_str ≡ name)

abbrev pub name_of : Entry → List ℕ
name_of e = e.hostaddr_str

behind : (e : Entry) (es : List Entry) (name : List ℕ) → IsPresent es name → IsPresent (e ∷ es) name
behind e es name (k, x, at, same) = (suc k, x, at, same)

All-behind :
    (e : Entry) (es : List Entry) (f : ℕ → List ℕ) (is : List ℕ)
    → All (λ i. IsPresent es (f i)) is
    → All (λ i. IsPresent (e ∷ es) (f i)) is
All-behind e es f [] a = tt
All-behind e es f (i ∷ is) a = (behind e es (f i) a.0, All-behind e es f is a.1)

-- If the entries have the names of the members, each of these names is some entry's.
all_present :
    (es : List Entry) (f : ℕ → List ℕ) (is : List ℕ)
    → map name_of es ≡ map f is
    → All (λ i. IsPresent es (f i)) is
all_present es f [] h = tt
all_present [] f (i ∷ is) h = cc
all_present (e ∷ es) f (i ∷ is) h =
    ((0, e, refl, cc h), All-behind e es f is (all_present es f is (cc h)))

found_at :
    (es : List Entry) (name : List ℕ) (r : Option ℕ)
    → Finds es name r
    → IsPresent es name
    → (k : ℕ) × (e : Entry) × (r ≡ some k) × (get_elem? es k ≡ some e) × (e.hostaddr_str ≡ name)
found_at es name none (missing none_has) (k, e, at, same) =
    let other : str_eq name name ≡ false = rw same at (none_has k e at) in
    absurd (ground (arith, other, str_eq_refl name))
found_at es name (some k) (first l e at same others) present = (k, e, refl, at, same)

module _ {W : Type 0} (env : Env W) where
  -- The wrong calls are refused, and leave the list as it is.
  wrong_calls_lem : (s : State W) → wrong_calls env s ≡ ok s
  unfolding wrong_calls pssh_cp_to_server pssh_add_cp_task pssh_add_cmd
  wrong_calls_lem s = refl

  abbrev new_task : State W → List ℕ → List ℕ → List ℕ → Task
  new_task s name l_fn r_fn = record {
    hostname = name;
    is_reported = false;
    sess_entry = pssh_find_ent s.session.entries name;
    stat = idle;
    channel = none;
    payload =
        copy
          (record { dir = to_serv; l_fn = l_fn; r_fn = r_fn; buf = none; tcnt = 0; st = no_info });
    timeout = 15;
  }

  abbrev with_task : State W → Task → State W
  with_task s t = record s { tasks = s.tasks ++ t ∷ [] }

  -- A pair of names of files that fit.
  abbrev IsPair : List ℕ × List ℕ → Type 0
  IsPair (l_fn, r_fn) =
      (check_zero_str (some l_fn) ≡ false)
      × (check_zero_str (some r_fn) ≡ false)
      × (fits env l_fn ≡ true)
      × (fits env r_fn ≡ true)

  cp_adds :
      (s : State W) (j i : ℕ) (l_fn r_fn : List ℕ)
      → IsPair (l_fn, r_fn)
      → pssh_cp_to_server env
          (some s)
          (some (server_name j i))
          (some l_fn)
          (some r_fn)
          (pos time_limit)
        ≡ ok (pos 0, some (with_task s (new_task s (server_name j i) l_fn r_fn)))
  unfolding pssh_cp_to_server pssh_add_cp_task add_task server_name
  cp_adds s j i l_fn r_fn (a, b, c, d) = ground (arith, a, b, c, d)

  -- What adding tasks comes to: those more, each bound to its server, for the same session.
  abbrev Adds : State W → List Row → Outcome (State W) → Type 0
  Adds s rows r =
      (s' : State W) × (r ≡ ok s')
      × (s'.session ≡ s.session)
      × (map row_of s'.tasks ≡ map row_of s.tasks ++ rows)
      × All (IsBound s.session.entries) s'.tasks

  copies-Adds :
      (s : State W) (j i : ℕ) (fns : List (List ℕ × List ℕ))
      → IsPresent s.session.entries (server_name j i)
      → All IsPair fns
      → All (IsBound s.session.entries) s.tasks
      → Adds s (map (row_for (server_name j i)) fns) (add_copies env s (server_name j i) fns)
  unfolding add_copies
  copies-Adds s j i [] here good bound =
      (s, refl, refl, sym (append-nil (map row_of s.tasks)), bound)
  copies-Adds s j i ((l_fn, r_fn) ∷ fns) here good bound =
      let name = server_name j i in
      let t = new_task s name l_fn r_fn in
      let at = found_at s.session.entries name _ (find_ent-Finds s.session.entries name) here in
      let step = cp_adds s j i l_fn r_fn good.0 in
      let (s', run, same, count, all) =
        copies-Adds (with_task s t) j i fns here good.1
          (All-append (IsBound s.session.entries) s.tasks (t ∷ []) bound (at, tt)) in
      (
        s',
        rw step run,
        same,
        count
            ∙ (ap (λ xs. xs ++ map (row_for name) fns) (map-append s.tasks (t ∷ []))
                ∙ append_assoc (map row_of s.tasks) (row_of t ∷ []) (map (row_for name) fns)),
        all,
      )

  copies-IsPair : (i : ℕ) → 12 ≤ env.maxpathlen → All IsPair (copies_for i)
  unfolding copies_for
  copies-IsPair i room = elim (Bool-cases (i == 2 || i == 4)) [
    | inl few ↦ rw few ((refl, refl, ground arith, ground arith), tt)
    | inr many ↦ rw many (
      (refl, refl, ground arith, ground arith),
      (
        (refl, refl, ground arith, ground arith),
        ((refl, refl, ground arith, ground arith), ((refl, refl, ground arith, ground arith), tt)),
      ),
    )
  ]

  tasks-Adds :
      (s : State W) (j : ℕ) (is : List ℕ)
      → 12 ≤ env.maxpathlen
      → All (λ i. IsPresent s.session.entries (server_name j i)) is
      → All (IsBound s.session.entries) s.tasks
      → Adds s (rows_of (server_name j) is) (add_tasks env s j is)
  unfolding add_tasks
  tasks-Adds s j [] room here bound = (s, refl, refl, sym (append-nil (map row_of s.tasks)), bound)
  tasks-Adds s j (i ∷ is) room here bound =
      let (u, run, same, count, all) =
        copies-Adds s j i (copies_for i) here.0 (copies-IsPair i room) bound in
      let entries = ap (λ x. x.entries) same in
      let (v, rest, same', count', all') =
        tasks-Adds u j is room (rw entries here.1) (rw entries all) in
      let here_rows = map (row_for (server_name j i)) (copies_for i) in
      let more = rows_of (server_name j) is in
      (
        v,
        rw run rest,
        same' ∙ same,
        count' ∙ (ap (λ xs. xs ++ more) count ∙ append_assoc (map row_of s.tasks) here_rows more),
        rw entries at all',
      )

  -- For a session with the servers of a group, in order, when a path has room for 12 characters, the
  -- list of the group is made: the five wrong calls are refused, and the tasks are those of the plan, in
  -- its order: each an idle copy to its server, with its two file names and a timeout of 15 seconds, bound
  -- to an entry of the server's name; the session is left alone.
  pub make_list_lem :
      (sess : Session W) (j : ℕ)
      → 12 ≤ env.maxpathlen
      → map name_of sess.entries ≡ map (www j) members
      → (s : State W) × (make_list env sess j ≡ ok s)
        × (s.session ≡ sess)
        × (map row_of s.tasks ≡ plan j)
        × All (IsBound sess.entries) s.tasks
  unfolding make_list pssh_task_list_init
  make_list_lem sess j room names =
      let empty = pssh_task_list_init sess in
      let same_names = All-www j members members_low in
      let present =
        all_present sess.entries (server_name j) members
          (names ∙ sym (map-cong (server_name j) (www j) members same_names)) in
      let (s, run, same, rows, all) = tasks-Adds empty j members room present tt in
      (
        s,
        rw (wrong_calls_lem empty, make_list) run,
        same,
        rows ∙ (rows-cong (server_name j) (www j) members same_names ∙ plan_rows j),
        all,
      )
