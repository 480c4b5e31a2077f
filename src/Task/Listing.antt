-- ===== src/Task/Listing.antt =====
-- The task list as a user fills it (the add functions of src/task.c), and the walk over it.
use libpssh.Prelude.{
  ℕ, zero, suc, ◌+◌, ◌<◌, ◌≤◌, ◌≡◌, ◌⊎◌, inl, inr, refl, ap, ◌∙◌, ℤ, pos, minus_one, negsuc, Bool,
  true, false, Bool-cases, ◌&&◌, ◌||◌, List, [], ◌∷◌, ◌++◌, Option, none, some, get_elem?, length,
  ltb, str_eq, str_eq_sound, if◌then◌else◌, Outcome, ok, abort, arith,
}
use libpssh.Env.{Env}
use libpssh.Session.{Entry, Session}
use libpssh.Session.Api.{hostaddr_len}
use libpssh.Task.{idle, Direction, to_serv, from_serv, Task, Payload, copy, exec, State}
use libpssh.Task.Api.{
  pssh_find_ent, find_from, check_zero_str, str, seconds, fits, pssh_add_cp_task, pssh_add_cmd,
  pssh_task_next, pssh_task_list_init, add_task, no_stream, no_info, pssh_cp_to_server,
  pssh_cp_from_server,
}

-- A server found by name has that name, and no server before it has.
pub data Finds (es : List Entry) (srv : List ℕ) : Option ℕ → Type 0 where
  missing :
      ((j : ℕ) (e : Entry) → get_elem? es j ≡ some e → str_eq e.hostaddr_str srv ≡ false)
      → Finds es srv none
  first :
      (i : ℕ) (e : Entry)
      → get_elem? es i ≡ some e
      → e.hostaddr_str ≡ srv
      → ((j : ℕ) (f : Entry) → j < i → get_elem? es j ≡ some f → str_eq f.hostaddr_str srv ≡ false)
      → Finds es srv (some i)

skip_missing :
    (x : Entry) (es : List Entry) (srv : List ℕ)
    → str_eq x.hostaddr_str srv ≡ false
    → Finds es srv none
    → Finds (x ∷ es) srv none
skip_missing x es srv miss (missing f) = missing λ j e h. skip j e h
  where
    skip : (j : ℕ) (e : Entry) → get_elem? (x ∷ es) j ≡ some e → str_eq e.hostaddr_str srv ≡ false
    skip zero e h = ground arith
    skip (suc j) e h = f j e h

skip_first :
    (x : Entry) (es : List Entry) (srv : List ℕ) (i : ℕ)
    → str_eq x.hostaddr_str srv ≡ false
    → Finds es srv (some i)
    → Finds (x ∷ es) srv (some (suc i))
skip_first x es srv i miss (first _ e at same f) = first (suc i) e at same λ j g lt h. skip j g lt h
  where
    skip :
        (j : ℕ) (g : Entry)
        → j < suc i
        → get_elem? (x ∷ es) j ≡ some g
        → str_eq g.hostaddr_str srv ≡ false
    skip zero g lt h = ground arith
    skip (suc j) g lt h = f j g (omega arith) h

-- A timeout that is not positive stands for none.
abbrev IsTimeout : ℤ → ℕ → Type 0
IsTimeout timeout_sec n = (timeout_sec ≡ pos n) ⊎ ((k : ℕ) × (timeout_sec ≡ negsuc k) × (n ≡ 0))

is_timeout : (timeout_sec : ℤ) → IsTimeout timeout_sec (seconds timeout_sec)
is_timeout (pos n) = inl refl
is_timeout (negsuc k) = inr (k, refl, refl)

-- The task that an add function appends.
abbrev NewTask : Task → List Entry → List ℕ → ℤ → Type 0
NewTask t es srv timeout_sec =
    (t.hostname ≡ srv)
    × (t.stat ≡ idle)
    × (t.is_reported ≡ false)
    × (t.channel ≡ none)
    × IsTimeout timeout_sec t.timeout
    × Finds es srv t.sess_entry

find_from-Finds :
    (i : ℕ) (es : List Entry) (srv : List ℕ)
    → ((find_from i es srv ≡ none) × Finds es srv none)
      ⊎ ((j : ℕ) × (find_from i es srv ≡ some (i + j)) × Finds es srv (some j))
unfolding find_from
find_from-Finds i [] srv = inl (refl, missing (λ j e h. cc))
find_from-Finds i (x ∷ es) srv = elim (Bool-cases (str_eq x.hostaddr_str srv)) [
  | inl hit ↦ inr (
    0,
    rw hit (ap some (omega arith)),
    first 0 x refl (str_eq_sound x.hostaddr_str srv hit) (λ j f h. absurd (omega arith)),
  )
  | inr miss ↦ elim (find_from-Finds (suc i) es srv) [
    | inl (e, none_there) ↦ inl (rw miss e, skip_missing x es srv miss none_there)
    | inr (j, e, there) ↦
        inr (suc j, rw miss (e ∙ ap some (omega arith)), skip_first x es srv j miss there)
  ]
]

-- The server of a task is the first of the session whose name is equal to the task's, if there is one.
pub find_ent-Finds : (es : List Entry) (srv : List ℕ) → Finds es srv (pssh_find_ent es srv)
unfolding pssh_find_ent
find_ent-Finds es srv = elim (find_from-Finds 0 es srv) [
  | inl (e, f) ↦ rw e f
  | inr (j, e, f) ↦ let same : 0 + j ≡ j = omega arith in rw (e, same) f
]

-- An argument that is missing or empty, and one that is not.
abbrev pub IsBlank : Option (List ℕ) → Type 0
IsBlank x = (x ≡ none) ⊎ (x ≡ some [])

abbrev pub IsText : Option (List ℕ) → List ℕ → Type 0
IsText x xs = (x ≡ some xs) × (0 < length xs)

IsBlank-or_IsText :
    (x : Option (List ℕ))
    → (IsBlank x × (check_zero_str x ≡ true))
      ⊎ ((xs : List ℕ) × IsText x xs × (check_zero_str x ≡ false) × (str x ≡ xs))
IsBlank-or_IsText none = inl (inl refl, refl)
IsBlank-or_IsText (some []) = inl (inr refl, refl)
IsBlank-or_IsText (some (c ∷ xs)) = inr (c ∷ xs, (refl, omega arith), refl, refl)

module _ {W : Type 0} where
  -- A task appended, or a name that does not fit.
  abbrev pub Appended : State W → List ℕ → Payload → ℤ → Outcome (ℤ × Option (State W)) → Type 0
  Appended s srv payload timeout_sec r =
      (t : Task) × NewTask t s.session.entries srv timeout_sec
      × (t.payload ≡ payload)
      × (r ≡ ok (pos 0, some (record s { tasks = s.tasks ++ t ∷ [] })))

  add_task_lem :
      (s : State W) (srv : List ℕ) (payload : Payload) (timeout_sec : ℤ)
      → ((length srv < hostaddr_len)
          × Appended s srv payload timeout_sec (add_task s srv payload timeout_sec))
        ⊎ ((hostaddr_len ≤ length srv) × (add_task s srv payload timeout_sec ≡ abort))
  unfolding add_task
  add_task_lem s srv payload timeout_sec = elim (Bool-cases (ltb (length srv) hostaddr_len)) [
    | inl room ↦ inl (
      ground arith,
      (
        record {
          hostname = srv;
          is_reported = false;
          sess_entry = pssh_find_ent s.session.entries srv;
          stat = idle;
          channel = none;
          payload = payload;
          timeout = seconds timeout_sec;
        },
        (refl, refl, refl, refl, is_timeout timeout_sec, find_ent-Finds s.session.entries srv),
        refl,
        rw room,
      ),
    )
    | inr full ↦ inr (ground arith, rw full)
  ]

  -- The three ends of an add function: refused with -1 and the list as it was, when an argument is
  -- missing or empty; undefined, when a name does not fit its buffer; or 0 and the task added.
  abbrev pub AddResult :
      Bool → Bool → State W → List ℕ → Payload → ℤ → Outcome (ℤ × Option (State W)) → Type 0
  AddResult blank fit s srv payload timeout_sec r =
      ((blank ≡ true) × (r ≡ ok (minus_one, some s)))
      ⊎ (((blank ≡ false) × ((hostaddr_len ≤ length srv) ⊎ (fit ≡ false)) × (r ≡ abort))
          ⊎ ((blank ≡ false)
              × (length srv < hostaddr_len)
              × (fit ≡ true)
              × Appended s srv payload timeout_sec r))

  add_result :
      (blank fit : Bool) (s : State W) (srv : List ℕ) (payload : Payload) (timeout_sec : ℤ)
      → AddResult blank fit s srv payload timeout_sec (
          if blank
          then ok (minus_one, some s)
          else if fit
          then add_task s srv payload timeout_sec
          else abort)
  add_result true fit s srv payload timeout_sec = inl (refl, refl)
  add_result false false s srv payload timeout_sec = inr (inl (refl, inr refl, refl))
  add_result false true s srv payload timeout_sec = elim (add_task_lem s srv payload timeout_sec) [
    | inl (room, added) ↦ inr (inr (refl, room, refl, added))
    | inr (full, stop) ↦ inr (inl (refl, inl full, stop))
  ]

module _ {W : Type 0} (env : Env W) where
  abbrev cmd_task : List ℕ → Payload
  cmd_task cmd =
      exec (record { cmd = cmd; out_stream = no_stream; err_stream = no_stream; ret_code = pos 0 })

  add_cmd_result :
      (s : State W) (srv cmd : Option (List ℕ)) (timeout_sec : ℤ)
      → AddResult
          (check_zero_str srv || check_zero_str cmd)
          (fits env (str cmd))
          s
          (str srv)
          (cmd_task (str cmd))
          timeout_sec
          (pssh_add_cmd env (some s) srv cmd timeout_sec)
  unfolding pssh_add_cmd
  add_cmd_result s srv cmd timeout_sec = add_result _ _ s (str srv) _ timeout_sec

  -- What adding a command comes to.
  pub data CommandResult (s : State W) (srv cmd : Option (List ℕ)) (timeout_sec : ℤ)
      (r : Outcome (ℤ × Option (State W))) : Type 0 where
    refuses :
        IsBlank srv ⊎ IsBlank cmd
        → r ≡ ok (minus_one, some s)
        → CommandResult s srv cmd timeout_sec r
    overruns :
        (name text : List ℕ)
        → IsText srv name
        → IsText cmd text
        → (hostaddr_len ≤ length name) ⊎ (env.maxpathlen < length text)
        → r ≡ abort
        → CommandResult s srv cmd timeout_sec r
    appends :
        (name text : List ℕ)
        → IsText srv name
        → IsText cmd text
        → length name < hostaddr_len
        → length text ≤ env.maxpathlen
        → Appended s name (cmd_task text) timeout_sec r
        → CommandResult s srv cmd timeout_sec r

  -- Adding a command ends in one of three ways: refused with -1 and the list as it was, when the name or the
  -- command is missing or empty; what C leaves undefined, when one of the two is longer than its field; or
  -- 0 and one task more at the end, which is idle, holds the command and two empty streams, has the
  -- timeout if it is positive, and is bound to the first server of that name, if there is one.
  pub add_cmd_lem :
      (s : State W) (srv cmd : Option (List ℕ)) (timeout_sec : ℤ)
      → CommandResult s srv cmd timeout_sec (pssh_add_cmd env (some s) srv cmd timeout_sec)
  add_cmd_lem s srv cmd timeout_sec = elim (IsBlank-or_IsText srv) [
    | inl (blank, z) ↦ elim (add_cmd_result s srv cmd timeout_sec) [
      | inl (b, r) ↦ refuses (inl blank) r
      | inr (inl (b, why, r)) ↦ absurd (ground arith)
      | inr (inr (b, room, fit, added)) ↦ absurd (ground arith)
    ]
    | inr (name, there, nonzero, same) ↦ elim (IsBlank-or_IsText cmd) [
      | inl (blank, z) ↦ elim (add_cmd_result s srv cmd timeout_sec) [
        | inl (b, r) ↦ refuses (inr blank) r
        | inr (inl (b, why, r)) ↦ absurd (ground arith)
        | inr (inr (b, room, fit, added)) ↦ absurd (ground arith)
      ]
      | inr (text, given, full, equal) ↦ elim (add_cmd_result s srv cmd timeout_sec) [
        | inl (b, r) ↦ absurd (ground arith)
        | inr (inl (b, inl long, r)) ↦ overruns name text there given (inl (rw same at long)) r
        | inr (inl (b, inr long, r)) ↦ overruns name text there given (inr (ground arith)) r
        | inr (inr (b, short, fit, added)) ↦
            appends name text there given (rw same at short) (ground arith)
              (rw (same, equal) at added)
      ]
    ]
  ]

  abbrev copy_of : Direction → List ℕ → List ℕ → Payload
  copy_of dir l_fn r_fn =
      copy (record { dir = dir; l_fn = l_fn; r_fn = r_fn; buf = none; tcnt = 0; st = no_info })

  -- So do the two functions that add a copy, each with its direction and with both file names.
  pub add_cp_lem :
      (s : State W) (srv l_fn r_fn : Option (List ℕ)) (timeout_sec : ℤ)
      → let blank = check_zero_str srv || check_zero_str l_fn || check_zero_str r_fn in
        let fit = fits env (str l_fn) && fits env (str r_fn) in
        AddResult blank fit s
          (str srv)
          (copy_of to_serv (str l_fn) (str r_fn))
          timeout_sec
          (pssh_cp_to_server env (some s) srv l_fn r_fn timeout_sec)
        × AddResult blank fit s
            (str srv)
            (copy_of from_serv (str l_fn) (str r_fn))
            timeout_sec
            (pssh_cp_from_server env (some s) srv l_fn r_fn timeout_sec)
  unfolding pssh_cp_to_server pssh_cp_from_server pssh_add_cp_task
  add_cp_lem s srv l_fn r_fn timeout_sec =
      (add_result _ _ s (str srv) _ timeout_sec, add_result _ _ s (str srv) _ timeout_sec)

module _ {W : Type 0} where
  -- Whatever is added to a new list, pssh_task_next before pssh_task_first follows a pointer that was
  -- never set.
  pub next_before_first :
      (sess : Session W) (ts : List Task)
      → pssh_task_next (some (record (pssh_task_list_init sess) { tasks = ts })) ≡ abort
  unfolding pssh_task_next pssh_task_list_init
  next_before_first sess ts = refl
