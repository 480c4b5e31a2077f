-- ===== src/Loop/Exec/Fair.antt =====
-- What libevent and evdns owe pssh_exec (src/task.c): they report what they document, and serve the tasks
-- often enough.
use libpssh.Prelude.{
  ℕ, zero, suc, Bool, true, false, ◌&&◌, ◌||◌, List, [], ◌∷◌, Option, none, some, get_elem?,
  if◌then◌else◌, ok,
}
use libpssh.Env.{Env}
use libpssh.Session.{Handler, conn_handler, task_handler}
use libpssh.Task.{Task, State}
use libpssh.Task.Cost.{is_live}
use libpssh.Loop.{Occurrence, fires, answers}
use libpssh.Loop.Dispatch.{dispatch, event_base_loop}
use libpssh.Loop.Connect.Fair.{all_legal}
use libpssh.Loop.Exec.{exec_round}

-- The callback is that of a task that has been started and is not at its end.
abbrev pub is_for_live : List Task → Option Handler → Bool
is_for_live ts none = false
is_for_live ts (some conn_handler) = false
is_for_live ts (some (task_handler k)) = elim (get_elem? ts k) [
  | none ↦ false
  | some t ↦ is_live t.stat
]

module _ {W : Type 0} where
  unfoldable pub is_service : State W → Occurrence → Bool
  is_service s (fires i type) = elim (get_elem? s.session.entries i) [
    | none ↦ false
    | some e ↦ is_for_live s.tasks e.pending
  ]
  is_service s (answers i found addr) = false

module _ {W : Type 0} (env : Env W) (fuel : ℕ) where
  -- One of the occurrences serves a live task where it happens.
  unfoldable pub some_service : State W → List Occurrence → Bool
  some_service s [] = false
  some_service s (o ∷ os) =
      is_service s o || elim (dispatch env fuel s o) [ ok s' ↦ some_service s' os | _ ↦ false ]

  -- As long as pssh_exec goes on, every occurrence is legal, and `n` calls of event_base_loop serve a live
  -- task.
  unfoldable pub is_served : ℕ → State W → List (List Occurrence) → Bool
  is_served zero s oss = true
  is_served (suc n) s [] = elim (exec_round env s) [ ok (none, s') ↦ false | _ ↦ true ]
  is_served (suc n) s (os ∷ oss) = elim (exec_round env s) [
    | ok (none, s') ↦ all_legal env fuel s' os && elim (event_base_loop env fuel s' os) [
      | ok s'' ↦ is_served (if some_service s' os then n else suc n) s'' oss
      | _ ↦ true
    ]
    | _ ↦ true
  ]
