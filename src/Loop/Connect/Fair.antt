-- ===== src/Loop/Connect/Fair.antt =====
-- What libevent and evdns owe pssh_connect (src/pssh.c): they report what they document, and every wait
-- ends with something that an entry can go on with.
use libpssh.Prelude.{ℕ, Bool, true, false, ◌&&◌, ◌||◌, List, [], ◌∷◌, none, some, get_elem?, ok}
use libpssh.Env.{Env, Fired}
use libpssh.Session.{Stat, idle, Entry}
use libpssh.Session.Awake.{is_conn}
use libpssh.Session.Cost.{can_move, has_answer}
use libpssh.Task.{State}
use libpssh.Loop.{Occurrence, fires, answers}
use libpssh.Loop.Dispatch.{dispatch, event_base_loop}
use libpssh.Loop.Connect.{connect_round}

abbrev is_idle : Stat → Bool
is_idle idle = true
is_idle _ = false

-- The callback of the entry has something to go on with.
abbrev pub wakes : Entry → Fired → Bool
wakes e type = is_conn e.pending && can_move e.stat type.writable

module _ {W : Type 0} where
  -- evdns answers for an entry whose name is being looked up.
  unfoldable pub is_legal : State W → Occurrence → Bool
  is_legal s (fires i type) = true
  is_legal s (answers i found addr) = elim (get_elem? s.session.entries i) [
    | none ↦ false
    | some e ↦ is_idle e.stat && has_answer found addr
  ]

  unfoldable pub is_useful : State W → Occurrence → Bool
  is_useful s (fires i type) = elim (get_elem? s.session.entries i) [
    | none ↦ false
    | some e ↦ wakes e type
  ]
  is_useful s (answers i found addr) = true

module _ {W : Type 0} (env : Env W) (fuel : ℕ) where
  -- Each occurrence is legal where it happens.
  unfoldable pub all_legal : State W → List Occurrence → Bool
  all_legal s [] = true
  all_legal s (o ∷ os) =
      is_legal s o && elim (dispatch env fuel s o) [ ok s' ↦ all_legal s' os | _ ↦ true ]

  -- One of them is useful where it happens.
  unfoldable pub some_useful : State W → List Occurrence → Bool
  some_useful s [] = false
  some_useful s (o ∷ os) =
      is_useful s o || elim (dispatch env fuel s o) [ ok s' ↦ some_useful s' os | _ ↦ false ]

  -- As long as pssh_connect goes on, every call of event_base_loop reports something useful.
  unfoldable pub is_fair : State W → List (List Occurrence) → Bool
  is_fair s [] = true
  is_fair s (os ∷ oss) = elim (connect_round env s) [
    | some r ↦ true
    | none ↦
        all_legal s os
        && some_useful s os
        && elim (event_base_loop env fuel s os) [ ok s' ↦ is_fair s' oss | _ ↦ true ]
  ]
