-- ===== src/Loop/Board/Refine.antt =====
-- Every step of a session, as Loop.Reach has them, is a step of the board.
use mathlib.Core.Path.{subst}
use libpssh.Prelude.{
  ℕ, ℤ, zero, suc, some_inj, ◌≡◌, refl, sym, ap, Bool, List, [], ◌∷◌, ◌++◌, Option, some, get_elem?,
  ok, inl, inr, arith,
}
use libpssh.Env.{Env, Fired}
use libpssh.Session.{Entry, Session, error, connected}
use libpssh.Session.Api.{pssh_server_add, new_entry, pssh_stat}
use libpssh.Task.{State}
use libpssh.Loop.{fires, answers}
use libpssh.Loop.Board.{Card, Moves, BoardStep, moves, joins, BoardRun, new_card, run-KeptAt, Keeps}
use libpssh.Loop.Board as B
use libpssh.Loop.Board.Cards.{
  IsAsked, card, board, handler-Move, dns-Move, task_handler-card, set-Moves, same-Moves,
}
use libpssh.Loop.Cases.{
  released, task_local, FiresTo, connection, task, AnswersTo, answer, fires_to, answers_to,
}
use libpssh.Loop.Connect.Cards.{connect_round-Moves}
use libpssh.Loop.Dispatch.{dispatch, local_of}
use libpssh.Loop.Exec.Cards.{exec_round-board}
use libpssh.Loop.Marks.{map-set_same, get_elem?-map}
use libpssh.Loop.Reach.{Step, adds, uses, fired, answered, connects, execs, Reaches, here, goes_on}

module _ {W : Type 0} where
  abbrev pub board_of : State W → List Card
  board_of s = board s.session.entries

map-append : (xs : List Entry) (e : Entry) → board (xs ++ e ∷ []) ≡ board xs ++ card e ∷ []
map-append [] e = refl
map-append (x ∷ xs) e = ap (◌∷◌ (card x)) (map-append xs e)

-- The entry behind a card.
entry_of :
    (es : List Entry) (i : ℕ) (d : Card)
    → get_elem? (board es) i ≡ some d
    → (e : Entry) × (get_elem? es i ≡ some e) × (card e ≡ d)
entry_of [] i d at = cc
entry_of (e ∷ es) zero d at = (e, refl, some_inj at)
entry_of (e ∷ es) (suc i) d at = entry_of es i d at

connected_card :
    (e e' : Entry) (d : Card)
    → card e' ≡ d
    → Keeps (card e) d
    → e.stat ≡ connected
    → (e'.stat ≡ connected) × (e'.hostaddr_str ≡ e.hostaddr_str) × (e'.port ≡ e.port)
unfolding card pssh_stat
connected_card e e' d same kept up = ground (arith, kept)

module _ {W : Type 0} (env : Env W) (fuel : ℕ) where
  add_joins :
      (s sess : Session W) (name : List ℕ) (port : ℕ)
      → pssh_server_add env s name port ≡ ok sess
      → BoardStep (board s.entries) (board sess.entries)
  unfolding pssh_server_add card pssh_stat
  add_joins s sess name port h =
      let e = new_entry name port (env.session_init s.world).0 in
      let same : s.entries ++ e ∷ [] ≡ sess.entries = ground arith in
      subst (λ es. BoardStep (board s.entries) (board es)) same
        (subst (BoardStep (board s.entries)) (sym (map-append s.entries e)) (joins name port))

  fires-Moves :
      (s s' : State W) (i : ℕ) (type : Fired)
      → dispatch env fuel s (fires i type) ≡ ok s'
      → Moves (board_of s) (board_of s')
  unfolding card pssh_stat
  fires-Moves s s' i type run = elim (fires_to env fuel s s' i type run) [
    | FiresTo.nothing same ↦
        subst (λ u. Moves (board_of s) (board_of u)) same (same-Moves (board_of s))
    | connection e l at held ran same ↦
        subst (λ u. Moves (board_of s) (board_of u)) same
          (set-Moves s.session.entries i e l.ent at
            (handler-Move env (local_of s (released e)) l type ran))
    | task e k t u at held there ran same ↦
        let kept = task_handler-card env fuel (task_local s k t (released e)) u type ran in
        subst (λ v. Moves (board_of s) (board_of v)) same
          (subst (Moves (board_of s)) (sym (map-set_same card s.session.entries i e u.ent at kept))
            (same-Moves (board_of s)))
  ]

  answers-Moves :
      (s s' : State W) (i : ℕ) (e : Entry) (found : Bool) (addr : Option ℤ)
      → get_elem? s.session.entries i ≡ some e
      → IsAsked e
      → dispatch env fuel s (answers i found addr) ≡ ok s'
      → Moves (board_of s) (board_of s')
  answers-Moves s s' i e found addr at z run = elim (answers_to env fuel s s' i found addr run) [
    | AnswersTo.nothing same ↦
        subst (λ u. Moves (board_of s) (board_of u)) same (same-Moves (board_of s))
    | answer x l there ran same ↦
        let one : x ≡ e = ground arith in
        subst (λ u. Moves (board_of s) (board_of u)) same
          (set-Moves s.session.entries i x l.ent there
            (dns-Move env (local_of s x) l found addr (rw one z) ran))
  ]

  -- One step of the session is one step of the board.
  step-BoardStep : (s s' : State W) → Step env fuel s s' → BoardStep (board_of s) (board_of s')
  step-BoardStep s s' (adds name port h) = add_joins s.session _ name port h
  step-BoardStep s s' (uses same) = moves (rw same (same-Moves (board_of s)))
  step-BoardStep s s' (fired i type h) = moves (fires-Moves s s' i type h)
  step-BoardStep s s' (answered i e found addr at z h) =
      moves (answers-Moves s s' i e found addr at (inl z) h)
  step-BoardStep s s' (connects ret i h) = moves (connect_round-Moves env s _ h)
  step-BoardStep s s' (execs o h) =
      moves (rw (exec_round-board env s s' o h) (same-Moves (board_of s)))

  -- A life of a session: its steps, and answers of evdns that come after a timeout has failed the entry.
  pub data Life (s : State W) : State W → Type 0 where
    born : Life s s
    steps : {u v : State W} → Life s u → Step env fuel u v → Life s v
    late :
        {u v : State W} (i : ℕ) (e : Entry) (found : Bool) (addr : Option ℤ)
        → Life s u
        → get_elem? u.session.entries i ≡ some e
        → e.stat ≡ error
        → dispatch env fuel u (answers i found addr) ≡ ok v
        → Life s v

  -- The life of a session, in which evdns answers only for names being looked up and for entries that a
  -- timeout has failed, is a run of the board, seen from outside.
  pub Life-BoardRun : (s s' : State W) → Life s s' → BoardRun (board_of s) (board_of s')
  Life-BoardRun s s' born = B.here
  Life-BoardRun s s' (steps life step) =
      B.goes_on (Life-BoardRun s _ life) (step-BoardStep _ s' step)
  Life-BoardRun s s' (late i e found addr life at failed run) =
      B.goes_on (Life-BoardRun s _ life)
        (moves (answers-Moves _ s' i e found addr at (inr failed) run))

  Reaches-Life : (s s' : State W) → Reaches env fuel s s' → Life s s'
  Reaches-Life s s' here = born
  Reaches-Life s s' (goes_on run step) = steps (Reaches-Life s _ run) step

  -- Whatever steps follow, a server that is connected keeps its place, its name and its port, and stays
  -- connected.
  pub connected_stays :
      (s s' : State W) (i : ℕ) (e : Entry)
      → Reaches env fuel s s'
      → get_elem? s.session.entries i ≡ some e
      → e.stat ≡ connected
      → (e' : Entry) × (get_elem? s'.session.entries i ≡ some e')
        × (e'.stat ≡ connected)
        × (e'.hostaddr_str ≡ e.hostaddr_str)
        × (e'.port ≡ e.port)
  connected_stays s s' i e run at up =
      let (d, there, kept) =
        run-KeptAt (board_of s) (board_of s') i (card e)
          (Life-BoardRun s s' (Reaches-Life s s' run))
          (get_elem?-map card s.session.entries i e at) in
      let (e', at', same) = entry_of s'.session.entries i d there in
      let (still, name, port) = connected_card e e' d same kept up in (e', at', still, name, port)
