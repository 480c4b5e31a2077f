-- ===== src/Loop/Board/Cards.antt =====
-- The card of an entry, and how the callbacks of src/pssh.c and src/task.c move it.
use libpssh.Prelude.{
  ℕ, ℤ, zero, suc, ◌≡◌, refl, Bool, Bool-cases, ◌⊎◌, inl, inr, List, [], ◌∷◌, map, Option, some,
  get_elem?, set, ok, ap, ◌∙◌, arith,
}
use mathlib.Core.Path.{subst}
use libpssh.Env.{Env, Fired}
use libpssh.Session.{Stat, idle, error, resolved, Entry, Local}
use libpssh.Session.Api.{pssh_stat, pssh_inprogress}
use libpssh.Session.Cases.{dns_cases, located}
use libpssh.Session.Fsm.{pssh_event_handler, pssh_dns_cb}
use libpssh.Session.Graph.{
  Edge, stay, wait, reach, start_up, log_in, no_socket, no_peer, no_session, no_key, SameEntry,
  fsm-SameEntry, fsm-Edge, handler-Edge,
}
use libpssh.Task.{TaskLocal}
use libpssh.Task.Events.{pssh_task_event_update, pssh_task_eagain_handle}
use libpssh.Task.Fsm.{only_timed_out, rearm, pssh_task_event_handler}
use libpssh.Task.Wakeup.{fsm_step, woken}
use libpssh.Loop.Board.{Card, Move, stands, begins, fails, revives, ends, Moves}

unfoldable pub card : Entry → Card
card e = record { name = e.hostaddr_str; port = e.port; stat = pssh_stat e; told = e.is_reported }

abbrev pub board : List Entry → List Card
board es = map card es

-- An edge of the diagram of connection states, seen from outside.
Edge-Move :
    (e e' : Entry) (s s' : Stat)
    → e.stat ≡ s
    → e'.stat ≡ s'
    → Edge s s'
    → SameEntry e e'
    → Move (card e) (card e')
unfolding card pssh_stat
Edge-Move e e' s s' a b stay k = subst (Move (card e)) (ground (arith, k)) stands
Edge-Move e e' s s' a b wait k = subst (Move (card e)) (ground (arith, k)) stands
Edge-Move e e' s s' a b reach k = subst (Move (card e)) (ground (arith, k)) stands
Edge-Move e e' s s' a b start_up k = subst (Move (card e)) (ground (arith, k)) stands
Edge-Move e e' s s' a b log_in k = subst (Move (card e)) (ground (arith, k)) (ends (ground arith))
Edge-Move e e' s s' a b no_socket k =
    subst (Move (card e)) (ground (arith, k)) (fails (ground arith))
Edge-Move e e' s s' a b no_peer k = subst (Move (card e)) (ground (arith, k)) (fails (ground arith))
Edge-Move e e' s s' a b no_session k =
    subst (Move (card e)) (ground (arith, k)) (fails (ground arith))
Edge-Move e e' s s' a b no_key k = subst (Move (card e)) (ground (arith, k)) (fails (ground arith))

-- The first edge after the answer of evdns, taken together with it.
-- evdns answers for a name being looked up, or after a timeout has failed the entry.
abbrev pub IsAsked : Entry → Type 0
IsAsked e = (e.stat ≡ idle) ⊎ (e.stat ≡ error)

goes : (e : Entry) → IsAsked e → Move (card e) (record (card e) { stat = pssh_inprogress })
unfolding card pssh_stat
goes e (inl z) = begins (ground arith)
goes e (inr z) = revives (ground arith)

located-Move :
    (e e' : Entry) (s s' : Stat)
    → IsAsked e
    → s ≡ resolved
    → e'.stat ≡ s'
    → Edge s s'
    → SameEntry e e'
    → Move (card e) (card e')
unfolding card pssh_stat
located-Move e e' s s' z a b stay k = subst (Move (card e)) (ground (arith, k)) (goes e z)
located-Move e e' s s' z a b wait k = subst (Move (card e)) (ground (arith, k)) (goes e z)
located-Move e e' s s' z a b no_socket k =
    subst (Move (card e)) (ground (arith, k)) (fails (ground arith))
located-Move e e' s s' z a b reach k = cc
located-Move e e' s s' z a b start_up k = cc
located-Move e e' s s' z a b log_in k = cc
located-Move e e' s s' z a b no_peer k = cc
located-Move e e' s s' z a b no_session k = cc
located-Move e e' s s' z a b no_key k = cc

module _ {W : Type 0} (env : Env W) where
  pub handler-Move :
      (l l' : Local W) (type : Fired)
      → pssh_event_handler env l type ≡ ok l'
      → Move (card l.ent) (card l'.ent)
  handler-Move l l' type h =
      let (edge, kept) = handler-Edge env l l' type h in
      Edge-Move l.ent l'.ent _ _ refl refl edge kept

  pub dns-Move :
      (l l' : Local W) (found : Bool) (addr : Option ℤ)
      → IsAsked l.ent
      → pssh_dns_cb env l found addr ≡ ok l'
      → Move (card l.ent) (card l'.ent)
  unfolding card pssh_stat
  dns-Move l l' found addr z h =
      dns_cases env l l' found addr _
        (λ a run.
          let m : Local W = record l { ent = located l.ent a } in
          located-Move l.ent l'.ent resolved _ z refl refl (fsm-Edge env m l' run)
            (ground (arith, fsm-SameEntry env m l' run)))
        (λ same. subst (Move (card l.ent)) (ground arith) (fails (ground arith))) h

pub same-Moves : (cs : List Card) → Moves cs cs
same-Moves [] = tt
same-Moves (c ∷ cs) = (stands, same-Moves cs)

-- One entry moves, the others stand.
pub set-Moves :
    (es : List Entry) (i : ℕ) (e v : Entry)
    → get_elem? es i ≡ some e
    → Move (card e) (card v)
    → Moves (board es) (board (set es i v))
set-Moves [] i e v at m = tt
set-Moves (x ∷ es) zero e v at m = (ground (arith, m), same-Moves (board es))
set-Moves (x ∷ es) (suc i) e v at m = (stands, set-Moves es i e v at m)

module _ {W : Type 0} (env : Env W) (fuel : ℕ) where
  rearm-card : (ret : ℤ) (u t' : TaskLocal W) → rearm env (ret, u) ≡ t' → card t'.ent ≡ card u.ent
  unfolding rearm pssh_task_event_update pssh_task_eagain_handle card pssh_stat
  rearm-card ret u t' h = ground arith

  -- Nor does the callback of a task.
  pub task_handler-card :
      (t t' : TaskLocal W) (type : Fired)
      → pssh_task_event_handler env fuel t type ≡ ok t'
      → card t'.ent ≡ card t.ent
  unfolding pssh_task_event_handler card pssh_stat
  task_handler-card t t' type h = elim (Bool-cases (only_timed_out type)) [
    | inl late ↦ ground arith
    | inr going ↦
        let (ret, u, same, edge, last) =
          fsm_step env fuel (woken t type) t' t.task.payload refl (rw going at h) in
        rearm-card ret u t' last ∙ ap card same.same_ent
  ]
