-- ===== src/Loop/Owner/Quiet.antt =====
-- A task list that ended well may be freed: libevent holds no event for a task (pssh_exec and
-- pssh_task_list_free of src/task.c).
use mathlib.Core.Path.{subst}
use libpssh.Prelude.{
  inl, inr, ℕ, suc, ◌≡◌, refl, List, [], ◌∷◌, Option, some, get_elem?, All, All-get, some_inj, ok,
  arith,
}
use libpssh.Env.{Env}
use libpssh.Session.{Entry, Session}
use libpssh.Session.Own.{HasNoTask}
use libpssh.Session.Sound.{EventsAdded}
use libpssh.Task.{Task, State}
use libpssh.Task.Api.{pssh_task_list_free}
use libpssh.Task.Shared.{IsShared}
use libpssh.Loop.{success}
use libpssh.Loop.Exec.{classify, exec_round}
use libpssh.Loop.Exec.Owner.{exec_round-Owned}
use libpssh.Loop.Exec.Results.{exec_round-Post}
use libpssh.Loop.Exec.Over.{IsFine}
use libpssh.Loop.Owner.{Owned, OwnedState}
use libpssh.Loop.Owner.Steps.{TaskRun, run-Owned}

All-place :
    (P : Entry → Type 0) (es : List Entry)
    → ((i : ℕ) (e : Entry) → get_elem? es i ≡ some e → P e)
    → All P es
All-place P [] f = tt
All-place P (e ∷ es) f = (f 0 e refl, All-place P es (λ i x at. f (suc i) x at))

-- A task whose server's event is held for it is not over, if it has not failed.
fine_lets_go :
    (es : List Entry) (ts : List Task) → Owned es ts → All (IsFine es) ts → All HasNoTask es
unfolding classify
fine_lets_go es ts v fine = All-place HasNoTask es λ i e at k held.
    let (t, there, to, alive) = v.owner i e k at held in
    let calm = All-get (IsFine es) ts k fine there in
    let up = (All-get IsShared es i v.shared at).owner k held in
    elim calm [ inl lost ↦ lost (i, e, to, at, up) | inr over ↦ ground (arith, alive) ]

module _ {W : Type 0} (env : Env W) (fuel : ℕ) (added : EventsAdded env) where
  -- When event_add succeeds, whatever the tasks of a list went through, if a round of pssh_exec then
  -- answers PSSH_SUCCESS, the session that pssh_task_list_free leaves has no event held for a task.
  pub quiet_end :
      (s s' s'' : State W) (i : Option ℕ) (sess : Session W)
      → OwnedState s
      → TaskRun env fuel s s'
      → exec_round env s' ≡ ok (some (success, i), s'')
      → pssh_task_list_free (some s'') ≡ some sess
      → All HasNoTask sess.entries
  unfolding pssh_task_list_free
  quiet_end s s' s'' i sess v run last freed =
      let (none_left, fine) = exec_round-Post env s' s'' _ success i last refl in
      let owned = exec_round-Owned env added s' s'' _ (run-Owned env fuel added s s' v run) last in
      subst (λ x. All HasNoTask x.entries) (some_inj freed)
        (fine_lets_go s''.session.entries s''.tasks owned fine)
