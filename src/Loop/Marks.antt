-- ===== src/Loop/Marks.antt =====
-- The marks of what has been reported, of servers and of tasks: no callback touches them (src/pssh.c,
-- src/task.c).
use mathlib.Core.Path.{subst}
use libpssh.Prelude.{
  true, false, ℕ, ℤ, zero, suc, ◌≡◌, refl, ap, ◌∙◌, Bool, List, [], ◌∷◌, map, Option, some,
  get_elem?, set, ok, >>=-eq-ok, arith,
}
use libpssh.Env.{Env}
use libpssh.Session.{Entry, Local}
use libpssh.Session.Cases.{dns_cases}
use libpssh.Session.Fsm.{pssh_dns_cb}
use libpssh.Session.Graph.{fsm-SameEntry, handler-Edge}
use libpssh.Task.{Task, TaskLocal, State}
use libpssh.Task.Shared.{task_handler_keeps}
use libpssh.Task.Wakeup.{handler-Step}
use libpssh.Loop.{Occurrence, fires, answers}
use libpssh.Loop.Dispatch.{dispatch, event_base_loop, local_of, put_local, put_task}
use libpssh.Loop.Cases.{
  released, task_local, FiresTo, connection, task, AnswersTo, answer, fires_to, answers_to,
}

-- One mark is set that was not.
abbrev pub Marks : List Bool → Option ℕ → List Bool → Type 0
Marks fs i gs = (k : ℕ) × (i ≡ some k) × (get_elem? fs k ≡ some false) × (gs ≡ set fs k true)

abbrev pub entry_mark : Entry → Bool
entry_mark e = e.is_reported

abbrev pub task_mark : Task → Bool
task_mark t = t.is_reported

module _ {A B : Type 0} (f : A → B) where
  pub map-set_same :
      (xs : List A) (i : ℕ) (x v : A)
      → get_elem? xs i ≡ some x
      → f v ≡ f x
      → map f (set xs i v) ≡ map f xs
  map-set_same [] i x v h e = refl
  map-set_same (y ∷ xs) zero x v h e = cc
  map-set_same (y ∷ xs) (suc i) x v h e = ap (◌∷◌ (f y)) (map-set_same xs i x v h e)

  pub map-set : (xs : List A) (i : ℕ) (v : A) → map f (set xs i v) ≡ set (map f xs) i (f v)
  map-set [] i v = refl
  map-set (y ∷ xs) zero v = refl
  map-set (y ∷ xs) (suc i) v = ap (◌∷◌ (f y)) (map-set xs i v)

  pub get_elem?-map :
      (xs : List A) (i : ℕ) (x : A) → get_elem? xs i ≡ some x → get_elem? (map f xs) i ≡ some (f x)
  get_elem?-map [] i x h = cc
  get_elem?-map (y ∷ xs) zero x h = cc
  get_elem?-map (y ∷ xs) (suc i) x h = get_elem?-map xs i x h

module _ {W : Type 0} where
  abbrev pub entry_marks : State W → List Bool
  entry_marks s = map entry_mark s.session.entries

  abbrev pub task_marks : State W → List Bool
  task_marks s = map task_mark s.tasks

  abbrev pub SameMarks : State W → State W → Type 0
  SameMarks s s' = (entry_marks s' ≡ entry_marks s) × (task_marks s' ≡ task_marks s)

  put_local-SameMarks :
      (s : State W) (i : ℕ) (e : Entry) (l : Local W)
      → get_elem? s.session.entries i ≡ some e
      → l.ent.is_reported ≡ e.is_reported
      → SameMarks s (put_local s i l)
  put_local-SameMarks s i e l at same =
      (map-set_same entry_mark s.session.entries i e l.ent at same, refl)

  put_task-SameMarks :
      (s : State W) (i k : ℕ) (e : Entry) (t : Task) (u : TaskLocal W)
      → get_elem? s.session.entries i ≡ some e
      → get_elem? s.tasks k ≡ some t
      → u.self ≡ k
      → u.ent.is_reported ≡ e.is_reported
      → u.task.is_reported ≡ t.is_reported
      → SameMarks s (put_task s i u)
  put_task-SameMarks s i k e t u at there self same kept = (
    map-set_same entry_mark s.session.entries i e u.ent at same,
    rw self (map-set_same task_mark s.tasks k t u.task there kept),
  )

module _ {W : Type 0} (env : Env W) (fuel : ℕ) where
  dns_report :
      (l l' : Local W) (found : Bool) (addr : Option ℤ)
      → pssh_dns_cb env l found addr ≡ ok l'
      → l'.ent.is_reported ≡ l.ent.is_reported
  dns_report l l' found addr =
      dns_cases env l l' found addr _ (λ a h. (fsm-SameEntry env _ l' h).same_report)
        (λ e. ground arith)

  -- No callback touches a mark.
  pub dispatch-SameMarks :
      (s s' : State W) (o : Occurrence) → dispatch env fuel s o ≡ ok s' → SameMarks s s'
  dispatch-SameMarks s s' (fires i type) h = elim (fires_to env fuel s s' i type h) [
    | FiresTo.nothing same ↦ subst (SameMarks s) same (refl, refl)
    | connection e l at p ran same ↦
        let (edge, kept) = handler-Edge env (local_of s (released e)) l type ran in
        subst (SameMarks s) same (put_local-SameMarks s i e l at kept.same_report)
    | task e k t u at p there ran same ↦
        let (self, mark) = task_handler_keeps env fuel (task_local s k t (released e)) u type ran in
        let (edge, kept) = handler-Step env fuel (task_local s k t (released e)) u type ran in
        subst (SameMarks s) same
          (put_task-SameMarks s i k e t u at there self mark kept.same_report)
  ]
  dispatch-SameMarks s s' (answers i found addr) h =
      elim (answers_to env fuel s s' i found addr h) [
        | AnswersTo.nothing same ↦ subst (SameMarks s) same (refl, refl)
        | answer e l at ran same ↦
            subst (SameMarks s) same
              (put_local-SameMarks s i e l at (dns_report (local_of s e) l found addr ran))
      ]

  pub loop-SameMarks :
      (s s' : State W) (os : List Occurrence)
      → event_base_loop env fuel s os ≡ ok s'
      → SameMarks s s'
  unfolding event_base_loop
  loop-SameMarks s s' [] h = ground arith
  loop-SameMarks s s' (o ∷ os) h =
      let (u, run, rest) =
        >>=-eq-ok (dispatch env fuel s o) (λ u. event_base_loop env fuel u os) h in
      let (es, ts) = dispatch-SameMarks s u o run in
      let (es', ts') = loop-SameMarks u s' os rest in (es' ∙ es, ts' ∙ ts)
