-- ===== src/Loop/Exec/Rounds.antt =====
-- A round of pssh_exec (src/task.c) comes to its end, and takes no task farther from its own.
use libpssh.Prelude.{
  Bool, ℕ, suc, ◌≤◌, ◌≡◌, inl, inr, refl, ◌∙◌, true, Option-cases, List, [], ◌∷◌, none, some,
  get_elem?, set, All, ok, Outcome, arith,
}
use libpssh.Env.{Env, ev_write}
use libpssh.Session.{Entry}
use libpssh.Session.Sound.{EventsAdded}
use libpssh.Task.{start, done, Task, TaskLocal}
use libpssh.Task.Events.{pssh_task_event_update}
use libpssh.Task.Thrift.{Thrift}
use libpssh.Task.Cost.{
  task_weight, is_first, Fits, Fits-le, over, to_load, to_open, to_send, to_fetch, to_receive,
  to_close, to_run, to_start, to_collect, patience,
}
use libpssh.Loop.Connect.Progress.{total_weight, total-set}
use libpssh.Loop.Exec.Nears.{tasks_weight, All-Fits-le}
use libpssh.Loop.Exec.{
  Tally, Class, launches, reports, classify, count, launch_at, walk_from, Walked, exec_walk,
}

-- A task that is launched, or marked as reported, is as it is between two steps.
launched-Fits :
    (fs : ℕ → Bool) (m p : ℕ) (t : Task)
    → is_first t.stat ≡ true
    → Fits fs m p t
    → Fits fs m p (record t { stat = start })
launched-Fits fs m p t f (over o) = absurd (ground arith)
launched-Fits fs m p t f (to_load cp u g d b) = to_load cp u refl d b
launched-Fits fs m p t f (to_open cp u g s z) = to_open cp u refl s z
launched-Fits fs m p t f (to_send cp c u s h g z) = absurd (ground arith)
launched-Fits fs m p t f (to_fetch cp u g x) = to_fetch cp u refl x
launched-Fits fs m p t f (to_receive cp c u s h i z x) = absurd (ground arith)
launched-Fits fs m p t f (to_close cp c u s h) = absurd (ground arith)
launched-Fits fs m p t f (to_run ex u g x) = to_run ex u refl x
launched-Fits fs m p t f (to_start ex c u s h x) = absurd (ground arith)
launched-Fits fs m p t f (to_collect ex c u s h x) = absurd (ground arith)

classify-reports : (es : List Entry) (t : Task) → classify es t ≡ reports → t.stat ≡ done
unfolding classify
classify-reports es t h = ground arith

classify-launches : (es : List Entry) (t : Task) → classify es t ≡ launches → is_first t.stat ≡ true
unfolding classify
classify-launches es t h = ground arith

module _ {W : Type 0} (env : Env W) (added : EventsAdded env) (th : Thrift env) where
  abbrev P : W → ℕ
  P w = patience env th w

  -- What launching a task leaves.
  record Launched (t t' : Task) (es es' : List Entry) (w w' : W) : Type 0 where
    began : t' ≡ record t { stat = start }
    same_weight : total_weight es' ≡ total_weight es
    calm : P w' ≤ P w

  launches_well :
      (k : ℕ) (t : Task) (es : List Entry) (w : W)
      → classify es t ≡ launches
      → (t' : Task) × (es' : List Entry) × (w' : W) × (launch_at env k t es w t.sess_entry
          ≡ ok (t', es', w'))
        × Launched t t' es es' w w'
  unfolding classify launch_at pssh_task_event_update
  launches_well k t es w cls = elim (Option-cases t.sess_entry) [
    | inl e ↦ absurd (ground arith)
    | inr (i, to) ↦ elim (Option-cases (get_elem? es i)) [
      | inl lost ↦ absurd (ground arith)
      | inr (x, at) ↦
          let l : TaskLocal W = record { self = k; task = t; ent = x; world = w } in
          let u = (pssh_task_event_update env l ev_write).1 in
          (
            record t { stat = start },
            set es i u.ent,
            u.world,
            grind (arith, added),
            record {
              began = refl;
              same_weight = ground (arith, total-set es i x u.ent at);
              calm = grind (arith, th.conn.event_add_keeps);
            },
          )
    ]
  ]

  -- What a walk over the tasks leaves.
  pub record Walks (ts : List Task) (es : List Entry) (w : W) (r : Walked W) : Type 0 where
    pub fits : All (Fits th.is_file th.max_size (P r.world)) r.rest
    pub same_weight : total_weight r.entries ≡ total_weight es
    pub falls : tasks_weight th.max_size r.rest ≤ tasks_weight th.max_size ts
    pub calm : P r.world ≤ P w

  abbrev pub Goes : List Task → List Entry → W → Outcome (Walked W) → Type 0
  Goes ts es w o = (r : Walked W) × (o ≡ ok r) × Walks ts es w r

  -- The walk goes on behind a task.
  next-Goes :
      (k : ℕ) (t t' : Task) (ts : List Task) (es es' : List Entry) (w w' : W) (c : Tally)
      → ((q : ℕ) → q ≤ P w → Fits th.is_file th.max_size q t')
      → total_weight es' ≡ total_weight es
      → task_weight th.max_size t' ≤ task_weight th.max_size t
      → P w' ≤ P w
      → Goes ts es' w' (exec_walk env (suc k) ts es' w' c)
      → Goes (t ∷ ts) es w (walk_from env t' (exec_walk env (suc k) ts es' w' c))
  unfolding tasks_weight
  next-Goes k t t' ts es es' w w' c fits same less calm (r, run, x) = (
    record r { rest = t' ∷ r.rest },
    rw run,
    record {
      fits = (fits (P r.world) (omega (arith, x.calm, calm)), x.fits);
      same_weight = x.same_weight ∙ same;
      falls = omega (arith, less, x.falls);
      calm = omega (arith, x.calm, calm);
    },
  )

  walk_by :
      (k : ℕ) (t : Task) (ts : List Task) (es : List Entry) (w : W) (c : Tally) (cls : Class)
      → classify es t ≡ cls
      → All (Fits th.is_file th.max_size (P w)) (t ∷ ts)
      → ((es' : List Entry) (w' : W)
          → P w' ≤ P w
          → Goes ts es' w' (exec_walk env (suc k) ts es' w' (count (classify es t) c)))
      → Goes (t ∷ ts) es w (exec_walk env k (t ∷ ts) es w c)
  unfolding exec_walk tasks_weight task_weight
  walk_by k t ts es w c reports e a rest =
      let told : Task = record t { is_reported = true } in
      let final = classify-reports es t e in
      (
        record { rest = told ∷ ts; entries = es; world = w; report = some k; tally = c },
        ground arith,
        record {
          fits = (over (rw final), a.1);
          same_weight = refl;
          falls = ground arith;
          calm = omega arith;
        },
      )
  walk_by k t ts es w c launches e a rest =
      let (t', es', w', ran, l) = launches_well k t es w e in
      let first = classify-launches es t e in
      rw (e, exec_walk, ran)
        (next-Goes k t t' ts es es' w w' _
          (λ q le. rw l.began (
            launched-Fits th.is_file th.max_size q t first
              (Fits-le th.is_file th.max_size (P w) q t le a.0)))
          l.same_weight (rw l.began (ground arith)) l.calm (rest es' w' l.calm))
  walk_by k t ts es w c cls e a rest =
      rw (e, exec_walk)
        (next-Goes k t t ts es es w w _ (λ q le. Fits-le th.is_file th.max_size (P w) q t le a.0)
          refl (omega arith) (omega arith) (rest es w (omega arith)))

  -- The walk comes to its end, and takes no task farther from its own.
  pub walk-Goes :
      (k : ℕ) (ts : List Task) (es : List Entry) (w : W) (c : Tally)
      → All (Fits th.is_file th.max_size (P w)) ts
      → Goes ts es w (exec_walk env k ts es w c)
  unfolding exec_walk
  walk-Goes k [] es w c a = (
    record { rest = []; entries = es; world = w; report = none; tally = c },
    refl,
    record { fits = tt; same_weight = refl; falls = omega arith; calm = omega arith },
  )
  walk-Goes k (t ∷ ts) es w c a = walk_by k t ts es w c (classify es t) refl a (λ es' w' le.
      walk-Goes (suc k) ts es' w' _ (All-Fits-le th.is_file th.max_size (P w) (P w') ts le a.1))
