-- ===== src/Loop/Exec/Walk.antt =====
-- The walk of pssh_exec (src/task.c) over the tasks: what it counts, and what it reports.
use mathlib.Core.Path.{subst}
use libpssh.Prelude.{
  ℕ, suc, ◌+◌, ◌≤◌, ◌≡◌, ◌≢◌, ◌⊎◌, inl, inr, refl, Bool, true, false, List, [], ◌∷◌, none, some,
  get_elem?, All, if◌then◌else◌, ok, >>=-eq-ok, arith,
}
use libpssh.Env.{Env}
use libpssh.Session.{Entry}
use libpssh.Task.{done, Task}
use libpssh.Loop.Exec.{
  Tally, Class, skipped, launches, errs, reports, settled, classify, count, Walked, exec_walk,
  launch_at,
}

-- Classes of tasks of which nothing more is to be expected.
abbrev pub is_over : Class → Bool
is_over skipped = true
is_over errs = true
is_over settled = true
is_over _ = false

abbrev pub is_errs : Class → Bool
is_errs errs = true
is_errs _ = false

-- The walk counts the task as over.
abbrev pub IsCounted : List Entry → Task → Type 0
IsCounted es t = is_over (classify es t) ≡ true

-- How many of the tasks it counts as failed.
unfoldable pub errors : List Entry → List Task → ℕ
errors es [] = 0
errors es (t ∷ ts) = (if is_errs (classify es t) then 1 else 0) + errors es ts

-- The tasks that the walk has not counted as over.
abbrev pub behind : Tally → ℕ
behind c = c.okay + c.err + c.skip

module _ {W : Type 0} (env : Env W) where
  -- A walk over tasks that are over changes nothing and counts them all.
  pub walk_over :
      (k : ℕ) (ts : List Task) (es : List Entry) (w : W) (c : Tally)
      → All (IsCounted es) ts
      → (d : Tally) × (exec_walk env k ts es w c
          ≡ ok (record { rest = ts; entries = es; world = w; report = none; tally = d }))
        × (behind d + c.tot ≡ d.tot + behind c)
        × (d.err ≡ c.err + errors es ts)
  unfolding exec_walk errors
  walk_over k [] es w c a = (c, refl, omega arith, omega arith)
  walk_over k (t ∷ ts) es w c a =
      let (d, run, sum, bad) = walk_over (suc k) ts es w (count (classify es t) c) a.1 in
      (d, ground (arith, a.0, run), ground (arith, a.0), ground (arith, a.0))

  -- The task was idle or launched before, its server is connected, and it is launched.
  abbrev pub IsLaunch : ℕ → Task → List Entry → W → Task → List Entry → W → Type 0
  IsLaunch k t es w t' es' w' =
      (classify es t ≡ launches) × (launch_at env k t es w t.sess_entry ≡ ok (t', es', w'))

  -- The first step of a walk that ends well: it stops at a task to report, or goes on with the task and
  -- the entries as they are, or with the task launched.
  pub data WalkStep (k : ℕ) (t : Task) (ts : List Task) (es : List Entry) (w : W) (c : Tally)
      (r : Walked W) : Type 0 where
    stops :
        classify es t ≡ reports
        → r ≡ record {
          rest = record t { is_reported = true } ∷ ts;
          entries = es;
          world = w;
          report = some k;
          tally = c;
        }
        → WalkStep k t ts es w c r
    goes :
        (t' : Task) (es' : List Entry) (w' : W) (r' : Walked W)
        → exec_walk env (suc k) ts es' w' (count (classify es t) c) ≡ ok r'
        → r ≡ record r' { rest = t' ∷ r'.rest }
        → classify es t ≢ reports
        → (is_over (classify es t) ≡ true → es' ≡ es)
        → IsLaunch k t es w t' es' w' ⊎ ((es' ≡ es) × (t' ≡ t))
        → WalkStep k t ts es w c r

  walk_step :
      (k : ℕ) (t : Task) (ts : List Task) (es : List Entry) (w : W) (c : Tally) (r : Walked W)
      (cls : Class)
      → classify es t ≡ cls
      → exec_walk env k (t ∷ ts) es w c ≡ ok r
      → WalkStep k t ts es w c r
  unfolding exec_walk
  walk_step k t ts es w c r reports e h = stops e (ground arith)
  walk_step k t ts es w c r launches e h =
      let ((t', es', w'), run, rest) =
        >>=-eq-ok (launch_at env k t es w t.sess_entry) _ (rw (e, exec_walk) at h) in
      let (r', next, last) =
        >>=-eq-ok (exec_walk env (suc k) ts es' w' (count (classify es t) c)) _ rest in
      goes t' es' w' r' next (ground arith) (λ f. cc) (λ f. cc) (inl (e, run))
  walk_step k t ts es w c r cls e h =
      let (r', next, last) =
        >>=-eq-ok (exec_walk env (suc k) ts es w (count (classify es t) c)) _
          (rw (e, exec_walk) at h) in
      goes t es w r' next (ground arith) (λ f. cc) (λ _. refl) (inr (refl, refl))

  pub step_of :
      (k : ℕ) (t : Task) (ts : List Task) (es : List Entry) (w : W) (c : Tally) (r : Walked W)
      → exec_walk env k (t ∷ ts) es w c ≡ ok r
      → WalkStep k t ts es w c r
  step_of k t ts es w c r h = walk_step k t ts es w c r (classify es t) refl h

  -- No walk counts more tasks as over than it has seen.
  walk_le :
      (k : ℕ) (ts : List Task) (es : List Entry) (w : W) (c : Tally) (r : Walked W)
      → exec_walk env k ts es w c ≡ ok r
      → behind r.tally + c.tot ≤ r.tally.tot + behind c
  unfolding exec_walk
  walk_le k [] es w c r h = ground arith
  walk_le k (t ∷ ts) es w c r h = elim (step_of k t ts es w c r h) [
    | stops e q ↦ ground arith
    | goes t' es' w' r' next q n o a ↦
        ground (arith, walk_le (suc k) ts es' w' (count (classify es t) c) r' next)
  ]

  -- If it counts all of them, all of them are over.
  pub walk-All-IsCounted :
      (k : ℕ) (ts : List Task) (es : List Entry) (w : W) (c : Tally) (r : Walked W)
      → exec_walk env k ts es w c ≡ ok r
      → r.report ≡ none
      → behind r.tally + c.tot ≡ r.tally.tot + behind c
      → All (IsCounted es) ts
  unfolding exec_walk
  walk-All-IsCounted k [] es w c r h n s = tt
  walk-All-IsCounted k (t ∷ ts) es w c r h n s = elim (step_of k t ts es w c r h) [
    | stops e q ↦ absurd (ground arith)
    | goes t' es' w' r' next q ne o a' ↦
        let le = walk_le (suc k) ts es' w' (count (classify es t) c) r' next in
        let over : is_over (classify es t) ≡ true = ground arith in
        (
          over,
          subst (λ es. All (IsCounted es) ts) (o over)
              (walk-All-IsCounted (suc k) ts es' w' (count (classify es t) c) r' next (ground arith)
                (ground arith)),
        )
  ]

  classify-reports : (es : List Entry) (t : Task) → classify es t ≡ reports → t.stat ≡ done
  unfolding classify
  classify-reports es t h = ground arith

  pub walk_reports :
      (k i : ℕ) (ts : List Task) (es : List Entry) (w : W) (c : Tally) (r : Walked W)
      → exec_walk env k ts es w c ≡ ok r
      → r.report ≡ some i
      → (j : ℕ) × (t : Task) × (i ≡ k + j)
        × (get_elem? r.rest j ≡ some t)
        × (t.stat ≡ done)
        × (t.is_reported ≡ true)
  unfolding exec_walk
  walk_reports k i [] es w c r h e = absurd (ground arith)
  walk_reports k i (t ∷ ts) es w c r h e = elim (step_of k t ts es w c r h) [
    | stops rep q ↦ (
      0,
      record t { is_reported = true },
      ground arith,
      ground arith,
      classify-reports es t rep,
      refl,
    )
    | goes t' es' w' r' next q ne o a' ↦
        let (j, u, at, there, d, rep) =
          walk_reports (suc k) i ts es' w' (count (classify es t) c) r' next (ground arith) in
        (suc j, u, omega arith, ground arith, d, rep)
  ]
