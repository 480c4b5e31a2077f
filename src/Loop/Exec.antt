-- ===== src/Loop/Exec.antt =====
-- pssh_exec of src/task.c.
pub mod Walk
pub mod Over
pub mod Entries
pub mod Marks
pub mod Results
pub mod Cards
pub mod Owner
pub mod Fair
pub mod Nears
pub mod Rounds
pub mod Progress
pub mod Fresh
use libpssh.Prelude.{
  ℕ, suc, ◌+◌, ◌==◌, is_zero, Bool, true, List, [], ◌∷◌, Option, none, some, get_elem?, set,
  if◌then◌else◌, Outcome, ok, abort, spin, ◌>>=◌, ◌>>◌, assert,
}
use libpssh.Env.{ev_write, Env}
use libpssh.Session.{Entry, is_connected}
use libpssh.Task.{TaskStat, idle, error, start, done, Task, State}
use libpssh.Task.Events.{pssh_task_event_update}
use libpssh.Loop.{Occurrence, Ret, running, failed, success, Call, returned, waits, stopped, spins}
use libpssh.Loop.Dispatch.{event_base_loop}

pub record Tally : Type 0 where
  pub tot : ℕ
  pub okay : ℕ
  pub err : ℕ
  pub skip : ℕ

abbrev pub no_tally : Tally
no_tally = record { tot = 0; okay = 0; err = 0; skip = 0 }

-- How the walk over the tasks treats one of them.
pub data Class : Type 0 where
  skipped launches errs reports settled under_way : Class

abbrev class_of : TaskStat → Bool → Class
class_of idle r = launches
class_of start r = launches
class_of error r = errs
class_of done r = if r then settled else reports
class_of _ r = under_way

abbrev class_with : Task → Option Entry → Class
class_with t none = skipped
class_with t (some e) = if is_connected e.stat then class_of t.stat t.is_reported else skipped

abbrev entry_at : List Entry → Option ℕ → Option Entry
entry_at es none = none
entry_at es (some i) = get_elem? es i

unfoldable pub classify : List Entry → Task → Class
classify es t = class_with t (entry_at es t.sess_entry)

abbrev count : Class → Tally → Tally
count skipped c = record c { tot = suc c.tot; skip = suc c.skip }
count errs c = record c { tot = suc c.tot; err = suc c.err }
count settled c = record c { tot = suc c.tot; okay = suc c.okay }
count _ c = record c { tot = suc c.tot }

-- What the walk leaves: the tasks from its place on, the entries, the world, and the place of a task
-- that is done and not reported yet, or the counts.
pub record Walked (W : Type 0) : Type 0 where
  pub rest : List Task
  pub entries : List Entry
  pub world : W
  pub report : Option ℕ
  pub tally : Tally

module _ {W : Type 0} (env : Env W) where
  -- ret = pssh_task_event_update(task, EV_WRITE); assert(ret == 0); task->stat = START
  launch : ℕ → Task → List Entry → W → ℕ → Option Entry → Outcome (Task × List Entry × W)
  launch k t es w i none = abort
  launch k t es w i (some e) =
      let (ret, t') =
        pssh_task_event_update env (record { self = k; task = t; ent = e; world = w }) ev_write in
      assert (is_zero ret) >> ok (record t { stat = start }, set es i t'.ent, t'.world)

  pub launch_at : ℕ → Task → List Entry → W → Option ℕ → Outcome (Task × List Entry × W)
  unfolding launch
  launch_at k t es w none = abort
  launch_at k t es w (some i) = launch k t es w i (get_elem? es i)

  abbrev pub walk_from : Task → Outcome (Walked W) → Outcome (Walked W)
  walk_from t m = do r ← m; ok (record r { rest = t ∷ r.rest })

  -- The walk from the task at place `k` on.
  unfoldable pub exec_walk : ℕ → List Task → List Entry → W → Tally → Outcome (Walked W)
  unfolding launch_at
  exec_walk k [] es w c =
      ok (record { rest = []; entries = es; world = w; report = none; tally = c })
  exec_walk k (t ∷ ts) es w c =
      let next =
        λ (es' : List Entry) (w' : W). exec_walk (suc k) ts es' w' (count (classify es t) c) in
      elim (classify es t) [
        | reports ↦ ok (record {
          rest = record t { is_reported = true } ∷ ts;
          entries = es;
          world = w;
          report = some k;
          tally = c;
        })
        | launches ↦ do (t', es', w') ← launch_at k t es w t.sess_entry; walk_from t' (next es' w')
        | _ ↦ walk_from t (next es w)
      ]

module _ {W : Type 0} where
  abbrev put_walked : State W → Walked W → State W
  put_walked s r = record s {
    session = record s.session { entries = r.entries; world = r.world };
    tasks = r.rest;
  }

  -- The end of a round, by what the walk left; `none` goes on to event_base_loop.
  abbrev exec_result : Walked W → Option (Ret × Option ℕ)
  exec_result r = elim r.report [
    | some k ↦ some (running, some k)
    | none ↦
        if r.tally.okay + r.tally.err + r.tally.skip == r.tally.tot
        then some (if r.tally.err == 0 then success else failed, none)
        else none
  ]

module _ {W : Type 0} (env : Env W) where
  -- One round up to the call of event_base_loop.
  unfoldable pub exec_round : State W → Outcome (Option (Ret × Option ℕ) × State W)
  exec_round s = do
    r ← exec_walk env 0 s.tasks s.session.entries s.session.world no_tally
    ok (exec_result r, put_walked s r)

module _ {W : Type 0} (env : Env W) (fuel : ℕ) where
  -- The rounds, one for each list of occurrences and one more.
  unfoldable pub pssh_exec : State W → List (List Occurrence) → Call (State W)
  pssh_exec s [] = elim (exec_round env s) [
    | ok (some (ret, t), s') ↦ returned ret t s'
    | ok (none, s') ↦ waits s'
    | abort ↦ stopped
    | spin ↦ spins
  ]
  pssh_exec s (os ∷ oss) = elim (exec_round env s) [
    | ok (some (ret, t), s') ↦ returned ret t s'
    | ok (none, s') ↦ elim (event_base_loop env fuel s' os) [
      | ok s'' ↦ pssh_exec s'' oss
      | abort ↦ stopped
      | spin ↦ spins
    ]
    | abort ↦ stopped
    | spin ↦ spins
  ]
