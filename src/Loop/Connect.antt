-- ===== src/Loop/Connect.antt =====
-- pssh_connect of src/pssh.c.
pub mod Settled
pub mod Entries
pub mod Marks
pub mod Results
pub mod Fair
pub mod Progress
pub mod Live
pub mod Again
pub mod Stalls
pub mod Cards
use libpssh.Prelude.{
  ℕ, suc, ◌+◌, ◌==◌, Bool, true, false, not, ◌&&◌, List, [], ◌∷◌, map, Option, none, some,
  get_elem?, set, if◌then◌else◌, ok, abort, spin,
}
use libpssh.Env.{Env}
use libpssh.Session.{error, Entry, Session, is_connected, is_error}
use libpssh.Task.{State}
use libpssh.Loop.{
  Occurrence, connected, timed_out, failed, success, Call, returned, waits, stopped, spins,
}
use libpssh.Loop.Dispatch.{event_base_loop}

pub record Counts : Type 0 where
  pub tot : ℕ
  pub err : ℕ
  pub okay : ℕ

abbrev pub no_counts : Counts
no_counts = record { tot = 0; err = 0; okay = 0 }

-- What a walk over the entries ends with: the place of an entry that is connected and not reported
-- yet, or the counts.
pub data Walk : Type 0 where
  found : ℕ → Walk
  counted : Counts → Walk

abbrev counting : Bool → Bool → Counts → Counts
counting up down c = record {
  tot = suc c.tot;
  err = if up then c.err else if down then suc c.err else c.err;
  okay = if up then suc c.okay else c.okay;
}

-- The walk from place `i` on.
unfoldable pub connect_walk : ℕ → List Entry → Counts → Walk
connect_walk i [] c = counted c
connect_walk i (e ∷ es) c =
    let rest = connect_walk (suc i) es (counting (is_connected e.stat) (is_error e.stat) c) in
    if is_connected e.stat && not e.is_reported then found i else rest

-- The end of a call on a timeout: what is not connected has failed.
unfoldable pub fail_unconnected : Entry → Entry
fail_unconnected e = if is_connected e.stat then e else record e { stat = error }

module _ {W : Type 0} (env : Env W) where
  -- pssh_shutdown_events
  pub shutdown_entries : List Entry → W → List Entry × W
  shutdown_entries [] w = ([], w)
  shutdown_entries (e ∷ es) w =
      let (es', w') = shutdown_entries es (if e.ev_up then env.event_del w e.ssh_sess else w) in
      ((if e.ev_up then record e { ev_up = false; pending = none } else e) ∷ es', w')

  unfoldable pub pssh_shutdown_events : Session W → Session W
  unfolding shutdown_entries
  pssh_shutdown_events s =
      let (es, w) = shutdown_entries s.entries s.world in record s { entries = es; world = w }

abbrev mark : Entry → Entry
mark e = record e { is_reported = true }

abbrev mark_at : List Entry → ℕ → List Entry
mark_at es i = elim (get_elem? es i) [ none ↦ es | some e ↦ set es i (mark e) ]

module _ {W : Type 0} where
  abbrev reset_timer : Session W → Session W
  reset_timer s = record s { core = record s.core { last_connect = 0; is_timeout = false } }

  abbrev put_session : State W → Session W → State W
  put_session s sess = record s { session = sess }

abbrev is_empty : List Entry → Bool
is_empty [] = true
is_empty (e ∷ es) = false

module _ {W : Type 0} where
  -- The rest of a round, by what the walk found; `none` goes on to event_base_loop.
  walk_result : State W → Walk → Option (Call (State W))
  walk_result s (found i) = some (
      returned connected (some i)
        (put_session s (record s.session { entries = mark_at s.session.entries i })))
  walk_result s (counted c) =
      if c.err + c.okay == c.tot
      then some (
          returned (if c.err == 0 then success else failed) none
            (put_session s (reset_timer s.session)))
      else none

module _ {W : Type 0} (env : Env W) where
  -- The walk of one round when the session has timed out: it stops at the first entry.
  time_out : State W → Call (State W)
  time_out s =
      let sess = pssh_shutdown_events env (reset_timer s.session) in
      returned timed_out none
        (put_session s (record sess { entries = map fail_unconnected sess.entries }))

  -- One round up to the call of event_base_loop.
  unfoldable pub connect_round : State W → Option (Call (State W))
  unfolding time_out walk_result
  connect_round s =
      if s.session.core.is_timeout && not (is_empty s.session.entries)
      then some (time_out s)
      else walk_result s (connect_walk 0 s.session.entries no_counts)

module _ {W : Type 0} (env : Env W) (fuel : ℕ) where
  -- The rounds, one for each list of occurrences and one more.
  unfoldable pub connect_loop : State W → List (List Occurrence) → Call (State W)
  connect_loop s [] = elim (connect_round env s) [ some r ↦ r | none ↦ waits s ]
  connect_loop s (os ∷ oss) = elim (connect_round env s) [
    | some r ↦ r
    | none ↦ elim (event_base_loop env fuel s os) [
      | ok s' ↦ connect_loop s' oss
      | abort ↦ stopped
      | spin ↦ spins
    ]
  ]

  unfoldable pub pssh_connect : State W → ℕ → List (List Occurrence) → Call (State W)
  pssh_connect s timeout oss =
      connect_loop
        (put_session s (record s.session { core = record s.session.core { timeout = timeout } }))
        oss
