-- ===== src/Session/Cost/Moves.antt =====
-- What the callbacks of a connection (src/pssh.c) do to the steps that are left.
use libpssh.Prelude.{
  ℕ, ℤ, minus_one, ◌+◌, ◌<◌, ◌≤◌, ◌≡◌, ◌⊎◌, inl, inr, refl, Bool, true, false, Option, some, none,
  ok, Bool-cases, ◌==◌, leb, ◌∙◌, List, [], length, if◌then◌else◌, arith,
}
use libpssh.Env.{Env, Fired}
use libpssh.Session.{error, idle, Local}
use libpssh.Session.Cases.{woken, located}
use libpssh.Session.Fsm.{host_addr_max_size, pssh_fsm, pssh_event_handler, pssh_dns_cb}
use libpssh.Session.Own.{HasNoTask, fsm-HasNoTask}
use libpssh.Session.Sound.{EventsAdded}
use libpssh.Session.Cost.{
  weight, Patience, can_move, has_answer, fsm_returns, fsm_falls, fsm_calm, fsm_moves, fsm_timeout,
}

module _ {W : Type 0} (env : Env W) (added : EventsAdded env) (p : Patience env) where
  -- What a callback of the connection does: nothing that is farther from the end; and if it has
  -- something to go on with, it is nearer, or the session has timed out.
  pub record Moved (l l' : Local W) (moves : Bool) : Type 0 where
    pub falls : weight l'.ent.stat + p.patience l'.world ≤ weight l.ent.stat + p.patience l.world
    pub calm : p.patience l'.world ≤ p.patience l.world
    pub no_task : HasNoTask l'.ent
    pub late : l.sess.is_timeout ≡ true → l'.sess.is_timeout ≡ true
    pub nearer :
        moves ≡ true
        → (weight l'.ent.stat + p.patience l'.world < weight l.ent.stat + p.patience l.world)
          ⊎ (l'.sess.is_timeout ≡ true)

  -- The handler either marks the session as timed out, or runs the state machine on the woken entry in
  -- a world in which only the clock was read.
  data Runs (l : Local W) (type : Fired) : Type 0 where
    times_out :
        (l' : Local W)
        → pssh_event_handler env l type ≡ ok l'
        → l'.ent ≡ l.ent
        → l'.sess.is_timeout ≡ true
        → p.patience l'.world ≤ p.patience l.world
        → Runs l type
    goes_on :
        (m : Local W)
        → pssh_event_handler env l type ≡ pssh_fsm env m
        → m.ent ≡ woken l.ent type
        → m.sess.is_timeout ≡ l.sess.is_timeout
        → p.patience m.world ≤ p.patience l.world
        → Runs l type

  handler-Runs : (l : Local W) (type : Fired) → Runs l type
  unfolding pssh_event_handler
  handler-Runs l type =
      let (now, w) = env.time l.world in
      let e = woken l.ent type in
      let core = record l.sess { last_connect = now } in
      elim (Bool-cases type.timed_out) [
        | inr ready ↦ goes_on (record l { ent = e }) (ground arith) refl refl (omega arith)
        | inl expired ↦ elim (Bool-cases (l.sess.last_connect == 0)) [
          | inl first ↦
              goes_on (record { ent = e; sess = core; world = w }) (ground arith) refl refl
                (p.time_keeps l.world)
          | inr again ↦ elim (Bool-cases (leb (l.sess.last_connect + l.sess.timeout) now)) [
            | inl late ↦
                times_out (record l { sess = record l.sess { is_timeout = true }; world = w })
                  (ground arith) refl refl (p.time_keeps l.world)
            | inr early ↦
                goes_on (record l { ent = e; world = w }) (ground arith) refl refl
                  (p.time_keeps l.world)
          ]
        ]
      ]

  pub handler-Moved :
      (l : Local W) (type : Fired)
      → HasNoTask l.ent
      → (l' : Local W) × (pssh_event_handler env l type ≡ ok l')
        × Moved l l' (can_move l.ent.stat type.writable)
  handler-Moved l type n = elim (handler-Runs l type) [
    | times_out l' ran same late keeps ↦ (
      l',
      ran,
      record {
        falls = rw same (omega (arith, keeps));
        calm = keeps;
        no_task = rw same n;
        late = λ _. late;
        nearer = λ _. inr late;
      },
    )
    | goes_on m is same timer keeps ↦
        let (l', ran) = fsm_returns env added p m in
        (
          l',
          is ∙ ran,
          record {
            falls = ground (arith, fsm_falls env added p m l' ran);
            calm = omega (arith, keeps, fsm_calm env added p m l' ran);
            no_task = fsm-HasNoTask env m l' (rw same n) ran;
            late = λ t. fsm_timeout env added p m l' ran ∙ timer ∙ t;
            nearer = λ c. inl (ground (arith, fsm_moves env added p m l' (rw same c) ran));
          },
        )
  ]

  located-Moved :
      (l : Local W) (a : ℤ)
      → HasNoTask l.ent
      → l.ent.stat ≡ idle
      → (l' : Local W) × (pssh_fsm env (record l { ent = located l.ent a }) ≡ ok l')
        × Moved l l' true
  located-Moved l a n z =
      let m : Local W = record l { ent = located l.ent a } in
      let (l', ran) = fsm_returns env added p m in
      (
        l',
        ran,
        record {
          falls = rw z (omega (arith, fsm_falls env added p m l' ran));
          calm = fsm_calm env added p m l' ran;
          no_task = fsm-HasNoTask env m l' n ran;
          late = λ t. fsm_timeout env added p m l' ran ∙ t;
          nearer = λ _. inl (rw z (omega (arith, fsm_falls env added p m l' ran)));
        },
      )

  pub dns-Moved :
      (l : Local W) (found : Bool) (addr : Option ℤ)
      → HasNoTask l.ent
      → l.ent.stat ≡ idle
      → has_answer found addr ≡ true
      → (l' : Local W) × (pssh_dns_cb env l found addr ≡ ok l') × Moved l l' true
  unfolding pssh_dns_cb
  dns-Moved l true none n z honest = cc
  dns-Moved l true (some a) n z honest = located-Moved l a n z
  dns-Moved l false (some a) n z honest = located-Moved l (env.inet_addr l.ent.hostaddr_str) n z
  dns-Moved l false none n z honest =
      let name = l.ent.hostaddr_str in
      let ipa : List ℕ = if leb host_addr_max_size (length name) then [] else name in
      let (l', ran, moved) = located-Moved l (env.inet_addr name) n z in
      elim (Bool-cases (env.inet_aton ipa)) [
        | inl parsed ↦ (l', rw parsed ran, moved)
        | inr unknown ↦ (
          record l { ent = record l.ent { stat = error; hostaddr = minus_one } },
          rw unknown,
          record {
            falls = rw z (omega arith);
            calm = omega arith;
            no_task = n;
            late = λ t. t;
            nearer = λ _. inl (rw z (omega arith));
          },
        )
      ]
