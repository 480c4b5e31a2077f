-- ===== src/Session/Cases.antt =====
-- How the callbacks of src/pssh.c come to the state machine: what pssh_event_handler and pssh_dns_cb
-- hand to pssh_fsm.
use libpssh.Prelude.{ℤ, ◌≡◌, refl, Bool, true, false, Option, none, some, ok, minus_one, arith}
use libpssh.Env.{Env, Fired}
use libpssh.Session.{error, resolved, Entry, Local}
use libpssh.Session.Fsm.{pssh_fsm, pssh_event_handler, pssh_dns_cb}

-- The entry as pssh_event_handler hands it on.
abbrev pub woken : Entry → Fired → Entry
woken e type = record e { ev_type = type; ev_up = false }

-- The entry as pssh_dns_cb hands it on.
abbrev pub located : Entry → ℤ → Entry
located e a = record e { hostaddr = a; stat = resolved; ev_up = false }

module _ {W : Type 0} (env : Env W) (l l' : Local W) where
  -- The handler either marks the session as timed out, or runs the state machine on the woken entry.
  pub handler_cases :
      (type : Fired) (P : Type 0)
      → ((m : Local W) → m.ent ≡ woken l.ent type → pssh_fsm env m ≡ ok l' → P)
      → (l'.ent ≡ l.ent → l'.sess.is_timeout ≡ true → P)
      → pssh_event_handler env l type ≡ ok l'
      → P
  unfolding pssh_event_handler
  handler_cases type P run out h = ground (
    arith,
    run (record l { ent = woken l.ent type }) refl,
    run
        (record l {
          ent = woken l.ent type;
          sess = record l.sess { last_connect = (env.time l.world).0 };
          world = (env.time l.world).1;
        })
        refl,
    run (record l { ent = woken l.ent type; world = (env.time l.world).1 }) refl,
    out,
  )

  -- The answer of evdns either fails the entry, or runs the state machine on the entry with an address.
  pub dns_cases :
      (found : Bool) (addr : Option ℤ) (P : Type 0)
      → ((a : ℤ) → pssh_fsm env (record l { ent = located l.ent a }) ≡ ok l' → P)
      → (l' ≡ record l { ent = record l.ent { stat = error; hostaddr = minus_one } } → P)
      → pssh_dns_cb env l found addr ≡ ok l'
      → P
  unfolding pssh_dns_cb
  dns_cases true none P run fail h = cc
  dns_cases true (some a) P run fail h = run a h
  dns_cases false addr P run fail h = ground (arith, run (env.inet_addr l.ent.hostaddr_str), fail)
