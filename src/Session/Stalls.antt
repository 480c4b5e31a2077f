-- ===== src/Session/Stalls.antt =====
-- Two ends of src/pssh.c that leave an entry in a state which the rest of the code does not expect.
use libpssh.Prelude.{is_minus_one, ◌≡◌, refl, true, false, some, ok, arith}
use libpssh.Env.{Env, established}
use libpssh.Session.{error, resolved, wait_conn, conn_handler, Local}
use libpssh.Session.Events.{pssh_event_update}
use libpssh.Session.Sound.{EventsAdded}
use libpssh.Session.Fsm.{pssh_fsm, to_u16}

module _ {W : Type 0} (env : Env W) where
  -- A connection that stands at once, with no EINPROGRESS, is not noticed: the entry stays in the
  -- state "resolved", and what libevent holds for it does not change.
  pub established_stalls :
      (l : Local W)
      → l.ent.stat ≡ resolved
      → is_minus_one (env.socket l.world).0 ≡ false
      → (env.connect
          (env.socket l.world).1
          (env.socket l.world).0
          l.ent.hostaddr
          (to_u16 l.ent.port)).0
        ≡ established
      → (l' : Local W) × (pssh_fsm env l ≡ ok l')
        × (l'.ent.stat ≡ resolved)
        × (l'.ent.pending ≡ l.ent.pending)
        × (l'.ent.ev_up ≡ l.ent.ev_up)
  unfolding pssh_fsm
  established_stalls l r s e =
      let sock = env.socket l.world in
      (
        record l {
          ent = record l.ent { sock = sock.0 };
          world = (env.connect sock.1 sock.0 l.ent.hostaddr (to_u16 l.ent.port)).1;
        },
        ground arith,
        ground arith,
        refl,
        refl,
      )

  -- A connection that failed is marked as an error, and its event is armed again all the same: after
  -- the call libevent holds an event of an entry that has failed.
  pub failed_stays_armed :
      (l l' : Local W)
      → EventsAdded env
      → l.ent.stat ≡ wait_conn
      → pssh_fsm env l ≡ ok l'
      → l'.ent.stat ≡ error
      → (l'.ent.pending ≡ some conn_handler) × (l'.ent.ev_up ≡ true)
  unfolding pssh_fsm pssh_event_update
  failed_stays_armed l l' added w h e = (grind (arith, added), grind (arith, added))
