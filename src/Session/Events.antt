-- ===== src/Session/Events.antt =====
-- pssh_event_update and pssh_eagain_handle of src/pssh.c: how an entry waits for its socket.
use libpssh.Prelude.{ℕ, ℤ, true, some, is_zero, if◌then◌else◌, Outcome, assert, ◌>>◌, ok}
use libpssh.Env.{Interest, ev_read, ev_write, Env}
use libpssh.Session.{Local, conn_handler}

module _ {W : Type 0} (env : Env W) where
  -- What `event_add` answered: the event is up only if it was added.
  abbrev added : Local W → ℤ × W → ℤ × Local W
  added l (ret, w) =
      if is_zero ret
      then (
        ret,
        record l { ent = record l.ent { ev_up = true; pending = some conn_handler }; world = w },
      )
      else (ret, record l { world = w })

  unfoldable pub pssh_event_update : Local W → Interest → ℕ → ℤ × Local W
  pssh_event_update l flags timeout =
      added l (env.event_add l.world l.ent.ssh_sess flags (some timeout))

  -- The direction that libssh2 waits for.
  abbrev pub last_io : W → ℕ → Interest
  last_io w s = if env.last_io_send w s then ev_write else ev_read

  unfoldable pub pssh_eagain_handle : Local W → ℕ → ℤ × Local W
  pssh_eagain_handle l timeout = pssh_event_update l (last_io l.world l.ent.ssh_sess) timeout

  -- ret = ...; assert(ret == 0);
  abbrev pub assert_zero : ℤ × Local W → Outcome (Local W)
  assert_zero (ret, l) = assert (is_zero ret) >> ok l
