-- ===== src/Session/Own.antt =====
-- The callbacks of a connection (src/pssh.c) leave no event of a task.
use libpssh.Prelude.{ℕ, ℤ, ◌≡◌, ◌≢◌, Bool, Option, some, ok, arith}
use libpssh.Env.{Env, Fired}
use libpssh.Session.{task_handler, Entry, Local}
use libpssh.Session.Cases.{handler_cases, dns_cases}
use libpssh.Session.Events.{pssh_event_update, pssh_eagain_handle}
use libpssh.Session.Fsm.{pssh_fsm, pssh_event_handler, pssh_dns_cb}

-- No task uses the event of the entry.
abbrev pub HasNoTask : Entry → Type 0
HasNoTask e = (k : ℕ) → e.pending ≢ some (task_handler k)

module _ {W : Type 0} (env : Env W) where
  pub fsm-HasNoTask : (l l' : Local W) → HasNoTask l.ent → pssh_fsm env l ≡ ok l' → HasNoTask l'.ent
  unfolding pssh_fsm pssh_event_update pssh_eagain_handle
  fsm-HasNoTask l l' n h k q = grind (arith, n k)

  pub handler-HasNoTask :
      (l l' : Local W) (type : Fired)
      → HasNoTask l.ent
      → pssh_event_handler env l type ≡ ok l'
      → HasNoTask l'.ent
  handler-HasNoTask l l' type n =
      handler_cases env l l' type _ (λ m e h. fsm-HasNoTask m l' (rw e n) h) (λ e _. rw e n)

  pub dns-HasNoTask :
      (l l' : Local W) (found : Bool) (addr : Option ℤ)
      → HasNoTask l.ent
      → pssh_dns_cb env l found addr ≡ ok l'
      → HasNoTask l'.ent
  dns-HasNoTask l l' found addr n =
      dns_cases env l l' found addr _ (λ a h. fsm-HasNoTask _ l' n h) (λ e. rw e n)
