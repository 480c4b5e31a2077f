-- ===== src/Task/Cost/Asking.antt =====
-- What asking for a channel (src/task.c, by libssh2_scp_send64, libssh2_scp_recv and
-- libssh2_channel_open_session) does to the steps that are left of a task.
use libpssh.Prelude.{
  ℕ, ℤ, pos, ◌<◌, ◌≤◌, ◌≡◌, refl, Bool-cases, inl, inr, true, false, some, none, Outcome, ok, arith,
}
use libpssh.Env.{Env, ChannelAnswer, null, opened}
use libpssh.Session.{is_eagain}
use libpssh.Task.{channel_ready, error, Task, TaskLocal, take_channel, set_task_stat, eagain_code}
use libpssh.Task.Thrift.{Thrift}
use libpssh.Task.Cost.{
  task_weight, is_first, is_final, Fits, over, patience, Advances, left_to_send,
}

module _ {W : Type 0} (env : Env W) (th : Thrift env) where
  -- A step of the task comes to an end, and brings it nearer to its own.
  abbrev pub Steps : TaskLocal W → Outcome (ℤ × TaskLocal W) → Type 0
  Steps t r = (ret : ℤ) × (t' : TaskLocal W) × (r ≡ ok (ret, t')) × Advances env th t t'

  -- The task with a channel, and with none.
  abbrev pub with_channel : Task → ℕ → Task
  with_channel t c = record t { channel = some c; stat = channel_ready }

  abbrev pub without : Task → Task
  without t = record t { channel = none }

  -- A step that leaves the task final.
  pub final-Advances :
      (t t' : TaskLocal W)
      → is_final t'.task.stat ≡ true
      → is_final t.task.stat ≡ false
      → patience env th t'.world ≤ patience env th t.world
      → Advances env th t t'
  unfolding task_weight
  final-Advances t t' f h le = record { fits = over f; calm = le; less = ground (arith, le) }

  -- libssh2 is asked for a channel for a task that has come to the state `u`.
  pub asks :
      (t u : TaskLocal W) (a : ChannelAnswer)
      → is_first t.task.stat ≡ true
      → u.task.stat ≡ t.task.stat
      → left_to_send u.task.payload ≤ th.max_size
      → patience env th u.world ≤ patience env th t.world
      → ((c : ℕ)
          → a ≡ opened c
          → Fits th.is_file th.max_size (patience env th u.world) (with_channel u.task c))
      → Fits th.is_file th.max_size (patience env th u.world) (without u.task)
      → (a ≡ null
          → is_eagain env (env.last_errno u.world u.ent.ssh_sess) ≡ true
          → patience env th u.world < patience env th t.world)
      → Steps t (ok (take_channel env u a))
  unfolding take_channel task_weight
  asks t u (opened c) f same left le ready keep again = (
    pos 0,
    record u { task = with_channel u.task c },
    refl,
    record { fits = ready c refl; calm = le; less = ground (arith, le, left) },
  )
  asks t u null f same left le ready keep again =
      elim (Bool-cases (is_eagain env (env.last_errno u.world u.ent.ssh_sess))) [
        | inl busy ↦ (
          eagain_code env,
          record u { task = without u.task },
          ground arith,
          record { fits = keep; calm = le; less = ground (arith, again refl busy) },
        )
        | inr refused ↦ (
          pos 0,
          set_task_stat (record u { task = without u.task }) error,
          ground arith,
          final-Advances t _ refl (ground arith) le,
        )
      ]
