-- ===== src/Client/Served.antt =====
-- A client's loop around pssh_exec (example/ex1.c) comes to its end.
use mathlib.Core.Path.{subst}
use libpssh.Prelude.{
  ℕ, ◌<◌, ◌==◌, ◌≡◌, ◌⊎◌, inl, inr, refl, true, false, List, [], ◌∷◌, ◌+◌, Option, All, length,
  arith,
}
use libpssh.Env.{Env}
use libpssh.Session.Sound.{EventsAdded}
use libpssh.Task.{State}
use libpssh.Task.Thrift.{Thrift}
use libpssh.Loop.{
  Occurrence, Ret, connected, running, timed_out, success, failed, Call, returned, waits, stopped,
  spins,
}
use libpssh.Loop.Exec.{pssh_exec}
use libpssh.Loop.Exec.Fair.{is_served}
use libpssh.Loop.Exec.Nears.{Ready, IsEnough, distance}
use libpssh.Loop.Exec.Progress.{Ensures, exec_served}
use libpssh.Loop.Exec.Results.{Post}
use libpssh.Loop.Exec.Over.{IsOver, IsFine}
use libpssh.Loop.Marks.{task_marks}
use libpssh.Session.{Entry}
use libpssh.Task.{Task}
use libpssh.Client.{by_call, ret_code, exec_all}
use libpssh.Client.Poll.{unset, poll_ends, poll_counts}
use libpssh.Client.Reports.{exec-IsMarking}
use libpssh.Client.Returns.{all_fit, Keeps, poll_answers}

fine-IsOver : (es : List Entry) (ts : List Task) → All (IsFine es) ts → All (IsOver es) ts
fine-IsOver es [] a = tt
fine-IsOver es (t ∷ ts) a = (inl a.0, fine-IsOver es ts a.1)

-- PSSH_SUCCESS or PSSH_FAILED.
abbrev pub IsFinal : Ret → Type 0
IsFinal ret = (ret ≡ success) ⊎ (ret ≡ failed)

module _ {W : Type 0} where
  Post-IsOver :
      (ret : Ret) (i : Option ℕ) (s : State W)
      → Post ret i s
      → (ret_code ret == ret_code running) ≡ false
      → IsFinal ret × All (IsOver s.session.entries) s.tasks
  unfolding ret_code
  Post-IsOver success i s p other = (inl refl, fine-IsOver s.session.entries s.tasks p.1)
  Post-IsOver failed i s p other = (inr refl, p.1)
  Post-IsOver running i s p other = cc
  Post-IsOver connected i s p other = absurd p
  Post-IsOver timed_out i s p other = absurd p

module _ {W : Type 0} (env : Env W) (fuel : ℕ) (added : EventsAdded env) (th : Thrift env)
    (n : ℕ) where
  -- The list is fit for a call that is served `n` times.
  abbrev pub IsServable : State W → Type 0
  IsServable s =
      IsEnough env fuel added th s × Ready env fuel added th s × (distance env fuel added th s < n)

  answer-IsServable :
      (s : State W) (r : Call (State W))
      → IsServable s
      → Ensures env fuel added th s r
      → Keeps (pssh_exec env fuel) running (is_served env fuel n) IsServable r
  answer-IsServable s (returned ret i s') (enough, v, far) (post, near) = λ _.
      ((enough.0, omega (arith, enough.1, near.calm)), near.ready, omega (arith, far, near.falls))
  answer-IsServable s (waits s') v h = h
  answer-IsServable s stopped v h = h
  answer-IsServable s spins v h = h

  exec-Keeps :
      (s : State W) (oss : List (List Occurrence))
      → IsServable s
      → is_served env fuel n s oss ≡ true
      → Keeps
          (pssh_exec env fuel)
          running
          (is_served env fuel n)
          IsServable
          (pssh_exec env fuel s oss)
  exec-Keeps s oss (enough, v, far) f =
      answer-IsServable s (pssh_exec env fuel s oss) (enough, v, far)
        (exec_served env fuel added th n s oss enough v f far)

  -- A client's loop around pssh_exec ends with PSSH_SUCCESS or PSSH_FAILED, every task is then without a
  -- connected server, or done and reported, or has failed, and as many have been reported as are newly
  -- marked, when there are more calls than unreported tasks, and each call is served as long as it goes on
  -- in more calls of event_base_loop than the list has steps to its end; when event_add succeeds, libssh2
  -- says "again" or takes nothing of what it is offered a bounded number of times and hands out a bounded
  -- number of bytes, it cuts no file from a server short, its reads fail with no other code than -1 and
  -- EAGAIN, a read of a local file brings some bytes, files and output stay below 2 GB, every task is as it
  -- is between two steps, none has the event of another, and the fuel is more than all that.
  pub exec_all_returns :
      (s : State W) (osss : List (List (List Occurrence)))
      → IsServable s
      → all_fit (pssh_exec env fuel) running (is_served env fuel n) s osss ≡ true
      → unset (task_marks s) < length osss
      → (ret : Ret) × (i : Option ℕ) × (s' : State W) × ((exec_all env fuel s osss).1
          ≡ by_call (returned ret i s'))
        × IsFinal ret
        × All (IsOver s'.session.entries) s'.tasks
        × (unset (task_marks s) ≡ length (exec_all env fuel s osss).0 + unset (task_marks s'))
  unfolding exec_all
  exec_all_returns s osss v f more =
      let marking = exec-IsMarking env fuel in
      elim (poll_answers (pssh_exec env fuel) running (is_served env fuel n) IsServable exec-Keeps s
        osss v f) [
          | inr short ↦
              let (r, last) =
                poll_ends (pssh_exec env fuel) running task_marks marking s osss more in
              absurd (cc)
          | inl (u, s', oss, ret, i, last, ran, (enough, ready, far), served, other) ↦
              let post =
                subst (Ensures env fuel added th u) ran
                  (exec_served env fuel added th n u oss enough ready served far) in
              let (final, over) = Post-IsOver ret i s' post.0 other in
              (
                ret,
                i,
                s',
                last,
                final,
                over,
                poll_counts (pssh_exec env fuel) running task_marks marking s s' osss ret i last,
              )
        ]
