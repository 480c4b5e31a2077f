-- ===== src/Client/Reports.antt =====
-- The loops of a client around pssh_connect and pssh_exec (example/ex1.c): each server and each task is
-- reported at most once.
use mathlib.Core.Path.{subst}
use libpssh.Prelude.{ℕ, [], ◌∷◌, map, ◌<◌, ◌≡◌, inl, inr, refl, List, Option, All, length, arith}
use libpssh.Env.{Env}
use libpssh.Session.{Entry}
use libpssh.Task.{State}
use libpssh.Loop.{Occurrence, connected, running, timed_out, failed, success, Call, returned}
use libpssh.Loop.Marks.{entry_mark, entry_marks, task_marks}
use libpssh.Loop.Connect.{pssh_connect}
use libpssh.Loop.Connect.Marks.{CallMarks, connect-CallMarks}
use libpssh.Loop.Connect.Settled.{IsReported}
use libpssh.Loop.Connect.Results.{connect-Post}
use libpssh.Loop.Exec.{pssh_exec}
use libpssh.Loop.Exec.Marks as E
use libpssh.Client.{exec_all, by_call, ret_code, connect_all}
use libpssh.Client.Poll.{
  unset, IsUnset, Distinct, IsMarking, poll_ends, poll-Distinct, poll_counts, poll_last,
}

none_left : (es : List Entry) → All IsReported es → unset (map entry_mark es) ≡ 0
unfolding unset
none_left [] a = refl
none_left (e ∷ es) a = ground (arith, a.0, none_left es a.1)

module _ {W : Type 0} where
  -- The servers that have not been reported.
  abbrev pub unreported : State W → ℕ
  unreported s = unset (entry_marks s)

module _ {W : Type 0} (env : Env W) (fuel : ℕ) where
  pub connect-IsMarking :
      (timeout : ℕ) → IsMarking (λ s oss. pssh_connect env fuel s timeout oss) connected entry_marks
  unfolding ret_code
  connect-IsMarking timeout s s' oss connected i h =
      inl (refl, subst (CallMarks (entry_marks s)) h (connect-CallMarks env fuel s timeout oss))
  connect-IsMarking timeout s s' oss running i h =
      inr (refl, subst (CallMarks (entry_marks s)) h (connect-CallMarks env fuel s timeout oss))
  connect-IsMarking timeout s s' oss timed_out i h =
      inr (refl, subst (CallMarks (entry_marks s)) h (connect-CallMarks env fuel s timeout oss))
  connect-IsMarking timeout s s' oss failed i h =
      inr (refl, subst (CallMarks (entry_marks s)) h (connect-CallMarks env fuel s timeout oss))
  connect-IsMarking timeout s s' oss success i h =
      inr (refl, subst (CallMarks (entry_marks s)) h (connect-CallMarks env fuel s timeout oss))

  -- With more calls than unreported servers, a client's loop around pssh_connect ends by an answer, or by
  -- a call that does not return; it does not go on for ever.
  pub connect_all_ends :
      (s : State W) (timeout : ℕ) (osss : List (List (List Occurrence)))
      → unreported s < length osss
      → (r : Call (State W)) × ((connect_all env fuel s timeout osss).1 ≡ by_call r)
  unfolding connect_all
  connect_all_ends s timeout osss h =
      poll_ends _ connected entry_marks (connect-IsMarking timeout) s osss h

  -- It reports servers that had not been reported before, none of them twice.
  pub connect_all-Distinct :
      (s : State W) (timeout : ℕ) (osss : List (List (List Occurrence)))
      → All (IsUnset (entry_marks s)) (connect_all env fuel s timeout osss).0
        × Distinct (connect_all env fuel s timeout osss).0
  unfolding connect_all
  connect_all-Distinct s timeout osss =
      poll-Distinct _ connected entry_marks (connect-IsMarking timeout) s osss

  -- When it ends with PSSH_SUCCESS, every server is connected, and every server that had not been
  -- reported before has been.
  pub connect_all_success :
      (s s' : State W) (timeout : ℕ) (osss : List (List (List Occurrence))) (i : Option ℕ)
      → (connect_all env fuel s timeout osss).1 ≡ by_call (returned success i s')
      → All IsReported s'.session.entries
        × (length (connect_all env fuel s timeout osss).0 ≡ unreported s)
  unfolding connect_all
  connect_all_success s s' timeout osss i h =
      let marking = connect-IsMarking timeout in
      let (u, oss, last) = poll_last _ connected entry_marks marking s osss _ h in
      let all = (connect-Post env fuel u s' timeout oss success i last).1 in
      let count = poll_counts _ connected entry_marks marking s s' osss success i h in
      (all, omega (arith, count, none_left s'.session.entries all))

  pub exec-IsMarking : IsMarking (pssh_exec env fuel) running task_marks
  unfolding ret_code
  exec-IsMarking s s' oss connected i h =
      inr (refl, subst (E.CallMarks (task_marks s)) h (E.exec-CallMarks env fuel s oss))
  exec-IsMarking s s' oss running i h =
      inl (refl, subst (E.CallMarks (task_marks s)) h (E.exec-CallMarks env fuel s oss))
  exec-IsMarking s s' oss timed_out i h =
      inr (refl, subst (E.CallMarks (task_marks s)) h (E.exec-CallMarks env fuel s oss))
  exec-IsMarking s s' oss failed i h =
      inr (refl, subst (E.CallMarks (task_marks s)) h (E.exec-CallMarks env fuel s oss))
  exec-IsMarking s s' oss success i h =
      inr (refl, subst (E.CallMarks (task_marks s)) h (E.exec-CallMarks env fuel s oss))

  -- With more calls than unreported tasks, a client's loop around pssh_exec ends by an answer, or by a
  -- call that does not return.
  pub exec_all_ends :
      (s : State W) (osss : List (List (List Occurrence)))
      → unset (task_marks s) < length osss
      → (r : Call (State W)) × ((exec_all env fuel s osss).1 ≡ by_call r)
  unfolding exec_all
  exec_all_ends s osss h = poll_ends _ running task_marks exec-IsMarking s osss h

  -- It reports tasks that had not been reported before, none of them twice.
  pub exec_all-Distinct :
      (s : State W) (osss : List (List (List Occurrence)))
      → All (IsUnset (task_marks s)) (exec_all env fuel s osss).0
        × Distinct (exec_all env fuel s osss).0
  unfolding exec_all
  exec_all-Distinct s osss = poll-Distinct _ running task_marks exec-IsMarking s osss
