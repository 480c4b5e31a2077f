-- ===== src/Client/Fair.antt =====
-- A client's loop around pssh_connect (example/ex1.c) comes to its end.
use mathlib.Core.Path.{subst}
use libpssh.Prelude.{
  ℕ, ◌<◌, ◌==◌, ◌≡◌, ◌⊎◌, inl, inr, refl, Bool, true, false, ◌&&◌, List, ◌+◌, Option, length, arith,
  leb,
}
use libpssh.Env.{Env}
use libpssh.Session.Sound.{EventsAdded}
use libpssh.Task.{State}
use libpssh.Loop.{
  Occurrence, Ret, connected, running, timed_out, success, failed, Call, returned, waits, stopped,
  spins,
}
use libpssh.Client.{by_call, ret_code}
use libpssh.Client.Poll.{unset, poll_ends, poll_counts}
use libpssh.Client.Returns.{all_fit, Keeps, poll_answers}
use libpssh.Session.Cost.{Patience}
use libpssh.Loop.Connect.{pssh_connect}
use libpssh.Loop.Connect.Again.{connect-IsNext}
use libpssh.Loop.Connect.Fair.{is_fair}
use libpssh.Loop.Connect.Progress.{NoTasks, distance, timed, connect_fair}
use libpssh.Loop.Connect.Results.{Post, Ensures}
use libpssh.Loop.Marks.{entry_marks}
use libpssh.Client.{connect_all}
use libpssh.Client.Reports.{connect-IsMarking}

-- PSSH_SUCCESS, PSSH_FAILED or PSSH_TIMEOUT.
abbrev pub IsLast : Ret → Type 0
IsLast ret = (ret ≡ success) ⊎ ((ret ≡ failed) ⊎ (ret ≡ timed_out))

module _ {W : Type 0} where
  Post-IsLast :
      (ret : Ret) (i : Option ℕ) (s : State W)
      → Post ret i s
      → (ret_code ret == ret_code connected) ≡ false
      → IsLast ret
  unfolding ret_code
  Post-IsLast success i s h other = inl refl
  Post-IsLast failed i s h other = inr (inl refl)
  Post-IsLast timed_out i s h other = inr (inr refl)
  Post-IsLast connected i s h other = cc
  Post-IsLast running i s h other = absurd h

module _ {W : Type 0} (env : Env W) (fuel : ℕ) (added : EventsAdded env) (p : Patience env) (n : ℕ)
    (timeout : ℕ) where
  abbrev call : State W → List (List Occurrence) → Call (State W)
  call s oss = pssh_connect env fuel s timeout oss

  -- The occurrences are fair, in `n` calls of event_base_loop at least.
  abbrev pub is_long_fair : State W → List (List Occurrence) → Bool
  is_long_fair s oss = is_fair env fuel (timed s timeout) oss && leb n (length oss)

  abbrev pub IsConnectable : State W → Type 0
  IsConnectable s = NoTasks env fuel added p s × (distance env fuel added p s < n)

  answer-Keeps :
      (s : State W) (oss : List (List Occurrence)) (r : Call (State W))
      → call s oss ≡ r
      → IsConnectable s
      → is_fair env fuel (timed s timeout) oss ≡ true
      → Ensures r
      → Keeps call connected is_long_fair IsConnectable r
  unfolding ret_code
  answer-Keeps s oss (returned connected i s') e (quiet, far) fair post =
      let (quiet', less) = connect-IsNext env fuel added p s s' timeout i oss quiet fair e in
      λ _. (quiet', omega (arith, less, far))
  answer-Keeps s oss (returned success i s') e v fair post = λ q. cc
  answer-Keeps s oss (returned failed i s') e v fair post = λ q. cc
  answer-Keeps s oss (returned timed_out i s') e v fair post = λ q. cc
  answer-Keeps s oss (returned running i s') e v fair post = λ q. cc
  answer-Keeps s oss (waits s') e v fair post = post
  answer-Keeps s oss stopped e v fair post = post
  answer-Keeps s oss spins e v fair post = post

  returns :
      (s : State W) (oss : List (List Occurrence))
      → IsConnectable s
      → is_long_fair s oss ≡ true
      → Ensures (call s oss)
  returns s oss (quiet, far) f =
      connect_fair env fuel added p s timeout oss quiet (ground arith) (ground (arith, far))

  -- A client's loop around pssh_connect, each call of which gets fair occurrences in more calls of
  -- event_base_loop than the session has steps to its end, ends with PSSH_SUCCESS, PSSH_FAILED or
  -- PSSH_TIMEOUT when there are more calls than unreported servers. What it returns tells the truth, and
  -- it has reported as many servers as are newly marked.
  pub connect_all_returns :
      (s : State W) (osss : List (List (List Occurrence)))
      → IsConnectable s
      → all_fit call connected is_long_fair s osss ≡ true
      → unset (entry_marks s) < length osss
      → (ret : Ret) × (i : Option ℕ) × (s' : State W) × ((connect_all env fuel s timeout osss).1
          ≡ by_call (returned ret i s'))
        × IsLast ret
        × Post ret i s'
        × (unset (entry_marks s)
            ≡ length (connect_all env fuel s timeout osss).0 + unset (entry_marks s'))
  unfolding connect_all
  connect_all_returns s osss v f more =
      let marking = connect-IsMarking env fuel timeout in
      elim (poll_answers call connected is_long_fair IsConnectable
        (λ t oss w h. answer-Keeps t oss (call t oss) refl w (ground arith) (returns t oss w h)) s
        osss v f) [
          | inr short ↦
              let (r, last) = poll_ends call connected entry_marks marking s osss more in
              absurd (cc)
          | inl (u, s', oss, ret, i, last, ran, w, fit, other) ↦
              let post : Post ret i s' = subst Ensures ran (returns u oss w fit) in
              (
                ret,
                i,
                s',
                last,
                Post-IsLast ret i s' post other,
                post,
                poll_counts call connected entry_marks marking s s' osss ret i last,
              )
        ]
