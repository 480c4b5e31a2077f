-- ===== src/Loop/Exec/Progress.antt =====
-- pssh_exec (src/task.c) makes progress: when its tasks are served often enough, it returns.
use mathlib.Core.Path.{subst}
use libpssh.Prelude.{
  ℕ, zero, suc, ◌<◌, ◌≡◌, inl, inr, refl, sym, Bool, true, false, Bool-cases, List, [], ◌∷◌, Option,
  none, some, ok, arith,
}
use libpssh.Env.{Env}
use libpssh.Session.Sound.{EventsAdded}
use libpssh.Task.{State}
use libpssh.Task.Thrift.{Thrift}
use libpssh.Loop.{Occurrence, Ret, Call, returned, waits, stopped, spins}
use libpssh.Loop.Exec.Fair.{some_service, is_served}
use libpssh.Loop.Exec.Nears.{distance, Ready, Nears, IsEnough, then-Nears, loop-Nears}
use libpssh.Loop.Exec.Owner.{exec_round-Owned}
use libpssh.Loop.Exec.Results.{Post, round_call, exec_round-Post}
use libpssh.Loop.Exec.Rounds.{walk-Goes}
use libpssh.Loop.Exec.{no_tally, exec_result, put_walked, exec_round, pssh_exec}

module _ {W : Type 0} (env : Env W) (fuel : ℕ) (added : EventsAdded env) (th : Thrift env) where
  -- A round up to the call of event_base_loop.
  round_goes :
      (s : State W)
      → Ready env fuel added th s
      → (o : Option (Ret × Option ℕ)) × (s' : State W) × (exec_round env s ≡ ok (o, s'))
        × Nears env fuel added th s s' false
  unfolding exec_round
  round_goes s v =
      let (r, ran, x) =
        walk-Goes env added th 0 s.tasks s.session.entries s.session.world no_tally v.fits in
      let done : exec_round env s ≡ ok (exec_result r, put_walked s r) = rw ran in
      (
        exec_result r,
        put_walked s r,
        done,
        record {
          ready = record { owned = exec_round-Owned env added s _ _ v.owned done; fits = x.fits };
          calm = x.calm;
          falls = omega (arith, x.same_weight, x.falls, x.calm);
          nearer = λ u. cc;
        },
      )

  -- The call has returned, what it returns tells the truth, and the list that it leaves is as good as `s`.
  abbrev pub Ensures : State W → Call (State W) → Type 0
  Ensures s (returned ret i s') = Post ret i s' × Nears env fuel added th s s' false
  Ensures s _ = ⊥

  later :
      (s u : State W) (r : Call (State W))
      → Nears env fuel added th s u false
      → Ensures u r
      → Ensures s r
  later s u (returned ret i s') n (post, m) =
      (post, then-Nears env fuel added th s u s' false false n m)
  later s u (waits s') n h = h
  later s u stopped n h = h
  later s u spins n h = h

  at_least :
      (s u : State W) (b : Bool) → Nears env fuel added th s u b → Nears env fuel added th s u false
  at_least s u b n = record { ready = n.ready; calm = n.calm; falls = n.falls; nearer = λ h. cc }

  returns :
      (s s' : State W) (oss : List (List Occurrence)) (ret : Ret) (i : Option ℕ)
      → exec_round env s ≡ ok (some (ret, i), s')
      → Nears env fuel added th s s' false
      → Ensures s (pssh_exec env fuel s oss)
  returns s s' oss ret i e n =
      subst (Ensures s) (sym (round_call env fuel s s' oss ret i e))
        (exec_round-Post env s s' (some (ret, i)) ret i e refl, n)

  -- A call that is served for long enough returns.
  abbrev Returns : List (List Occurrence) → Type 0
  Returns oss =
      (n : ℕ) (s : State W)
      → IsEnough env fuel added th s
      → Ready env fuel added th s
      → is_served env fuel n s oss ≡ true
      → distance env fuel added th s < n
      → Ensures s (pssh_exec env fuel s oss)

  -- A call of event_base_loop, after a round that did not return, and the rest of the calls.
  go_round :
      (n : ℕ) (s s' : State W) (os : List Occurrence) (oss : List (List Occurrence))
      → exec_round env s ≡ ok (none, s')
      → Nears env fuel added th s s' false
      → IsEnough env fuel added th s
      → is_served env fuel (suc n) s (os ∷ oss) ≡ true
      → distance env fuel added th s < suc n
      → Returns oss
      → Ensures s (pssh_exec env fuel s (os ∷ oss))
  unfolding pssh_exec is_served
  go_round n s s' os oss ran m enough served far rest =
      let room : IsEnough env fuel added th s' = (enough.0, omega (arith, enough.1, m.calm)) in
      let (u, run, x) = loop-Nears env fuel added th s' os room m.ready (ground (arith, ran)) in
      let near = then-Nears env fuel added th s s' u false false m (at_least s' u _ x) in
      let room' : IsEnough env fuel added th u = (enough.0, omega (arith, enough.1, near.calm)) in
      rw (ran, run, pssh_exec)
        (later s u _ near (elim (Bool-cases (some_service env fuel s' os)) [
          | inl useful ↦
              rest n u room' x.ready (ground (arith, ran, run))
                (omega (arith, x.nearer useful, m.falls))
          | inr useless ↦
              rest (suc n) u room' x.ready (ground (arith, ran, run)) (omega (arith, near.falls))
        ]))

  one_round :
      (n : ℕ) (s s' : State W) (os : List Occurrence) (oss : List (List Occurrence))
      (o : Option (Ret × Option ℕ))
      → exec_round env s ≡ ok (o, s')
      → Nears env fuel added th s s' false
      → IsEnough env fuel added th s
      → is_served env fuel (suc n) s (os ∷ oss) ≡ true
      → distance env fuel added th s < suc n
      → Returns oss
      → Ensures s (pssh_exec env fuel s (os ∷ oss))
  one_round n s s' os oss (some (ret, i)) ran m enough served far rest =
      returns s s' (os ∷ oss) ret i ran m
  one_round n s s' os oss none ran m enough served far rest =
      go_round n s s' os oss ran m enough served far rest

  last_round :
      (n : ℕ) (s s' : State W) (o : Option (Ret × Option ℕ))
      → exec_round env s ≡ ok (o, s')
      → Nears env fuel added th s s' false
      → is_served env fuel (suc n) s [] ≡ true
      → Ensures s (pssh_exec env fuel s [])
  unfolding is_served
  last_round n s s' (some (ret, i)) ran m served = returns s s' [] ret i ran m
  last_round n s s' none ran m served = absurd (ground arith)

  -- pssh_exec returns, what it returns tells the truth, and the list that it leaves is fit for the next
  -- call and no farther from its end, when event_add succeeds, libssh2 says "again" or takes nothing of
  -- what it is offered a bounded number of times and hands out a bounded number of bytes, it cuts no file
  -- from a server short, its reads fail with no other code than -1 and EAGAIN, a read of a local file
  -- brings some bytes, files and output stay below 2 GB, every task is as it is between two steps, none
  -- has the event of another, the fuel is more than all that, the occurrences are legal, and more calls of
  -- event_base_loop than the list has steps to its end serve a live task, one that has been started and
  -- is not at its end.
  pub exec_served :
      (n : ℕ) (s : State W) (oss : List (List Occurrence))
      → IsEnough env fuel added th s
      → Ready env fuel added th s
      → is_served env fuel n s oss ≡ true
      → distance env fuel added th s < n
      → Ensures s (pssh_exec env fuel s oss)
  exec_served zero s oss enough v served far = absurd (omega arith)
  exec_served (suc n) s [] enough v served far =
      let (o, s', ran, m) = round_goes s v in last_round n s s' o ran m served
  exec_served (suc n) s (os ∷ oss) enough v served far =
      let (o, s', ran, m) = round_goes s v in
      one_round n s s' os oss o ran m enough served far (λ k u. exec_served k u oss)
