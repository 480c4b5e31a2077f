-- ===== src/Loop/Reach.antt =====
-- The life of a session as steps: servers and tasks are added, evdns answers, events fire, pssh_connect
-- and pssh_exec (src/pssh.c, src/task.c) go their rounds.
use libpssh.Prelude.{
  ℕ, ℤ, ◌≡◌, Bool, List, ◌∷◌, [], Option, some, get_elem?, All, All-append, ok, ◌++◌, arith,
}
use mathlib.Core.Path.{subst}
use libpssh.Env.{Env, Fired}
use libpssh.Session.{Entry, Session, idle}
use libpssh.Session.Api.{pssh_server_add, new_entry}
use libpssh.Task.{State}
use libpssh.Task.Shared.{IsShared}
use libpssh.Loop.{fires, answers, Ret, returned}
use libpssh.Loop.Dispatch.{dispatch}
use libpssh.Loop.Connect.{connect_round}
use libpssh.Loop.Connect.Entries.{connect_round-AllShared}
use libpssh.Loop.Exec.{exec_round}
use libpssh.Loop.Exec.Entries.{exec_round-AllShared}
use libpssh.Loop.Callbacks.{AllShared, fires-AllShared, answers-AllShared}

module _ {W : Type 0} (env : Env W) (fuel : ℕ) where
  -- One step. evdns answers for an entry whose name is being looked up. The tasks, the cursor and the
  -- session's own fields may be anything after a call of the user.
  pub data Step (s : State W) : State W → Type 0 where
    adds :
        {sess : Session W} (name : List ℕ) (port : ℕ)
        → pssh_server_add env s.session name port ≡ ok sess
        → Step s (record s { session = sess })
    uses : {s' : State W} → s'.session.entries ≡ s.session.entries → Step s s'
    fired :
        {s' : State W} (i : ℕ) (type : Fired)
        → dispatch env fuel s (fires i type) ≡ ok s'
        → Step s s'
    answered :
        {s' : State W} (i : ℕ) (e : Entry) (found : Bool) (addr : Option ℤ)
        → get_elem? s.session.entries i ≡ some e
        → e.stat ≡ idle
        → dispatch env fuel s (answers i found addr) ≡ ok s'
        → Step s s'
    connects :
        {s' : State W} (ret : Ret) (i : Option ℕ)
        → connect_round env s ≡ some (returned ret i s')
        → Step s s'
    execs : {s' : State W} (o : Option (Ret × Option ℕ)) → exec_round env s ≡ ok (o, s') → Step s s'

  pub data Reaches (s : State W) : State W → Type 0 where
    here : Reaches s s
    goes_on : {u v : State W} → Reaches s u → Step u v → Reaches s v

  add-AllShared :
      (s : Session W) (sess : Session W) (name : List ℕ) (port : ℕ)
      → All IsShared s.entries
      → pssh_server_add env s name port ≡ ok sess
      → All IsShared sess.entries
  unfolding pssh_server_add
  add-AllShared s sess name port all h =
      let e = new_entry name port (env.session_init s.world).0 in
      let v : IsShared e = ground arith in
      let same : s.entries ++ e ∷ [] ≡ sess.entries = ground arith in
      subst (All IsShared) same (All-append IsShared s.entries (e ∷ []) all (v, tt))

  Step-AllShared : (s s' : State W) → AllShared s → Step s s' → AllShared s'
  Step-AllShared s s' all (adds name port h) = add-AllShared s.session _ name port all h
  Step-AllShared s s' all (uses same) = rw same all
  Step-AllShared s s' all (fired i type h) = fires-AllShared env fuel s s' i type all h
  Step-AllShared s s' all (answered i e found addr at z h) =
      answers-AllShared env fuel s s' i found addr e all at z h
  Step-AllShared s s' all (connects ret i h) = connect_round-AllShared env s _ all h
  Step-AllShared s s' all (execs o h) = exec_round-AllShared env s s' o all h

  -- In every state that a session reaches from a state in which this holds, such as one with no servers,
  -- each entry is sound, and an event that is a task's is that of a connected server.
  pub Reaches-AllShared : (s s' : State W) → AllShared s → Reaches s s' → AllShared s'
  Reaches-AllShared s s' all here = all
  Reaches-AllShared s s' all (goes_on run step) =
      Step-AllShared _ s' (Reaches-AllShared s _ all run) step
