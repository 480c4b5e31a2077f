-- ===== src/Loop/Callbacks.antt =====
-- What the callbacks of libevent and evdns, as Loop.Dispatch runs them, do to all the entries.
use mathlib.Core.Path.{subst}
use libpssh.Prelude.{
  ℕ, ℤ, ◌≡◌, refl, Bool, Option, none, some, get_elem?, All, All-get, All-set, Option-cases, inl,
  inr, ok, arith,
}
use libpssh.Env.{Env, Fired}
use libpssh.Session.{Entry, Local, idle, conn_handler, task_handler}
use libpssh.Session.Fsm.{pssh_event_handler, pssh_dns_cb}
use libpssh.Session.Own.{handler-HasNoTask, dns-HasNoTask}
use libpssh.Session.Sound.{IsSound, handler-IsSound, dns-IsSound}
use libpssh.Task.{State}
use libpssh.Task.Shared.{IsShared, task_handler-IsShared}
use libpssh.Loop.{fires, answers}
use libpssh.Loop.Cases.{
  released, task_local, FiresTo, connection, task, AnswersTo, answer, fires_to, answers_to,
}
use libpssh.Loop.Dispatch.{dispatch, local_of}

module _ {W : Type 0} (env : Env W) where
  handler-IsShared :
      (l l' : Local W) (type : Fired)
      → l.ent.pending ≡ none
      → IsSound l.ent
      → pssh_event_handler env l type ≡ ok l'
      → IsShared l'.ent
  handler-IsShared l l' type p v h = record {
    sound = handler-IsSound env l l' type p v h;
    owner = λ k q. absurd (handler-HasNoTask env l l' type (λ j. rw p cc) h k q);
  }

  dns-IsShared :
      (l l' : Local W) (found : Bool) (addr : Option ℤ)
      → l.ent.pending ≡ none
      → IsSound l.ent
      → pssh_dns_cb env l found addr ≡ ok l'
      → IsShared l'.ent
  dns-IsShared l l' found addr p v h = record {
    sound = dns-IsSound env l l' found addr p v h;
    owner = λ k q. absurd (dns-HasNoTask env l l' found addr (λ j. rw p cc) h k q);
  }

module _ {W : Type 0} where
  abbrev pub AllShared : State W → Type 0
  AllShared s = All IsShared s.session.entries

released-IsSound : (e : Entry) → IsSound e → IsSound (released e)
released-IsSound e v = ground (arith, v)

-- Nothing holds an event of an entry whose name is being looked up.
pub idle-no_event : (e : Entry) → IsShared e → e.stat ≡ idle → e.pending ≡ none
idle-no_event e v z = elim (Option-cases e.pending) [
  | inl empty ↦ empty
  | inr (conn_handler, held) ↦ absurd (v.sound.resting (ground arith) held)
  | inr (task_handler k, held) ↦ absurd (cc (v.owner k held))
]

module _ {W : Type 0} (env : Env W) (fuel : ℕ) where
  pub fires-AllShared :
      (s s' : State W) (i : ℕ) (type : Fired)
      → AllShared s
      → dispatch env fuel s (fires i type) ≡ ok s'
      → AllShared s'
  fires-AllShared s s' i type all run = elim (fires_to env fuel s s' i type run) [
    | FiresTo.nothing same ↦ subst AllShared same all
    | connection e l at p ran same ↦
        let shared = All-get IsShared s.session.entries i all at in
        subst AllShared same (
          All-set IsShared s.session.entries i l.ent all (
            handler-IsShared env (local_of s (released e)) l type refl
              (released-IsSound e shared.sound) ran))
    | task e k t u at p there ran same ↦
        let shared = All-get IsShared s.session.entries i all at in
        subst AllShared same (
          All-set IsShared s.session.entries i u.ent all (
            task_handler-IsShared env fuel (task_local s k t (released e)) u type refl
              (shared.owner k p) (released-IsSound e shared.sound) ran))
  ]

  pub answers-AllShared :
      (s s' : State W) (i : ℕ) (found : Bool) (addr : Option ℤ) (e : Entry)
      → AllShared s
      → get_elem? s.session.entries i ≡ some e
      → e.stat ≡ idle
      → dispatch env fuel s (answers i found addr) ≡ ok s'
      → AllShared s'
  answers-AllShared s s' i found addr e all at z run =
      elim (answers_to env fuel s s' i found addr run) [
        | AnswersTo.nothing same ↦ subst AllShared same all
        | answer x l there ran same ↦
            let one : x ≡ e = ground arith in
            let shared = All-get IsShared s.session.entries i all there in
            subst AllShared same (
              All-set IsShared s.session.entries i l.ent all (
                dns-IsShared env (local_of s x) l found addr (idle-no_event x shared (ground arith))
                  shared.sound ran))
      ]
