-- ===== src/Loop/Owner.antt =====
-- Whose event it is: the tasks of a server share the event of its entry, and one of them at a time is
-- between two steps (src/task.c).
pub mod Events
pub mod Steps
pub mod Quiet
use libpssh.Prelude.{
  ℕ, ◌≡◌, ◌≢◌, ◌⊎◌, inl, inr, refl, sym, ◌∙◌, ap, List, set, All, Bool, true, false, Option, some,
  some_inj, get_elem?, get_elem?-set, set_or, get_elem?-set_self, get_elem?-set_ne, arith,
}
use libpssh.Session.{Entry, task_handler}
use libpssh.Task.{
  TaskStat, idle, channel_ready, data_transfer, cmd_running, streams_readed, done, Task, State,
}
use libpssh.Task.Shared.{IsShared}
use libpssh.Session.Own.{HasNoTask}

-- The task has a channel and waits for its next step.
abbrev pub is_between : TaskStat → Bool
is_between channel_ready = true
is_between data_transfer = true
is_between cmd_running = true
is_between streams_readed = true
is_between _ = false

-- The task has been started, and is not done.
abbrev pub IsBegun : TaskStat → Type 0
IsBegun s = (s ≢ done) × (s ≢ idle)

-- The event of the task's server is held by libevent for this task.
abbrev pub Owns : List Entry → ℕ → Task → Type 0
Owns es k t =
    (i : ℕ) × (e : Entry) × (t.sess_entry ≡ some i)
    × (get_elem? es i ≡ some e)
    × (e.pending ≡ some (task_handler k))

-- Every event of a task belongs to a task of that server that has been started and is
-- not done; every task between two
-- steps owns the event of its server.
pub record Owned (es : List Entry) (ts : List Task) : Type 0 where
  pub shared : All IsShared es
  pub owner :
      (i : ℕ) (e : Entry) (k : ℕ)
      → get_elem? es i ≡ some e
      → e.pending ≡ some (task_handler k)
      → (t : Task) × (get_elem? ts k ≡ some t) × (t.sess_entry ≡ some i) × IsBegun t.stat
  pub between :
      (k : ℕ) (t : Task) → get_elem? ts k ≡ some t → is_between t.stat ≡ true → Owns es k t

module _ {W : Type 0} where
  abbrev pub OwnedState : State W → Type 0
  OwnedState s = Owned s.session.entries s.tasks

pub one_between :
    (es : List Entry) (ts : List Task) (j k : ℕ) (t u : Task)
    → Owned es ts
    → get_elem? ts j ≡ some t
    → get_elem? ts k ≡ some u
    → is_between t.stat ≡ true
    → is_between u.stat ≡ true
    → t.sess_entry ≡ u.sess_entry
    → j ≡ k
one_between es ts j k t u v at at' busy busy' same =
    let (i, e, to, there, held) = v.between j t at busy in
    let (i', e', to', there', held') = v.between k u at' busy' in
    let one : i ≡ i' = some_inj (sym to ∙ same ∙ to') in ground arith

module _ (es : List Entry) (ts : List Task) (v : Owned es ts) (i : ℕ) (e x : Entry) where
  -- An entry is written whose event no task held before or holds after.
  pub set_entry-Owned :
      get_elem? es i ≡ some e
      → HasNoTask e
      → HasNoTask x
      → All IsShared (set es i x)
      → Owned (set es i x) ts
  set_entry-Owned at n n' all = record {
    shared = all;
    owner = λ j y k there held. elim (get_elem?-set es i j x there) [
      | inl (same, new) ↦ absurd (n' k (ap (λ z. z.pending) new ∙ held))
      | inr (other, old) ↦ v.owner j y k old held
    ];
    between = λ k t there busy.
        let (j, y, to, old, held) = v.between k t there busy in
        let other : i ≢ j = λ same. n k (ground arith) in
        (j, y, to, get_elem?-set_ne es i j x other ∙ old, held);
  }

  -- A task and the entry of its server are written: the event is that task's, or whose it was.
  pub set_both-Owned :
      (k : ℕ) (t t' : Task)
      → get_elem? es i ≡ some e
      → get_elem? ts k ≡ some t
      → t.sess_entry ≡ some i
      → t'.sess_entry ≡ t.sess_entry
      → ((j : ℕ)
          → x.pending ≡ some (task_handler j)
          → (j ≡ k) ⊎ (e.pending ≡ some (task_handler j)))
      → ((j : ℕ) → j ≢ k → e.pending ≡ some (task_handler j) → x.pending ≡ some (task_handler j))
      → (is_between t'.stat ≡ true → x.pending ≡ some (task_handler k))
      → (x.pending ≡ some (task_handler k) → IsBegun t'.stat)
      → All IsShared (set es i x)
      → Owned (set es i x) (set ts k t')
  set_both-Owned k t t' at there here bound own others arms live all =
      let me : get_elem? (set ts k t') k ≡ some t' = get_elem?-set_self ts k t' there in
      record {
        shared = all;
        owner = λ j y m spot kept. elim (get_elem?-set es i j x spot) [
          | inl (same, new) ↦
              let holds : x.pending ≡ some (task_handler m) = ap (λ z. z.pending) new ∙ kept in
              elim (own m holds) [
                | inl mine ↦
                    (t', rw mine me, bound ∙ here ∙ ap some same, live (rw (sym mine) holds))
                | inr was ↦
                    let (t3, at3, to3, alive) = v.owner i e m at was in
                    elim (set_or ts k m t' at3) [
                      | inl (mine, now) ↦
                          (t', now, bound ∙ here ∙ ap some same, live (rw mine holds))
                      | inr now ↦ (t3, now, to3 ∙ ap some same, alive)
                    ]
              ]
          | inr (other, old) ↦
              let (t3, at3, to3, alive) = v.owner j y m old kept in
              elim (set_or ts k m t' at3) [
                | inl (mine, now) ↦ absurd (other (ground arith))
                | inr now ↦ (t3, now, to3, alive)
              ]
        ];
        between = λ m y spot busy. elim (get_elem?-set ts k m t' spot) [
          | inl (mine, new) ↦ (
            i,
            x,
            ground arith,
            get_elem?-set_self es i x at,
            ground (arith, arms (ground arith)),
          )
          | inr (other, old) ↦
              let (j, z, to3, at3, kept) = v.between m y old busy in
              elim (set_or es i j x at3) [
                | inl (same, now) ↦ (j, x, to3, now, others m (λ e. other (sym e)) (ground arith))
                | inr now ↦ (j, z, to3, now, kept)
              ]
        ];
      }

-- A task is written that keeps its server and its state.
pub set_task-Owned :
    (es : List Entry) (ts : List Task) (k : ℕ) (t t' : Task)
    → Owned es ts
    → get_elem? ts k ≡ some t
    → t'.sess_entry ≡ t.sess_entry
    → t'.stat ≡ t.stat
    → Owned es (set ts k t')
set_task-Owned es ts k t t' v there bound same = record {
  shared = v.shared;
  owner = λ j y m spot kept.
      let (u, at, to, alive) = v.owner j y m spot kept in
      elim (set_or ts k m t' at) [
        | inl (mine, now) ↦
            let one : u ≡ t = ground arith in
            (
              t',
              now,
              ground arith,
              (
                λ d. alive.0 (ap (λ z. z.stat) one ∙ sym same ∙ d),
                λ d. alive.1 (ap (λ z. z.stat) one ∙ sym same ∙ d),
              ),
            )
        | inr now ↦ (u, now, to, alive)
      ];
  between = λ m y spot busy. elim (get_elem?-set ts k m t' spot) [
    | inl (mine, new) ↦
        let (i, e, to, at, held) = v.between k t there (ground arith) in
        (i, e, ground arith, at, ground arith)
    | inr (other, old) ↦ v.between m y old busy
  ];
}
