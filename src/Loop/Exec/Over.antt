-- ===== src/Loop/Exec/Over.antt =====
-- When a task of src/task.c is over, said of its state and of its server's, and what the classes of
-- pssh_exec have to do with it.
use libpssh.Prelude.{
  ℕ, ◌<◌, ◌≡◌, ◌≢◌, ◌⊎◌, inl, inr, Bool, true, false, Bool-cases, Option-cases, List, [], ◌∷◌, some,
  get_elem?, All, arith, refl, suc,
}
use libpssh.Session.{Entry, connected, is_connected}
use libpssh.Task.{TaskStat, error, done, Task}
use libpssh.Loop.Exec.{classify, class_of, skipped, Class}
use libpssh.Loop.Exec.Walk.{is_over, is_errs, IsCounted, errors}

-- The server of the task is in the session, and is connected.
abbrev pub IsServed : List Entry → Task → Type 0
IsServed es t =
    (i : ℕ) × (e : Entry) × (t.sess_entry ≡ some i)
    × (get_elem? es i ≡ some e)
    × (e.stat ≡ connected)

-- The task is skipped, for want of a connected server, or is done and has been reported.
abbrev pub IsFine : List Entry → Task → Type 0
IsFine es t = (¬ IsServed es t) ⊎ ((t.stat ≡ done) × (t.is_reported ≡ true))

-- It is so, or has failed.
abbrev pub IsOver : List Entry → Task → Type 0
IsOver es t = IsFine es t ⊎ (t.stat ≡ error)

-- Some task of a connected server has failed.
abbrev pub SomeErred : List Entry → List Task → Type 0
SomeErred es ts =
    (k : ℕ) × (t : Task) × (get_elem? ts k ≡ some t) × IsServed es t × (t.stat ≡ error)

served_class :
    (es : List Entry) (t : Task) → IsServed es t → classify es t ≡ class_of t.stat t.is_reported
unfolding classify
served_class es t (i, e, to, at, up) = ground arith

IsServed-or_skipped : (es : List Entry) (t : Task) → IsServed es t ⊎ (classify es t ≡ skipped)
unfolding classify
IsServed-or_skipped es t = elim (Option-cases t.sess_entry) [
  | inl lost ↦ inr (ground arith)
  | inr (i, to) ↦ elim (Option-cases (get_elem? es i)) [
    | inl gone ↦ inr (ground arith)
    | inr (e, at) ↦ elim (Bool-cases (is_connected e.stat)) [
      | inl up ↦ inl (i, e, to, at, ground arith)
      | inr down ↦ inr (ground arith)
    ]
  ]
]

never_skipped : (s : TaskStat) (r : Bool) → class_of s r ≢ skipped
never_skipped s r = λ h. ground arith

skipped-IsFine : (es : List Entry) (t : Task) → classify es t ≡ skipped → ¬ IsServed es t
skipped-IsFine es t h served =
    let same = served_class es t served in never_skipped t.stat t.is_reported (cc)

abbrev Counts : TaskStat → Bool → Class → Type 0
Counts s r c = ((s ≡ error) × (is_errs c ≡ true)) ⊎ ((s ≡ done) × (r ≡ true) × (is_errs c ≡ false))

class_over : (s : TaskStat) (r : Bool) → is_over (class_of s r) ≡ true → Counts s r (class_of s r)
class_over error r h = inl (refl, refl)
class_over done true h = inr (refl, refl, refl)
class_over done false h = absurd (ground arith)
class_over _ r h = absurd (ground arith)

-- What it means that the walk counts a task: it is skipped, or it is served and failed, or it is served,
-- done and reported.
counted_cases :
    (es : List Entry) (t : Task)
    → IsCounted es t
    → ((¬ IsServed es t) × (is_errs (classify es t) ≡ false))
      ⊎ (IsServed es t × Counts t.stat t.is_reported (classify es t))
counted_cases es t h = elim (IsServed-or_skipped es t) [
  | inr skip ↦ inl (skipped-IsFine es t skip, ground arith)
  | inl served ↦
      let same = served_class es t served in
      inr (served, rw same (class_over t.stat t.is_reported (rw same at h)))
]

pub counted-IsOver : (es : List Entry) (t : Task) → IsCounted es t → IsOver es t
counted-IsOver es t h = elim (counted_cases es t h) [
  | inl (lost, fine) ↦ inl (inl lost)
  | inr (served, inl (bad, one)) ↦ inr bad
  | inr (served, inr (ended, told, zero)) ↦ inl (inr (ended, told))
]

counted-IsFine :
    (es : List Entry) (t : Task) → IsCounted es t → is_errs (classify es t) ≡ false → IsFine es t
counted-IsFine es t h ne = elim (counted_cases es t h) [
  | inl (lost, fine) ↦ inl lost
  | inr (served, inl (bad, one)) ↦ absurd (ground arith)
  | inr (served, inr (ended, told, zero)) ↦ inr (ended, told)
]

errs_failed :
    (es : List Entry) (t : Task)
    → IsCounted es t
    → is_errs (classify es t) ≡ true
    → IsServed es t × (t.stat ≡ error)
errs_failed es t h one = elim (counted_cases es t h) [
  | inl (lost, fine) ↦ absurd (ground arith)
  | inr (served, inl (bad, _)) ↦ (served, bad)
  | inr (served, inr (ended, told, zero)) ↦ absurd (ground arith)
]

IsOver-IsCounted : (es : List Entry) (t : Task) → IsOver es t → IsCounted es t
IsOver-IsCounted es t over = elim (IsServed-or_skipped es t) [
  | inr skip ↦ ground arith
  | inl served ↦
      let same = served_class es t served in
      elim over [
        | inl (inl lost) ↦ absurd (lost served)
        | inl (inr (ended, told)) ↦ ground arith
        | inr bad ↦ ground arith
      ]
]

pub All-IsCounted : (es : List Entry) (ts : List Task) → All (IsOver es) ts → All (IsCounted es) ts
All-IsCounted es [] a = tt
All-IsCounted es (t ∷ ts) a = (IsOver-IsCounted es t a.0, All-IsCounted es ts a.1)

pub All-IsOver : (es : List Entry) (ts : List Task) → All (IsCounted es) ts → All (IsOver es) ts
All-IsOver es [] a = tt
All-IsOver es (t ∷ ts) a = (counted-IsOver es t a.0, All-IsOver es ts a.1)

pub All-IsFine :
    (es : List Entry) (ts : List Task)
    → All (IsCounted es) ts
    → errors es ts ≡ 0
    → All (IsFine es) ts
unfolding errors
All-IsFine es [] a z = tt
All-IsFine es (t ∷ ts) a z =
    (counted-IsFine es t a.0 (ground arith), All-IsFine es ts a.1 (omega arith))

pub some-SomeErred :
    (es : List Entry) (ts : List Task) → All (IsCounted es) ts → 0 < errors es ts → SomeErred es ts
unfolding errors
some-SomeErred es [] a h = absurd (omega arith)
some-SomeErred es (t ∷ ts) a h = elim (Bool-cases (is_errs (classify es t))) [
  | inl bad ↦ let (served, failed) = errs_failed es t a.0 bad in (0, t, refl, served, failed)
  | inr fine ↦
      let (k, u, at, served, failed) = some-SomeErred es ts a.1 (ground arith) in
      (suc k, u, at, served, failed)
]
