-- ===== src/Loop/Connect/Settled.antt =====
-- The walk of pssh_connect (src/pssh.c) over the entries: what it counts, and what it reports.
use libpssh.Prelude.{
  ℕ, suc, ◌+◌, ◌<◌, ◌≤◌, ◌≡◌, ◌⊎◌, inl, inr, refl, Bool, true, false, not, ◌&&◌, Bool-cases, List,
  [], ◌∷◌, some, get_elem?, All, length, if◌then◌else◌, arith,
}
use libpssh.Session.{Stat, error, Entry, Session, is_connected, is_error}
use libpssh.Session as S
use libpssh.Loop.Connect.{Counts, found, counted, counting, connect_walk}

-- An entry that pssh_connect would report now.
abbrev pub is_fresh : Entry → Bool
is_fresh e = is_connected e.stat && not e.is_reported

-- Nothing more is to be expected of an entry: it is connected and has been reported, or has failed.
abbrev pub IsSettled : Entry → Type 0
IsSettled e = ((is_connected e.stat ≡ true) × (e.is_reported ≡ true)) ⊎ (e.stat ≡ S.error)

abbrev pub IsReported : Entry → Type 0
IsReported e = (is_connected e.stat ≡ true) × (e.is_reported ≡ true)

pub walk_found :
    (i : ℕ) (es : List Entry) (c : Counts) (k : ℕ)
    → connect_walk i es c ≡ found k
    → (j : ℕ) × (e : Entry) × (k ≡ i + j) × (get_elem? es j ≡ some e) × (is_fresh e ≡ true)
unfolding connect_walk
walk_found i [] c k h = cc
walk_found i (e ∷ es) c k h = elim (Bool-cases (is_fresh e)) [
  | inl fresh ↦ (0, e, ground arith, refl, fresh)
  | inr old ↦
      let (j, f, at, e', fresh) = walk_found (suc i) es _ k (rw old at h) in
      (suc j, f, omega arith, e', fresh)
]

-- The numbers of connected and of failed entries.
unfoldable pub ups : List Entry → ℕ
ups [] = 0
ups (e ∷ es) = (if is_connected e.stat then 1 else 0) + ups es

unfoldable pub downs : List Entry → ℕ
downs [] = 0
downs (e ∷ es) = (if is_error e.stat then 1 else 0) + downs es

abbrev pub IsStale : Entry → Type 0
IsStale e = is_fresh e ≡ false

-- A walk that finds nothing to report has counted every entry.
pub walk_counted :
    (i : ℕ) (es : List Entry) (c d : Counts)
    → connect_walk i es c ≡ counted d
    → (d.tot ≡ c.tot + length es)
      × (d.err ≡ c.err + downs es)
      × (d.okay ≡ c.okay + ups es)
      × All IsStale es
unfolding connect_walk ups downs
walk_counted i [] c d h = (ground arith, ground arith, ground arith, tt)
walk_counted i (e ∷ es) c d h = elim (Bool-cases (is_fresh e)) [
  | inl fresh ↦ absurd (cc (rw fresh at h))
  | inr stale ↦
      let (tot, err, okay, rest) =
        walk_counted (suc i) es (counting (is_connected e.stat) (is_error e.stat) c) d
          (rw stale at h) in
      (omega arith, ground arith, ground arith, (stale, rest))
]

pub ups-downs-le : (es : List Entry) → ups es + downs es ≤ length es
unfolding ups downs
ups-downs-le [] = omega arith
ups-downs-le (e ∷ es) = ground (arith, ups-downs-le es)

-- When the counts make up the total, every entry is settled; with no failure, reported.
pub All-IsSettled :
    (es : List Entry) → All IsStale es → downs es + ups es ≡ length es → All IsSettled es
unfolding ups downs
All-IsSettled [] a h = tt
All-IsSettled (e ∷ es) a h =
    (ground (arith, a.0, ups-downs-le es), All-IsSettled es a.1 (ground (arith, ups-downs-le es)))

pub All-IsReported : (es : List Entry) → All IsSettled es → downs es ≡ 0 → All IsReported es
unfolding downs
All-IsReported [] a h = tt
All-IsReported (e ∷ es) a h = (ground (arith, a.0), All-IsReported es a.1 (omega arith))

-- Some entry has failed.
abbrev pub SomeFailed : List Entry → Type 0
SomeFailed es = (i : ℕ) × (e : Entry) × (get_elem? es i ≡ some e) × (e.stat ≡ S.error)

pub some_failed : (es : List Entry) → 0 < downs es → SomeFailed es
unfolding downs
some_failed [] h = absurd (omega arith)
some_failed (e ∷ es) h = elim (Bool-cases (is_error e.stat)) [
  | inl bad ↦ (0, e, refl, ground arith)
  | inr good ↦ let (i, f, at, bad) = some_failed es (ground arith) in (suc i, f, at, bad)
]

-- An entry that is connected or has failed.
abbrev pub IsEnded : Entry → Type 0
IsEnded e = (is_connected e.stat ≡ true) ⊎ (e.stat ≡ S.error)

pub ended_counts : (es : List Entry) → All IsEnded es → downs es + ups es ≡ length es
unfolding ups downs
ended_counts [] a = omega arith
ended_counts (e ∷ es) a = ground (arith, a.0, ended_counts es a.1)
