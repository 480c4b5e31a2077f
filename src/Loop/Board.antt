-- ===== src/Loop/Board.antt =====
-- What a user can see of a session (include/pssh.h): a board with one card for each server, and how the
-- library may change it. This is the specification of src/pssh.c; nothing of its inner states is in it.
pub mod Cards
pub mod Refine
use mathlib.Core.Path.{subst}
use libpssh.Prelude.{
  ℕ, zero, suc, ◌≡◌, ◌≢◌, refl, Bool, true, false, List, [], ◌∷◌, ◌++◌, Option, some, some_inj,
  get_elem?, arith,
}
use libpssh.Session.Api.{PubStat, pssh_none, pssh_error, pssh_inprogress, pssh_done}

pub record Card : Type 0 where
  pub name : List ℕ
  pub port : ℕ
  pub stat : PubStat
  pub told : Bool

abbrev pub new_card : List ℕ → ℕ → Card
new_card name port = record { name = name; port = port; stat = pssh_none; told = false }

-- A server begins, fails at any time before it is done, is done after it has begun, and is then told of
-- once. A late answer of evdns may set a failed one going again.
pub data Move (c : Card) : Card → Type 0 where
  stands : Move c c
  begins : c.stat ≡ pssh_none → Move c (record c { stat = pssh_inprogress })
  fails : c.stat ≢ pssh_done → Move c (record c { stat = pssh_error })
  revives : c.stat ≡ pssh_error → Move c (record c { stat = pssh_inprogress })
  ends : c.stat ≡ pssh_inprogress → Move c (record c { stat = pssh_done })
  tells : c.stat ≡ pssh_done → c.told ≡ false → Move c (record c { told = true })

-- Each card makes a move.
abbrev pub Moves : List Card → List Card → Type 0
Moves [] [] = Unit
Moves [] (d ∷ ds) = ⊥
Moves (c ∷ cs) [] = ⊥
Moves (c ∷ cs) (d ∷ ds) = Move c d × Moves cs ds

-- A step of the board: its cards move, or a server is added.
pub data BoardStep (cs : List Card) : List Card → Type 0 where
  moves : {ds : List Card} → Moves cs ds → BoardStep cs ds
  joins : (name : List ℕ) (port : ℕ) → BoardStep cs (cs ++ new_card name port ∷ [])

pub data BoardRun (cs : List Card) : List Card → Type 0 where
  here : BoardRun cs cs
  goes_on : {ds es : List Card} → BoardRun cs ds → BoardStep ds es → BoardRun cs es

-- What is never taken back: the name and the port, that a server is done, that it has been told of.
pub record Keeps (c d : Card) : Type 0 where
  pub same_name : d.name ≡ c.name
  pub same_port : d.port ≡ c.port
  pub still_done : c.stat ≡ pssh_done → d.stat ≡ pssh_done
  pub still_told : c.told ≡ true → d.told ≡ true

Move-Keeps : (c d : Card) → Move c d → Keeps c d
Move-Keeps c d stands = ground arith
Move-Keeps c d (begins h) = ground arith
Move-Keeps c d (fails h) = ground arith
Move-Keeps c d (revives h) = ground arith
Move-Keeps c d (ends h) = ground arith
Move-Keeps c d (tells h n) = ground arith

abbrev KeptAt : Card → List Card → ℕ → Type 0
KeptAt c ds i = (d : Card) × (get_elem? ds i ≡ some d) × Keeps c d

Moves-KeptAt :
    (cs ds : List Card) (i : ℕ) (c : Card) → Moves cs ds → get_elem? cs i ≡ some c → KeptAt c ds i
Moves-KeptAt [] ds i c m at = cc
Moves-KeptAt (x ∷ cs) [] i c m at = absurd m
Moves-KeptAt (x ∷ cs) (d ∷ ds) zero c m at =
    (d, refl, subst (λ y. Keeps y d) (some_inj at) (Move-Keeps x d m.0))
Moves-KeptAt (x ∷ cs) (d ∷ ds) (suc i) c m at = Moves-KeptAt cs ds i c m.1 at

append-KeptAt :
    (cs ds : List Card) (i : ℕ) (c : Card) → get_elem? cs i ≡ some c → KeptAt c (cs ++ ds) i
append-KeptAt [] ds i c at = cc
append-KeptAt (x ∷ cs) ds zero c at = ground arith
append-KeptAt (x ∷ cs) ds (suc i) c at = append-KeptAt cs ds i c at

step-KeptAt :
    (cs ds : List Card) (i : ℕ) (c : Card)
    → BoardStep cs ds
    → get_elem? cs i ≡ some c
    → KeptAt c ds i
step-KeptAt cs ds i c (moves m) at = Moves-KeptAt cs ds i c m at
step-KeptAt cs ds i c (joins name port) at = append-KeptAt cs _ i c at

pub run-KeptAt :
    (cs ds : List Card) (i : ℕ) (c : Card)
    → BoardRun cs ds
    → get_elem? cs i ≡ some c
    → KeptAt c ds i
run-KeptAt cs ds i c here at = ground arith
run-KeptAt cs ds i c (goes_on run step) at =
    let (x, there, kept) = run-KeptAt cs _ i c run at in
    let (d, last, kept') = step-KeptAt _ ds i x step there in (d, last, ground (arith, kept, kept'))
