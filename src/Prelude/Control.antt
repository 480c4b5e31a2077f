-- ===== src/Prelude/Control.antt =====
-- How a call ends: it returns, it stops the process (a failed `assert`, `abort()`, a write past a
-- buffer), or it is still in a loop when the rounds that it was given are used up.
use mathlib.Core.Path.{◌≡◌, refl}
use mathlib.Core.Logic.{◌⊎◌, inl, inr}
use mathlib.Core.Bool.{Bool, true, false}

pub data Outcome {ℓ} (A : Type ℓ) : Type ℓ where
  ok : A → Outcome A
  abort : Outcome A
  spin : Outcome A

infixl 5 ◌>>=◌ ◌>>◌
abbrev pub ◌>>=◌ {ℓ κ} : {A : Type ℓ} {B : Type κ} → Outcome A → (A → Outcome B) → Outcome B
ok a >>= f = f a
abort >>= f = abort
spin >>= f = spin

abbrev pub ◌>>◌ {ℓ} : {B : Type ℓ} → Outcome (Unit {0}) → Outcome B → Outcome B
m >> k = m >>= λ _. k

-- assert(b)
abbrev pub assert : Bool → Outcome (Unit {0})
assert true = ok tt
assert false = abort

-- A chain that returns has returned from its first call, and from the rest with its result.
pub >>=-eq-ok {ℓ κ} :
    {A : Type ℓ} {B : Type κ} (m : Outcome A) (rest : A → Outcome B) {result : B}
    → (m >>= rest) ≡ ok result
    → (a : A) × (m ≡ ok a) × (rest a ≡ ok result)
>>=-eq-ok abort rest e = cc
>>=-eq-ok spin rest e = cc
>>=-eq-ok (ok a) rest e = (a, refl, e)

pub Outcome-cases {ℓ} :
    {A : Type ℓ} (m : Outcome A) → ((a : A) × (m ≡ ok a)) ⊎ ((m ≡ abort) ⊎ (m ≡ spin))
Outcome-cases (ok a) = inl (a, refl)
Outcome-cases abort = inr (inl refl)
Outcome-cases spin = inr (inr refl)
