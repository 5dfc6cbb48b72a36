-- ===== src/Base/Outcome.antt =====
-- What a run of C code comes to: a value, undefined behaviour, or fuel that ran out.
use mathlib.Core.Path.{◌≡◌, refl}

pub data Outcome {ℓ} (A : Type ℓ) : Type ℓ where
  ok : A → Outcome A
  -- An access outside an array: the C program's behaviour is undefined from here on.
  fault : Outcome A
  -- The fuel of a loop ran out.
  looping : Outcome A

-- What follows a run that may fail.
infixl 5 ◌>>=◌
abbrev pub ◌>>=◌ {ℓ κ} :
    {Value : Type ℓ} {Next : Type κ} (run : Outcome Value) (then_do : Value → Outcome Next)
    → Outcome Next
fault >>= then_do = fault
looping >>= then_do = looping
ok value >>= then_do = then_do value

-- Both parts of a run that came to a value came to one.
pub >>=-eq-ok {ℓ κ} :
    {Value : Type ℓ} {Next : Type κ} {last : Next}
    → (run : Outcome Value) (then_do : Value → Outcome Next) → run >>= then_do ≡ ok last
    → (first : Value) × (run ≡ ok first) × (then_do first ≡ ok last)
>>=-eq-ok fault then_do same = cc
>>=-eq-ok looping then_do same = cc
>>=-eq-ok (ok first) then_do same = (first, refl, same)
