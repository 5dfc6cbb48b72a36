-- ===== src/Base/Loops.antt =====
-- Counted loops.
use Prim.Native.Nat.{ℕ, zero, suc, ◌+◌}

-- `for (at = first; at < first + rounds; at++) state = step at state`
abbrev pub for_range {ℓ} :
    {State : Type ℓ} (rounds first : ℕ) (step : ℕ → State → State) → State → State
for_range zero first step = λ state. state
for_range (suc rounds) first step = λ state. for_range rounds (first + 1) step (step first state)
