-- ===== src/Base/Tables.antt =====
-- Facts on a small range of numbers, by evaluation of every one.
use Prim.Native.Nat.{ℕ, zero, suc, ◌<◌}
use mathlib.Core.Path.{◌≡◌}
use mathlib.Core.Bool.{Bool, true, ◌&&◌}
use native.Mathlib.Omega.{arith}

-- A test succeeds on every number below the end.
unfoldable pub all_below : (end : ℕ) (test : ℕ → Bool) → Bool
all_below zero test = true
all_below (suc end) test = all_below end test && test end

pub all_below_sound :
    (end : ℕ) (test : ℕ → Bool) (value : ℕ)
    → all_below end test ≡ true
    → value < end
    → test value ≡ true
unfolding all_below
all_below_sound zero test value done below = absurd (omega arith)
all_below_sound (suc end) test value done below =
    let earlier = all_below_sound end test value in ground (arith, earlier)
