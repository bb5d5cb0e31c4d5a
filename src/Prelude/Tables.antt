-- ===== src/Prelude/Tables.antt =====
-- Facts about small ranges of numbers, checked by evaluating a test value every value.
use Prim.Native.Nat.{ℕ, zero, suc, ◌<◌}
use mathlib.Core.Path.{◌≡◌}
use mathlib.Core.Bool.{Bool, true, ◌&&◌}
use native.Mathlib.Omega.{arith}

unfoldable pub all_below : ℕ → (ℕ → Bool) → Bool
all_below zero test = true
all_below (suc last) test = test last && all_below last test

-- A test that passes on the whole range passes at each value of it.
pub all_below_sound :
    (bound : ℕ) (test : ℕ → Bool) (value : ℕ)
    → all_below bound test ≡ true
    → value < bound
    → test value ≡ true
unfolding all_below
all_below_sound zero test value passes below = absurd (omega arith)
all_below_sound (suc last) test value passes below = ground (arith, all_below_sound last test value)
