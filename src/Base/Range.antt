-- ===== src/Base/Range.antt =====
-- Facts about a small range of numbers, checked at every value by evaluation.
use Prim.Native.Nat.{ℕ, zero, suc, ◌<◌}
use mathlib.Core.Path.{◌≡◌}
use mathlib.Core.Bool.{Bool, true, ◌&&◌}
use native.Mathlib.Omega.{arith}

-- The test passes at every number up to the bound, the bound left out.
unfoldable pub passes_below : ℕ → (ℕ → Bool) → Bool
passes_below zero test = true
passes_below (suc bound) test = passes_below bound test && test bound

pub passes_at :
    (bound : ℕ) (test : ℕ → Bool) (i : ℕ)
    → i < bound
    → passes_below bound test ≡ true
    → test i ≡ true
unfolding passes_below
passes_at zero test i inside pass = absurd (omega arith)
passes_at (suc bound) test i inside pass = ground (arith, passes_at bound test i)
