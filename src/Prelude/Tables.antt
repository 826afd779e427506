-- ===== src/Prelude/Tables.antt =====
-- A test of every number under a bound, run once, and what it says of a number under it.
use Prim.Native.Nat.{ℕ, zero, suc, ◌<◌}
use mathlib.Core.Path.{◌≡◌}
use mathlib.Core.Bool.{Bool, true, ◌&&◌}
use native.Mathlib.Omega.{arith}

unfoldable pub passes : (ℕ → Bool) → ℕ → Bool
passes test zero = true
passes test (suc bound) = let below = passes test bound in below && test bound

pub passes-at :
    (test : ℕ → Bool) (bound : ℕ) → passes test bound ≡ true → (k : ℕ) → k < bound → test k ≡ true
unfolding passes
passes-at test zero run k k_lt = absurd (omega arith)
passes-at test (suc bound) run k k_lt = ground (arith, passes-at test bound _ k)
