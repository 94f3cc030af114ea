-- ===== src/Base/Below.antt =====
-- Statements about the numbers below a bound that evaluation decides.
use Prim.Native.Nat.{ℕ, zero, suc, ◌<◌}
use mathlib.Core.Path.{◌≡◌, ap, ◌∙◌}
use native.Mathlib.Decide.{ℕ_discrete}
use pfuzzer.Base.Tests.{and-true}
use mathlib.Core.Bool.{Bool, true, ◌&&◌}
use native.Mathlib.Omega.{arith}

unfoldable pub checked : (ℕ → Bool) → ℕ → Bool
checked test zero = true
checked test (suc bound) = checked test bound && test bound

pub checked_lem :
    (test : ℕ → Bool) (bound : ℕ)
    → checked test bound ≡ true
    → (value : ℕ) → value < bound
    → test value ≡ true
unfolding checked
checked_lem test (suc bound) done value small =
    let (before, last) = and-true (checked test bound) (test bound) done in
    elim (ℕ_discrete value bound) [
      | yes same ↦ ap test same ∙ last
      | no other ↦ checked_lem test bound before value (omega arith)
    ]
checked_lem test zero done value small = absurd (omega (arith, small))
