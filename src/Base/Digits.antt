-- ===== src/Base/Digits.antt =====
-- The lowest digit of a number in any base, and the remainders of what is left.
use native.Mathlib.Nat.{div-add-mod, add-mul-mod_self_left, mod-eq_of_lt, mod-lt}
use Prim.Native.Nat.{ℕ, ◌+◌, ◌*◌, ◌/◌, ◌%◌, ◌<◌}
use mathlib.Core.Path.{◌≡◌, ap}
use native.Mathlib.Omega.{arith}

pub mod-base : (v k m : ℕ) → 0 < k → 0 < m → (v / k) % m * k + v % k ≡ v % (k * m)
mod-base v k m hk hm = omega (
  arith,
  add-mul-mod_self_left ((v / k) % m * k + v % k) (k * m) (v / k / m),
  mod-eq_of_lt {n = (v / k) % m * k + v % k} {m = k * m} small,
  ap (λ (t : ℕ). t % (k * m)) whole,
)
  where
    whole : v ≡ (v / k) % m * k + v % k + k * m * (v / k / m)
    whole = omega (arith, div-add-mod v k, ap (λ (t : ℕ). k * t) (div-add-mod (v / k) m))

    small : (v / k) % m * k + v % k < k * m
    small = grind (arith, mod-lt (v / k) {m = m} hm, mod-lt v {m = k} hk)
