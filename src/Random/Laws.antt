-- ===== src/Random/Laws.antt =====
-- Bounds on what the generator of FuzzerRandom.h returns.
use pfuzzer.Base.{
  ℕ, zero, suc, ◌+◌, ◌-◌, ◌*◌, ◌%◌, ◌^◌, ◌≤◌, ◌<◌, ◌≡◌, refl, arith, ◌⊎◌, ◌==◌, tests, ◌≢◌,
}
use native.Mathlib.Decide.{dec_lt}
use pfuzzer.Base.Comp.{
  Ensures, returns, pure, ◌>>=◌, ◌>>◌, pure-Ensures, bind-Ensures, assert, if-Ensures,
}
use pfuzzer.Random.{draw, rand, rand_bool, rand_range, isqrt, skew_towards_last}

pub draw-Ensures : (s : ℕ) → Ensures draw s (λ r t. r < 2147483647)
unfolding draw
draw-Ensures s = returns _ _ refl (omega arith)

pub rand_bool-Ensures : (s : ℕ) → Ensures rand_bool s (λ r t. Unit {0})
unfolding rand_bool pure ◌>>=◌
rand_bool-Ensures s = returns _ _ refl tt

-- Below the bound, and below the generator's modulus.
pub rand-Ensures : (n s : ℕ) → Ensures (rand n) s (λ r t. (r ≤ n - 1) × (r < 2147483647))
unfolding rand
rand-Ensures n s =
    if-Ensures (n == 0) (λ e. pure-Ensures 0 (omega arith))
      λ e. bind-Ensures (draw-Ensures s) λ t u b. pure-Ensures _ (omega tests)

-- A draw between -1 and 1, as a 64-bit pattern.
pub rand_range_unit :
    (s : ℕ) → Ensures (rand_range (2 ^ 64 - 1) 1) s (λ r t. (r ≡ 2 ^ 64 - 1) ⊎ (r ≤ 1))
unfolding rand_range rand pure ◌>>=◌ ◌>>◌ assert
rand_range_unit s = returns _ _ refl (omega arith)

isqrt-square : (n : ℕ) → (isqrt n * isqrt n ≤ n) × (n < (isqrt n + 1) * (isqrt n + 1))
unfolding isqrt
isqrt-square zero = (omega arith, omega arith)
isqrt-square (suc n) = ground (arith, isqrt-square n)

isqrt-lt : (t n : ℕ) → t < n * n → isqrt t < n
isqrt-lt t n h = grind (arith, isqrt-square t)

isqrt-le : (t : ℕ) → isqrt t ≤ t
unfolding isqrt
isqrt-le zero = omega arith
isqrt-le (suc t) = ground (arith, isqrt-le t)

skew_lt : (n t : ℕ) → n ≢ 0 → t ≤ (n * n) % 2 ^ 64 - 1 → t < 2147483647 → isqrt t < n
skew_lt n t h b m = elim (dec_lt n (2 ^ 31)) [
  | yes small ↦ isqrt-lt t n (omega (arith, product_small n small, product_pos n h))
  | no large ↦ omega (arith, isqrt-le t)
]
  where
    product_small : (k : ℕ) → k < 2 ^ 31 → k * k < 2 ^ 62
    product_small k p = grind arith

    product_pos : (k : ℕ) → k ≢ 0 → 0 < k * k
    product_pos k p = grind arith

-- `SkewTowardsLast` returns a number below its argument, if this is not 0.
pub skew_towards_last-lt : (n s : ℕ) → n ≢ 0 → Ensures (skew_towards_last n) s (λ r t. r < n)
unfolding skew_towards_last
skew_towards_last-lt n s h =
    bind-Ensures (rand-Ensures _ s) λ t u b. pure-Ensures _ (skew_lt n t h b.0 b.1)
