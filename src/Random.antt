-- ===== src/Random.antt =====
-- FuzzerRandom.h: the generator is `std::minstd_rand`, whose state is the last number drawn.
-- `Laws` bounds what it returns.
pub mod Laws
use pfuzzer.Base.{
  ℕ, zero, suc, ◌+◌, ◌-◌, ◌*◌, ◌%◌, ◌^◌, ◌==◌, ltb, leb, Bool, if◌then◌else◌, some, not,
}
use pfuzzer.Base.Comp.{Comp, pure, assert, ◌>>=◌, ◌>>◌}

-- `minstd_rand`: multiplier 48271, modulus 2^31 - 1. Also `Rand<T>()` at types that hold the value.
unfoldable pub draw : Comp ℕ ℕ
draw s = let t = (s * 48271) % 2147483647 in some (t, t)

unfoldable pub rand_bool : Comp ℕ Bool
unfolding draw
rand_bool = draw >>= λ t. pure (not (t % 2 == 0))

-- `operator()(n)`: for `n == 0` nothing is drawn.
unfoldable pub rand : ℕ → Comp ℕ ℕ
unfolding draw
rand n = if n == 0 then pure 0 else (draw >>= λ t. pure (t % n))

-- `operator()(From, To)`, on the 64-bit patterns of the two ends.
unfoldable pub rand_range : ℕ → ℕ → Comp ℕ ℕ
unfolding rand
rand_range from to = do
  assert (ltb ((from + 2 ^ 63) % 2 ^ 64) ((to + 2 ^ 63) % 2 ^ 64))
  r ← rand ((to + 2 ^ 64 - from + 1) % 2 ^ 64)
  pure ((r + from) % 2 ^ 64)

-- The floor of the square root: what `sqrt` rounded down gives below 2^52.
unfoldable pub isqrt : ℕ → ℕ
isqrt zero = 0
isqrt (suc n) = let r = isqrt n in if leb ((r + 1) * (r + 1)) (suc n) then r + 1 else r

unfoldable pub skew_towards_last : ℕ → Comp ℕ ℕ
unfolding rand isqrt
skew_towards_last n = rand ((n * n) % 2 ^ 64) >>= λ t. pure (isqrt t)
