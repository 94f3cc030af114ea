-- ===== src/Mutate/Binary.antt =====
-- `ChangeBinaryInteger<T>` and `Mutate_ChangeBinaryInteger` of FuzzerMutate.cpp, on a machine that
-- stores the low byte first. `width` is `sizeof(T)`.
pub mod Laws
use pfuzzer.Base.{
  ℕ, zero, suc, ◌+◌, ◌-◌, ◌*◌, ◌/◌, ◌%◌, ◌^◌, ltb, ◌==◌, leb, Bool, true, if◌then◌else◌, List, [],
  ◌∷◌, take, drop,
}
use mathlib.Core.List.{reverse}
use pfuzzer.Base.Comp.{Comp, pure, lift, assert, minus, ◌>>=◌, ◌>>◌}
use pfuzzer.Base.Memory.{copy_bytes}
use pfuzzer.Random.{rand, rand_bool}
use pfuzzer.Mutate.Edit.{Edit}

-- The number that the bytes stand for, low byte first.
unfoldable pub from_bytes : List ℕ → ℕ
from_bytes [] = 0
from_bytes (b ∷ bs) = b + 256 * from_bytes bs

unfoldable pub to_bytes : ℕ → ℕ → List ℕ
to_bytes zero val = []
to_bytes (suc width) val = (val % 256) ∷ to_bytes width (val / 256)

-- `Bswap` of FuzzerBuiltins.h.
unfoldable pub bswap : ℕ → ℕ → ℕ
unfolding from_bytes to_bytes
bswap width val = from_bytes (reverse (to_bytes width val))

unfoldable pub swap_sometimes : ℕ → ℕ → Comp ℕ ℕ
unfolding bswap rand_bool
swap_sometimes width val = rand_bool >>= λ swap. pure (if swap then bswap width val else val)

-- The second branch: add a number between -10 and 10, and sometimes negate.
unfoldable pub adjust : ℕ → ℕ → Comp ℕ ℕ
unfolding bswap rand rand_bool
adjust width old = do
  r ← rand 21
  let modulus = 256 ^ width
  let add = (r % modulus + modulus - 10 % modulus) % modulus
  swap ← rand_bool
  let val = if swap then bswap width ((bswap width old + add) % modulus) else (old + add) % modulus
  negate ← if add == 0 then pure true else rand_bool
  pure (if negate then (modulus - val) % modulus else val)

unfoldable pub change_integer : ℕ → List ℕ → ℕ → Comp ℕ Edit
unfolding rand swap_sometimes adjust from_bytes to_bytes copy_bytes
change_integer width mem size = if ltb size width then pure (mem, 0) else do
  slack ← minus size width
  off ← rand (slack + 1)
  assert (leb (off + width) size)
  k ← if ltb off 64 then rand 4 else pure 1
  val ←
      if k == 0
      then swap_sometimes width (size % 256 ^ width)
      else adjust width (from_bytes (take width (drop off mem)))
  out ← lift (copy_bytes mem off (to_bytes width val) 0 width)
  pure (out, size)

unfoldable pub change_binary_integer : List ℕ → ℕ → ℕ → Comp ℕ Edit
unfolding rand change_integer
change_binary_integer mem size max_size = if ltb max_size size then pure (mem, 0) else do
  k ← rand 4
  if k == 3
      then change_integer 8 mem size
      else if k == 2
      then change_integer 4 mem size
      else if k == 1
      then change_integer 2 mem size
      else change_integer 1 mem size
