-- ===== src/Mutate/Shuffle.antt =====
-- `Mutate_ShuffleBytes` of FuzzerMutate.cpp. The standard leaves the draws of `std::shuffle` open;
-- here element after element is swapped into the part that is shuffled already.
pub mod Laws
use pfuzzer.Base.{
  ℕ, zero, suc, ◌+◌, ◌≤◌, min, ltb, leb, ◌==◌, ◌||◌, if◌then◌else◌, List, [], ◌∷◌, ◌++◌, length,
  take, drop,
}
use pfuzzer.Base.Comp.{Comp, pure, lift, assert, minus, ◌>>=◌, ◌>>◌}
use pfuzzer.Base.Memory.{copy_bytes}
use pfuzzer.Random.{rand}
use pfuzzer.Mutate.Edit.{Edit}

-- `x`, standing behind the list, changes places with element `i` (with itself past the end).
pub swap_in : List ℕ → ℕ → ℕ → List ℕ
swap_in [] i x = x ∷ []
swap_in (y ∷ ys) zero x = x ∷ (ys ++ (y ∷ []))
swap_in (y ∷ ys) (suc i) x = y ∷ swap_in ys i x

pub shuffle_into : List ℕ → List ℕ → Comp ℕ (List ℕ)
shuffle_into done [] = pure done
shuffle_into done (x ∷ rest) = rand (length done + 1) >>= λ i. shuffle_into (swap_in done i x) rest

-- `std::shuffle(first, last, Rand)` on the elements between.
unfoldable pub shuffle : List ℕ → Comp ℕ (List ℕ)
unfolding shuffle_into swap_in rand
shuffle xs = shuffle_into [] xs

unfoldable pub shuffle_bytes : List ℕ → ℕ → ℕ → Comp ℕ Edit
unfolding rand shuffle copy_bytes
shuffle_bytes mem size max_size = if ltb max_size size || size == 0 then pure (mem, 0) else do
  r ← rand (min size 8)
  let amount = r + 1
  slack ← minus size amount
  start ← rand slack
  assert (leb (start + amount) size)
  shuffled ← shuffle (take amount (drop start mem))
  out ← lift (copy_bytes mem start shuffled 0 (length shuffled))
  pure (out, size)
