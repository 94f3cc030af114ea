-- ===== src/Mutate/Cross.antt =====
-- `Mutate_CrossOver` of FuzzerMutate.cpp. The other input is `CrossOverWith`, `none` for a null
-- pointer. What `MutateInPlaceHere` held before does not matter: it is written before it is read.
pub mod Laws
use pfuzzer.Base.{
  false, ℕ, zero, ltb, leb, ◌==◌, ◌||◌, if◌then◌else◌, List, [], ◌∷◌, length, replicate, Option,
  none, some,
}
use pfuzzer.Base.Comp.{Comp, pure, lift, assert, ◌>>=◌, ◌>>◌}
use pfuzzer.Base.Memory.{copy_bytes}
use pfuzzer.Random.{rand}
use pfuzzer.CrossOver.{cross_over}
use pfuzzer.Mutate.Edit.{Edit}
use pfuzzer.Mutate.Parts.{copy_part_of, insert_part_of}

-- `case 0`.
unfoldable pub cross_in_place : List ℕ → ℕ → ℕ → List ℕ → Comp ℕ Edit
unfolding cross_over copy_bytes
cross_in_place mem size max_size other = do
  crossed ← cross_over mem size other (length other) (replicate max_size 0) max_size
  out ← lift (copy_bytes mem 0 crossed.0 0 crossed.1)
  pure (out, crossed.1)

-- `case 1`.
unfoldable pub insert_or_copy : List ℕ → ℕ → ℕ → List ℕ → Comp ℕ Edit
unfolding insert_part_of copy_part_of
insert_or_copy mem size max_size other = do
  r ← insert_part_of false other (length other) mem size max_size
  if r.1 == 0 then copy_part_of other (length other) r.0 size else pure r

unfoldable pub mutate_with : List ℕ → ℕ → ℕ → List ℕ → Comp ℕ Edit
unfolding rand cross_in_place insert_or_copy
mutate_with mem size max_size other = do
  k ← rand 3
  r ←
      if k == 0
      then cross_in_place mem size max_size other
      else if k == 1
      then insert_or_copy mem size max_size other
      else copy_part_of other (length other) mem size
  assert (ltb 0 r.1)
  assert (leb r.1 max_size)
  pure r

unfoldable pub cross_over_mutator : List ℕ → ℕ → ℕ → Option (List ℕ) → Comp ℕ Edit
unfolding mutate_with
cross_over_mutator mem size max_size none = pure (mem, 0)
cross_over_mutator mem size max_size (some []) = pure (mem, 0)
cross_over_mutator mem size max_size (some (b ∷ bs)) =
    if ltb max_size size || size == 0 then pure (mem, 0) else mutate_with mem size max_size (b ∷ bs)
