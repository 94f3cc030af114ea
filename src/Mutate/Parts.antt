-- ===== src/Mutate/Parts.antt =====
-- The mutators of FuzzerMutate.cpp that copy parts of one input into another. The array that is
-- read is an argument; where it is the array that is written (`To == From`), `same` says so.
pub mod Laws
use pfuzzer.Base.{
  ℕ, zero, suc, ◌+◌, ◌≤◌, min, ltb, leb, ◌==◌, ◌||◌, Bool, true, false, if◌then◌else◌, List, [],
  replicate,
}
use pfuzzer.Base.Comp.{Comp, pure, lift, assert, minus, ◌>>=◌, ◌>>◌}
use pfuzzer.Base.Memory.{copy_bytes}
use pfuzzer.Random.{rand, rand_bool}
use pfuzzer.Mutate.Edit.{Edit}

-- `CopyPartOf`: the array `to` afterwards, and `to_size`.
unfoldable pub copy_part_of : List ℕ → ℕ → List ℕ → ℕ → Comp ℕ Edit
unfolding rand copy_bytes
copy_part_of from from_size to to_size = do
  to_beg ← rand to_size
  space ← minus to_size to_beg
  r ← rand space
  let copy_size' = r + 1
  assert (leb (to_beg + copy_size') to_size)
  let copy_size = min copy_size' from_size
  slack ← minus from_size copy_size
  from_beg ← rand (slack + 1)
  assert (leb (from_beg + copy_size) from_size)
  out ← lift (copy_bytes to to_beg from from_beg copy_size)
  pure (out, to_size)

-- The end of `InsertPartOf`. Where the arrays are one, the part is saved in `MutateInPlaceHere`
-- before the gap is opened.
unfoldable pub move_part : Bool → List ℕ → ℕ → List ℕ → ℕ → ℕ → ℕ → ℕ → Comp ℕ (List ℕ)
unfolding copy_bytes
move_part same from from_beg to to_insert_pos copy_size tail_size max_to_size =
    let open_gap = lift (copy_bytes to (to_insert_pos + copy_size) to to_insert_pos tail_size) in
    if same
    then (do
      saved ← lift (copy_bytes (replicate max_to_size 0) 0 from from_beg copy_size)
      gap ← open_gap
      lift (copy_bytes gap to_insert_pos saved 0 copy_size))
    else (open_gap >>= λ gap. lift (copy_bytes gap to_insert_pos from from_beg copy_size))

-- `InsertPartOf`.
unfoldable pub insert_part_of : Bool → List ℕ → ℕ → List ℕ → ℕ → ℕ → Comp ℕ Edit
unfolding rand move_part
insert_part_of same from from_size to to_size max_to_size =
    if leb max_to_size to_size then pure (to, 0) else do
      available_space ← minus max_to_size to_size
      let max_copy_size = min available_space from_size
      r ← rand max_copy_size
      let copy_size = r + 1
      slack ← minus from_size copy_size
      from_beg ← rand (slack + 1)
      assert (leb (from_beg + copy_size) from_size)
      to_insert_pos ← rand (to_size + 1)
      assert (leb (to_insert_pos + copy_size) max_to_size)
      tail_size ← minus to_size to_insert_pos
      out ← move_part same from from_beg to to_insert_pos copy_size tail_size max_to_size
      pure (out, to_size + copy_size)

unfoldable pub copy_part : List ℕ → ℕ → ℕ → Comp ℕ Edit
unfolding rand_bool copy_part_of insert_part_of
copy_part mem size max_size =
    if ltb max_size size || size == 0
    then pure (mem, 0)
    else if size == max_size
    then copy_part_of mem size mem size
    else (rand_bool >>= λ copy.
        if copy
        then copy_part_of mem size mem size
        else insert_part_of true mem size mem size max_size)
