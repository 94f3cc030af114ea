-- ===== src/Mutate/Dispatch/Mask.antt =====
-- `MutateWithMask` of FuzzerMutate.cpp: the bytes that the mask marks are mutated by themselves.
pub mod Laws
use pfuzzer.Base.{
  ℕ, zero, suc, ◌+◌, ◌-◌, ltb, leb, min, ◌==◌, not, if◌then◌else◌, List, [], ◌∷◌, ◌++◌, Option,
  none, some, length, get_elem?, take, replicate,
}
use pfuzzer.Base.Comp.{Comp, pure, lift, assert, ◌>>=◌, ◌>>◌}
use pfuzzer.Base.Memory.{store}
use pfuzzer.Mutate.Edit.{Edit}
use pfuzzer.Mutate.State.{Dispatcher}
use pfuzzer.Mutate.Dispatch.{Options, Tables, External, the_state}
use pfuzzer.Mutate.Dispatch.Impl.{mutate}

-- The first loop, along the mask and the bytes: marked bytes go to `t` from index `one_bits` on.
unfoldable pub gather : List ℕ → List ℕ → List ℕ → ℕ → Option (List ℕ × ℕ)
unfolding store
gather [] xs t one_bits = some (t, one_bits)
gather (m ∷ ms) [] t one_bits = none
gather (m ∷ ms) (x ∷ xs) t one_bits =
    let skipped = gather ms xs t one_bits in
    let copied : Option (List ℕ × ℕ) = elim (store t one_bits x) [
      | none ↦ none
      | some t' ↦ gather ms xs t' (one_bits + 1)
    ] in
    if m == 0 then skipped else copied

-- The last loop: the marked bytes are taken from `t`, from index `j` on.
unfoldable pub scatter : List ℕ → List ℕ → List ℕ → ℕ → Option (List ℕ)
scatter [] xs t j = some xs
scatter (m ∷ ms) [] t j = none
scatter (m ∷ ms) (x ∷ xs) t j =
    let skipped : Option (List ℕ) = elim (scatter ms xs t j) [
      | none ↦ none
      | some ys ↦ some (x ∷ ys)
    ] in
    let copied : Option (List ℕ) = elim (get_elem? t j) [
      | none ↦ none
      | some y ↦ elim (scatter ms xs t (j + 1)) [ none ↦ none | some ys ↦ some (y ∷ ys) ]
    ] in
    if m == 0 then skipped else copied

-- `T.resize(Size)` where `T` is shorter.
unfoldable pub resized : List ℕ → ℕ → List ℕ
resized t size = if ltb (length t) size then t ++ replicate (size - length t) 0 else t

unfoldable pub set_mask_temp : List ℕ → Comp Dispatcher (Unit {0})
set_mask_temp t d = some (tt, record d { mask_temp = t })

unfoldable pub mutate_with_mask :
    Options → Tables → External → List ℕ → ℕ → List ℕ → Comp Dispatcher Edit
unfolding the_state resized gather scatter mutate set_mask_temp
mutate_with_mask options tables ext mem size mask = do
  d ← the_state
  let marks = take (min size (length mask)) mask
  g ← lift (gather marks mem (resized d.mask_temp size) 0)
  set_mask_temp g.0
  if g.1 == 0 then pure (mem, 0) else do
    assert (not (length g.0 == 0))
    r ← mutate options tables ext g.0 g.1 g.1
    assert (leb r.1 g.1)
    set_mask_temp r.0
    out ← lift (scatter marks mem r.0 0)
    pure (out, size)
