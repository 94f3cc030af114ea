-- ===== src/Mutate/Words.antt =====
-- `ApplyDictionaryEntry` of FuzzerMutate.cpp: a word is put into the input, or written over it.
pub mod Laws
use pfuzzer.Base.{
  ℕ, zero, suc, ◌+◌, ◌%◌, ◌^◌, ltb, ◌&&◌, Bool, true, false, if◌then◌else◌, List, length,
}
use pfuzzer.Base.Comp.{Comp, pure, lift, minus, ◌>>=◌}
use pfuzzer.Base.Memory.{copy_bytes}
use pfuzzer.Random.{rand, rand_bool}
use pfuzzer.Dictionary.{Entry, has_position_hint, get_position_hint}
use pfuzzer.Mutate.Edit.{Edit}

-- `UsePositionHint`; the coin is tossed only where the hint fits.
unfoldable pub use_position_hint : Entry → ℕ → Comp ℕ Bool
unfolding has_position_hint rand_bool
use_position_hint entry size =
    if has_position_hint entry && ltb ((entry.position_hint + length entry.word) % 2 ^ 64) size
    then rand_bool
    else pure false

unfoldable pub choose_index : Entry → Bool → ℕ → Comp ℕ ℕ
unfolding get_position_hint rand
choose_index entry hinted bound = if hinted then lift (get_position_hint entry) else rand bound

unfoldable pub insert_word : List ℕ → ℕ → ℕ → Entry → Bool → Comp ℕ Edit
unfolding choose_index copy_bytes
insert_word mem size max_size entry hinted =
    let n = length entry.word in
    if ltb max_size ((size + n) % 2 ^ 64) then pure (mem, 0) else do
      idx ← choose_index entry hinted (size + 1)
      tail ← minus size idx
      gap ← lift (copy_bytes mem (idx + n) mem idx tail)
      out ← lift (copy_bytes gap idx entry.word 0 n)
      pure (out, size + n)

unfoldable pub overwrite_word : List ℕ → ℕ → Entry → Bool → Comp ℕ Edit
unfolding choose_index copy_bytes
overwrite_word mem size entry hinted =
    let n = length entry.word in
    if ltb size n then pure (mem, 0) else do
      slack ← minus (size + 1) n
      idx ← choose_index entry hinted slack
      out ← lift (copy_bytes mem idx entry.word 0 n)
      pure (out, size)

unfoldable pub apply_dictionary_entry : List ℕ → ℕ → ℕ → Entry → Comp ℕ Edit
unfolding use_position_hint insert_word overwrite_word rand_bool
apply_dictionary_entry mem size max_size entry = do
  hinted ← use_position_hint entry size
  insert ← rand_bool
  if insert
      then insert_word mem size max_size entry hinted
      else overwrite_word mem size entry hinted
