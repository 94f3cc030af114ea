-- ===== src/Mutate/Bytes.antt =====
-- The mutators of FuzzerMutate.cpp that erase, insert and change bytes.
pub mod Erase
pub mod Insert
pub mod Change
use pfuzzer.Base.{
  ℕ, zero, suc, ◌+◌, ◌-◌, ◌/◌, ◌^◌, ◌%◌, min, ltb, leb, ◌==◌, bit_xor, Bool, if◌then◌else◌, true,
  false, List, [], ◌∷◌, get_elem?, length,
}
use pfuzzer.Base.Comp.{Comp, pure, lift, assert, minus, ◌>>=◌, ◌>>◌}
use pfuzzer.Base.Memory.{copy_bytes, store, fill}
use pfuzzer.Random.{rand, rand_bool}
use pfuzzer.Mutate.Edit.{Edit}

-- `!*'();:@&=+$,/?%#[]012Az-`~.\xff\x00`.
abbrev pub special : List ℕ
special =
    b'!' ∷ b'*' ∷ 39 ∷ b'(' ∷ b')' ∷ b';' ∷ b':' ∷ b'@' ∷ b'&' ∷ b'=' ∷ b'+' ∷ b'$' ∷ b',' ∷ b'/'
    ∷ b'?' ∷ b'%' ∷ b'#' ∷ b'[' ∷ b']' ∷ b'0' ∷ b'1' ∷ b'2' ∷ b'A' ∷ b'z' ∷ b'-' ∷ b'`' ∷ b'~'
    ∷ b'.' ∷ 0xff ∷ 0x00 ∷ []

unfoldable pub rand_ch : Comp ℕ ℕ
unfolding rand rand_bool
rand_ch = do
  any ← rand_bool
  if any then rand 256 else (rand (length special) >>= λ i. lift (get_elem? special i))

unfoldable pub erase_bytes : List ℕ → ℕ → ℕ → Comp ℕ Edit
unfolding rand copy_bytes
erase_bytes mem size max_size = if leb size 1 then pure (mem, 0) else do
  r ← rand (size / 2)
  let n = r + 1
  assert (ltb n size)
  kept ← minus size n
  idx ← rand (kept + 1)
  moved ← minus kept idx
  out ← lift (copy_bytes mem idx mem (idx + n) moved)
  pure (out, kept)

unfoldable pub insert_byte : List ℕ → ℕ → ℕ → Comp ℕ Edit
unfolding rand copy_bytes store rand_ch
insert_byte mem size max_size = if leb max_size size then pure (mem, 0) else do
  idx ← rand (size + 1)
  moved ← minus size idx
  gap ← lift (copy_bytes mem (idx + 1) mem idx moved)
  ch ← rand_ch
  out ← lift (store gap idx ch)
  pure (out, size + 1)

abbrev pub min_bytes_to_insert : ℕ
min_bytes_to_insert = 3

-- 0x00 or 0xff, or any byte.
unfoldable pub repeated_byte : Comp ℕ ℕ
unfolding rand rand_bool
repeated_byte = do
  any ← rand_bool
  if any then rand 256 else (rand_bool >>= λ low. pure (if low then 0 else 255))

unfoldable pub insert_repeated_bytes : List ℕ → ℕ → ℕ → Comp ℕ Edit
unfolding rand copy_bytes fill repeated_byte
insert_repeated_bytes mem size max_size =
    if leb max_size ((size + min_bytes_to_insert) % 2 ^ 64) then pure (mem, 0) else do
      space ← minus max_size size
      let max_bytes_to_insert = min space 128
      extra ← minus max_bytes_to_insert min_bytes_to_insert
      r ← rand (extra + 1)
      let n = r + min_bytes_to_insert
      assert (leb (size + n) max_size)
      idx ← rand (size + 1)
      moved ← minus size idx
      gap ← lift (copy_bytes mem (idx + n) mem idx moved)
      byte ← repeated_byte
      out ← lift (fill gap idx n byte)
      pure (out, size + n)

unfoldable pub change_byte : List ℕ → ℕ → ℕ → Comp ℕ Edit
unfolding rand store rand_ch
change_byte mem size max_size =
    if ltb max_size size
    then pure (mem, 0)
    else do idx ← rand size; ch ← rand_ch; out ← lift (store mem idx ch); pure (out, size)

unfoldable pub change_bit : List ℕ → ℕ → ℕ → Comp ℕ Edit
unfolding rand store
change_bit mem size max_size = if ltb max_size size then pure (mem, 0) else do
  idx ← rand size
  old ← lift (get_elem? mem idx)
  k ← rand 8
  out ← lift (store mem idx (bit_xor old (2 ^ k)))
  pure (out, size)
