-- ===== src/Mutate/Edit.antt =====
-- What a mutator of FuzzerMutate.cpp works on: the bytes of the array that `Data` points to, of
-- which the first `Size` are the input and the first `MaxSize` may be written. Sizes and offsets
-- into an array are plain numbers, since no array reaches 2^63 bytes.
use pfuzzer.Base.{ℕ, ◌≤◌, ◌≡◌, List, length, All, take}
use pfuzzer.Base.Memory.{IsByte}

-- The array afterwards, and the size that the mutator returns (0: it failed).
abbrev pub Edit : Type 0
Edit = List ℕ × ℕ

-- The array has the length it had and holds bytes, and the new input fits into `max_size` bytes.
pub record IsEdited (mem : List ℕ) (max_size : ℕ) (r : Edit) : Type 0 where
  pub same_length : length r.0 ≡ length mem
  pub fits : r.1 ≤ max_size
  pub bytes : All IsByte r.0

-- What a mutator's caller provides.
pub record IsInput (mem : List ℕ) (size max_size : ℕ) : Type 0 where
  pub sized : size ≤ max_size
  pub room : max_size ≤ length mem
  pub bytes : All IsByte mem

-- The input that the edit leaves.
abbrev pub result : Edit → List ℕ
result r = take r.1 r.0
