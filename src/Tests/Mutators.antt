-- ===== src/Tests/Mutators.antt =====
-- The mutators of FuzzerMutate.cpp and the crossover on small inputs.
use pfuzzer.Base.{
  ℕ, ◌+◌, ◌^◌, ◌%◌, ◌≤◌, ◌<◌, ◌≡◌, subst, ◌⊎◌, inr, List, [], ◌∷◌, Option, none, some, take,
  replicate, All, arith,
}
use mathlib.Core.List.{Perm}
use pfuzzer.Base.Comp.{Ensures}
use pfuzzer.Base.Memory.{IsByte}
use pfuzzer.Dictionary.{Entry}
use pfuzzer.Dictionary.Laws.{IsEntry}
use pfuzzer.CrossOver.{cross_over}
use pfuzzer.CrossOver.Laws.{IsCrossOver, cross_over-Ensures}
use pfuzzer.Mutate.Edit.{IsEdited, IsInput, result}
use pfuzzer.Mutate.Frame.{Failed, Inserted}
use pfuzzer.Mutate.Bytes.{erase_bytes, insert_repeated_bytes, change_byte, min_bytes_to_insert}
use pfuzzer.Mutate.Bytes.Erase.{Erased, erase_bytes-Ensures}
use pfuzzer.Mutate.Bytes.Insert.{insert_repeated_bytes-Ensures}
use pfuzzer.Mutate.Bytes.Change.{ChangedTo, change_byte-Ensures}
use pfuzzer.Mutate.Shuffle.{shuffle_bytes}
use pfuzzer.Mutate.Shuffle.Laws.{shuffle_bytes-Ensures}
use pfuzzer.Mutate.Parts.{copy_part}
use pfuzzer.Mutate.Parts.Laws.{CopiedOver, PutIn, copy_part-Ensures}
use pfuzzer.Mutate.Cross.{cross_over_mutator}
use pfuzzer.Mutate.Cross.Laws.{Combined, cross_over_mutator-Ensures}
use pfuzzer.Mutate.Ascii.{change_ascii_integer}
use pfuzzer.Mutate.Ascii.Laws.{
  IsChangedInteger, decimal, value_from, value-decimal, change_ascii_integer-Ensures,
}
use pfuzzer.Mutate.Binary.{change_binary_integer}
use pfuzzer.Mutate.Binary.Laws.{IsWidth, IsNewInteger, change_binary_integer-Ensures}
use pfuzzer.Mutate.Words.{apply_dictionary_entry}
use pfuzzer.Mutate.Words.Laws.{WrittenOver, apply_dictionary_entry-Ensures}
use pfuzzer.Mutate.Compares.{make_entry}
use pfuzzer.Mutate.Compares.Laws.{IsMatch, make_entry-Ensures}

-- `a12b`, with room for four more bytes.
abbrev memory : List ℕ
memory = 97 ∷ 49 ∷ 50 ∷ 98 ∷ 0 ∷ 0 ∷ 0 ∷ 0 ∷ []

abbrev size : ℕ
size = 4

abbrev other : List ℕ
other = 120 ∷ 121 ∷ 122 ∷ []

abbrev entry : Entry
entry = record { word = 49 ∷ 50 ∷ []; position_hint = 1; use_count = 0; success_count = 0 }

memory-IsByte : All IsByte memory
memory-IsByte = omega arith

other-IsByte : All IsByte other
other-IsByte = omega arith

memory-IsInput : IsInput memory 4 8
memory-IsInput = record { sized = omega arith; room = omega arith; bytes = memory-IsByte }

entry-IsEntry : IsEntry entry
entry-IsEntry = record { fits = omega arith; bytes = omega arith; hint = inr (omega arith) }

erase_bytes_example :
    Ensures
      (erase_bytes memory 4 8)
      1
      (λ r t. IsEdited memory 8 r × ((4 ≤ 1) × Failed memory r ⊎ Erased (take 4 memory) r))
erase_bytes_example = erase_bytes-Ensures memory 4 8 1 memory-IsInput

insert_repeated_bytes_example : Ensures (insert_repeated_bytes memory 4 8) 1 (λ r t.
    IsEdited memory 8 r
    × ((8 ≤ 4 + min_bytes_to_insert) × Failed memory r
        ⊎ ((n c : ℕ) × (3 ≤ n)
            × (n ≤ 128)
            × IsByte c
            × Inserted (take 4 memory) (replicate n c) r)))
insert_repeated_bytes_example =
    insert_repeated_bytes-Ensures memory 4 8 1 memory-IsInput (omega arith)

change_byte_example : Ensures (change_byte memory 4 8) 1 (λ r t.
    IsEdited memory 8 r
    × ((size ≡ 0) × (r.1 ≡ 0) ⊎ ((idx c : ℕ) × IsByte c × ChangedTo (take 4 memory) idx c r)))
change_byte_example = change_byte-Ensures memory 4 8 1 memory-IsInput (omega arith)

shuffle_bytes_example : Ensures (shuffle_bytes memory 4 8) 1 (λ r t.
    IsEdited memory 8 r
    × ((size ≡ 0) × Failed memory r ⊎ ((r.1 ≡ 4) × Perm (result r) (take 4 memory))))
shuffle_bytes_example = shuffle_bytes-Ensures memory 4 8 1 memory-IsInput

copy_part_example : Ensures (copy_part memory 4 8) 1 (λ r t.
    IsEdited memory 8 r
    × (Failed memory r ⊎ CopiedOver memory 4 (take 4 memory) r ⊎ PutIn memory 4 (take 4 memory) r))
copy_part_example = copy_part-Ensures memory 4 8 1 memory-IsInput

cross_over_example :
    Ensures
      (cross_over memory 4 other 3 (replicate 8 0) 8)
      1
      (λ r t. IsCrossOver memory 4 other 3 (replicate 8 0) 8 r.0 r.1)
cross_over_example =
    cross_over-Ensures memory 4 other 3 (replicate 8 0) 8 1
      (record { room = omega arith; bytes = memory-IsByte })
      (record { room = omega arith; bytes = other-IsByte })
      (record { room = omega arith; bytes = omega arith }) (omega arith) (omega arith)

cross_over_mutator_example : Ensures (cross_over_mutator memory 4 8 (some other)) 1 (λ r t.
    IsEdited memory 8 r
    × (Failed memory r
        ⊎ ((o : List ℕ) × (some other ≡ some o) × (0 < r.1) × Combined memory 4 8 o r)))
cross_over_mutator_example =
    cross_over_mutator-Ensures memory 4 8 (some other) 1 memory-IsInput other_bytes
  where
    other_bytes : (o : List ℕ) → some other ≡ some o → All IsByte o
    other_bytes o e =
        subst (λ (x : Option (List ℕ)). elim x [ none ↦ Unit {0} | some l ↦ All IsByte l ]) e
          other-IsByte

change_ascii_integer_example :
    Ensures
      (change_ascii_integer memory 4 8)
      1
      (λ r t. IsEdited memory 8 r × (Failed memory r ⊎ IsChangedInteger memory 4 r))
change_ascii_integer_example = change_ascii_integer-Ensures memory 4 8 1 memory-IsInput

value-decimal_example : value_from 0 (decimal 3 1234) ≡ 1234 % 10 ^ 3
value-decimal_example = value-decimal 3 1234

change_binary_integer_example : Ensures (change_binary_integer memory 4 8) 1 (λ r t.
    IsEdited memory 8 r
    × ((Failed memory r × (4 < 8)) ⊎ ((width : ℕ) × IsWidth width × IsNewInteger width memory 4 r)))
change_binary_integer_example = change_binary_integer-Ensures memory 4 8 1 memory-IsInput

apply_dictionary_entry_example : Ensures (apply_dictionary_entry memory 4 8 entry) 1 (λ r t.
    IsEdited memory 8 r
    × (Failed memory r
        ⊎ Inserted (take 4 memory) entry.word r
        ⊎ WrittenOver entry.word (take 4 memory) r))
apply_dictionary_entry_example =
    apply_dictionary_entry-Ensures memory-IsInput (omega arith) entry entry-IsEntry 1

-- `12` stands in the input, and is compared with `xy`.
make_entry_example :
    Ensures
      (make_entry (49 ∷ 50 ∷ []) (120 ∷ 121 ∷ []) (49 ∷ 50 ∷ []) (120 ∷ 121 ∷ []) 2 memory 4)
      1
      (λ e t.
        IsEntry e
        × IsMatch
            (49 ∷ 50 ∷ [])
            (120 ∷ 121 ∷ [])
            (49 ∷ 50 ∷ [])
            (120 ∷ 121 ∷ [])
            2
            (take 4 memory)
            e)
make_entry_example =
    make_entry-Ensures (omega arith) memory 4 (omega arith) (omega arith) (49 ∷ 50 ∷ [])
      (120 ∷ 121 ∷ []) (49 ∷ 50 ∷ []) (120 ∷ 121 ∷ []) 1 (omega arith) (omega arith)
