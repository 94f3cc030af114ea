-- ===== src/Mutate/Compares.antt =====
-- `MakeDictionaryEntryFromCMP` of FuzzerMutate.cpp: an entry that may satisfy a comparison that
-- was observed. `SearchMemory` finds the first occurrence.
pub mod Laws
use pfuzzer.Base.{
  ℕ, zero, suc, ◌+◌, ◌-◌, ◌*◌, ◌%◌, ◌^◌, ltb, ◌==◌, Bool, true, false, not, if◌then◌else◌, List, [],
  ◌∷◌, Option, none, some, length, take, drop, get_elem?,
}
use pfuzzer.Base.Comp.{Comp, pure, lift, ◌>>=◌}
use pfuzzer.Base.Bytes.{search_memory}
use pfuzzer.Random.{rand, rand_bool, rand_range}
use pfuzzer.Dictionary.{Word, Entry, word_set, entry_of, entry_at}
use pfuzzer.Mutate.Binary.{to_bytes, bswap}

abbrev pub max_num_positions : ℕ
max_num_positions = 8

-- The inner loop, with as many rounds as there is room for positions. The last argument is `Cur`.
unfoldable pub positions : ℕ → List ℕ → ℕ → List ℕ → ℕ → List ℕ
unfolding search_memory
positions zero mem size existing cur = []
positions (suc rounds) mem size existing cur =
    if ltb cur size
    then elim (search_memory (drop cur (take size mem)) existing) [
      | none ↦ []
      | some k ↦ (cur + k) ∷ positions rounds mem size existing (cur + k + 1)
    ]
    else []

-- One round of the outer loop: `none` where the argument does not occur.
unfoldable pub entry_from_argument : List ℕ → List ℕ → ℕ → List ℕ → ℕ → Comp ℕ (Option Entry)
unfolding positions rand word_set entry_at
entry_from_argument existing desired arg_size mem size = do
  w ← lift (word_set desired arg_size)
  let found = positions max_num_positions mem size (take arg_size existing) 0
  if length found == 0
      then pure none
      else (do k ← rand (length found); p ← lift (get_elem? found k); pure (some (entry_at w p)))

abbrev pub choose : Bool → List ℕ → List ℕ → List ℕ
choose b x y = if b then x else y

-- An entry without a hint, for the argument that was tried last.
unfoldable pub plain_entry : List ℕ → ℕ → Comp ℕ Entry
unfolding word_set entry_of
plain_entry desired arg_size = lift (word_set desired arg_size) >>= λ w. pure (entry_of w)

-- The version on memory.
unfoldable pub make_entry : List ℕ → List ℕ → List ℕ → List ℕ → ℕ → List ℕ → ℕ → Comp ℕ Entry
unfolding rand_bool entry_from_argument plain_entry
make_entry arg1 arg2 mutation1 mutation2 arg_size mem size = do
  first ← rand_bool
  one ←
      entry_from_argument (choose first arg1 arg2) (choose first mutation2 mutation1) arg_size mem
        size
  elim one [
    | some entry ↦ pure entry
    | none ↦ (do
      two ←
          entry_from_argument (choose first arg2 arg1) (choose first mutation1 mutation2) arg_size
            mem size
      elim two [
        | some entry ↦ pure entry
        | none ↦ plain_entry (choose first mutation1 mutation2) arg_size
      ])
  ]

unfoldable pub swap_or_keep : ℕ → ℕ → Comp ℕ ℕ
unfolding rand_bool bswap
swap_or_keep width arg = rand_bool >>= λ swap. pure (if swap then bswap width arg else arg)

-- The version on integers of `width` bytes.
unfoldable pub make_entry_from_integers : ℕ → ℕ → ℕ → List ℕ → ℕ → Comp ℕ Entry
unfolding swap_or_keep rand_range make_entry to_bytes
make_entry_from_integers width a b mem size = do
  arg1 ← swap_or_keep width a
  arg2 ← swap_or_keep width b
  d1 ← rand_range (2 ^ 64 - 1) 1
  d2 ← rand_range (2 ^ 64 - 1) 1
  make_entry (to_bytes width arg1) (to_bytes width arg2)
      (to_bytes width ((arg1 + d1) % 256 ^ width)) (to_bytes width ((arg2 + d2) % 256 ^ width))
      width mem size

-- The version on words.
unfoldable pub make_entry_from_words : Word → Word → List ℕ → ℕ → Comp ℕ Entry
unfolding make_entry
make_entry_from_words a b mem size = make_entry a b a b (length a) mem size
