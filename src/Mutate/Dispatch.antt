-- ===== src/Mutate/Dispatch.antt =====
-- How `MutationDispatcher` of FuzzerMutate.cpp chooses and runs mutators. The custom mutator and
-- the custom crossover of a fuzz target are parameters.

pub mod Words
pub mod Dictionaries
pub mod Impl
pub mod Mask
use pfuzzer.Base.{
  ℕ, zero, suc, ◌+◌, ◌-◌, ◌/◌, ◌%◌, ◌^◌, ltb, leb, min, ◌==◌, ◌&&◌, not, Bool, true, false,
  if◌then◌else◌, List, [], ◌∷◌, ◌++◌, Option, none, some, length, get_elem?, set, replicate,
}
use pfuzzer.Base.Comp.{Comp, pure, lift, assert, ◌>>=◌, ◌>>◌}
use pfuzzer.Base.Memory.{copy_bytes, store}
use pfuzzer.Random.{draw, rand, rand_bool}
use pfuzzer.Util.{to_ascii}
use pfuzzer.Trace.Recent.{torc_get, mmt_get}
use pfuzzer.Dictionary.{Word, Entry, Dictionary, entry_of, inc_use_count}
use pfuzzer.Mutate.Edit.{Edit}
use pfuzzer.Mutate.Bytes.{erase_bytes, insert_byte, insert_repeated_bytes, change_byte, change_bit}
use pfuzzer.Mutate.Shuffle.{shuffle_bytes}
use pfuzzer.Mutate.Ascii.{change_ascii_integer}
use pfuzzer.Mutate.Binary.{change_binary_integer}
use pfuzzer.Mutate.Parts.{copy_part}
use pfuzzer.Mutate.Cross.{cross_over_mutator}
use pfuzzer.Mutate.Words.{apply_dictionary_entry}
use pfuzzer.Mutate.Compares.{make_entry_from_integers, make_entry_from_words}
use pfuzzer.Mutate.State.{
  EntryRef, in_manual, in_persistent, in_cmp, Mutator, mutate_erase_bytes, mutate_insert_byte,
  mutate_insert_repeated_bytes, mutate_change_byte, mutate_change_bit, mutate_shuffle_bytes,
  mutate_change_ascii_integer, mutate_change_binary_integer, mutate_copy_part, mutate_cross_over,
  mutate_add_word_from_manual_dictionary, mutate_add_word_from_persistent_auto_dictionary,
  mutate_add_word_from_torc, mutate_custom, mutate_custom_cross_over, Dispatcher, cmp_entries_size,
  on_random, deref, assign,
}

-- The fields of `FuzzingOptions` that mutations read.
pub record Options : Type 0 where
  pub only_ascii : Bool
  pub use_memmem : Bool
  pub use_cmp : Bool

-- The tables of `TPC` that mutations read.
pub record Tables : Type 0 where
  pub torc4 : List (ℕ × ℕ)
  pub torc8 : List (ℕ × ℕ)
  pub torcw : List (Word × Word)
  pub mmt : List Word

-- The functions of the fuzz target that `EF` finds, `none` for a null pointer. They take the bytes
-- of arrays, their sizes and a seed, and return the array that they write and a size.
pub record External : Type 0 where
  pub custom_mutator : Option (List ℕ → ℕ → ℕ → ℕ → Option Edit)
  pub custom_cross_over : Option (List ℕ → ℕ → List ℕ → List ℕ → ℕ → Option Edit)

unfoldable pub default_mutators : Options → List Mutator
default_mutators options =
    mutate_erase_bytes
    ∷ mutate_insert_byte
    ∷ mutate_insert_repeated_bytes
    ∷ mutate_change_byte
    ∷ mutate_change_bit
    ∷ mutate_shuffle_bytes
    ∷ mutate_change_ascii_integer
    ∷ mutate_change_binary_integer
    ∷ mutate_copy_part
    ∷ mutate_cross_over
    ∷ mutate_add_word_from_manual_dictionary
    ∷ mutate_add_word_from_persistent_auto_dictionary
    ∷ (if options.use_cmp then mutate_add_word_from_torc ∷ [] else [])

unfoldable pub mutators : Options → External → List Mutator
unfolding default_mutators
mutators options ext =
    elim ext.custom_mutator [ none ↦ default_mutators options | some f ↦ mutate_custom ∷ [] ]
    ++ elim ext.custom_cross_over [ none ↦ [] | some f ↦ mutate_custom_cross_over ∷ [] ]

-- The switch of `Mutate_AddWordFromTORC`.
unfoldable pub pick_compared : Options → Tables → List ℕ → ℕ → Comp ℕ Entry
unfolding rand rand_bool draw torc_get mmt_get make_entry_from_integers make_entry_from_words
    entry_of
pick_compared options tables mem size = do
  k ← rand 4
  if k == 0
      then (do
        i ← draw
        x ← lift (torc_get tables.torc8 i)
        make_entry_from_integers 8 x.0 x.1 mem size)
      else if k == 1
      then (do
        i ← draw
        x ← lift (torc_get tables.torc4 i)
        narrow ← if x.0 / 2 ^ 16 == 0 && x.1 / 2 ^ 16 == 0 then rand_bool else pure false
        if narrow
            then make_entry_from_integers 2 (x.0 % 2 ^ 16) (x.1 % 2 ^ 16) mem size
            else make_entry_from_integers 4 x.0 x.1 mem size)
      else if k == 2
      then (do i ← draw; x ← lift (torc_get tables.torcw i); make_entry_from_words x.0 x.1 mem size)
      else if options.use_memmem
      then (do i ← draw; w ← lift (mmt_get tables.mmt i); pure (entry_of w))
      else pure (entry_of [])

-- The entry goes into the next place of `CmpDictionaryEntriesDeque`, and the place into the
-- sequence.
unfoldable pub keep_compared : Entry → Comp Dispatcher (Unit {0})
keep_compared e d =
    let i = d.cmp_idx % cmp_entries_size in
    some (
      tt,
      record d {
        cmp_entries = set d.cmp_entries i e;
        cmp_idx = (d.cmp_idx + 1) % 2 ^ 64;
        entry_sequence = d.entry_sequence ++ (in_cmp i ∷ []);
      },
    )

unfoldable pub add_word_from_torc : Options → Tables → List ℕ → ℕ → ℕ → Comp Dispatcher Edit
unfolding pick_compared apply_dictionary_entry on_random keep_compared
add_word_from_torc options tables mem size max_size = do
  e ← on_random (pick_compared options tables mem size)
  if length e.word == 0 then pure (mem, 0) else do
    r ← on_random (apply_dictionary_entry mem size max_size e)
    if r.1 == 0 then pure r else (keep_compared e >> pure r)

unfoldable pub the_state : Comp Dispatcher Dispatcher
the_state d = some (d, d)

abbrev pub ref_in : Bool → ℕ → EntryRef
ref_in is_manual i = if is_manual then in_manual i else in_persistent i

abbrev pub dictionary_of : Bool → Dispatcher → Dictionary
dictionary_of is_manual d = if is_manual then d.manual else d.persistent

-- `DE.IncUseCount()`, and the entry goes into the sequence.
unfoldable pub note_use : EntryRef → Comp Dispatcher (Unit {0})
unfolding deref assign inc_use_count
note_use ref d = elim (deref d ref) [
  | none ↦ none
  | some e ↦
      let a = assign d ref (inc_use_count e) in
      some (tt, record a { entry_sequence = a.entry_sequence ++ (ref ∷ []) })
]

-- The dictionary is the manual one or the persistent one.
unfoldable pub add_word_from_dictionary : Bool → List ℕ → ℕ → ℕ → Comp Dispatcher Edit
unfolding the_state on_random rand deref apply_dictionary_entry note_use
add_word_from_dictionary is_manual mem size max_size =
    if ltb max_size size then pure (mem, 0) else do
      d ← the_state
      if length (dictionary_of is_manual d) == 0 then pure (mem, 0) else do
        i ← on_random (rand (length (dictionary_of is_manual d)))
        e ← lift (deref d (ref_in is_manual i))
        r ← on_random (apply_dictionary_entry mem size max_size e)
        if r.1 == 0 then pure r else (note_use (ref_in is_manual i) >> pure r)

unfoldable pub run_custom : External → List ℕ → ℕ → ℕ → Comp ℕ Edit
unfolding draw
run_custom ext mem size max_size = do
  f ← lift ext.custom_mutator
  seed ← draw
  lift (f mem size max_size seed)

-- The buffer `CustomCrossOverInPlaceHere` is written before it is read.
unfoldable pub run_custom_cross_over : External → Option (List ℕ) → List ℕ → ℕ → ℕ → Comp ℕ Edit
unfolding draw copy_bytes
run_custom_cross_over ext none mem size max_size = pure (mem, 0)
run_custom_cross_over ext (some []) mem size max_size = pure (mem, 0)
run_custom_cross_over ext (some (b ∷ bs)) mem size max_size =
    if size == 0 then pure (mem, 0) else do
      f ← lift ext.custom_cross_over
      seed ← draw
      u ← lift (f mem size (b ∷ bs) (replicate max_size 0) seed)
      if u.1 == 0 then pure (mem, 0) else do
        assert (leb u.1 max_size)
        out ← lift (copy_bytes mem 0 u.0 0 u.1)
        pure (out, u.1)
