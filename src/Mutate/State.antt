-- ===== src/Mutate/State.antt =====
-- The state of `MutationDispatcher` (FuzzerMutate.h), and the operations on its dictionaries and
-- on the sequence of entries that the current mutations used.
pub mod Laws
pub mod Record
use pfuzzer.Base.{
  ℕ, zero, suc, ◌+◌, ◌%◌, ◌^◌, ltb, leb, ◌==◌, not, Bool, if◌then◌else◌, List, [], ◌∷◌, ◌++◌,
  Option, none, some, length, get_elem?, set,
}
use pfuzzer.Base.Comp.{Comp, pure, lift, assert, ◌>>=◌, ◌>>◌}
use pfuzzer.Dictionary.{
  Word, Entry, Dictionary, entry_at, no_hint, inc_use_count, inc_success_count, contains_word,
  push_back,
}

-- A `DictionaryEntry *`: into the manual dictionary, the persistent one, or the entries made from
-- comparisons.
pub data EntryRef : Type 0 where
  in_manual : ℕ → EntryRef
  in_persistent : ℕ → EntryRef
  in_cmp : ℕ → EntryRef

pub data Mutator : Type 0 where
  mutate_erase_bytes : Mutator
  mutate_insert_byte : Mutator
  mutate_insert_repeated_bytes : Mutator
  mutate_change_byte : Mutator
  mutate_change_bit : Mutator
  mutate_shuffle_bytes : Mutator
  mutate_change_ascii_integer : Mutator
  mutate_change_binary_integer : Mutator
  mutate_copy_part : Mutator
  mutate_cross_over : Mutator
  mutate_add_word_from_manual_dictionary : Mutator
  mutate_add_word_from_persistent_auto_dictionary : Mutator
  mutate_add_word_from_torc : Mutator
  mutate_custom : Mutator
  mutate_custom_cross_over : Mutator

pub record Dispatcher : Type 0 where
  pub random : ℕ
  pub manual : Dictionary
  pub persistent : Dictionary
  pub cmp_entries : List Entry
  pub cmp_idx : ℕ
  pub entry_sequence : List EntryRef
  pub mutator_sequence : List Mutator
  pub cross_over_with : Option (List ℕ)
  pub mask_temp : List ℕ

abbrev pub cmp_entries_size : ℕ
cmp_entries_size = 16

-- What an operation on the generator does to the dispatcher that refers to it.
unfoldable pub on_random : {A : Type 0} → Comp ℕ A → Comp Dispatcher A
on_random m d = elim (m d.random) [ none ↦ none | some (a, t) ↦ some (a, record d { random = t }) ]

unfoldable pub deref : Dispatcher → EntryRef → Option Entry
deref d (in_manual i) = get_elem? d.manual i
deref d (in_persistent i) = get_elem? d.persistent i
deref d (in_cmp i) = get_elem? d.cmp_entries i

-- `*ref = e`.
unfoldable pub assign : Dispatcher → EntryRef → Entry → Dispatcher
assign d (in_manual i) e = record d { manual = set d.manual i e }
assign d (in_persistent i) e = record d { persistent = set d.persistent i e }
assign d (in_cmp i) e = record d { cmp_entries = set d.cmp_entries i e }

unfoldable pub start_mutation_sequence : Dispatcher → Dispatcher
start_mutation_sequence d = record d { entry_sequence = []; mutator_sequence = [] }

-- A round of `RecordSuccessfulMutationSequence` on the entry `old` that `ref` leads to, after the
-- assertion.
unfoldable pub record_entry : Dispatcher → EntryRef → Entry → Dispatcher
unfolding assign inc_success_count contains_word push_back
record_entry d ref old =
    let e = inc_success_count old in
    let d' = assign d ref e in
    if contains_word d'.persistent e.word
    then d'
    else record d' { persistent = push_back d'.persistent e }

-- The loop.
unfoldable pub record_entries : List EntryRef → Dispatcher → Option Dispatcher
unfolding deref record_entry
record_entries [] d = some d
record_entries (ref ∷ refs) d = elim (deref d ref) [
  | none ↦ none
  | some old ↦
      let rest = record_entries refs (record_entry d ref old) in
      if length old.word == 0 then none else rest
]

unfoldable pub record_successful_mutation_sequence : Dispatcher → Option Dispatcher
unfolding record_entries
record_successful_mutation_sequence d = record_entries d.entry_sequence d

unfoldable pub add_word_to_manual_dictionary : Word → Dispatcher → Dispatcher
unfolding push_back entry_at
add_word_to_manual_dictionary w d = record d { manual = push_back d.manual (entry_at w no_hint) }

unfoldable pub set_cross_over_with : Option (List ℕ) → Dispatcher → Dispatcher
set_cross_over_with unit d = record d { cross_over_with = unit }
