-- ===== src/Tests/Dispatcher.antt =====
-- `MutationDispatcher` of FuzzerMutate.h with a small state, and the tables it reads.
use pfuzzer.Base.{
  ℕ, ◌^◌, ◌≡◌, refl, inl, inr, List, [], ◌∷◌, Option, none, some, replicate, All, arith, true, ◌-◌,
  All-replicate, subst, sym, ap,
}
use pfuzzer.Base.Comp.{Ensures}
use pfuzzer.Base.Bytes.{bytes_eq}
use pfuzzer.Base.Memory.{IsByte}
use pfuzzer.Dictionary.{Word, Entry, contains_word}
use pfuzzer.Dictionary.Laws.{IsEntry}
use pfuzzer.Mutate.Edit.{Edit, IsInput}
use pfuzzer.Mutate.State.{in_manual, Dispatcher, deref, record_successful_mutation_sequence}
use pfuzzer.Mutate.State.Laws.{some_eq, IsDispatcher}
use pfuzzer.Mutate.State.Record.{
  AllRecorded, record_successful_mutation_sequence-IsDispatcher,
  record_successful_mutation_sequence-AllRecorded, record_successful_mutation_sequence-contains,
}
use pfuzzer.Mutate.Dispatch.{
  Options, Tables, External, add_word_from_torc, add_word_from_dictionary,
}
use pfuzzer.Mutate.Dispatch.Words.{IsWord, IsTables}
use pfuzzer.Mutate.Dispatch.Dictionaries.{
  KeepsAll, add_word_from_torc-KeepsAll, add_word_from_dictionary-KeepsAll,
}
use pfuzzer.Mutate.Dispatch.Impl.{mutate}
use pfuzzer.Mutate.Dispatch.Impl.Laws.{IsArray, IsExternal, IsMutated, mutate-Ensures}
use pfuzzer.Mutate.Dispatch.Mask.{mutate_with_mask}
use pfuzzer.Mutate.Dispatch.Mask.Laws.{IsMasked, mutate_with_mask-Ensures}

abbrev memory : List ℕ
memory = 97 ∷ 49 ∷ 50 ∷ 98 ∷ 0 ∷ 0 ∷ 0 ∷ 0 ∷ []

abbrev word : Word
word = 49 ∷ 50 ∷ []

abbrev entry : Entry
entry = record { word = word; position_hint = 1; use_count = 0; success_count = 0 }

abbrev blank : Entry
blank = record { word = []; position_hint = 2 ^ 64 - 1; use_count = 0; success_count = 0 }

-- One entry in each store, and a sequence that used the manual one.
abbrev dispatcher : Dispatcher
dispatcher = record {
  random = 1;
  manual = entry ∷ [];
  persistent = record entry { word = 7 ∷ [] } ∷ [];
  cmp_entries = replicate 16 blank;
  cmp_idx = 0;
  entry_sequence = in_manual 0 ∷ [];
  mutator_sequence = [];
  cross_over_with = some (120 ∷ []);
  mask_temp = [];
}

abbrev options : Options
options = record { only_ascii = true; use_memmem = true; use_cmp = true }

abbrev tables : Tables
tables = record {
  torc4 = (1, 2) ∷ [];
  torc8 = (3, 4) ∷ [];
  torcw = (word, 120 ∷ 121 ∷ []) ∷ [];
  mmt = [] ∷ word ∷ [];
}

abbrev compared : List (ℕ × ℕ)
compared = (1, 2) ∷ (3, 4) ∷ []

-- A custom mutator that leaves everything as it is; no custom crossover.
abbrev external : External
external = record {
  custom_mutator = some (λ mem size max_size seed. some (mem, size));
  custom_cross_over = none;
}

memory-IsInput : IsInput memory 4 8
memory-IsInput = record { sized = omega arith; room = omega arith; bytes = omega arith }

entry-IsEntry : IsEntry entry
entry-IsEntry = record { fits = omega arith; bytes = omega arith; hint = inr (omega arith) }

blank-IsEntry : IsEntry blank
blank-IsEntry = record { fits = omega arith; bytes = tt; hint = inl refl }

dispatcher-IsDispatcher : IsDispatcher dispatcher
unfolding deref
dispatcher-IsDispatcher = record {
  manual_within = omega arith;
  manual_usable = (record { entry = entry-IsEntry; some_bytes = omega arith }, tt);
  persistent_within = omega arith;
  persistent_usable = (
    record {
      entry = record { fits = omega arith; bytes = omega arith; hint = inr (omega arith) };
      some_bytes = omega arith;
    },
    tt,
  );
  cmp_size = refl;
  cmp_entry = All-replicate IsEntry 16 blank blank-IsEntry;
  refs = ((entry, refl, omega arith), tt);
  other = λ o e.
      subst (λ (x : Option (List ℕ)). elim x [ none ↦ Unit {0} | some l ↦ All IsByte l ]) e
        (omega arith, tt);
  temp = tt;
}

word-IsWord : IsWord word
word-IsWord = record { fits = omega arith; bytes = omega arith }

tables-IsTables : IsTables tables
tables-IsTables = record {
  torc4_size = omega arith;
  torc8_size = omega arith;
  torcw_size = omega arith;
  mmt_size = omega arith;
  torcw_pairs = (
    record {
      same_length = refl;
      fst_word = word-IsWord;
      snd_word = record { fits = omega arith; bytes = omega arith };
    },
    tt,
  );
  mmt_words = (record { fits = omega arith; bytes = tt }, (word-IsWord, tt));
}

external-IsExternal : IsExternal external
external-IsExternal = record {
  mutator = λ f e mem size max_size seed v. same f (some_eq e) mem size max_size seed v;
  cross_over = λ f e. absurd (cc);
}
  where
    same :
        (f : List ℕ → ℕ → ℕ → ℕ → Option Edit)
        → (λ mem size max_size seed. some (mem, size)) ≡ f
        → (mem : List ℕ) (size max_size seed : ℕ) → IsInput mem size max_size
        → (r : Edit) × (f mem size max_size seed ≡ some r) × IsArray mem r.0
    same f e mem size max_size seed v = (
      (mem, size),
      sym (ap (λ (g : List ℕ → ℕ → ℕ → ℕ → Option Edit). g mem size max_size seed) e),
      record { same_length = refl; bytes = v.bytes },
    )

record-IsDispatcher_example :
    (d' : Dispatcher) × (record_successful_mutation_sequence dispatcher ≡ some d') × IsDispatcher d'
record-IsDispatcher_example =
    record_successful_mutation_sequence-IsDispatcher dispatcher dispatcher-IsDispatcher

record-AllRecorded_example :
    (d' : Dispatcher) × (record_successful_mutation_sequence dispatcher ≡ some d')
    × AllRecorded dispatcher (in_manual 0 ∷ []) d'
record-AllRecorded_example =
    record_successful_mutation_sequence-AllRecorded dispatcher dispatcher-IsDispatcher (omega arith)

record-contains_example :
    (d' : Dispatcher) × (record_successful_mutation_sequence dispatcher ≡ some d')
    × (contains_word d'.persistent (7 ∷ []) ≡ true)
unfolding contains_word bytes_eq
record-contains_example =
    record_successful_mutation_sequence-contains dispatcher (7 ∷ []) dispatcher-IsDispatcher refl

add_word_from_torc_example :
    Ensures (add_word_from_torc options tables memory 4 8) dispatcher (KeepsAll memory 8)
add_word_from_torc_example =
    add_word_from_torc-KeepsAll memory-IsInput (omega arith) options tables dispatcher
      tables-IsTables dispatcher-IsDispatcher

add_word_from_dictionary_example :
    Ensures (add_word_from_dictionary true memory 4 8) dispatcher (KeepsAll memory 8)
add_word_from_dictionary_example =
    add_word_from_dictionary-KeepsAll memory-IsInput (omega arith) true dispatcher
      dispatcher-IsDispatcher

mutate_example : Ensures (mutate options tables external memory 4 8) dispatcher (λ r e.
    IsMutated options tables external tables-IsTables external-IsExternal memory 8 r
    × IsDispatcher e)
mutate_example =
    mutate-Ensures options tables external tables-IsTables external-IsExternal memory-IsInput
      (omega arith) (omega arith) dispatcher dispatcher-IsDispatcher

mutate_with_mask_example :
    Ensures
      (mutate_with_mask options tables external memory 4 (1 ∷ 0 ∷ 0 ∷ 1 ∷ []))
      dispatcher
      (λ r e. IsMasked memory 4 (1 ∷ 0 ∷ 0 ∷ 1 ∷ []) r × IsDispatcher e)
mutate_with_mask_example =
    mutate_with_mask-Ensures options tables external tables-IsTables external-IsExternal memory 4
      (1 ∷ 0 ∷ 0 ∷ 1 ∷ []) (omega arith) (omega arith) dispatcher dispatcher-IsDispatcher
      (omega arith) (omega arith)
