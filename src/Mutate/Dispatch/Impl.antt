-- ===== src/Mutate/Dispatch/Impl.antt =====
-- `Mutate`, `DefaultMutate`, `MutateImpl` and `MutateWithMask` of FuzzerMutate.cpp.
pub mod Laws
use pfuzzer.Base.{
  ℕ, zero, suc, ◌+◌, ◌-◌, ltb, leb, min, ◌==◌, ◌&&◌, not, Bool, true, false, if◌then◌else◌, List,
  [], ◌∷◌, ◌++◌, Option, none, some, length, get_elem?, replicate,
}
use pfuzzer.Base.Comp.{Comp, pure, lift, assert, ◌>>=◌, ◌>>◌}
use pfuzzer.Base.Memory.{store}
use pfuzzer.Random.{rand}
use pfuzzer.Util.{to_ascii}
use pfuzzer.Mutate.Edit.{Edit}
use pfuzzer.Mutate.Bytes.{erase_bytes, insert_byte, insert_repeated_bytes, change_byte, change_bit}
use pfuzzer.Mutate.Shuffle.{shuffle_bytes}
use pfuzzer.Mutate.Ascii.{change_ascii_integer}
use pfuzzer.Mutate.Binary.{change_binary_integer}
use pfuzzer.Mutate.Parts.{copy_part}
use pfuzzer.Mutate.Cross.{cross_over_mutator}
use pfuzzer.Mutate.State.{
  Mutator, mutate_erase_bytes, mutate_insert_byte, mutate_insert_repeated_bytes, mutate_change_byte,
  mutate_change_bit, mutate_shuffle_bytes, mutate_change_ascii_integer,
  mutate_change_binary_integer, mutate_copy_part, mutate_cross_over,
  mutate_add_word_from_manual_dictionary, mutate_add_word_from_persistent_auto_dictionary,
  mutate_add_word_from_torc, mutate_custom, mutate_custom_cross_over, Dispatcher, on_random,
}
use pfuzzer.Mutate.Dispatch.{
  Options, Tables, External, default_mutators, mutators, add_word_from_torc, the_state,
  add_word_from_dictionary, run_custom, run_custom_cross_over,
}

module _ (options : Options) (tables : Tables) (ext : External) where
  -- `(this->*(M.Fn))(Data, Size, MaxSize)`.
  unfoldable pub run_mutator : Mutator → List ℕ → ℕ → ℕ → Comp Dispatcher Edit
  unfolding on_random erase_bytes insert_byte insert_repeated_bytes change_byte change_bit
      shuffle_bytes change_ascii_integer change_binary_integer copy_part cross_over_mutator
      the_state add_word_from_dictionary add_word_from_torc run_custom run_custom_cross_over
  run_mutator mutate_erase_bytes mem size max_size = on_random (erase_bytes mem size max_size)
  run_mutator mutate_insert_byte mem size max_size = on_random (insert_byte mem size max_size)
  run_mutator mutate_insert_repeated_bytes mem size max_size =
      on_random (insert_repeated_bytes mem size max_size)
  run_mutator mutate_change_byte mem size max_size = on_random (change_byte mem size max_size)
  run_mutator mutate_change_bit mem size max_size = on_random (change_bit mem size max_size)
  run_mutator mutate_shuffle_bytes mem size max_size = on_random (shuffle_bytes mem size max_size)
  run_mutator mutate_change_ascii_integer mem size max_size =
      on_random (change_ascii_integer mem size max_size)
  run_mutator mutate_change_binary_integer mem size max_size =
      on_random (change_binary_integer mem size max_size)
  run_mutator mutate_copy_part mem size max_size = on_random (copy_part mem size max_size)
  run_mutator mutate_cross_over mem size max_size =
      the_state >>= λ d. on_random (cross_over_mutator mem size max_size d.cross_over_with)
  run_mutator mutate_add_word_from_manual_dictionary mem size max_size =
      add_word_from_dictionary true mem size max_size
  run_mutator mutate_add_word_from_persistent_auto_dictionary mem size max_size =
      add_word_from_dictionary false mem size max_size
  run_mutator mutate_add_word_from_torc mem size max_size =
      add_word_from_torc options tables mem size max_size
  run_mutator mutate_custom mem size max_size = on_random (run_custom ext mem size max_size)
  run_mutator mutate_custom_cross_over mem size max_size =
      the_state >>= λ d. on_random (run_custom_cross_over ext d.cross_over_with mem size max_size)

  -- `CurrentMutatorSequence.push_back(M)`.
  unfoldable pub note_mutator : Mutator → Comp Dispatcher (Unit {0})
  note_mutator m d = some (tt, record d { mutator_sequence = d.mutator_sequence ++ (m ∷ []) })

  -- What is done with a result that is kept.
  unfoldable pub keep_result : Mutator → Edit → Comp Dispatcher Edit
  unfolding to_ascii note_mutator
  keep_result m r = do
    out ← if options.only_ascii then lift (to_ascii r.0 r.1) else pure r.0
    note_mutator m
    pure (out, r.1)

  -- The loop, with the rounds that are left, and the fallback.
  unfoldable pub mutate_rounds : ℕ → List Mutator → List ℕ → ℕ → ℕ → Comp Dispatcher Edit
  unfolding store on_random rand run_mutator keep_result
  mutate_rounds zero ms mem size max_size = lift (store mem 0 b' ') >>= λ out. pure (out, 1)
  mutate_rounds (suc rounds) ms mem size max_size = do
    i ← on_random (rand (length ms))
    m ← lift (get_elem? ms i)
    r ← run_mutator m mem size max_size
    let again = mutate_rounds rounds ms r.0 size max_size
    if not (r.1 == 0) && leb r.1 max_size then keep_result m r else again

  unfoldable pub mutate_impl : List Mutator → List ℕ → ℕ → ℕ → Comp Dispatcher Edit
  unfolding mutate_rounds
  mutate_impl ms mem size max_size =
      assert (ltb 0 max_size) >> mutate_rounds 100 ms mem size max_size

  unfoldable pub mutate : List ℕ → ℕ → ℕ → Comp Dispatcher Edit
  unfolding mutate_impl mutators
  mutate mem size max_size = mutate_impl (mutators options ext) mem size max_size

  unfoldable pub default_mutate : List ℕ → ℕ → ℕ → Comp Dispatcher Edit
  unfolding mutate_impl default_mutators
  default_mutate mem size max_size = mutate_impl (default_mutators options) mem size max_size
