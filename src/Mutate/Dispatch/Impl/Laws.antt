-- ===== src/Mutate/Dispatch/Impl/Laws.antt =====
-- `MutateImpl` of FuzzerMutate.cpp does not fault: every mutator that can be chosen keeps to the
-- array, and the loop ends with an input that is not empty and fits.
use pfuzzer.Base.{
  ℕ, zero, suc, ◌^◌, ◌≤◌, ◌<◌, ◌≡◌, refl, leb, ◌==◌, ◌&&◌, ◌||◌, not, Bool, true, false,
  if◌then◌else◌, List, [], ◌∷◌, ◌++◌, Option, none, some, length, replicate, take, All, arith, ◌∙◌,
  lt→ltb, le→leb, All-get_elem?, get_elem?_lt, All-append, All-take, length-take, length-replicate,
  All-replicate,
}
use pfuzzer.Base.Comp.{
  Comp, Ensures, returns, pure, lift, assert, ◌>>=◌, ◌>>◌, pure-Ensures, bind-Ensures, then-Ensures,
  assert-Ensures, lift-Ensures, lift_last-Ensures, if-Ensures, Ensures-mono,
}
use pfuzzer.Base.Memory.{
  IsByte, overwrite, store_lem, copy_bytes, copy_bytes_lem, length-overwrite, All-overwrite,
}
use pfuzzer.Random.Laws.{draw-Ensures, rand-Ensures}
use pfuzzer.Util.{to_ascii, is_ascii}
use pfuzzer.Util.Laws.{to_ascii_lem}
use pfuzzer.Mutate.Edit.{Edit, IsEdited, IsInput, result}
use pfuzzer.Mutate.Frame.{failed-IsEdited, overwrite-IsEdited}
use pfuzzer.Mutate.Bytes.Erase.{erase_bytes-Ensures}
use pfuzzer.Mutate.Bytes.Insert.{insert_byte-Ensures, insert_repeated_bytes-Ensures}
use pfuzzer.Mutate.Bytes.Change.{change_byte-Ensures, change_bit-Ensures}
use pfuzzer.Mutate.Shuffle.Laws.{shuffle_bytes-Ensures}
use pfuzzer.Mutate.Ascii.Laws.{change_ascii_integer-Ensures}
use pfuzzer.Mutate.Binary.Laws.{change_binary_integer-Ensures}
use pfuzzer.Mutate.Parts.Laws.{copy_part-Ensures}
use pfuzzer.Mutate.Cross.Laws.{cross_over_mutator-Ensures}
use pfuzzer.Mutate.State.{
  Mutator, mutate_erase_bytes, mutate_insert_byte, mutate_insert_repeated_bytes, mutate_change_byte,
  mutate_change_bit, mutate_shuffle_bytes, mutate_change_ascii_integer,
  mutate_change_binary_integer, mutate_copy_part, mutate_cross_over,
  mutate_add_word_from_manual_dictionary, mutate_add_word_from_persistent_auto_dictionary,
  mutate_add_word_from_torc, mutate_custom, mutate_custom_cross_over, Dispatcher, on_random,
}
use pfuzzer.Mutate.State.Laws.{IsDispatcher}
use pfuzzer.Mutate.Dispatch.{
  Options, Tables, External, default_mutators, mutators, run_custom, run_custom_cross_over,
}
use pfuzzer.Mutate.Dispatch.Words.{IsTables}
use pfuzzer.Mutate.Dispatch.Dictionaries.{
  on_random-IsDispatcher, mutators-IsDispatcher, the_state_then, add_word_from_torc-KeepsAll,
  add_word_from_dictionary-KeepsAll, KeepsAll,
}
use pfuzzer.Mutate.Dispatch.Impl.{
  run_mutator, note_mutator, keep_result, mutate_rounds, mutate_impl, mutate, default_mutate,
}

-- The array has the length it had and holds bytes.
pub record IsArray (mem : List ℕ) (out : List ℕ) : Type 0 where
  pub same_length : length out ≡ length mem
  pub bytes : All IsByte out

-- The contract of the fuzz target's functions: they keep to the arrays they are given. The size
-- that a custom mutator returns may be anything; a crossover's is at most the room it has.
pub record IsExternal (ext : External) : Type 0 where
  pub mutator :
      (f : List ℕ → ℕ → ℕ → ℕ → Option Edit)
      → ext.custom_mutator ≡ some f
      → (mem : List ℕ) (size max_size seed : ℕ) → IsInput mem size max_size
      → (r : Edit) × (f mem size max_size seed ≡ some r) × IsArray mem r.0
  pub cross_over :
      (f : List ℕ → ℕ → List ℕ → List ℕ → ℕ → Option Edit)
      → ext.custom_cross_over ≡ some f
      → (mem : List ℕ) (size : ℕ) (other room : List ℕ) (seed : ℕ) → All IsByte mem
      → All IsByte other
      → All IsByte room
      → (r : Edit) × (f mem size other room seed ≡ some r) × IsArray room r.0 × (r.1 ≤ length room)

-- A mutator that can be chosen.
pub data CanRun (ext : External) : Mutator → Type 0 where
  erase_bytes : CanRun ext mutate_erase_bytes
  insert_byte : CanRun ext mutate_insert_byte
  insert_repeated_bytes : CanRun ext mutate_insert_repeated_bytes
  change_byte : CanRun ext mutate_change_byte
  change_bit : CanRun ext mutate_change_bit
  shuffle_bytes : CanRun ext mutate_shuffle_bytes
  change_ascii_integer : CanRun ext mutate_change_ascii_integer
  change_binary_integer : CanRun ext mutate_change_binary_integer
  copy_part : CanRun ext mutate_copy_part
  cross_over : CanRun ext mutate_cross_over
  manual_dictionary : CanRun ext mutate_add_word_from_manual_dictionary
  persistent_dictionary : CanRun ext mutate_add_word_from_persistent_auto_dictionary
  torc : CanRun ext mutate_add_word_from_torc
  custom :
      (f : List ℕ → ℕ → ℕ → ℕ → Option Edit)
      → ext.custom_mutator ≡ some f
      → CanRun ext mutate_custom
  custom_cross_over :
      (f : List ℕ → ℕ → List ℕ → List ℕ → ℕ → Option Edit)
      → ext.custom_cross_over ≡ some f
      → CanRun ext mutate_custom_cross_over

default_mutators-CanRun :
    (options : Options) (ext : External) → All (CanRun ext) (default_mutators options)
unfolding default_mutators
default_mutators-CanRun options ext = (
  erase_bytes,
  (
    insert_byte,
    (
      insert_repeated_bytes,
      (
        change_byte,
        (
          change_bit,
          (
            shuffle_bytes,
            (
              change_ascii_integer,
              (
                change_binary_integer,
                (
                  copy_part,
                  (
                    cross_over,
                    (manual_dictionary, (persistent_dictionary, with_cmp options.use_cmp)),
                  ),
                ),
              ),
            ),
          ),
        ),
      ),
    ),
  ),
)
  where
    with_cmp : (b : Bool) → All (CanRun ext) (if b then mutate_add_word_from_torc ∷ [] else [])
    with_cmp true = (torc, tt)
    with_cmp false = tt

mutators-CanRun : (options : Options) (ext : External) → All (CanRun ext) (mutators options ext)
unfolding mutators
mutators-CanRun options ext =
    All-append (CanRun ext) _ _ (first ext.custom_mutator refl) (second ext.custom_cross_over refl)
  where
    first :
        (o : Option (List ℕ → ℕ → ℕ → ℕ → Option Edit))
        → ext.custom_mutator ≡ o
        → All
            (CanRun ext)
            (elim o [ none ↦ default_mutators options | some f ↦ mutate_custom ∷ [] ])
    first none e = default_mutators-CanRun options ext
    first (some f) e = (custom f e, tt)

    second :
        (o : Option (List ℕ → ℕ → List ℕ → List ℕ → ℕ → Option Edit))
        → ext.custom_cross_over ≡ o
        → All (CanRun ext) (elim o [ none ↦ [] | some f ↦ mutate_custom_cross_over ∷ [] ])
    second none e = tt
    second (some f) e = (custom_cross_over f e, tt)

length-mutators : (options : Options) (ext : External) → 0 < length (mutators options ext)
unfolding mutators default_mutators
length-mutators options ext = first ext.custom_mutator _
  where
    first :
        (o : Option (List ℕ → ℕ → ℕ → ℕ → Option Edit)) (ms : List Mutator)
        → 0
          < length (elim o [ none ↦ default_mutators options | some f ↦ mutate_custom ∷ [] ] ++ ms)
    first none ms = omega arith
    first (some f) ms = omega arith

-- What every mutator leaves.
abbrev Good : List ℕ → Edit → Dispatcher → Type 0
Good mem r d = IsArray mem r.0 × IsDispatcher d

module _ (options : Options) (tables : Tables) (ext : External) (ok : IsTables tables)
    (contract : IsExternal ext) where
  module _ {mem : List ℕ} {size max_size : ℕ} (v : IsInput mem size max_size) (pos : 0 < max_size)
      (wide : length mem < 2 ^ 63) (d : Dispatcher) (w : IsDispatcher d) where
    edited :
        {m : Comp ℕ Edit} {P : Edit → ℕ → Type 0}
        → Ensures m d.random (λ r t. IsEdited mem max_size r × P r t)
        → Ensures (on_random m) d (Good mem)
    edited h =
        Ensures-mono
          (λ r e (w', _, q). (record { same_length = q.0.same_length; bytes = q.0.bytes }, w'))
          (on_random-IsDispatcher w h)

    kept : {m : Comp Dispatcher Edit} → Ensures m d (KeepsAll mem max_size) → Ensures m d (Good mem)
    kept h =
        Ensures-mono (λ r e (q, w'). (record { same_length = q.same_length; bytes = q.bytes }, w'))
          h

    run_custom-Good :
        (f : List ℕ → ℕ → ℕ → ℕ → Option Edit)
        → ext.custom_mutator ≡ some f
        → Ensures (on_random (run_custom ext mem size max_size)) d (Good mem)
    unfolding run_custom
    run_custom-Good f e =
        Ensures-mono (λ r e (w', _, q). (q, w'))
          (on_random-IsDispatcher w (
            lift-Ensures _ e (
              bind-Ensures (draw-Ensures d.random) λ seed t _.
                let (r, g, a) = contract.mutator f e mem size max_size seed v in
                lift_last-Ensures {Q = λ r t. IsArray mem r.0} g a)))

    run_custom_cross_over-Good :
        (f : List ℕ → ℕ → List ℕ → List ℕ → ℕ → Option Edit)
        → ext.custom_cross_over ≡ some f
        → (o : Option (List ℕ)) → d.cross_over_with ≡ o
        → Ensures (on_random (run_custom_cross_over ext o mem size max_size)) d (Good mem)
    unfolding run_custom_cross_over
    run_custom_cross_over-Good f e none h =
        edited {P = λ r t. Unit {0}} (pure-Ensures _ (failed-IsEdited v, tt))
    run_custom_cross_over-Good f e (some []) h =
        edited {P = λ r t. Unit {0}} (pure-Ensures _ (failed-IsEdited v, tt))
    run_custom_cross_over-Good f e (some (b ∷ bs)) h = edited {P = λ r t. Unit {0}} (
        if-Ensures (size == 0) (λ _. pure-Ensures _ (failed-IsEdited v, tt))
          λ _. lift-Ensures _ e (
            bind-Ensures (draw-Ensures d.random) λ seed t _.
              let (u, g, a, le) =
                contract.cross_over f e mem size (b ∷ bs) (replicate max_size 0) seed v.bytes
                  (w.other (b ∷ bs) h) (All-replicate IsByte max_size 0 (omega arith)) in
              lift-Ensures _ g (
                if-Ensures (u.1 == 0) (λ _. pure-Ensures _ (failed-IsEdited v, tt))
                  λ _. copied u a (omega (arith, le, length-replicate {A = ℕ} max_size 0)) t)))
      where
        copied :
            (u : Edit)
            → IsArray (replicate max_size 0) u.0
            → u.1 ≤ max_size
            → (t : ℕ)
            → Ensures
                (assert (leb u.1 max_size)
                  >> (lift (copy_bytes mem 0 u.0 0 u.1) >>= λ out. pure (out, u.1)))
                t
                (λ r t. IsEdited mem max_size r × Unit {0})
        copied u a le t =
            let room : u.1 ≤ length u.0 =
              omega (arith, a.same_length, length-replicate {A = ℕ} max_size 0) in
            assert-Ensures (le→leb u.1 max_size le) (
              lift-Ensures _ (copy_bytes_lem mem u.0 0 0 u.1 (omega arith) (omega (arith, v.room)))
                (pure-Ensures _ (
                  overwrite-IsEdited v (take u.1 u.0) 0 u.1
                      (omega (arith, v.room, length-take u.1 u.0)) (All-take IsByte u.1 u.0 a.bytes)
                      le,
                  tt,
                )))

    -- Every mutator that can be chosen ends, keeps to the array, and keeps the invariant.
    pub run_mutator-Good :
        (m : Mutator)
        → CanRun ext m
        → Ensures (run_mutator options tables ext m mem size max_size) d (Good mem)
    unfolding run_mutator
    run_mutator-Good m erase_bytes = edited (erase_bytes-Ensures mem size max_size _ v)
    run_mutator-Good m insert_byte = edited (insert_byte-Ensures mem size max_size _ v)
    run_mutator-Good m insert_repeated_bytes =
        edited (insert_repeated_bytes-Ensures mem size max_size _ v wide)
    run_mutator-Good m change_byte = edited (change_byte-Ensures mem size max_size _ v pos)
    run_mutator-Good m change_bit = edited (change_bit-Ensures mem size max_size _ v pos)
    run_mutator-Good m shuffle_bytes = edited (shuffle_bytes-Ensures mem size max_size _ v)
    run_mutator-Good m change_ascii_integer =
        edited (change_ascii_integer-Ensures mem size max_size _ v)
    run_mutator-Good m change_binary_integer =
        edited (change_binary_integer-Ensures mem size max_size _ v)
    run_mutator-Good m copy_part = edited (copy_part-Ensures mem size max_size _ v)
    run_mutator-Good m cross_over =
        the_state_then _
          (edited (cross_over_mutator-Ensures mem size max_size d.cross_over_with _ v w.other))
    run_mutator-Good m manual_dictionary = kept (add_word_from_dictionary-KeepsAll v wide true d w)
    run_mutator-Good m persistent_dictionary =
        kept (add_word_from_dictionary-KeepsAll v wide false d w)
    run_mutator-Good m torc = kept (add_word_from_torc-KeepsAll v wide options tables d ok w)
    run_mutator-Good m (custom f e) = run_custom-Good f e
    run_mutator-Good m (custom_cross_over f e) =
        the_state_then _ (run_custom_cross_over-Good f e d.cross_over_with refl)

  -- An input that is not empty, fits, and is ASCII where this is asked for.
  pub record IsMutated (mem : List ℕ) (max_size : ℕ) (r : Edit) : Type 0 where
    pub edited : IsEdited mem max_size r
    pub some_bytes : 0 < r.1
    pub ascii : (not options.only_ascii || is_ascii (result r)) ≡ true

  note_mutator-Ensures :
      (m : Mutator) (d : Dispatcher)
      → IsDispatcher d
      → Ensures (note_mutator options tables ext m) d (λ a e. IsDispatcher e)
  unfolding note_mutator
  note_mutator-Ensures m d w = returns tt _ refl (mutators-IsDispatcher d _ w)

  keep_result-Ensures :
      (mem : List ℕ) (max_size : ℕ) (m : Mutator) (r : Edit) (d : Dispatcher)
      → max_size ≤ length mem
      → IsArray mem r.0
      → 0 < r.1
      → r.1 ≤ max_size
      → IsDispatcher d
      → Ensures
          (keep_result options tables ext m r)
          d
          (λ r e. IsMutated mem max_size r × IsDispatcher e)
  unfolding keep_result
  keep_result-Ensures mem max_size m r d room a p le w =
      bind-Ensures (converted options.only_ascii) λ out e (b, c, w').
        then-Ensures (note_mutator-Ensures m e w') λ _ f w''.
          pure-Ensures (out, r.1)
            (
              record {
                edited = record { same_length = b.same_length; fits = le; bytes = b.bytes };
                some_bytes = p;
                ascii = c;
              },
              w'',
            )
    where
      converted :
          (only_ascii : Bool)
          → Ensures (if only_ascii then lift (to_ascii r.0 r.1) else pure r.0) d (λ out e.
            IsArray mem out × ((not only_ascii || is_ascii (take r.1 out)) ≡ true) × IsDispatcher e)
      converted true =
          let (out, e, l, b, c, _) = to_ascii_lem r.0 r.1 (omega (arith, a.same_length)) a.bytes in
          lift_last-Ensures e (record { same_length = l ∙ a.same_length; bytes = b }, c, w)
      converted false = pure-Ensures r.0 (a, refl, w)

  fallback-IsMutated :
      (mem : List ℕ) (max_size : ℕ)
      → 0 < max_size
      → max_size ≤ length mem
      → All IsByte mem
      → IsMutated mem max_size (overwrite mem 0 (32 ∷ []), 1)
  unfolding overwrite is_ascii
  fallback-IsMutated mem max_size pos room b = record {
    edited = record {
      same_length = length-overwrite mem (32 ∷ []) 0 (omega arith);
      fits = pos;
      bytes = All-overwrite IsByte mem (32 ∷ []) 0 b (omega arith, tt);
    };
    some_bytes = omega arith;
    ascii = blank (not options.only_ascii);
  }
    where
      blank : (b : Bool) → (b || is_ascii (take 1 (overwrite mem 0 (32 ∷ [])))) ≡ true
      blank true = refl
      blank false = refl

  positive : (n max : ℕ) → (not (n == 0) && leb n max) ≡ true → (0 < n) × (n ≤ max)
  positive n max h = ground arith

  -- What the rounds that follow a failed one leave, the failed one left.
  later :
      {mem : List ℕ} {max_size : ℕ} (r q : Edit)
      → IsArray mem r.0
      → IsMutated r.0 max_size q
      → IsMutated mem max_size q
  later r q a m = record {
    edited = record {
      same_length = m.edited.same_length ∙ a.same_length;
      fits = m.edited.fits;
      bytes = m.edited.bytes;
    };
    some_bytes = m.some_bytes;
    ascii = m.ascii;
  }

  module _ (ms : List Mutator) (some_mutators : 0 < length ms) (can_run : All (CanRun ext) ms)
      (size max_size : ℕ) (pos : 0 < max_size) where
    mutate_rounds-Ensures :
        (rounds : ℕ) (mem : List ℕ) (d : Dispatcher)
        → IsInput mem size max_size
        → length mem < 2 ^ 63
        → IsDispatcher d
        → Ensures
            (mutate_rounds options tables ext rounds ms mem size max_size)
            d
            (λ r e. IsMutated mem max_size r × IsDispatcher e)
    unfolding mutate_rounds
    mutate_rounds-Ensures zero mem d v wide w =
        lift-Ensures _ (store_lem mem 0 32 (omega (arith, v.room)))
          (pure-Ensures _ (fallback-IsMutated mem max_size pos v.room v.bytes, w))
    mutate_rounds-Ensures (suc rounds) mem d v wide w =
        bind-Ensures (on_random-IsDispatcher w (rand-Ensures (length ms) d.random))
          λ i d1 (w1, _, b).
            let (m, e) = get_elem?_lt ms i (omega arith) in
            lift-Ensures _ e (
              bind-Ensures
                (run_mutator-Good v pos wide d1 w1 m (All-get_elem? (CanRun ext) ms i m can_run e))
                λ r d2 (a, w2).
                  if-Ensures (not (r.1 == 0) && leb r.1 max_size)
                    (λ good.
                      keep_result-Ensures mem max_size m r d2 v.room a
                        (positive r.1 max_size good).0 (positive r.1 max_size good).1 w2)
                    λ _.
                      Ensures-mono (λ q e h. (later r q a h.0, h.1))
                        (mutate_rounds-Ensures rounds r.0 d2
                          (record {
                            sized = v.sized;
                            room = omega (arith, a.same_length, v.room);
                            bytes = a.bytes;
                          })
                          (omega (arith, a.same_length)) w2))

  module _ {mem : List ℕ} {size max_size : ℕ} (v : IsInput mem size max_size) (pos : 0 < max_size)
      (wide : length mem < 2 ^ 63) (d : Dispatcher) (w : IsDispatcher d) where
    -- `Mutate` never faults, whatever the generator's state and whatever the fuzz target's
    -- functions return within their contract, where the input lies in an array of fewer than 2^63
    -- bytes, some bytes may be written, and the dispatcher's invariant holds. The result is not
    -- empty, fits, is a list of bytes, is ASCII where `OnlyASCII` asks for it, and the invariant
    -- holds afterwards.
    pub mutate-Ensures :
        Ensures
          (mutate options tables ext mem size max_size)
          d
          (λ r e. IsMutated mem max_size r × IsDispatcher e)
    unfolding mutate mutate_impl
    mutate-Ensures = assert-Ensures (lt→ltb 0 max_size pos) (
        mutate_rounds-Ensures (mutators options ext) (length-mutators options ext)
          (mutators-CanRun options ext) size max_size pos 100 mem d v wide w)

    -- `DefaultMutate` has the properties of `Mutate`, under the same conditions.
    pub default_mutate-Ensures :
        Ensures
          (default_mutate options tables ext mem size max_size)
          d
          (λ r e. IsMutated mem max_size r × IsDispatcher e)
    unfolding default_mutate mutate_impl default_mutators
    default_mutate-Ensures = assert-Ensures (lt→ltb 0 max_size pos) (
        mutate_rounds-Ensures (default_mutators options) (omega arith)
          (default_mutators-CanRun options ext) size max_size pos 100 mem d v wide w)
