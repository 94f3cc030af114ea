-- ===== src/Mutate/Dispatch/Dictionaries.antt =====
-- `Mutate_AddWordFromTORC` and `AddWordFromDictionary` of FuzzerMutate.cpp keep the dispatcher's
-- invariant.
use pfuzzer.Base.{
  ℕ, zero, suc, ◌+◌, ◌%◌, ◌^◌, ◌<◌, ◌≡◌, refl, ltb, ◌==◌, Bool, true, false, List, [], ◌∷◌, ◌++◌,
  some, length, get_elem?, set, All, tests, arith, sym, ◌∙◌, subst, All-get_elem?, get_elem?_lt,
  All-append, All-set, length-set, get_elem?-set_self,
}
use pfuzzer.Base.Comp.{
  Comp, Ensures, returns, ◌>>=◌, pure-Ensures, bind-Ensures, then-Ensures, lift-Ensures, if-Ensures,
  Ensures-mono,
}
use pfuzzer.Random.Laws.{rand-Ensures}
use pfuzzer.Dictionary.{Entry, inc_use_count}
use pfuzzer.Dictionary.Laws.{IsEntry}
use pfuzzer.Mutate.Edit.{Edit, IsEdited, IsInput}
use pfuzzer.Mutate.Frame.{failed-IsEdited}
use pfuzzer.Mutate.Words.Laws.{apply_dictionary_entry-Ensures}
use pfuzzer.Mutate.State.{
  EntryRef, in_manual, in_persistent, in_cmp, Mutator, Dispatcher, on_random, deref, assign,
}
use pfuzzer.Mutate.State.Laws.{
  on_random-Ensures, IsUsable, IsRef, IsDispatcher, KeepsRefs, All-kept, IsRef-kept,
  assign-KeepsRefs,
}
use pfuzzer.Mutate.State.Record.{assign-IsDispatcher, deref-IsEntry}
use pfuzzer.Mutate.Dispatch.{
  Options, Tables, keep_compared, add_word_from_torc, the_state, ref_in, dictionary_of, note_use,
  add_word_from_dictionary,
}
use pfuzzer.Mutate.Dispatch.Words.{IsTables, pick_compared-IsEntry}

pub random-IsDispatcher :
    (d e : Dispatcher) → e ≡ record d { random = e.random } → IsDispatcher d → IsDispatcher e
unfolding deref
random-IsDispatcher d e h v = subst IsDispatcher (sym h) (record {
  manual_within = v.manual_within;
  manual_usable = v.manual_usable;
  persistent_within = v.persistent_within;
  persistent_usable = v.persistent_usable;
  cmp_size = v.cmp_size;
  cmp_entry = v.cmp_entry;
  refs = All-kept d (record d { random = e.random }) d.entry_sequence kept v.refs;
  other = v.other;
  temp = v.temp;
})
  where
    kept : KeepsRefs d (record d { random = e.random })
    kept (in_manual i) x g = (x, g, refl)
    kept (in_persistent i) x g = (x, g, refl)
    kept (in_cmp i) x g = (x, g, refl)

-- An operation on the generator keeps the invariant.
pub on_random-IsDispatcher :
    {A : Type 0} {m : Comp ℕ A} {d : Dispatcher} {Q : A → ℕ → Type 0}
    → IsDispatcher d
    → Ensures m d.random Q
    → Ensures
        (on_random m)
        d
        (λ a e. IsDispatcher e × (e ≡ record d { random = e.random }) × Q a e.random)
on_random-IsDispatcher {d} v h =
    Ensures-mono (λ a e q. (random-IsDispatcher d e q.0 v, q.0, q.1)) (on_random-Ensures h)

abbrev HasWord : List Entry → ℕ → Type 0
HasWord xs j = (x : Entry) × (get_elem? xs j ≡ some x) × (0 < length x.word)

HasWord-set :
    (xs : List Entry) (i j : ℕ) (e : Entry)
    → 0 < length e.word
    → HasWord xs j
    → HasWord (set xs i e) j
HasWord-set [] i j e p h = h
HasWord-set (x ∷ xs) zero zero e p h = (e, refl, p)
HasWord-set (x ∷ xs) zero (suc j) e p h = h
HasWord-set (x ∷ xs) (suc i) zero e p h = h
HasWord-set (x ∷ xs) (suc i) (suc j) e p h = HasWord-set xs i j e p h

keep_compared-IsDispatcher :
    (e : Entry) (d : Dispatcher)
    → IsDispatcher d
    → IsEntry e
    → 0 < length e.word
    → Ensures (keep_compared e) d (λ a d'. IsDispatcher d')
unfolding keep_compared deref
keep_compared-IsDispatcher e d v h p = returns tt _ refl (record {
  manual_within = v.manual_within;
  manual_usable = v.manual_usable;
  persistent_within = v.persistent_within;
  persistent_usable = v.persistent_usable;
  cmp_size = length-set d.cmp_entries i e ∙ v.cmp_size;
  cmp_entry = All-set IsEntry d.cmp_entries i e h v.cmp_entry;
  refs =
      All-append (IsRef after) d.entry_sequence (in_cmp i ∷ []) (all_refs d.entry_sequence v.refs)
        ((e, get_elem?-set_self d.cmp_entries i e (omega (arith, v.cmp_size)), p), tt);
  other = v.other;
  temp = v.temp;
})
  where
    i : ℕ
    i = d.cmp_idx % 16

    after : Dispatcher
    after = record d {
      cmp_entries = set d.cmp_entries i e;
      cmp_idx = (d.cmp_idx + 1) % 2 ^ 64;
      entry_sequence = d.entry_sequence ++ (in_cmp i ∷ []);
    }

    one_ref : (ref : EntryRef) → IsRef d ref → IsRef after ref
    one_ref (in_manual j) g = g
    one_ref (in_persistent j) g = g
    one_ref (in_cmp j) g = HasWord-set d.cmp_entries i j e p g

    all_refs : (refs : List EntryRef) → All (IsRef d) refs → All (IsRef after) refs
    all_refs [] g = tt
    all_refs (r ∷ rs) (g, gs) = (one_ref r g, all_refs rs gs)

pub same_stores :
    (a : Dispatcher) (refs : List EntryRef) → KeepsRefs a (record a { entry_sequence = refs })
unfolding deref
same_stores a refs (in_manual i) x g = (x, g, refl)
same_stores a refs (in_persistent i) x g = (x, g, refl)
same_stores a refs (in_cmp i) x g = (x, g, refl)

pub mutators-IsDispatcher :
    (d : Dispatcher) (ms : List Mutator)
    → IsDispatcher d
    → IsDispatcher (record d { mutator_sequence = ms })
unfolding deref
mutators-IsDispatcher d ms v = record {
  manual_within = v.manual_within;
  manual_usable = v.manual_usable;
  persistent_within = v.persistent_within;
  persistent_usable = v.persistent_usable;
  cmp_size = v.cmp_size;
  cmp_entry = v.cmp_entry;
  refs = All-kept d (record d { mutator_sequence = ms }) d.entry_sequence kept v.refs;
  other = v.other;
  temp = v.temp;
}
  where
    kept : KeepsRefs d (record d { mutator_sequence = ms })
    kept (in_manual i) x g = (x, g, refl)
    kept (in_persistent i) x g = (x, g, refl)
    kept (in_cmp i) x g = (x, g, refl)

note_use-IsDispatcher :
    (ref : EntryRef) (d : Dispatcher)
    → IsDispatcher d
    → IsRef d ref
    → Ensures (note_use ref) d (λ a d'. IsDispatcher d')
unfolding note_use inc_use_count
note_use-IsDispatcher ref d v (e, h, p) = returns tt _ (rw (h, note_use) refl) (
    appended (assign d ref (inc_use_count e))
      (assign-IsDispatcher d ref e (inc_use_count e) v h refl refl)
      (IsRef-kept d (assign d ref (inc_use_count e)) ref
        (assign-KeepsRefs d ref e (inc_use_count e) h refl) (e, h, p)))
  where
    appended :
        (a : Dispatcher)
        → IsDispatcher a
        → IsRef a ref
        → IsDispatcher (record a { entry_sequence = a.entry_sequence ++ (ref ∷ []) })
    appended a w r = record {
      manual_within = w.manual_within;
      manual_usable = w.manual_usable;
      persistent_within = w.persistent_within;
      persistent_usable = w.persistent_usable;
      cmp_size = w.cmp_size;
      cmp_entry = w.cmp_entry;
      refs =
          All-kept a (record a { entry_sequence = a.entry_sequence ++ (ref ∷ []) })
            (a.entry_sequence ++ (ref ∷ [])) (same_stores a (a.entry_sequence ++ (ref ∷ [])))
            (All-append (IsRef a) a.entry_sequence (ref ∷ []) w.refs (r, tt));
      other = w.other;
      temp = w.temp;
    }

pub the_state_then :
    {A : Type 0} (f : Dispatcher → Comp Dispatcher A) {d : Dispatcher} {R : A → Dispatcher → Type 0}
    → Ensures (f d) d R
    → Ensures (the_state >>= f) d R
unfolding the_state ◌>>=◌
the_state_then f (returns a t e q) = returns a t e q

IsRef-random :
    (d e : Dispatcher) (ref : EntryRef)
    → e ≡ record d { random = e.random }
    → IsRef d ref
    → IsRef e ref
unfolding deref
IsRef-random d e (in_manual i) h r = subst (λ c. IsRef c (in_manual i)) (sym h) r
IsRef-random d e (in_persistent i) h r = subst (λ c. IsRef c (in_persistent i)) (sym h) r
IsRef-random d e (in_cmp i) h r = subst (λ c. IsRef c (in_cmp i)) (sym h) r

-- Every entry of a dictionary is one that a reference leads to.
dictionary-IsRef :
    (is_manual : Bool) (d : Dispatcher) (i : ℕ)
    → IsDispatcher d
    → i < length (dictionary_of is_manual d)
    → IsRef d (ref_in is_manual i)
unfolding deref
dictionary-IsRef true d i w h =
    let (e, at) = get_elem?_lt d.manual i h in
    (e, at, (All-get_elem? IsUsable d.manual i e w.manual_usable at).some_bytes)
dictionary-IsRef false d i w h =
    let (e, at) = get_elem?_lt d.persistent i h in
    (e, at, (All-get_elem? IsUsable d.persistent i e w.persistent_usable at).some_bytes)

-- The array is edited within its bounds, and the dispatcher's invariant holds.
abbrev pub KeepsAll : List ℕ → ℕ → Edit → Dispatcher → Type 0
KeepsAll mem max_size r d = IsEdited mem max_size r × IsDispatcher d

module _ {mem : List ℕ} {size max_size : ℕ} (v : IsInput mem size max_size)
    (wide : length mem < 2 ^ 63) where
  -- `Mutate_AddWordFromTORC`, on tables of recent comparisons that hold words, never faults,
  -- keeps to the array, and keeps the dispatcher's invariant; in particular no reference in the
  -- sequence of used entries ever leads to an empty word, though the places of the entries are
  -- used again.
  pub add_word_from_torc-KeepsAll :
      (options : Options) (tables : Tables) (d : Dispatcher)
      → IsTables tables
      → IsDispatcher d
      → Ensures (add_word_from_torc options tables mem size max_size) d (KeepsAll mem max_size)
  unfolding add_word_from_torc
  add_word_from_torc-KeepsAll options tables d ok w =
      bind-Ensures (on_random-IsDispatcher w (pick_compared-IsEntry v wide options tables ok _))
        λ e d1 (w1, _, h).
          if-Ensures (length e.word == 0) (λ _. pure-Ensures _ (failed-IsEdited v, w1))
            λ some_bytes.
              bind-Ensures (on_random-IsDispatcher w1 (apply_dictionary_entry-Ensures v wide e h _))
                λ r d2 (w2, _, q).
                  if-Ensures (r.1 == 0) (λ _. pure-Ensures r (q.0, w2))
                    λ _.
                      then-Ensures
                        (keep_compared-IsDispatcher e d2 w2 h (omega (tests, some_bytes)))
                        λ _ d3 w3. pure-Ensures r (q.0, w3)

  -- `AddWordFromDictionary`, on either dictionary, never faults, keeps to the array, and keeps
  -- the dispatcher's invariant.
  pub add_word_from_dictionary-KeepsAll :
      (is_manual : Bool) (d : Dispatcher)
      → IsDispatcher d
      → Ensures (add_word_from_dictionary is_manual mem size max_size) d (KeepsAll mem max_size)
  unfolding add_word_from_dictionary
  add_word_from_dictionary-KeepsAll is_manual d w =
      if-Ensures (ltb max_size size) (λ _. pure-Ensures _ (failed-IsEdited v, w))
        λ _. the_state_then _ (
          if-Ensures (length (dictionary_of is_manual d) == 0)
            (λ _. pure-Ensures _ (failed-IsEdited v, w))
            λ some_entries.
              bind-Ensures
                (on_random-IsDispatcher w (rand-Ensures (length (dictionary_of is_manual d)) _))
                λ i d1 (w1, s1, b).
                  let ref : EntryRef = ref_in is_manual i in
                  let (e, at, p) = dictionary-IsRef is_manual d i w (omega (tests, some_entries)) in
                  lift-Ensures _ at (
                    bind-Ensures
                      (on_random-IsDispatcher w1
                        (apply_dictionary_entry-Ensures v wide e (deref-IsEntry d ref e w at) _))
                      λ r d2 (w2, s2, q).
                        if-Ensures (r.1 == 0) (λ _. pure-Ensures r (q.0, w2))
                          λ _.
                            then-Ensures
                              (note_use-IsDispatcher ref d2 w2
                                (IsRef-random d1 d2 ref s2 (IsRef-random d d1 ref s1 (e, at, p))))
                              λ _ d3 w3. pure-Ensures r (q.0, w3)))
