-- ===== src/Mutate/State/Laws.antt =====
-- The invariant of `MutationDispatcher`'s dictionaries (FuzzerMutate.h), and what recording a
-- successful sequence of mutations does.
use pfuzzer.Base.{
  ℕ, zero, suc, ◌≤◌, ◌<◌, ◌≡◌, refl, ltb, ◌||◌, Bool, true, false, if◌then◌else◌, List, [], ◌∷◌,
  ◌++◌, some, length, get_elem?, set, All, ap, sym, ◌∙◌, subst,
}
use pfuzzer.Base.Comp.{Comp, Ensures, returns}
use pfuzzer.Dictionary.{Word, Entry, max_dict_size, contains_word, push_back}
use pfuzzer.Dictionary.Laws.{IsEntry}
use pfuzzer.Base.Memory.{IsByte}
use pfuzzer.Base.Bytes.{bytes_eq}
use pfuzzer.Mutate.State.{
  EntryRef, in_manual, in_persistent, in_cmp, Dispatcher, cmp_entries_size, on_random, deref,
  assign,
}

-- An operation on the generator changes nothing else.
pub on_random-Ensures :
    {A : Type 0} {m : Comp ℕ A} {d : Dispatcher} {Q : A → ℕ → Type 0}
    → Ensures m d.random Q
    → Ensures (on_random m) d (λ a e. (e ≡ record d { random = e.random }) × Q a e.random)
unfolding on_random
on_random-Ensures {d} (returns a t e q) =
    returns a (record d { random = t }) (rw (e, on_random) refl) (refl, q)

-- An entry whose word is not empty.
pub record IsUsable (e : Entry) : Type 0 where
  pub entry : IsEntry e
  pub some_bytes : 0 < length e.word

-- The reference leads to an entry whose word is not empty.
abbrev pub IsRef : Dispatcher → EntryRef → Type 0
IsRef d ref = (e : Entry) × (deref d ref ≡ some e) × (0 < length e.word)

pub record IsDispatcher (d : Dispatcher) : Type 0 where
  pub manual_within : length d.manual ≤ max_dict_size
  pub manual_usable : All IsUsable d.manual
  pub persistent_within : length d.persistent ≤ max_dict_size
  pub persistent_usable : All IsUsable d.persistent
  pub cmp_size : length d.cmp_entries ≡ cmp_entries_size
  pub cmp_entry : All IsEntry d.cmp_entries
  pub refs : All (IsRef d) d.entry_sequence
  pub other : (o : List ℕ) → d.cross_over_with ≡ some o → All IsByte o
  pub temp : All IsByte d.mask_temp

pub some_eq : {A : Type 0} {a b : A} → some a ≡ some b → a ≡ b
some_eq h = cc

-- Lists of entries in which one entry changes, but not its word.
module _ (old e : Entry) (same : e.word ≡ old.word) where
  get_elem?-set_word :
      (xs : List Entry) (i j : ℕ) (x : Entry)
      → get_elem? xs i ≡ some old
      → get_elem? xs j ≡ some x
      → (y : Entry) × (get_elem? (set xs i e) j ≡ some y) × (y.word ≡ x.word)
  get_elem?-set_word [] i j x h g = absurd (cc)
  get_elem?-set_word (z ∷ xs) zero zero x h g =
      (e, refl, same ∙ ap (λ (v : Entry). v.word) (sym (some_eq h) ∙ some_eq g))
  get_elem?-set_word (z ∷ xs) zero (suc j) x h g = (x, g, refl)
  get_elem?-set_word (z ∷ xs) (suc i) zero x h g = (x, g, refl)
  get_elem?-set_word (z ∷ xs) (suc i) (suc j) x h g = get_elem?-set_word xs i j x h g

  pub contains_word-set_word :
      (xs : List Entry) (i : ℕ) (w : Word)
      → get_elem? xs i ≡ some old
      → contains_word (set xs i e) w ≡ contains_word xs w
  unfolding contains_word
  contains_word-set_word [] i w h = absurd (cc)
  contains_word-set_word (z ∷ xs) zero w h =
      ap (λ v. bytes_eq v w || contains_word xs w)
        (same ∙ ap (λ (v : Entry). v.word) (sym (some_eq h)))
  contains_word-set_word (z ∷ xs) (suc i) w h =
      ap (λ b. bytes_eq z.word w || b) (contains_word-set_word xs i w h)

get_elem?-append_left :
    (xs ys : List Entry) (j : ℕ) (x : Entry)
    → get_elem? xs j ≡ some x
    → get_elem? (xs ++ ys) j ≡ some x
get_elem?-append_left [] ys j x h = absurd (cc)
get_elem?-append_left (z ∷ xs) ys zero x h = h
get_elem?-append_left (z ∷ xs) ys (suc j) x h = get_elem?-append_left xs ys j x h

-- References stay good, and lead to the words they led to.
abbrev pub KeepsRefs : Dispatcher → Dispatcher → Type 0
KeepsRefs d d' =
    (ref : EntryRef) (e : Entry)
    → deref d ref ≡ some e
    → (e' : Entry) × (deref d' ref ≡ some e') × (e'.word ≡ e.word)

pub assign-KeepsRefs :
    (d : Dispatcher) (ref : EntryRef) (old e : Entry)
    → deref d ref ≡ some old
    → e.word ≡ old.word
    → KeepsRefs d (assign d ref e)
unfolding deref assign
assign-KeepsRefs d (in_manual i) old e h same (in_manual j) x g =
    get_elem?-set_word old e same d.manual i j x h g
assign-KeepsRefs d (in_manual i) old e h same (in_persistent j) x g = (x, g, refl)
assign-KeepsRefs d (in_manual i) old e h same (in_cmp j) x g = (x, g, refl)
assign-KeepsRefs d (in_persistent i) old e h same (in_manual j) x g = (x, g, refl)
assign-KeepsRefs d (in_persistent i) old e h same (in_persistent j) x g =
    get_elem?-set_word old e same d.persistent i j x h g
assign-KeepsRefs d (in_persistent i) old e h same (in_cmp j) x g = (x, g, refl)
assign-KeepsRefs d (in_cmp i) old e h same (in_manual j) x g = (x, g, refl)
assign-KeepsRefs d (in_cmp i) old e h same (in_persistent j) x g = (x, g, refl)
assign-KeepsRefs d (in_cmp i) old e h same (in_cmp j) x g =
    get_elem?-set_word old e same d.cmp_entries i j x h g

pub push_persistent-KeepsRefs :
    (d : Dispatcher) (e : Entry) → KeepsRefs d (record d { persistent = push_back d.persistent e })
unfolding deref push_back
push_persistent-KeepsRefs d e (in_manual j) x g = (x, g, refl)
push_persistent-KeepsRefs d e (in_persistent j) x g =
    (x, kept (ltb (length d.persistent) max_dict_size), refl)
  where
    kept : (b : Bool) → get_elem? (if b then d.persistent ++ (e ∷ []) else d.persistent) j ≡ some x
    kept true = get_elem?-append_left d.persistent (e ∷ []) j x g
    kept false = g
push_persistent-KeepsRefs d e (in_cmp j) x g = (x, g, refl)

pub IsRef-kept : (d d' : Dispatcher) (ref : EntryRef) → KeepsRefs d d' → IsRef d ref → IsRef d' ref
IsRef-kept d d' ref k (e, h, p) =
    let (e', h', w) = k ref e h in (e', h', subst (λ v. 0 < length v) (sym w) p)

pub All-kept :
    (d d' : Dispatcher) (refs : List EntryRef)
    → KeepsRefs d d'
    → All (IsRef d) refs
    → All (IsRef d') refs
All-kept d d' [] k h = tt
All-kept d d' (ref ∷ refs) k (h, hs) = (IsRef-kept d d' ref k h, All-kept d d' refs k hs)
