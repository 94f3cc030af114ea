-- ===== src/Mutate/State/Record.antt =====
-- `RecordSuccessfulMutationSequence` of FuzzerMutate.cpp: its assertion holds, and the words that
-- were used are in the persistent dictionary afterwards.
use pfuzzer.Base.{
  ℕ, ◌+◌, ◌-◌, ◌^◌, ◌≤◌, ◌<◌, ◌≡◌, refl, ◌⊎◌, ◌==◌, Bool, true, false, if◌then◌else◌, List, [], ◌∷◌,
  some, length, All, arith, ap, sym, ◌∙◌, subst, length-set, length-append, All-set, All-append,
  All-get_elem?,
}
use pfuzzer.Base.Memory.{IsByte}
use pfuzzer.Base.Bytes.{bytes_eq_refl}
use pfuzzer.Dictionary.{
  Word, Entry, Dictionary, max_dict_size, inc_success_count, contains_word, push_back,
}
use pfuzzer.Dictionary.Laws.{IsEntry, contains_word-push_back}
use pfuzzer.Mutate.State.{
  EntryRef, in_manual, in_persistent, in_cmp, Dispatcher, deref, assign, record_entry,
  record_entries, record_successful_mutation_sequence,
}
use pfuzzer.Mutate.State.Laws.{
  IsUsable, IsRef, IsDispatcher, KeepsRefs, assign-KeepsRefs, push_persistent-KeepsRefs, All-kept,
  contains_word-set_word, some_eq,
}

-- The same word and hint, and other counts.
record IsRecount (old e : Entry) : Type 0 where
  word : e.word ≡ old.word
  hint : e.position_hint ≡ old.position_hint

recount-IsEntry : (old e : Entry) → IsRecount old e → IsEntry old → IsEntry e
recount-IsEntry old e r v = record {
  fits = subst (λ w. length w ≤ 64) (sym r.word) v.fits;
  bytes = subst (All IsByte) (sym r.word) v.bytes;
  hint = subst (λ h. (h ≡ 2 ^ 64 - 1) ⊎ (h < 2 ^ 63)) (sym r.hint) v.hint;
}

recount-IsUsable : (old e : Entry) → IsRecount old e → IsUsable old → IsUsable e
recount-IsUsable old e r v = record {
  entry = recount-IsEntry old e r v.entry;
  some_bytes = subst (λ w. 0 < length w) (sym r.word) v.some_bytes;
}

pub assign-IsDispatcher :
    (d : Dispatcher) (ref : EntryRef) (old e : Entry)
    → IsDispatcher d
    → deref d ref ≡ some old
    → e.word ≡ old.word
    → e.position_hint ≡ old.position_hint
    → IsDispatcher (assign d ref e)
unfolding assign deref
assign-IsDispatcher d (in_manual i) old e v h w p = record {
  manual_within = omega (arith, v.manual_within, length-set d.manual i e);
  manual_usable =
      All-set IsUsable d.manual i e
        (recount-IsUsable old e (record { word = w; hint = p })
          (All-get_elem? IsUsable d.manual i old v.manual_usable h))
        v.manual_usable;
  persistent_within = v.persistent_within;
  persistent_usable = v.persistent_usable;
  cmp_size = v.cmp_size;
  cmp_entry = v.cmp_entry;
  refs =
      All-kept d (assign d (in_manual i) e) d.entry_sequence
        (assign-KeepsRefs d (in_manual i) old e h w) v.refs;
  other = v.other;
  temp = v.temp;
}
assign-IsDispatcher d (in_persistent i) old e v h w p = record {
  manual_within = v.manual_within;
  manual_usable = v.manual_usable;
  persistent_within = omega (arith, v.persistent_within, length-set d.persistent i e);
  persistent_usable =
      All-set IsUsable d.persistent i e
        (recount-IsUsable old e (record { word = w; hint = p })
          (All-get_elem? IsUsable d.persistent i old v.persistent_usable h))
        v.persistent_usable;
  cmp_size = v.cmp_size;
  cmp_entry = v.cmp_entry;
  refs =
      All-kept d (assign d (in_persistent i) e) d.entry_sequence
        (assign-KeepsRefs d (in_persistent i) old e h w) v.refs;
  other = v.other;
  temp = v.temp;
}
assign-IsDispatcher d (in_cmp i) old e v h w p = record {
  manual_within = v.manual_within;
  manual_usable = v.manual_usable;
  persistent_within = v.persistent_within;
  persistent_usable = v.persistent_usable;
  cmp_size = length-set d.cmp_entries i e ∙ v.cmp_size;
  cmp_entry =
      All-set IsEntry d.cmp_entries i e
        (recount-IsEntry old e (record { word = w; hint = p })
          (All-get_elem? IsEntry d.cmp_entries i old v.cmp_entry h))
        v.cmp_entry;
  refs =
      All-kept d (assign d (in_cmp i) e) d.entry_sequence (assign-KeepsRefs d (in_cmp i) old e h w)
        v.refs;
  other = v.other;
  temp = v.temp;
}

push_back-All :
    (P : Entry → Type 0) (d : Dictionary) (e : Entry)
    → length d ≤ max_dict_size
    → All P d
    → P e
    → (length (push_back d e) ≤ max_dict_size) × All P (push_back d e)
unfolding push_back
push_back-All P d e h a p =
    ground (arith, length-append d (e ∷ []), All-append P d (e ∷ []) a (p, tt))

push_persistent-IsDispatcher :
    (d : Dispatcher) (e : Entry)
    → IsDispatcher d
    → IsUsable e
    → IsDispatcher (record d { persistent = push_back d.persistent e })
push_persistent-IsDispatcher d e v u =
    let (h, a) = push_back-All IsUsable d.persistent e v.persistent_within v.persistent_usable u in
    record {
      manual_within = v.manual_within;
      manual_usable = v.manual_usable;
      persistent_within = h;
      persistent_usable = a;
      cmp_size = v.cmp_size;
      cmp_entry = v.cmp_entry;
      refs =
          All-kept d (record d { persistent = push_back d.persistent e }) d.entry_sequence
            (push_persistent-KeepsRefs d e) v.refs;
      other = v.other;
      temp = v.temp;
    }

pub deref-IsEntry :
    (d : Dispatcher) (ref : EntryRef) (e : Entry)
    → IsDispatcher d
    → deref d ref ≡ some e
    → IsEntry e
unfolding deref
deref-IsEntry d (in_manual i) e v h = (All-get_elem? IsUsable d.manual i e v.manual_usable h).entry
deref-IsEntry d (in_persistent i) e v h =
    (All-get_elem? IsUsable d.persistent i e v.persistent_usable h).entry
deref-IsEntry d (in_cmp i) e v h = All-get_elem? IsEntry d.cmp_entries i e v.cmp_entry h

-- The dictionary after an assignment contains the words it did.
contains_word-assign :
    (d : Dispatcher) (ref : EntryRef) (old e : Entry) (w : Word)
    → deref d ref ≡ some old
    → e.word ≡ old.word
    → (contains_word (assign d ref e).persistent w ≡ contains_word d.persistent w)
      × (length (assign d ref e).persistent ≡ length d.persistent)
unfolding deref assign
contains_word-assign d (in_manual i) old e w h s = (refl, refl)
contains_word-assign d (in_persistent i) old e w h s =
    (contains_word-set_word old e s d.persistent i w h, length-set d.persistent i e)
contains_word-assign d (in_cmp i) old e w h s = (refl, refl)

-- What recording one entry does.
record IsRecorded (d : Dispatcher) (w : Word) (d' : Dispatcher) : Type 0 where
  valid : IsDispatcher d'
  kept : KeepsRefs d d'
  grows : length d'.persistent ≤ length d.persistent + 1
  contains : (v : Word) → contains_word d.persistent v ≡ true → contains_word d'.persistent v ≡ true
  recorded : length d.persistent < max_dict_size → contains_word d'.persistent w ≡ true

KeepsRefs-trans : (d e f : Dispatcher) → KeepsRefs d e → KeepsRefs e f → KeepsRefs d f
KeepsRefs-trans d e f k l ref x h =
    let (y, h', w) = k ref x h in let (z, h'', w') = l ref y h' in (z, h'', w' ∙ w)

length-push_back : (d : Dictionary) (e : Entry) → length (push_back d e) ≤ length d + 1
unfolding push_back
length-push_back d e = ground (arith, length-append d (e ∷ []))

push_back-contains :
    (d : Dictionary) (e : Entry)
    → ((v : Word) → contains_word d v ≡ true → contains_word (push_back d e) v ≡ true)
      × (length d < max_dict_size → contains_word (push_back d e) e.word ≡ true)
      × (length (push_back d e) ≤ length d + 1)
push_back-contains d e = (
  λ v h. ground (arith, contains_word-push_back d e v, h),
  λ h. ground (arith, contains_word-push_back d e e.word, bytes_eq_refl e.word, h),
  length-push_back d e,
)

module _ (d : Dispatcher) (ref : EntryRef) (old : Entry) (v : IsDispatcher d)
    (at : deref d ref ≡ some old) (some_bytes : 0 < length old.word) where
  pushed_or_not :
      (e : Entry)
      → e.word ≡ old.word
      → e.position_hint ≡ old.position_hint
      → (b : Bool) → contains_word (assign d ref e).persistent e.word ≡ b
      → IsRecorded d old.word (
          if b
          then assign d ref e
          else record (assign d ref e) { persistent = push_back (assign d ref e).persistent e })
  pushed_or_not e w p true h =
      let (c, l) = contains_word-assign d ref old e e.word at w in
      record {
        valid = assign-IsDispatcher d ref old e v at w p;
        kept = assign-KeepsRefs d ref old e at w;
        grows = omega (arith, l);
        contains = λ v h. (contains_word-assign d ref old e v at w).0 ∙ h;
        recorded = λ _. subst (λ u. contains_word (assign d ref e).persistent u ≡ true) w h;
      }
  pushed_or_not e w p false h =
      let a : Dispatcher = assign d ref e in
      let (c, l) = contains_word-assign d ref old e e.word at w in
      let (kept, new, le) = push_back-contains a.persistent e in
      record {
        valid = push_persistent-IsDispatcher a e (assign-IsDispatcher d ref old e v at w p) (
            recount-IsUsable old e (record { word = w; hint = p })
              (record { entry = deref-IsEntry d ref old v at; some_bytes = some_bytes }));
        kept =
            KeepsRefs-trans d a _ (assign-KeepsRefs d ref old e at w)
              (push_persistent-KeepsRefs a e);
        grows = omega (arith, l, le);
        contains = λ v h. kept v ((contains_word-assign d ref old e v at w).0 ∙ h);
        recorded = λ room.
            subst (λ u. contains_word (push_back a.persistent e) u ≡ true) w
              (new (omega (arith, l, room)));
      }

  record_entry-IsRecorded : IsRecorded d old.word (record_entry d ref old)
  unfolding record_entry inc_success_count
  record_entry-IsRecorded = pushed_or_not _ refl refl _ refl

-- The words that these entries have are in the persistent dictionary.
abbrev pub AllRecorded : Dispatcher → List EntryRef → Dispatcher → Type 0
AllRecorded d refs d' =
    All (λ ref. (e : Entry) × (deref d ref ≡ some e) × (contains_word d'.persistent e.word ≡ true))
      refs

nonzero : (n : ℕ) → 0 < n → (n == 0) ≡ false
nonzero n h = ground arith

recorded_before :
    (d d1 d' : Dispatcher) (refs : List EntryRef)
    → KeepsRefs d d1
    → All (IsRef d) refs
    → AllRecorded d1 refs d'
    → AllRecorded d refs d'
recorded_before d d1 d' [] k h a = tt
recorded_before d d1 d' (ref ∷ refs) k ((x, at, p), hs) ((y, at', c), cs) =
    let (z, at'', w) = k ref x at in
    (
      (
        x,
        at,
        subst (λ u. contains_word d'.persistent u ≡ true)
            (ap (λ (e : Entry). e.word) (some_eq (sym at' ∙ at'')) ∙ w) c,
      ),
      recorded_before d d1 d' refs k hs cs,
    )

record_entries_lem :
    (refs : List EntryRef) (d : Dispatcher)
    → IsDispatcher d
    → All (IsRef d) refs
    → (d' : Dispatcher) × (record_entries refs d ≡ some d')
      × IsDispatcher d'
      × ((v : Word) → contains_word d.persistent v ≡ true → contains_word d'.persistent v ≡ true)
      × (length d.persistent + length refs ≤ max_dict_size → AllRecorded d refs d')
unfolding record_entries
record_entries_lem [] d v h = (d, refl, v, (λ w c. c), λ _. tt)
record_entries_lem (ref ∷ refs) d v ((old, at, p), hs) =
    let s = record_entry-IsRecorded d ref old v at p in
    let d1 : Dispatcher = record_entry d ref old in
    let (d', e, v', c, a) = record_entries_lem refs d1 s.valid (All-kept d d1 refs s.kept hs) in
    (
      d',
      rw (at, record_entries) (rw (nonzero _ p) e),
      v',
      λ w h. c w (s.contains w h),
      λ room. (
        (old, at, c old.word (s.recorded (omega arith))),
        recorded_before d d1 d' refs s.kept hs (a (omega (arith, s.grows, room))),
      ),
    )

-- `RecordSuccessfulMutationSequence` never fails its assertion, and keeps the dispatcher's
-- invariant.
pub record_successful_mutation_sequence-IsDispatcher :
    (d : Dispatcher)
    → IsDispatcher d
    → (d' : Dispatcher) × (record_successful_mutation_sequence d ≡ some d') × IsDispatcher d'
unfolding record_successful_mutation_sequence
record_successful_mutation_sequence-IsDispatcher d v =
    let (d', e, v', c, a) = record_entries_lem d.entry_sequence d v v.refs in (d', e, v')

-- Where the persistent dictionary has room for as many words as entries were used, it contains
-- the words of all of them after `RecordSuccessfulMutationSequence`.
pub record_successful_mutation_sequence-AllRecorded :
    (d : Dispatcher)
    → IsDispatcher d
    → length d.persistent + length d.entry_sequence ≤ max_dict_size
    → (d' : Dispatcher) × (record_successful_mutation_sequence d ≡ some d')
      × AllRecorded d d.entry_sequence d'
unfolding record_successful_mutation_sequence
record_successful_mutation_sequence-AllRecorded d v room =
    let (d', e, v', c, a) = record_entries_lem d.entry_sequence d v v.refs in (d', e, a room)

-- A word that the persistent dictionary contains is still there after recording.
pub record_successful_mutation_sequence-contains :
    (d : Dispatcher) (w : Word)
    → IsDispatcher d
    → contains_word d.persistent w ≡ true
    → (d' : Dispatcher) × (record_successful_mutation_sequence d ≡ some d')
      × (contains_word d'.persistent w ≡ true)
unfolding record_successful_mutation_sequence
record_successful_mutation_sequence-contains d w v h =
    let (d', e, v', c, a) = record_entries_lem d.entry_sequence d v v.refs in (d', e, c w h)
