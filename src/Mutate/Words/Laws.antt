-- ===== src/Mutate/Words/Laws.antt =====
-- `ApplyDictionaryEntry` of FuzzerMutate.cpp does not fault, and where it puts the word.
use pfuzzer.Base.{
  ℕ, ◌+◌, ◌-◌, ◌%◌, ◌^◌, ◌≤◌, ◌<◌, ◌≡◌, refl, ◌⊎◌, inl, inr, ltb, ◌&&◌, Bool, true, false, not,
  ◌==◌, List, length, take, drop, arith, ltb_false→le, some, ◌≢◌,
}
use pfuzzer.Base.Slices.{take_all}
use pfuzzer.Base.Comp.{
  Ensures, pure-Ensures, bind-Ensures, minus-Ensures, lift-Ensures, lift_last-Ensures, if-Ensures,
  Ensures-mono,
}
use pfuzzer.Base.Memory.{overwrite, copy_bytes_lem, take-overwrite}
use pfuzzer.Random.Laws.{rand-Ensures, rand_bool-Ensures}
use pfuzzer.Dictionary.{Entry, no_hint, has_position_hint, get_position_hint}
use pfuzzer.Dictionary.Laws.{IsEntry}
use pfuzzer.Mutate.Edit.{Edit, IsEdited, IsInput, result}
use pfuzzer.Mutate.Frame.{
  Failed, failed-IsEdited, overwrite-IsEdited, length-input, length-gap, Inserted, open_gap_lem,
}
use pfuzzer.Mutate.Words.{
  use_position_hint, choose_index, insert_word, overwrite_word, apply_dictionary_entry,
}

-- The word is written over the input at `idx`.
abbrev pub WrittenOver : List ℕ → List ℕ → Edit → Type 0
WrittenOver w old r =
    (idx : ℕ) × (idx + length w ≤ length old)
    × (r.1 ≡ length old)
    × (result r ≡ overwrite old idx w)

module _ {mem : List ℕ} {size max_size : ℕ} (v : IsInput mem size max_size)
    (wide : length mem < 2 ^ 63) (entry : Entry) (ok : IsEntry entry) where
  -- A hint that is used leaves room for the word.
  abbrev Hinted : Bool → Type 0
  Hinted hinted =
      hinted ≡ true
      → (entry.position_hint ≢ no_hint) × (entry.position_hint + length entry.word < size)

  use_position_hint-Hinted :
      (s : ℕ) → Ensures (use_position_hint entry size) s (λ hinted t. Hinted hinted)
  unfolding use_position_hint has_position_hint
  use_position_hint-Hinted s =
      if-Ensures _ (λ h. Ensures-mono (λ b t _ e. fits h) (rand_bool-Ensures s))
        λ _. pure-Ensures false (λ e. absurd (cc))
    where
      small : length entry.word ≤ 64
      small = ok.fits

      fits :
          (not (entry.position_hint == no_hint)
              && ltb ((entry.position_hint + length entry.word) % 2 ^ 64) size)
            ≡ true
          → (entry.position_hint ≢ no_hint) × (entry.position_hint + length entry.word < size)
      fits h = ground (arith, ok.hint, small)

  choose_index-le :
      (hinted : Bool) (bound s : ℕ)
      → Hinted hinted
      → size + 1 ≤ bound + length entry.word
      → 0 < bound
      → Ensures (choose_index entry hinted bound) s (λ idx t. idx < bound)
  unfolding choose_index
  choose_index-le hinted bound s h k pos =
      if-Ensures hinted (λ e. lift_last-Ensures (hint_lem (h e).0) (omega (arith, h e)))
        λ _. Ensures-mono (λ r t q. omega arith) (rand-Ensures bound s)
    where
      hint_lem : entry.position_hint ≢ no_hint → get_position_hint entry ≡ some entry.position_hint
      hint_lem ne = ground arith

  insert_word-Ensures :
      (hinted : Bool) (s : ℕ)
      → Hinted hinted
      → Ensures
          (insert_word mem size max_size entry hinted)
          s
          (λ r t. IsEdited mem max_size r × (Failed mem r ⊎ Inserted (take size mem) entry.word r))
  unfolding insert_word
  insert_word-Ensures hinted s h =
      let n = length entry.word in
      let small : n ≤ 64 = ok.fits in
      if-Ensures (ltb max_size ((size + n) % 2 ^ 64))
        (λ _. pure-Ensures _ (failed-IsEdited v, inl (refl, refl)))
        λ room.
          let g : size + n ≤ max_size =
            omega (arith, ltb_false→le max_size _ room, v.sized, v.room) in
          bind-Ensures (choose_index-le hinted (size + 1) s h (omega arith) (omega arith))
            λ idx t k. minus-Ensures _ (omega arith) (
              lift-Ensures _
                (copy_bytes_lem mem mem (idx + n) idx (size - idx) (omega (arith, v.sized, v.room))
                  (omega (arith, v.room)))
                (lift-Ensures _
                  (copy_bytes_lem _ entry.word idx 0 n (omega arith) (
                    omega
                      (arith, length-gap v idx n (omega arith) (omega (arith, v.room)), v.room)))
                  (pure-Ensures _ (put idx (omega arith) g))))
    where
      put :
          (idx : ℕ)
          → idx ≤ size
          → size + length entry.word ≤ max_size
          → let n = length entry.word in
            let r : Edit = (
              overwrite
                  (overwrite mem (idx + n) (take (size - idx) (drop idx mem)))
                  idx
                  (take n entry.word),
              size + n,
            ) in
            IsEdited mem max_size r × (Failed mem r ⊎ Inserted (take size mem) entry.word r)
      put idx k g =
          let (edited, ins) = open_gap_lem v entry.word idx _ refl k g ok.bytes in
          rw (take_all (length entry.word) entry.word (omega arith)) (edited, inr ins)

  overwrite_word-Ensures :
      (hinted : Bool) (s : ℕ)
      → Hinted hinted
      → Ensures (overwrite_word mem size entry hinted) s (λ r t.
        IsEdited mem max_size r × (Failed mem r ⊎ WrittenOver entry.word (take size mem) r))
  unfolding overwrite_word
  overwrite_word-Ensures hinted s h =
      let n = length entry.word in
      if-Ensures (ltb size n) (λ _. pure-Ensures _ (failed-IsEdited v, inl (refl, refl)))
        λ room.
          let g : n ≤ size = ltb_false→le size n room in
          minus-Ensures _ (omega arith) (
            bind-Ensures (choose_index-le hinted (size + 1 - n) s h (omega arith) (omega arith))
              λ idx t k.
                lift-Ensures _
                  (copy_bytes_lem mem entry.word idx 0 n (omega arith)
                    (omega (arith, v.sized, v.room)))
                  (pure-Ensures _ (put idx (omega arith))))
    where
      put :
          (idx : ℕ)
          → idx + length entry.word ≤ size
          → let r : Edit = (overwrite mem idx (take (length entry.word) entry.word), size) in
            IsEdited mem max_size r × (Failed mem r ⊎ WrittenOver entry.word (take size mem) r)
      put idx k = rw (take_all (length entry.word) entry.word (omega arith)) (
        overwrite-IsEdited v entry.word idx size (omega (arith, v.sized, v.room)) ok.bytes v.sized,
        inr (
          idx,
          omega (arith, length-input v),
          omega (arith, length-input v),
          take-overwrite mem entry.word idx size k (omega (arith, v.sized, v.room)),
        ),
      )

  -- `ApplyDictionaryEntry` of a valid entry, in an array of fewer than 2^63 bytes, never faults;
  -- it fails without a change, puts the word into the input, or writes it over a part of the
  -- input, and changes nothing else.
  pub apply_dictionary_entry-Ensures :
      (s : ℕ)
      → Ensures (apply_dictionary_entry mem size max_size entry) s (λ r t.
        IsEdited mem max_size r
        × (Failed mem r
            ⊎ Inserted (take size mem) entry.word r
            ⊎ WrittenOver entry.word (take size mem) r))
  unfolding apply_dictionary_entry
  apply_dictionary_entry-Ensures s = bind-Ensures (use_position_hint-Hinted s) λ hinted t h.
      bind-Ensures (rand_bool-Ensures t) λ insert u _.
        if-Ensures insert
          (λ _. Ensures-mono (λ r w q. (q.0, inserts r q.1)) (insert_word-Ensures hinted u h))
          λ _. Ensures-mono (λ r w q. (q.0, writes r q.1)) (overwrite_word-Ensures hinted u h)
    where
      inserts :
          (r : Edit)
          → Failed mem r ⊎ Inserted (take size mem) entry.word r
          → Failed mem r
            ⊎ Inserted (take size mem) entry.word r
            ⊎ WrittenOver entry.word (take size mem) r
      inserts r (inl f) = inl f
      inserts r (inr q) = inr (inl q)

      writes :
          (r : Edit)
          → Failed mem r ⊎ WrittenOver entry.word (take size mem) r
          → Failed mem r
            ⊎ Inserted (take size mem) entry.word r
            ⊎ WrittenOver entry.word (take size mem) r
      writes r (inl f) = inl f
      writes r (inr q) = inr (inr q)
