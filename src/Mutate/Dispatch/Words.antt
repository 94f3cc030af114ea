-- ===== src/Mutate/Dispatch/Words.antt =====
-- The mutators of FuzzerMutate.cpp that add words from dictionaries and from comparisons keep the
-- dispatcher's invariant.
use pfuzzer.Base.{
  ℕ, ◌/◌, ◌%◌, ◌^◌, ◌≤◌, ◌<◌, ◌≡◌, refl, inl, ◌==◌, ◌&&◌, false, if◌then◌else◌, List, [], length,
  All, arith, sym, subst, All-get_elem?,
}
use pfuzzer.Base.Comp.{
  Ensures, pure, lift, ◌>>=◌, pure-Ensures, bind-Ensures, lift-Ensures, if-Ensures, Ensures-mono,
}
use pfuzzer.Base.Memory.{IsByte}
use pfuzzer.Random.{draw, rand_bool}
use pfuzzer.Random.Laws.{draw-Ensures, rand-Ensures, rand_bool-Ensures, rand_range_unit}
use pfuzzer.Trace.Recent.{torc_get, mmt_get}
use pfuzzer.Trace.Recent.Laws.{torc_get_lem, mmt_get_lem, IsFirst, all_empty, at}
use pfuzzer.Dictionary.{Word, entry_of}
use pfuzzer.Dictionary.Laws.{IsEntry}
use pfuzzer.Mutate.Edit.{IsInput}
use pfuzzer.Mutate.Binary.{to_bytes}
use pfuzzer.Mutate.Binary.Laws.{length-to_bytes, to_bytes-IsByte}
use pfuzzer.Mutate.Compares.{swap_or_keep, make_entry_from_integers, make_entry_from_words}
use pfuzzer.Mutate.Compares.Laws.{make_entry-Ensures}
use pfuzzer.Mutate.Dispatch.{Options, Tables, pick_compared}

pub record IsWord (w : Word) : Type 0 where
  pub fits : length w ≤ 64
  pub bytes : All IsByte w

-- The two sides of a comparison of byte strings have one length.
pub record IsPair (p : Word × Word) : Type 0 where
  pub same_length : length p.0 ≡ length p.1
  pub fst_word : IsWord p.0
  pub snd_word : IsWord p.1

-- The tables have places, and hold words.
pub record IsTables (t : Tables) : Type 0 where
  pub torc4_size : 0 < length t.torc4
  pub torc8_size : 0 < length t.torc8
  pub torcw_size : 0 < length t.torcw
  pub mmt_size : 0 < length t.mmt
  pub torcw_pairs : All IsPair t.torcw
  pub mmt_words : All IsWord t.mmt

module _ {mem : List ℕ} {size max_size : ℕ} (v : IsInput mem size max_size)
    (wide : length mem < 2 ^ 63) where
  swap_or_keep-Ensures : (width arg s : ℕ) → Ensures (swap_or_keep width arg) s (λ x t. Unit {0})
  unfolding swap_or_keep
  swap_or_keep-Ensures width arg s = bind-Ensures (rand_bool-Ensures s) λ b t _. pure-Ensures _ tt

  make_entry_from_integers-IsEntry :
      (width a b s : ℕ)
      → width ≤ 64
      → Ensures (make_entry_from_integers width a b mem size) s (λ e t. IsEntry e)
  unfolding make_entry_from_integers
  make_entry_from_integers-IsEntry width a b s h =
      bind-Ensures (swap_or_keep-Ensures width a s) λ x t _.
        bind-Ensures (swap_or_keep-Ensures width b t) λ y u _.
          bind-Ensures (rand_range_unit u) λ d1 w _. bind-Ensures (rand_range_unit w) λ d2 z _.
            Ensures-mono (λ e t q. q.0)
              (make_entry-Ensures h mem size (omega (arith, v.sized, v.room)) wide _ _ _ _ z
                (side width _) (side width _))
    where
      side : (width x : ℕ) → (width ≤ length (to_bytes width x)) × All IsByte (to_bytes width x)
      side width x = (omega (arith, length-to_bytes width x), to_bytes-IsByte width x)

  make_entry_from_words-IsEntry :
      (p : Word × Word) (s : ℕ)
      → IsPair p
      → Ensures (make_entry_from_words p.0 p.1 mem size) s (λ e t. IsEntry e)
  unfolding make_entry_from_words
  make_entry_from_words-IsEntry p s h =
      Ensures-mono (λ e t q. q.0)
        (make_entry-Ensures h.fst_word.fits mem size (omega (arith, v.sized, v.room)) wide _ _ _ _ s
          (omega arith, h.fst_word.bytes) (omega (arith, h.same_length), h.snd_word.bytes))

  entry_of-IsEntry : (w : Word) → IsWord w → IsEntry (entry_of w)
  unfolding entry_of
  entry_of-IsEntry w h = record { fits = h.fits; bytes = h.bytes; hint = inl refl }

  module _ (options : Options) (tables : Tables) (ok : IsTables tables) where
    found-IsWord : (w : Word) (idx : ℕ) → IsFirst tables.mmt idx 0 (length tables.mmt) w → IsWord w
    found-IsWord w idx (all_empty e _) =
        subst IsWord (sym e) (record { fits = omega arith; bytes = tt })
    found-IsWord w idx (at k _ _ _ e _) = All-get_elem? IsWord tables.mmt _ w ok.mmt_words e

    pub pick_compared-IsEntry :
        (s : ℕ) → Ensures (pick_compared options tables mem size) s (λ e t. IsEntry e)
    unfolding pick_compared
    pick_compared-IsEntry s = bind-Ensures (rand-Ensures 4 s) λ k t _.
        if-Ensures (k == 0) (λ _. from_torc8 t)
          λ _.
            if-Ensures (k == 1) (λ _. from_torc4 t)
              λ _.
                if-Ensures (k == 2) (λ _. from_torcw t)
                  λ _.
                    if-Ensures options.use_memmem (λ _. from_mmt t)
                      λ _.
                        pure-Ensures _
                          (entry_of-IsEntry [] (record { fits = omega arith; bytes = tt }))
      where
        from_torc8 :
            (t : ℕ)
            → Ensures
                (draw >>= λ i. lift (torc_get tables.torc8 i) >>= λ x.
                  make_entry_from_integers 8 x.0 x.1 mem size)
                t
                (λ e t. IsEntry e)
        from_torc8 t = bind-Ensures (draw-Ensures t) λ i u _.
            let (x, e, _) = torc_get_lem tables.torc8 i ok.torc8_size in
            lift-Ensures _ e (make_entry_from_integers-IsEntry 8 x.0 x.1 u (omega arith))

        from_torc4 :
            (t : ℕ)
            → Ensures
                (draw >>= λ i. lift (torc_get tables.torc4 i) >>= λ x.
                  (if x.0 / 2 ^ 16 == 0 && x.1 / 2 ^ 16 == 0 then rand_bool else pure false)
                  >>= λ narrow.
                      if narrow
                      then make_entry_from_integers 2 (x.0 % 2 ^ 16) (x.1 % 2 ^ 16) mem size
                      else make_entry_from_integers 4 x.0 x.1 mem size)
                t
                (λ e t. IsEntry e)
        from_torc4 t = bind-Ensures (draw-Ensures t) λ i u _.
            let (x, e, _) = torc_get_lem tables.torc4 i ok.torc4_size in
            lift-Ensures _ e (
              bind-Ensures
                (if-Ensures _ {Q = λ b t. Unit {0}} (λ _. rand_bool-Ensures u)
                  (λ _. pure-Ensures false tt))
                λ narrow w _.
                  if-Ensures narrow (λ _. make_entry_from_integers-IsEntry 2 _ _ w (omega arith))
                    (λ _. make_entry_from_integers-IsEntry 4 x.0 x.1 w (omega arith)))

        from_torcw :
            (t : ℕ)
            → Ensures
                (draw >>= λ i.
                  lift (torc_get tables.torcw i) >>= λ x. make_entry_from_words x.0 x.1 mem size)
                t
                (λ e t. IsEntry e)
        from_torcw t = bind-Ensures (draw-Ensures t) λ i u _.
            let (x, e, g) = torc_get_lem tables.torcw i ok.torcw_size in
            lift-Ensures _ e (
              make_entry_from_words-IsEntry x u
                (All-get_elem? IsPair tables.torcw _ x ok.torcw_pairs g))

        from_mmt :
            (t : ℕ)
            → Ensures
                (draw >>= λ i. lift (mmt_get tables.mmt i) >>= λ w. pure (entry_of w))
                t
                (λ e t. IsEntry e)
        from_mmt t = bind-Ensures (draw-Ensures t) λ i u _.
            let (w, e, f) = mmt_get_lem tables.mmt i ok.mmt_size in
            lift-Ensures _ e (pure-Ensures _ (entry_of-IsEntry w (found-IsWord w i f)))
