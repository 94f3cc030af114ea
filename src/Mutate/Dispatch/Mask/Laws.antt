-- ===== src/Mutate/Dispatch/Mask/Laws.antt =====
-- `MutateWithMask` of FuzzerMutate.cpp changes marked bytes only.
use pfuzzer.Base.{
  ℕ, ◌+◌, ◌-◌, ◌^◌, ◌≤◌, ◌<◌, ◌≡◌, refl, ◌≢◌, ◌⊎◌, inl, inr, ltb, leb, min, ◌==◌, not, Bool, true,
  false, if◌then◌else◌, List, [], ◌∷◌, ◌++◌, some, length, take, replicate, All, tests, arith, sym,
  ◌∙◌, subst, ==→eq, ==_false→ne, le→leb, get_elem?_lt, All-get_elem?, length-take, length-append,
  All-append, length-replicate, All-replicate, ltb→lt, ltb_false→le,
}
use pfuzzer.Base.Comp.{
  Ensures, returns, pure, lift, assert, ◌>>=◌, ◌>>◌, pure-Ensures, bind-Ensures, then-Ensures,
  assert-Ensures, lift-Ensures, if-Ensures,
}
use pfuzzer.Base.Memory.{IsByte, overwrite, store_lem, length-overwrite, All-overwrite}
use pfuzzer.Mutate.Edit.{Edit}
use pfuzzer.Mutate.Frame.{Failed}
use pfuzzer.Mutate.State.{in_manual, in_persistent, in_cmp, Dispatcher, deref}
use pfuzzer.Mutate.State.Laws.{IsDispatcher, KeepsRefs, All-kept}
use pfuzzer.Mutate.Dispatch.{Options, Tables, External}
use pfuzzer.Mutate.Dispatch.Words.{IsTables}
use pfuzzer.Mutate.Dispatch.Dictionaries.{the_state_then}
use pfuzzer.Mutate.Dispatch.Impl.{mutate}
use pfuzzer.Mutate.Dispatch.Impl.Laws.{IsExternal, mutate-Ensures}
use pfuzzer.Mutate.Dispatch.Mask.{gather, scatter, resized, set_mask_temp, mutate_with_mask}

-- The bytes that the mask does not mark, and those behind its end, are the same.
pub data ChangedWithin : List ℕ → List ℕ → List ℕ → Type 0 where
  rest : {xs : List ℕ} → ChangedWithin [] xs xs
  kept :
      {x : ℕ} {ms xs ys : List ℕ}
      → ChangedWithin ms xs ys
      → ChangedWithin (0 ∷ ms) (x ∷ xs) (x ∷ ys)
  marked :
      {m x y : ℕ} {ms xs ys : List ℕ}
      → m ≢ 0
      → ChangedWithin ms xs ys
      → ChangedWithin (m ∷ ms) (x ∷ xs) (y ∷ ys)

record IsGathered (t : List ℕ) (j : ℕ) (ms : List ℕ) (r : List ℕ × ℕ) : Type 0 where
  same_length : length r.0 ≡ length t
  bytes : All IsByte r.0
  within : r.1 ≤ j + length ms

gather_lem :
    (ms xs t : List ℕ) (j : ℕ)
    → length ms ≤ length xs
    → j + length ms ≤ length t
    → All IsByte xs
    → All IsByte t
    → (r : List ℕ × ℕ) × (gather ms xs t j ≡ some r) × IsGathered t j ms r
unfolding gather
gather_lem [] xs t j h g bx bt =
    ((t, j), refl, record { same_length = refl; bytes = bt; within = omega arith })
gather_lem (m ∷ ms) [] t j h g bx bt = absurd (omega arith)
gather_lem (m ∷ ms) (x ∷ xs) t j h g (b, bx) bt =
    rw (store_lem t j x (omega arith), gather)
      (chosen (m == 0) (gather_lem ms xs t j (omega arith) (omega arith) bx bt) (
        gather_lem ms xs (overwrite t j (x ∷ [])) (j + 1) (omega arith)
          (omega (arith, length-overwrite t (x ∷ []) j (omega arith))) bx
          (All-overwrite IsByte t (x ∷ []) j bt (b, tt))))
  where
    chosen :
        (c : Bool)
        → ((r : List ℕ × ℕ) × (gather ms xs t j ≡ some r) × IsGathered t j ms r)
        → ((r : List ℕ × ℕ) × (gather ms xs (overwrite t j (x ∷ [])) (j + 1) ≡ some r)
            × IsGathered (overwrite t j (x ∷ [])) (j + 1) ms r)
        → (r : List ℕ × ℕ) × ((if c
              then gather ms xs t j
              else gather ms xs (overwrite t j (x ∷ [])) (j + 1))
            ≡ some r)
          × IsGathered t j (m ∷ ms) r
    chosen true (r, e, k) _ = (
      r,
      e,
      record { same_length = k.same_length; bytes = k.bytes; within = omega (arith, k.within) },
    )
    chosen false _ (r, e, k) = (
      r,
      e,
      record {
        same_length = k.same_length ∙ length-overwrite t (x ∷ []) j (omega arith);
        bytes = k.bytes;
        within = omega (arith, k.within);
      },
    )

scatter_lem :
    (ms xs t : List ℕ) (j : ℕ)
    → length ms ≤ length xs
    → j + length ms ≤ length t
    → All IsByte xs
    → All IsByte t
    → (ys : List ℕ) × (scatter ms xs t j ≡ some ys) × ChangedWithin ms xs ys × All IsByte ys
unfolding scatter
scatter_lem [] xs t j h g bx bt = (xs, refl, rest, bx)
scatter_lem (m ∷ ms) [] t j h g bx bt = absurd (omega arith)
scatter_lem (m ∷ ms) (x ∷ xs) t j h g (b, bx) bt =
    let (y, e) = get_elem?_lt t j (omega arith) in
    let (ys, e1, c1, b1) = scatter_lem ms xs t j (omega arith) (omega arith) bx bt in
    let (zs, e2, c2, b2) = scatter_lem ms xs t (j + 1) (omega arith) (omega arith) bx bt in
    rw (e, e1, e2, scatter)
      (chosen (m == 0) refl y ys zs c1 b1 c2 (All-get_elem? IsByte t j y bt e, b2))
  where
    chosen :
        (c : Bool)
        → (m == 0) ≡ c
        → (y : ℕ) (ys zs : List ℕ) → ChangedWithin ms xs ys
        → All IsByte ys
        → ChangedWithin ms xs zs
        → All IsByte (y ∷ zs)
        → (r : List ℕ) × ((if c then some (x ∷ ys) else some (y ∷ zs)) ≡ some r)
          × ChangedWithin (m ∷ ms) (x ∷ xs) r
          × All IsByte r
    chosen true e y ys zs c1 b1 c2 b2 = (
      x ∷ ys,
      refl,
      subst (λ n. ChangedWithin (n ∷ ms) (x ∷ xs) (x ∷ ys)) (sym (==→eq m 0 e)) (kept c1),
      (b, b1),
    )
    chosen false e y ys zs c1 b1 c2 b2 = (y ∷ zs, refl, marked (==_false→ne m 0 e) c2, b2)

resized_lem :
    (t : List ℕ) (size : ℕ)
    → All IsByte t
    → (size ≤ length (resized t size))
      × All IsByte (resized t size)
      × ((length (resized t size) ≡ length t) ⊎ (length (resized t size) ≡ size))
unfolding resized
resized_lem t size b = chosen (ltb (length t) size) refl
  where
    chosen :
        (c : Bool)
        → ltb (length t) size ≡ c
        → let r : List ℕ = if c then t ++ replicate (size - length t) 0 else t in
          (size ≤ length r) × All IsByte r × ((length r ≡ length t) ⊎ (length r ≡ size))
    chosen true e = (
      omega (
        arith,
        length-append t (replicate (size - length t) 0),
        length-replicate {A = ℕ} (size - length t) 0,
      ),
      All-append IsByte t _ b (All-replicate IsByte (size - length t) 0 (omega arith)),
      inr (
          omega (
            arith,
            length-append t (replicate (size - length t) 0),
            length-replicate {A = ℕ} (size - length t) 0,
            ltb→lt (length t) size e,
          )),
    )
    chosen false e = (ltb_false→le (length t) size e, b, inl refl)

set_mask_temp-Ensures :
    (t : List ℕ) (d : Dispatcher)
    → All IsByte t
    → IsDispatcher d
    → Ensures (set_mask_temp t) d (λ a e. IsDispatcher e)
unfolding set_mask_temp deref
set_mask_temp-Ensures t d b v = returns tt _ refl (record {
  manual_within = v.manual_within;
  manual_usable = v.manual_usable;
  persistent_within = v.persistent_within;
  persistent_usable = v.persistent_usable;
  cmp_size = v.cmp_size;
  cmp_entry = v.cmp_entry;
  refs = All-kept d (record d { mask_temp = t }) d.entry_sequence same v.refs;
  other = v.other;
  temp = b;
})
  where
    same : KeepsRefs d (record d { mask_temp = t })
    same (in_manual i) x g = (x, g, refl)
    same (in_persistent i) x g = (x, g, refl)
    same (in_cmp i) x g = (x, g, refl)

-- What `MutateWithMask` leaves: nothing changes, or marked bytes do.
pub data IsMasked (mem : List ℕ) (size : ℕ) (mask : List ℕ) (r : Edit) : Type 0 where
  unchanged : Failed mem r → IsMasked mem size mask r
  changed :
      r.1 ≡ size
      → ChangedWithin (take (min size (length mask)) mask) mem r.0
      → All IsByte r.0
      → IsMasked mem size mask r

module _ (options : Options) (tables : Tables) (ext : External) (ok : IsTables tables)
    (contract : IsExternal ext) (mem : List ℕ) (size : ℕ) (mask : List ℕ) (room : size ≤ length mem)
    (b : All IsByte mem) where
  -- The gathered bytes are mutated, and put back.
  mutate_bits-Ensures :
      (t : List ℕ) (one_bits : ℕ) (d : Dispatcher)
      → 0 < one_bits
      → one_bits ≤ length t
      → length t < 2 ^ 63
      → All IsByte t
      → length (take (min size (length mask)) mask) ≤ length t
      → IsDispatcher d
      → Ensures
          (assert (not (length t == 0))
            >> (mutate options tables ext t one_bits one_bits >>= λ r.
                assert (leb r.1 one_bits)
                >> (set_mask_temp r.0
                    >> (lift (scatter (take (min size (length mask)) mask) mem r.0 0) >>= λ out.
                        pure (out, size)))))
          d
          (λ r e. IsMasked mem size mask r × IsDispatcher e)
  mutate_bits-Ensures t one_bits d pos le wide bt few w = assert-Ensures (ground arith) (
      bind-Ensures
        (mutate-Ensures options tables ext ok contract
          (record { sized = omega arith; room = le; bytes = bt }) pos wide d w)
        λ r d1 (m, w1). assert-Ensures (le→leb r.1 one_bits m.edited.fits) (
          then-Ensures (set_mask_temp-Ensures r.0 d1 m.edited.bytes w1) λ _ d2 w2.
            let (out, e, c, bo) =
              scatter_lem (take (min size (length mask)) mask) mem r.0 0
                (omega (arith, length-take (min size (length mask)) mask))
                (omega (arith, m.edited.same_length)) b m.edited.bytes in
            lift-Ensures _ e (pure-Ensures _ (changed refl c bo, w2))))

  -- `MutateWithMask` never faults under the conditions of `Mutate`; it returns 0 and changes
  -- nothing, or returns the size it was given and changes no byte but those that the mask marks.
  pub mutate_with_mask-Ensures :
      (d : Dispatcher)
      → IsDispatcher d
      → length mem < 2 ^ 63
      → length d.mask_temp < 2 ^ 63
      → Ensures
          (mutate_with_mask options tables ext mem size mask)
          d
          (λ r e. IsMasked mem size mask r × IsDispatcher e)
  unfolding mutate_with_mask
  mutate_with_mask-Ensures d w wide temp_wide =
      let marks : List ℕ = take (min size (length mask)) mask in
      let (long, bt, l) = resized_lem d.mask_temp size w.temp in
      let few : length marks ≤ size = omega (arith, length-take (min size (length mask)) mask) in
      let (g, e, k) =
        gather_lem marks mem (resized d.mask_temp size) 0 (omega arith) (omega arith) b bt in
      the_state_then _ (
        lift-Ensures _ e (
          then-Ensures (set_mask_temp-Ensures g.0 d k.bytes w) λ _ d1 w1.
            if-Ensures (g.1 == 0) (λ _. pure-Ensures _ (unchanged (refl, refl), w1))
              λ some_bits.
                mutate_bits-Ensures g.0 g.1 d1 (omega (tests, some_bits))
                  (omega (arith, k.within, k.same_length)) (omega (arith, k.same_length)) k.bytes
                  (omega (arith, k.same_length)) w1))
