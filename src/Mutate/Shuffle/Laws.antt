-- ===== src/Mutate/Shuffle/Laws.antt =====
-- `Mutate_ShuffleBytes` of FuzzerMutate.cpp does not fault, and permutes the input.
use mathlib.Core.List.{Perm, perm_append_singleton, perm_middle, append-nil}
use mathlib.Core.List.Perm
use pfuzzer.Base.{
  true, ℕ, zero, suc, ◌+◌, ◌-◌, ◌≤◌, ◌<◌, ◌≡◌, refl, ◌⊎◌, inl, inr, min, ltb, ◌==◌, ◌||◌, List, [],
  ◌∷◌, ◌++◌, length, take, drop, All, arith, le→leb, length-append, All-append, All-append_left,
  All-append_right, ap, ◌∙◌, sym, subst, false,
}
use pfuzzer.Base.Slices.{take-append-drop, drop-drop, take_all, take-take}
use pfuzzer.Base.Comp.{
  Ensures, pure-Ensures, bind-Ensures, assert-Ensures, minus-Ensures, lift-Ensures, if-Ensures,
  Ensures-mono,
}
use pfuzzer.Base.Memory.{
  IsByte, overwrite, copy_bytes_lem, length-slice, take-overwrite, drop-take_le,
}
use pfuzzer.Random.Laws.{rand-Ensures}
use pfuzzer.Mutate.Edit.{Edit, IsEdited, IsInput, result}
use pfuzzer.Mutate.Frame.{Failed, failed-IsEdited, slice-IsByte, overwrite-IsEdited}
use pfuzzer.Mutate.Shuffle.{swap_in, shuffle_into, shuffle, shuffle_bytes}

swap_in-perm : (xs : List ℕ) (i x : ℕ) → Perm (swap_in xs i x) (x ∷ xs)
unfolding swap_in
swap_in-perm [] i x = Perm.refl _
swap_in-perm (y ∷ ys) zero x = Perm.cons x (perm_append_singleton y ys)
swap_in-perm (y ∷ ys) (suc i) x = Perm.trans (Perm.cons y (swap_in-perm ys i x)) (Perm.swap x y ys)

length-swap_in : (xs : List ℕ) (i x : ℕ) → length (swap_in xs i x) ≡ length xs + 1
unfolding swap_in
length-swap_in [] i x = omega arith
length-swap_in (y ∷ ys) zero x = omega (arith, length-append ys (y ∷ []))
length-swap_in (y ∷ ys) (suc i) x = omega (arith, length-swap_in ys i x)

All-swap_in : (xs : List ℕ) (i x : ℕ) → All IsByte xs → IsByte x → All IsByte (swap_in xs i x)
unfolding swap_in
All-swap_in [] i x h b = (b, tt)
All-swap_in (y ∷ ys) zero x h b = (b, All-append IsByte ys (y ∷ []) h.1 (h.0, tt))
All-swap_in (y ∷ ys) (suc i) x h b = (h.0, All-swap_in ys i x h.1 b)

-- The elements are the same, and as many.
record IsShuffled (xs ys : List ℕ) : Type 0 where
  perm : Perm ys xs
  same_length : length ys ≡ length xs
  bytes : All IsByte xs → All IsByte ys

swapped :
    (done rest : List ℕ) (i x : ℕ) (ys : List ℕ)
    → IsShuffled (swap_in done i x ++ rest) ys
    → IsShuffled (done ++ (x ∷ rest)) ys
swapped done rest i x ys h = record {
  perm = Perm.trans h.perm (
      Perm.trans (Perm.append_right rest (swap_in-perm done i x))
        (Perm.symm (perm_middle done rest)));
  same_length = omega (
    arith,
    h.same_length,
    length-append (swap_in done i x) rest,
    length-append done (x ∷ rest),
    length-swap_in done i x,
  );
  bytes = λ b.
      let tail = All-append_right IsByte done (x ∷ rest) b in
      h.bytes (
        All-append IsByte (swap_in done i x) rest
          (All-swap_in done i x (All-append_left IsByte done (x ∷ rest) b) tail.0) tail.1);
}

shuffle_into-IsShuffled :
    (done rest : List ℕ) (s : ℕ)
    → Ensures (shuffle_into done rest) s (λ ys t. IsShuffled (done ++ rest) ys)
unfolding shuffle_into
shuffle_into-IsShuffled done [] s = pure-Ensures done (record {
  perm = subst (Perm done) (sym (append-nil done)) (Perm.refl done);
  same_length = ap length (sym (append-nil done));
  bytes = subst (All IsByte) (append-nil done);
})
shuffle_into-IsShuffled done (x ∷ rest) s = bind-Ensures (rand-Ensures (length done + 1) s) λ i t _.
    Ensures-mono (λ ys u h. swapped done rest i x ys h)
      (shuffle_into-IsShuffled (swap_in done i x) rest t)

shuffle-IsShuffled : (xs : List ℕ) (s : ℕ) → Ensures (shuffle xs) s (λ ys t. IsShuffled xs ys)
unfolding shuffle
shuffle-IsShuffled xs s = shuffle_into-IsShuffled [] xs s

-- A slice of the input with a permutation of it written over.
overwrite-perm :
    (xs ys : List ℕ) (start amount : ℕ)
    → length ys ≡ amount
    → Perm ys (take amount (drop start xs))
    → Perm (overwrite xs start ys) xs
unfolding overwrite
overwrite-perm xs ys start amount e p =
    subst (Perm _) whole (Perm.append_left (take start xs) (Perm.append_right _ p))
  where
    whole : take start xs ++ (take amount (drop start xs) ++ drop (start + length ys) xs) ≡ xs
    whole =
        ap (λ l. take start xs ++ (take amount (drop start xs) ++ l))
          (ap (λ k. drop (start + k) xs) e ∙ sym (drop-drop amount start xs))
        ∙ ap (◌++◌ (take start xs)) (take-append-drop amount (drop start xs))
        ∙ take-append-drop start xs

-- `Mutate_ShuffleBytes` never faults; the new input is a permutation of the old one, or the input
-- is empty and it fails without a change.
pub shuffle_bytes-Ensures :
    (mem : List ℕ) (size max_size s : ℕ)
    → IsInput mem size max_size
    → Ensures (shuffle_bytes mem size max_size) s (λ r t.
      IsEdited mem max_size r
      × ((size ≡ 0) × Failed mem r ⊎ ((r.1 ≡ size) × Perm (result r) (take size mem))))
unfolding shuffle_bytes
shuffle_bytes-Ensures mem size max_size s v =
    if-Ensures (ltb max_size size || size == 0)
      (λ bad. pure-Ensures _ (failed-IsEdited v, inl (empty bad, (refl, refl))))
      λ good.
        let pos : 0 < size = nonempty good in
        bind-Ensures (rand-Ensures (min size 8) s) λ r t h. minus-Ensures _ (omega arith) (
          bind-Ensures (rand-Ensures (size - (r + 1)) t) λ start u k.
            assert-Ensures (le→leb _ _ (omega arith)) (
              bind-Ensures (shuffle-IsShuffled (take (r + 1) (drop start mem)) u) λ ys w p.
                let n : length ys ≡ r + 1 =
                  omega (arith, p.same_length, length-slice mem start (r + 1)) in
                lift-Ensures _
                  (copy_bytes_lem mem ys start 0 (length ys) (omega arith) (omega arith))
                  (pure-Ensures _ (written start (r + 1) ys n (omega arith) p))))
  where
    empty : (ltb max_size size || size == 0) ≡ true → size ≡ 0
    empty e = ground (arith, v.sized)

    nonempty : (ltb max_size size || size == 0) ≡ false → 0 < size
    nonempty e = ground arith

    written :
        (start amount : ℕ) (ys : List ℕ)
        → length ys ≡ amount
        → start + amount ≤ size
        → IsShuffled (take amount (drop start mem)) ys
        → let r : Edit = (overwrite mem start (take (length ys) ys), size) in
          IsEdited mem max_size r
          × ((size ≡ 0) × Failed mem r ⊎ ((size ≡ size) × Perm (result r) (take size mem)))
    written start amount ys e h p = rw (take_all (length ys) ys (omega arith)) (
      overwrite-IsEdited v ys start size (omega arith) (p.bytes (slice-IsByte v start amount))
          v.sized,
      inr (
        refl,
        subst (λ l. Perm l (take size mem))
            (sym (take-overwrite mem ys start size (omega arith) (omega (arith, v.room, v.sized))))
            (overwrite-perm (take size mem) ys start amount e (
              subst (Perm ys)
                (sym (take-take amount (size - start) (drop start mem) (omega arith))
                  ∙ ap (take amount) (drop-take_le start size mem (omega arith)))
                p.perm)),
      ),
    )
