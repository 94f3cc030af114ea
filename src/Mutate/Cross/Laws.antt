-- ===== src/Mutate/Cross/Laws.antt =====
-- `Mutate_CrossOver` of FuzzerMutate.cpp: its assertions hold, and the three ways to combine the
-- inputs.
use pfuzzer.Base.{
  ℕ, ◌<◌, ◌≡◌, refl, ◌⊎◌, inl, inr, ltb, ◌==◌, ◌||◌, false, Option, none, some, List, [], ◌∷◌,
  length, take, replicate, All, arith, le→leb, lt→ltb, length-replicate, All-replicate, All-take,
  length-take, ==→eq, ==_false→ne,
}
use pfuzzer.Base.Comp.{
  Ensures, pure-Ensures, bind-Ensures, assert-Ensures, lift-Ensures, if-Ensures, Ensures-mono,
}
use pfuzzer.Base.Memory.{IsByte, overwrite, copy_bytes_lem, take-overwrite_end, length-slice}
use pfuzzer.Random.Laws.{rand-Ensures}
use pfuzzer.CrossOver.Laws.{IsCrossOver, cross_over-Ensures}
use pfuzzer.Mutate.Edit.{Edit, IsEdited, IsInput, result}
use pfuzzer.Mutate.Frame.{Failed, failed-IsEdited, overwrite-IsEdited, length-input}
use pfuzzer.Mutate.Parts.Laws.{
  IsSource, CopiedOver, PutIn, copy_part_of-Ensures, insert_part_of-Ensures,
}
use pfuzzer.Mutate.Parts.{copy_part_of}
use pfuzzer.Mutate.Cross.{cross_in_place, insert_or_copy, mutate_with, cross_over_mutator}

-- The new input is made of the old one and of `other`, in one of three ways.
pub data Combined (mem : List ℕ) (size max_size : ℕ) (other : List ℕ) (r : Edit) : Type 0 where
  crossed :
      (buffer : List ℕ)
      → IsCrossOver mem size other (length other) (replicate max_size 0) max_size buffer r.1
      → result r ≡ take r.1 buffer
      → Combined mem size max_size other r
  copied : CopiedOver other (length other) (take size mem) r → Combined mem size max_size other r
  put : PutIn other (length other) (take size mem) r → Combined mem size max_size other r

abbrev Good : List ℕ → ℕ → ℕ → List ℕ → Edit → ℕ → Type 0
Good mem size max_size other r t =
    IsEdited mem max_size r × (0 < r.1) × Combined mem size max_size other r

module _ {mem : List ℕ} {size max_size : ℕ} (v : IsInput mem size max_size) (pos : 0 < size)
    (other : List ℕ) (bytes : All IsByte other) (some_bytes : 0 < length other) where
  source : IsSource other (length other)
  source = record { room = omega arith; bytes = bytes }

  cross_in_place-Good :
      (s : ℕ) → Ensures (cross_in_place mem size max_size other) s (Good mem size max_size other)
  unfolding cross_in_place
  cross_in_place-Good s =
      bind-Ensures
        (cross_over-Ensures mem size other (length other) (replicate max_size 0) max_size s
          (record { room = omega (arith, v.sized, v.room); bytes = v.bytes })
          (record { room = omega arith; bytes = bytes })
          (record {
            room = omega (arith, length-replicate {A = ℕ} max_size 0);
            bytes = All-replicate IsByte max_size 0 (omega arith);
          })
          (omega (arith, v.sized)) (omega arith))
        λ c t w.
          lift-Ensures _
            (copy_bytes_lem mem c.0 0 0 c.1
              (omega (
                arith,
                w.same_length,
                length-replicate {A = ℕ} max_size 0,
                w.length_eq,
                w.asked_le,
              ))
              (omega (arith, v.room, w.length_eq, w.asked_le)))
            (pure-Ensures _ (made c.0 c.1 w))
    where
      made :
          (buffer : List ℕ) (n : ℕ)
          → IsCrossOver mem size other (length other) (replicate max_size 0) max_size buffer n
          → Good mem size max_size other (overwrite mem 0 (take n buffer), n) 0
      made buffer n w =
          let e : length (take n buffer) ≡ n = omega (
            arith,
            length-take n buffer,
            w.same_length,
            length-replicate {A = ℕ} max_size 0,
            w.length_eq,
            w.asked_le,
          ) in
          (
            overwrite-IsEdited v (take n buffer) 0 n
                (omega (arith, v.room, w.length_eq, w.asked_le)) (All-take IsByte n buffer w.bytes)
                (omega (arith, w.length_eq, w.asked_le)),
            omega (arith, w.length_eq, w.asked_pos),
            crossed buffer w
                (take-overwrite_end mem (take n buffer) 0 n (omega arith) (omega arith)),
          )

  over :
      (r : Edit) (t : ℕ)
      → IsEdited mem max_size r × CopiedOver other (length other) (take size mem) r
      → Good mem size max_size other r t
  over r t (e, c) =
      let (at, beg, n, p, h, k, q, w) = c in (e, omega (arith, length-input v), copied c)

  over-Failed :
      (r : Edit) (t : ℕ)
      → Failed mem r
      → Ensures (copy_part_of other (length other) r.0 size) t (Good mem size max_size other)
  over-Failed r t (e, _) = rw e (Ensures-mono over (copy_part_of-Ensures source some_bytes v t pos))

  insert_or_copy-Good :
      (s : ℕ) → Ensures (insert_or_copy mem size max_size other) s (Good mem size max_size other)
  unfolding insert_or_copy
  insert_or_copy-Good s = bind-Ensures (insert_part_of-Ensures source some_bytes v false s) λ r t q.
      if-Ensures (r.1 == 0) (λ z. over-Failed r t (failed r q.1 (==→eq r.1 0 z)))
        λ nz.
          pure-Ensures r
            (q.0, pos_of_ne r (==_false→ne r.1 0 nz), inserted r q.1 (==_false→ne r.1 0 nz))
    where
      pos_of_ne : (r : Edit) → ¬ (r.1 ≡ 0) → 0 < r.1
      pos_of_ne r h = omega arith

      failed :
          (r : Edit)
          → Failed mem r ⊎ PutIn other (length other) (take size mem) r
          → r.1 ≡ 0
          → Failed mem r
      failed r (inl f) z = f
      failed r (inr (beg, n, p, h, w)) z = absurd (omega (arith, w.1.0, length-slice other beg n h))

      inserted :
          (r : Edit)
          → Failed mem r ⊎ PutIn other (length other) (take size mem) r
          → ¬ (r.1 ≡ 0)
          → Combined mem size max_size other r
      inserted r (inl f) h = absurd (h f.1)
      inserted r (inr q) h = put q

  mutate_with-Good :
      (s : ℕ) → Ensures (mutate_with mem size max_size other) s (Good mem size max_size other)
  unfolding mutate_with
  mutate_with-Good s = bind-Ensures (rand-Ensures 3 s) λ k t _.
      bind-Ensures
        (if-Ensures (k == 0) (λ _. cross_in_place-Good t)
          λ _.
            if-Ensures (k == 1) (λ _. insert_or_copy-Good t)
              λ _. Ensures-mono over (copy_part_of-Ensures source some_bytes v t pos))
        λ r u q.
          assert-Ensures (lt→ltb 0 r.1 q.1)
            (assert-Ensures (le→leb r.1 max_size q.0.fits) (pure-Ensures r q))

-- `Mutate_CrossOver` never faults; it fails without a change, or returns a non-empty input that
-- fits and that is a crossover with the other input, or the old input with a part of the other
-- put in or written over it.
pub cross_over_mutator-Ensures :
    (mem : List ℕ) (size max_size : ℕ) (other : Option (List ℕ)) (s : ℕ)
    → IsInput mem size max_size
    → ((o : List ℕ) → other ≡ some o → All IsByte o)
    → Ensures (cross_over_mutator mem size max_size other) s (λ r t.
      IsEdited mem max_size r
      × (Failed mem r
          ⊎ ((o : List ℕ) × (other ≡ some o) × (0 < r.1) × Combined mem size max_size o r)))
unfolding cross_over_mutator
cross_over_mutator-Ensures mem size max_size none s v b =
    pure-Ensures _ (failed-IsEdited v, inl (refl, refl))
cross_over_mutator-Ensures mem size max_size (some []) s v b =
    pure-Ensures _ (failed-IsEdited v, inl (refl, refl))
cross_over_mutator-Ensures mem size max_size (some (x ∷ xs)) s v b =
    if-Ensures (ltb max_size size || size == 0)
      (λ _. pure-Ensures _ (failed-IsEdited v, inl (refl, refl)))
      λ good.
        Ensures-mono (λ r t q. (q.0, inr (x ∷ xs, refl, q.1, q.2)))
          (mutate_with-Good v (ground arith) (x ∷ xs) (b (x ∷ xs) refl) (omega arith) s)
