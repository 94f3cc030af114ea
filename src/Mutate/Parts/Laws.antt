-- ===== src/Mutate/Parts/Laws.antt =====
-- The copying mutators of FuzzerMutate.cpp do not fault, and what part they copy where.
use pfuzzer.Base.{
  ℕ, ◌+◌, ◌-◌, ◌≤◌, ◌<◌, ◌≡◌, refl, ◌⊎◌, inl, inr, min, ltb, leb, ◌==◌, ◌||◌, Bool, true, false,
  List, length, take, drop, replicate, All, arith, le→leb, ap, ◌∙◌, leb_false→lt, length-replicate,
  All-take, All-drop,
}
use pfuzzer.Base.Comp.{
  Ensures, pure-Ensures, bind-Ensures, assert-Ensures, minus-Ensures, lift-Ensures,
  lift_last-Ensures, if-Ensures, Ensures-mono,
}
use pfuzzer.Base.Memory.{
  IsByte, overwrite, copy_bytes_lem, length-slice, length-overwrite, take-overwrite,
  take-overwrite_end,
}
use pfuzzer.Random.Laws.{rand-Ensures, rand_bool-Ensures}
use pfuzzer.Mutate.Edit.{Edit, IsEdited, IsInput, result}
use pfuzzer.Mutate.Frame.{
  Failed, failed-IsEdited, overwrite-IsEdited, length-input, length-gap, Inserted, open_gap_lem,
}
use pfuzzer.Mutate.Parts.{move_part, copy_part_of, insert_part_of, copy_part}

-- What is read: `from_size` bytes at least.
pub record IsSource (from : List ℕ) (from_size : ℕ) : Type 0 where
  pub room : from_size ≤ length from
  pub bytes : All IsByte from

-- The part `[beg, beg + n)`.
abbrev pub part : List ℕ → ℕ → ℕ → List ℕ
part from beg n = take n (drop beg from)

-- A nonempty part of `from` is written over the input, which keeps its size.
abbrev pub CopiedOver : List ℕ → ℕ → List ℕ → Edit → Type 0
CopiedOver from from_size old r =
    (at beg n : ℕ) × (0 < n)
    × (beg + n ≤ from_size)
    × (at + n ≤ length old)
    × (r.1 ≡ length old)
    × (result r ≡ overwrite old at (part from beg n))

-- A nonempty part of `from` is put into the input.
abbrev pub PutIn : List ℕ → ℕ → List ℕ → Edit → Type 0
PutIn from from_size old r =
    (beg n : ℕ) × (0 < n) × (beg + n ≤ from_size) × Inserted old (part from beg n) r

module _ {from : List ℕ} {from_size : ℕ} (src : IsSource from from_size)
    (some_bytes : 0 < from_size) {to : List ℕ} {to_size max_size : ℕ}
    (v : IsInput to to_size max_size) where
  part-IsByte : (beg n : ℕ) → All IsByte (part from beg n)
  part-IsByte beg n = All-take IsByte n (drop beg from) (All-drop IsByte beg from src.bytes)

  pub copy_part_of-Ensures :
      (s : ℕ)
      → 0 < to_size
      → Ensures
          (copy_part_of from from_size to to_size)
          s
          (λ r t. IsEdited to max_size r × CopiedOver from from_size (take to_size to) r)
  unfolding copy_part_of
  copy_part_of-Ensures s pos = bind-Ensures (rand-Ensures to_size s) λ to_beg t h.
      minus-Ensures _ (omega arith) (
        bind-Ensures (rand-Ensures (to_size - to_beg) t) λ r u k.
          assert-Ensures (le→leb _ _ (omega arith)) (
            minus-Ensures _ (omega arith) (
              bind-Ensures (rand-Ensures _ u) λ from_beg w g.
                assert-Ensures (le→leb _ _ (omega arith)) (
                  lift-Ensures _
                    (copy_bytes_lem to from to_beg from_beg (min (r + 1) from_size)
                      (omega (arith, src.room)) (omega (arith, v.room, v.sized)))
                    (pure-Ensures _ (
                      copied to_beg from_beg (min (r + 1) from_size) (omega arith) (omega arith)
                        (omega arith)))))))
    where
      copied :
          (at beg n : ℕ)
          → 0 < n
          → beg + n ≤ from_size
          → at + n ≤ to_size
          → let r : Edit = (overwrite to at (part from beg n), to_size) in
            IsEdited to max_size r × CopiedOver from from_size (take to_size to) r
      copied at beg n p h k =
          let e : length (part from beg n) ≡ n =
            length-slice from beg n (omega (arith, src.room)) in
          (
            overwrite-IsEdited v (part from beg n) at to_size (omega (arith, v.room, v.sized))
                (part-IsByte beg n) v.sized,
            (
              at,
              beg,
              n,
              p,
              h,
              omega (arith, length-input v),
              omega (arith, length-input v),
              take-overwrite to (part from beg n) at to_size (omega arith)
                  (omega (arith, v.room, v.sized)),
            ),
          )

  -- The array with the gap open.
  abbrev gap : ℕ → ℕ → List ℕ
  gap pos n = overwrite to (pos + n) (take (to_size - pos) (drop pos to))

  -- Whether or not the part is saved first, the part that was asked for ends up in the gap.
  move_part-Ensures :
      (same : Bool) (n beg pos s : ℕ)
      → beg + n ≤ from_size
      → pos ≤ to_size
      → to_size + n ≤ max_size
      → Ensures
          (move_part same from beg to pos n (to_size - pos) max_size)
          s
          (λ out t. out ≡ overwrite (gap pos n) pos (part from beg n))
  unfolding move_part
  move_part-Ensures same n beg pos s h k g =
      let wide : pos + n ≤ length (gap pos n) =
        omega (arith, length-gap v pos n k (omega (arith, v.room)), v.room, v.sized) in
      let opens =
        copy_bytes_lem to to (pos + n) pos (to_size - pos) (omega (arith, v.room, v.sized))
          (omega (arith, v.room, v.sized)) in
      if-Ensures same
        (λ _.
          lift-Ensures _
            (copy_bytes_lem (replicate max_size 0) from 0 beg n (omega (arith, src.room))
              (omega (arith, length-replicate {A = ℕ} max_size 0)))
            (lift-Ensures _ opens (
              lift_last-Ensures
                (copy_bytes_lem (gap pos n) (saved n beg) pos 0 n
                  (omega (arith, length-saved n beg h (omega arith))) wide)
                (ap (overwrite (gap pos n) pos) (
                  take-overwrite_end (replicate max_size 0) (part from beg n) 0 n (omega arith)
                    (omega (arith, length-slice from beg n (omega (arith, src.room)))))))))
        λ _. lift-Ensures _ opens (
          lift_last-Ensures
            (copy_bytes_lem (gap pos n) from pos beg n (omega (arith, src.room)) wide) refl)
    where
      saved : ℕ → ℕ → List ℕ
      saved n beg = overwrite (replicate max_size 0) 0 (part from beg n)

      length-saved :
          (n beg : ℕ) → beg + n ≤ from_size → n ≤ max_size → length (saved n beg) ≡ max_size
      length-saved n beg h g =
          length-overwrite (replicate max_size 0) (part from beg n) 0 (
            omega (
              arith,
              length-slice from beg n (omega (arith, src.room)),
              length-replicate {A = ℕ} max_size 0,
            ))
          ∙ length-replicate max_size 0

  pub insert_part_of-Ensures :
      (same : Bool) (s : ℕ)
      → Ensures
          (insert_part_of same from from_size to to_size max_size)
          s
          (λ r t. IsEdited to max_size r × (Failed to r ⊎ PutIn from from_size (take to_size to) r))
  unfolding insert_part_of
  insert_part_of-Ensures same s =
      if-Ensures (leb max_size to_size) (λ _. pure-Ensures _ (failed-IsEdited v, inl (refl, refl)))
        λ room.
          let g : to_size < max_size = leb_false→lt max_size to_size room in
          minus-Ensures _ (omega arith) (
            bind-Ensures (rand-Ensures _ s) λ r t h. minus-Ensures _ (omega arith) (
              bind-Ensures (rand-Ensures _ t) λ beg u k. assert-Ensures (le→leb _ _ (omega arith)) (
                bind-Ensures (rand-Ensures (to_size + 1) u) λ pos w l.
                  assert-Ensures (le→leb _ _ (omega arith)) (
                    minus-Ensures _ (omega arith) (
                      bind-Ensures
                        (move_part-Ensures same (r + 1) beg pos w (omega arith) (omega arith)
                          (omega arith))
                        λ out x e. pure-Ensures _ (
                          moved (r + 1) beg pos out (omega arith) (omega arith) (omega arith)
                            (omega arith) e))))))
    where
      moved :
          (n beg pos : ℕ) (out : List ℕ)
          → 0 < n
          → beg + n ≤ from_size
          → pos ≤ to_size
          → to_size + n ≤ max_size
          → out ≡ overwrite (gap pos n) pos (part from beg n)
          → let r : Edit = (out, to_size + n) in
            IsEdited to max_size r × (Failed to r ⊎ PutIn from from_size (take to_size to) r)
      moved n beg pos out p h k g e =
          let (edited, put) =
            open_gap_lem v (part from beg n) pos n
              (length-slice from beg n (omega (arith, src.room))) k g (part-IsByte beg n) in
          rw e (edited, inr (beg, n, p, h, put))

-- `Mutate_CopyPart` never faults; it fails without a change, writes a non-empty part of the input
-- over another, or puts a copy of a non-empty part into the input.
pub copy_part-Ensures :
    (mem : List ℕ) (size max_size s : ℕ)
    → IsInput mem size max_size
    → Ensures (copy_part mem size max_size) s (λ r t.
      IsEdited mem max_size r
      × (Failed mem r ⊎ CopiedOver mem size (take size mem) r ⊎ PutIn mem size (take size mem) r))
unfolding copy_part
copy_part-Ensures mem size max_size s v =
    if-Ensures (ltb max_size size || size == 0)
      (λ _. pure-Ensures _ (failed-IsEdited v, inl (refl, refl)))
      λ good.
        let pos : 0 < size = nonempty good in
        let src : IsSource mem size = record {
          room = omega (arith, v.room, v.sized);
          bytes = v.bytes;
        } in
        if-Ensures (size == max_size)
          (λ _. Ensures-mono over (copy_part_of-Ensures src pos v s pos))
          λ _. bind-Ensures (rand_bool-Ensures s) λ copy t _.
            if-Ensures copy (λ _. Ensures-mono over (copy_part_of-Ensures src pos v t pos))
              λ _. Ensures-mono into (insert_part_of-Ensures src pos v true t)
  where
    nonempty : (ltb max_size size || size == 0) ≡ false → 0 < size
    nonempty e = ground arith

    abbrev_spec : Edit → Type 0
    abbrev_spec r =
        IsEdited mem max_size r
        × (Failed mem r ⊎ CopiedOver mem size (take size mem) r ⊎ PutIn mem size (take size mem) r)

    over :
        (r : Edit) (t : ℕ)
        → IsEdited mem max_size r × CopiedOver mem size (take size mem) r
        → abbrev_spec r
    over r t (e, c) = (e, inr (inl c))

    into :
        (r : Edit) (t : ℕ)
        → IsEdited mem max_size r × (Failed mem r ⊎ PutIn mem size (take size mem) r)
        → abbrev_spec r
    into r t (e, inl f) = (e, inl f)
    into r t (e, inr p) = (e, inr (inr p))
