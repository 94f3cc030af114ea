-- ===== src/Mutate/Bytes/Insert.antt =====
-- `Mutate_InsertByte` and `Mutate_InsertRepeatedBytes` of FuzzerMutate.cpp do not fault, and what
-- they insert.
use pfuzzer.Base.{
  leb→le, ℕ, ◌+◌, ◌-◌, ◌^◌, ◌%◌, ◌≤◌, ◌<◌, refl, ◌⊎◌, inl, inr, leb, List, [], ◌∷◌, length, take,
  arith, le→leb, replicate, length-replicate, All-replicate, leb_false→lt,
}
use pfuzzer.Base.Comp.{
  Ensures, pure-Ensures, bind-Ensures, assert-Ensures, minus-Ensures, lift-Ensures, if-Ensures,
  Ensures-mono,
}
use pfuzzer.Base.Memory.{IsByte, copy_bytes_lem, store_lem, fill_lem}
use pfuzzer.Mutate.Frame.{
  Failed, failed-IsEdited, open_gap-IsEdited, length-gap, Inserted, open_gap-Inserted, open_gap_lem,
}
use pfuzzer.Random.Laws.{rand-Ensures, rand_bool-Ensures}
use pfuzzer.Mutate.Edit.{IsEdited, IsInput}
use pfuzzer.Mutate.Bytes.Erase.{rand_ch-IsByte}
use pfuzzer.Mutate.Bytes.{insert_byte, repeated_byte, insert_repeated_bytes, min_bytes_to_insert}

-- `Mutate_InsertByte` never faults; it puts one byte into the input, or fails without a change,
-- which happens only where no byte is free.
pub insert_byte-Ensures :
    (mem : List ℕ) (size max_size s : ℕ)
    → IsInput mem size max_size
    → Ensures (insert_byte mem size max_size) s (λ r t.
      IsEdited mem max_size r
      × ((max_size ≤ size) × Failed mem r
          ⊎ ((c : ℕ) × IsByte c × Inserted (take size mem) (c ∷ []) r)))
unfolding insert_byte
insert_byte-Ensures mem size max_size s v =
    if-Ensures (leb max_size size)
      (λ full. pure-Ensures _ (failed-IsEdited v, inl (leb→le max_size size full, (refl, refl))))
      λ room. bind-Ensures (rand-Ensures (size + 1) s) λ idx t h.
        let g : size < max_size = leb_false→lt max_size size room in
        minus-Ensures _ (omega arith) (
          lift-Ensures _
            (copy_bytes_lem mem mem (idx + 1) idx (size - idx) (omega arith) (omega arith))
            (bind-Ensures (rand_ch-IsByte t) λ c u b.
              lift-Ensures _
                (store_lem _ idx c (omega (arith, length-gap v idx 1 (omega arith) (omega arith))))
                (pure-Ensures _ (
                  open_gap-IsEdited v (c ∷ []) idx (omega arith) (omega arith) (b, tt),
                  inr (c, b, open_gap-Inserted v (c ∷ []) idx (omega arith) (omega arith)),
                ))))

repeated_byte-IsByte : (s : ℕ) → Ensures repeated_byte s (λ c t. IsByte c)
unfolding repeated_byte
repeated_byte-IsByte s = bind-Ensures (rand_bool-Ensures s) λ any t _.
    if-Ensures any (λ _. Ensures-mono (λ c u h. omega arith) (rand-Ensures 256 t))
      λ _. bind-Ensures (rand_bool-Ensures t) λ low u _. pure-Ensures _ (ground arith)

-- `Mutate_InsertRepeatedBytes`, in an array of fewer than 2^63 bytes, never faults; where at most
-- three bytes are free it may fail without a change, and else it puts between 3 and 128 equal
-- bytes into the input.
pub insert_repeated_bytes-Ensures :
    (mem : List ℕ) (size max_size s : ℕ)
    → IsInput mem size max_size
    → length mem < 2 ^ 63
    → Ensures (insert_repeated_bytes mem size max_size) s (λ r t.
      IsEdited mem max_size r
      × ((max_size ≤ size + min_bytes_to_insert) × Failed mem r
          ⊎ ((n c : ℕ) × (3 ≤ n)
              × (n ≤ 128)
              × IsByte c
              × Inserted (take size mem) (replicate n c) r)))
unfolding insert_repeated_bytes
insert_repeated_bytes-Ensures mem size max_size s v wide =
    if-Ensures (leb max_size ((size + min_bytes_to_insert) % 2 ^ 64))
      (λ full. pure-Ensures _ (
        failed-IsEdited v,
        inl (omega (arith, leb→le max_size _ full, v.sized, v.room), (refl, refl)),
      ))
      λ room.
        let g : size + 3 < max_size = omega (arith, leb_false→lt max_size _ room) in
        minus-Ensures _ (omega arith) (
          minus-Ensures _ (omega arith) (
            bind-Ensures (rand-Ensures _ s) λ r t h. assert-Ensures (le→leb _ _ (omega arith)) (
              bind-Ensures (rand-Ensures (size + 1) t) λ idx u k. minus-Ensures _ (omega arith) (
                lift-Ensures _
                  (copy_bytes_lem mem mem (idx + (r + 3)) idx (size - idx) (omega arith)
                    (omega arith))
                  (bind-Ensures (repeated_byte-IsByte u) λ c w b.
                    lift-Ensures _
                      (fill_lem _ idx (r + 3) c
                        (omega (arith, length-gap v idx (r + 3) (omega arith) (omega arith))))
                      (pure-Ensures _ (
                        let (edited, put) =
                          open_gap_lem v (replicate (r + 3) c) idx (r + 3)
                            (length-replicate (r + 3) c) (omega arith) (omega arith)
                            (All-replicate IsByte (r + 3) c b) in
                        (edited, inr (r + 3, c, omega arith, omega arith, b, put)))))))))
