-- ===== src/Mutate/Bytes/Erase.antt =====
-- `Mutate_EraseBytes` and `RandCh` of FuzzerMutate.cpp do not fault, and what they leave.
use pfuzzer.Base.{
  leb→le, ℕ, ◌+◌, ◌-◌, ◌/◌, ◌≤◌, ◌<◌, ◌≡◌, refl, ◌⊎◌, inl, inr, leb, List, ◌++◌, length, take, drop,
  All, arith, lt→ltb, get_elem?_lt, All-get_elem?, leb_false→lt,
}
use pfuzzer.Base.Comp.{
  Ensures, pure-Ensures, bind-Ensures, assert-Ensures, minus-Ensures, lift-Ensures,
  lift_last-Ensures, if-Ensures, Ensures-mono,
}
use pfuzzer.Base.Memory.{IsByte, copy_bytes_lem, length-slice, take-close_gap}
use pfuzzer.Mutate.Frame.{Failed, failed-IsEdited, slice-IsByte, overwrite-IsEdited, length-input}
use pfuzzer.Random.Laws.{rand-Ensures, rand_bool-Ensures}
use pfuzzer.Mutate.Edit.{Edit, IsEdited, IsInput, result}
use pfuzzer.Mutate.Bytes.{special, rand_ch, erase_bytes}

pub special-IsByte : All IsByte special
special-IsByte = omega arith

pub rand_ch-IsByte : (s : ℕ) → Ensures rand_ch s (λ c t. IsByte c)
unfolding rand_ch
rand_ch-IsByte s = bind-Ensures (rand_bool-Ensures s) λ any t _.
    if-Ensures any (λ _. Ensures-mono (λ c u h. omega arith) (rand-Ensures 256 t))
      λ _. bind-Ensures (rand-Ensures (length special) t) λ i u h.
        let (c, e) = get_elem?_lt special i (omega arith) in
        lift_last-Ensures e (All-get_elem? IsByte special i c special-IsByte e)

-- The input is the old one less a nonempty slice.
abbrev pub Erased : List ℕ → Edit → Type 0
Erased old r =
    (idx n : ℕ) × (0 < n)
    × (idx + n ≤ length old)
    × (r.1 + n ≡ length old)
    × (result r ≡ take idx old ++ drop (idx + n) old)

-- `Mutate_EraseBytes` never faults; it takes a non-empty part out of the input and leaves the
-- rest in order, or fails without a change, which happens only to inputs of at most one byte.
pub erase_bytes-Ensures :
    (mem : List ℕ) (size max_size s : ℕ)
    → IsInput mem size max_size
    → Ensures
        (erase_bytes mem size max_size)
        s
        (λ r t. IsEdited mem max_size r × ((size ≤ 1) × Failed mem r ⊎ Erased (take size mem) r))
unfolding erase_bytes
erase_bytes-Ensures mem size max_size s v =
    if-Ensures (leb size 1)
      (λ small. pure-Ensures _ (failed-IsEdited v, inl (leb→le size 1 small, (refl, refl))))
      λ big. bind-Ensures (rand-Ensures (size / 2) s) λ r t h.
        let g : 1 < size = leb_false→lt size 1 big in
        assert-Ensures (lt→ltb _ _ (omega arith)) (
          minus-Ensures _ (omega arith) (
            bind-Ensures (rand-Ensures _ t) λ idx u k. minus-Ensures _ (omega arith) (
              lift-Ensures _
                (copy_bytes_lem mem mem idx (idx + (r + 1)) (size - (r + 1) - idx) (omega arith)
                  (omega arith))
                (pure-Ensures _ (
                  overwrite-IsEdited v _ idx _
                      (omega (arith, length-slice mem (idx + (r + 1)) (size - (r + 1) - idx)))
                      (slice-IsByte v _ _) (omega arith),
                  inr (
                    idx,
                    r + 1,
                    omega arith,
                    omega (arith, length-input v),
                    omega (arith, length-input v),
                    take-close_gap mem idx (r + 1) size (omega arith) (omega arith),
                  ),
                )))))
