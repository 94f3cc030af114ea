-- ===== src/Mutate/Frame.antt =====
-- Edits of FuzzerMutate.cpp that every mutator shares: a failure, bytes written over, and a gap
-- that is opened and filled.
use pfuzzer.Base.{
  ℕ, ◌+◌, ◌-◌, ◌≤◌, ◌≡◌, refl, List, ◌++◌, length, take, drop, All, arith, length-take, All-take,
  All-drop, ◌∙◌, subst,
}
use pfuzzer.Base.Memory.{
  IsByte, overwrite, length-slice, length-overwrite, All-overwrite, take-open_gap,
}
use pfuzzer.Mutate.Edit.{Edit, IsEdited, IsInput, result}

-- A mutator that fails leaves the array alone.
abbrev pub Failed : List ℕ → Edit → Type 0
Failed mem r = (r.0 ≡ mem) × (r.1 ≡ 0)

pub failed-IsEdited :
    {mem : List ℕ} {size max_size : ℕ} → IsInput mem size max_size → IsEdited mem max_size (mem, 0)
failed-IsEdited v = record { same_length = refl; fits = omega arith; bytes = v.bytes }

module _ {mem : List ℕ} {size max_size : ℕ} (v : IsInput mem size max_size) where
  pub slice-IsByte : (beg n : ℕ) → All IsByte (take n (drop beg mem))
  slice-IsByte beg n = All-take IsByte n (drop beg mem) (All-drop IsByte beg mem v.bytes)

  pub overwrite-IsEdited :
      (xs : List ℕ) (at n : ℕ)
      → at + length xs ≤ length mem
      → All IsByte xs
      → n ≤ max_size
      → IsEdited mem max_size (overwrite mem at xs, n)
  overwrite-IsEdited xs at n h b k = record {
    same_length = length-overwrite mem xs at h;
    fits = k;
    bytes = All-overwrite IsByte mem xs at v.bytes b;
  }

  -- A gap opened at `idx` for `w`, and filled.
  pub open_gap-IsEdited :
      (w : List ℕ) (idx : ℕ)
      → idx ≤ size
      → size + length w ≤ max_size
      → All IsByte w
      → IsEdited mem max_size (
        overwrite (overwrite mem (idx + length w) (take (size - idx) (drop idx mem))) idx w,
        size + length w,
      )
  open_gap-IsEdited w idx h k b =
      let moved : List ℕ = overwrite mem (idx + length w) (take (size - idx) (drop idx mem)) in
      let same : length moved ≡ length mem =
        length-overwrite mem _ (idx + length w)
          (omega (arith, v.room, length-slice mem idx (size - idx))) in
      record {
        same_length = length-overwrite moved w idx (omega (arith, v.room)) ∙ same;
        fits = k;
        bytes =
            All-overwrite IsByte moved w idx
              (All-overwrite IsByte mem _ (idx + length w) v.bytes (slice-IsByte idx (size - idx)))
              b;
      }

  pub length-gap :
      (idx k : ℕ)
      → idx ≤ size
      → size + k ≤ length mem
      → length (overwrite mem (idx + k) (take (size - idx) (drop idx mem))) ≡ length mem
  length-gap idx k h g =
      length-overwrite mem _ (idx + k)
        (omega (arith, length-slice mem idx (size - idx), v.room, v.sized))

  pub length-input : length (take size mem) ≡ size
  length-input = omega (arith, length-take size mem, v.sized, v.room)

-- The input is the old one with the bytes `w` put in at `idx`.
abbrev pub InsertedAt : List ℕ → List ℕ → ℕ → Edit → Type 0
InsertedAt old w idx r =
    (r.1 ≡ length old + length w)
    × (idx ≤ length old)
    × (result r ≡ take idx old ++ (w ++ drop idx old))

abbrev pub Inserted : List ℕ → List ℕ → Edit → Type 0
Inserted old w r = (idx : ℕ) × InsertedAt old w idx r

pub open_gap-Inserted :
    {mem : List ℕ} {size max_size : ℕ} (v : IsInput mem size max_size) (w : List ℕ) (idx : ℕ)
    → idx ≤ size
    → size + length w ≤ max_size
    → Inserted (take size mem) w (
      overwrite (overwrite mem (idx + length w) (take (size - idx) (drop idx mem))) idx w,
      size + length w,
    )
open_gap-Inserted {mem} {size} v w idx h k = (
  idx,
  (
    omega (arith, length-input v),
    omega (arith, length-input v),
    take-open_gap mem w idx size h (omega (arith, v.room)),
  ),
)

-- Both, for a gap whose width is known by another name.
pub open_gap_lem :
    {mem : List ℕ} {size max_size : ℕ} (v : IsInput mem size max_size) (w : List ℕ) (idx n : ℕ)
    → length w ≡ n
    → idx ≤ size
    → size + n ≤ max_size
    → All IsByte w
    → let r : Edit =
        (overwrite (overwrite mem (idx + n) (take (size - idx) (drop idx mem))) idx w, size + n) in
      IsEdited mem max_size r × Inserted (take size mem) w r
open_gap_lem {mem} {size} {max_size} v w idx n e h k b =
    subst
      (λ (n : ℕ).
        size + n ≤ max_size
        → IsEdited mem max_size
            (overwrite (overwrite mem (idx + n) (take (size - idx) (drop idx mem))) idx w, size + n)
          × Inserted (take size mem) w (
            overwrite (overwrite mem (idx + n) (take (size - idx) (drop idx mem))) idx w,
            size + n,
          ))
      e (λ k. (open_gap-IsEdited v w idx h k b, open_gap-Inserted v w idx h k)) k
