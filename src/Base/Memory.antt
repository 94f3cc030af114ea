-- ===== src/Base/Memory.antt =====
-- Byte arrays: `memcpy`, `memmove` and stores, which fault outside the array, and what they leave
-- in a prefix of it. A copy reads its source before it writes, as `memmove` does.
use mathlib.Core.List.{append_assoc}
use native.Mathlib.Omega.{arith}
use pfuzzer.Base.Slices.{
  take-append, take-append_ge, take_all, take-take, drop-take, drop-append, take-append-drop,
  drop-drop,
}
use pfuzzer.Base.Lists.{
  length, take, drop, set, replicate, All, All-append, All-take, All-drop, length-append,
  length-take, length-drop,
}
use pfuzzer.Base.Tests.{leb, ltb, if◌then◌else◌, lt→ltb}
use Prim.Native.Nat.{ℕ, zero, suc, ◌+◌, ◌-◌, ◌≤◌, ◌<◌}
use mathlib.Core.Path.{◌≡◌, refl, ap, ap₂, sym, ◌∙◌}
use mathlib.Core.Bool.{◌&&◌}
use mathlib.Core.List.{List, [], ◌∷◌, ◌++◌}
use mathlib.Core.Option.{Option, none, some}

abbrev pub IsByte : ℕ → Type 0
IsByte b = b < 256

-- `xs` written over `to` from index `at`.
unfoldable pub overwrite {ℓ} : {A : Type ℓ} → List A → ℕ → List A → List A
overwrite to at xs = take at to ++ (xs ++ drop (at + length xs) to)

-- `memcpy(to + at, from + beg, n)`, and `memmove` where `from` is `to`.
unfoldable pub copy_bytes : List ℕ → ℕ → List ℕ → ℕ → ℕ → Option (List ℕ)
copy_bytes to at from beg n =
    if leb (beg + n) (length from) && leb (at + n) (length to)
    then some (overwrite to at (take n (drop beg from)))
    else none

-- `to[at] = v`.
unfoldable pub store : List ℕ → ℕ → ℕ → Option (List ℕ)
store to at v = if ltb at (length to) then some (set to at v) else none

pub copy_bytes_lem :
    (to from : List ℕ) (at beg n : ℕ)
    → beg + n ≤ length from
    → at + n ≤ length to
    → copy_bytes to at from beg n ≡ some (overwrite to at (take n (drop beg from)))
unfolding copy_bytes
copy_bytes_lem to from at beg n h k = ground arith

pub length-slice :
    (xs : List ℕ) (beg n : ℕ) → beg + n ≤ length xs → length (take n (drop beg xs)) ≡ n
length-slice xs beg n h = omega (arith, length-take n (drop beg xs), length-drop beg xs)

pub length-overwrite :
    (to xs : List ℕ) (at : ℕ) → at + length xs ≤ length to → length (overwrite to at xs) ≡ length to
unfolding overwrite
length-overwrite to xs at h = omega (
  arith,
  length-append (take at to) (xs ++ drop (at + length xs) to),
  length-append xs (drop (at + length xs) to),
  length-take at to,
  length-drop (at + length xs) to,
)

pub All-overwrite :
    (P : ℕ → Type 0) (to xs : List ℕ) (at : ℕ) → All P to → All P xs → All P (overwrite to at xs)
unfolding overwrite
All-overwrite P to xs at h k =
    All-append P (take at to) (xs ++ drop (at + length xs) to) (All-take P at to h)
      (All-append P xs (drop (at + length xs) to) k (All-drop P (at + length xs) to h))

pub set-overwrite :
    (to : List ℕ) (at v : ℕ) → at < length to → set to at v ≡ overwrite to at (v ∷ [])
unfolding overwrite
set-overwrite [] at v h = absurd (omega arith)
set-overwrite (x ∷ xs) zero v h = refl
set-overwrite (x ∷ xs) (suc at) v h =
    ap (◌∷◌ x) (set-overwrite xs at v (omega arith))
    ∙ ap (λ k. x ∷ (take at xs ++ (v ∷ drop k (x ∷ xs)))) {x = suc (at + 1)} {y = suc at + 1}
        (omega arith)

pub store_lem :
    (to : List ℕ) (at v : ℕ) → at < length to → store to at v ≡ some (overwrite to at (v ∷ []))
unfolding store
store_lem to at v h = rw (lt→ltb at (length to) h, set-overwrite to at v h)

-- Up to the end of what was written.
pub take-overwrite_end :
    (to xs : List ℕ) (at n : ℕ)
    → at ≤ length to
    → n ≡ at + length xs
    → take n (overwrite to at xs) ≡ take at to ++ xs
unfolding overwrite
take-overwrite_end to xs at n h e =
    take-append_ge n (take at to) _ (omega (arith, length-take at to))
    ∙ ap (◌++◌ (take at to)) (
        take-append _ xs _ (omega (arith, length-take at to))
        ∙ take_all _ xs (omega (arith, length-take at to)))

-- A slice of a prefix, with the prefix's length written out.
pub drop-take_le : (m n : ℕ) (xs : List ℕ) → m ≤ n → take (n - m) (drop m xs) ≡ drop m (take n xs)
drop-take_le m n xs h = sym (drop-take m (n - m) xs) ∙ ap (λ k. drop m (take k xs)) (omega arith)

-- A longer prefix is the prefix, written over.
pub take-overwrite :
    (to xs : List ℕ) (at n : ℕ)
    → at + length xs ≤ n
    → n ≤ length to
    → take n (overwrite to at xs) ≡ overwrite (take n to) at xs
unfolding overwrite
take-overwrite to xs at n h k =
    take-append_ge n (take at to) _ (omega (arith, length-take at to))
    ∙ ap₂ ◌++◌ (sym (take-take at n to (omega arith))) (
        take-append_ge _ xs _ (omega (arith, length-take at to))
        ∙ ap (◌++◌ xs) (
            ap (λ j. take j (drop (at + length xs) to)) (omega (arith, length-take at to))
            ∙ drop-take_le (at + length xs) n to h))

-- `memmove` that closes the gap `[idx, idx + n)`.
pub take-close_gap :
    (xs : List ℕ) (idx n size : ℕ)
    → idx + n ≤ size
    → size ≤ length xs
    → take (size - n) (overwrite xs idx (take (size - n - idx) (drop (idx + n) xs)))
      ≡ take idx (take size xs) ++ drop (idx + n) (take size xs)
take-close_gap xs idx n size h k =
    take-overwrite_end xs _ idx _ (omega arith)
      (omega (arith, length-slice xs (idx + n) (size - n - idx)))
    ∙ ap₂ ◌++◌ (sym (take-take idx size xs (omega arith)))
        (ap (λ j. take j (drop (idx + n) xs)) (omega arith) ∙ drop-take_le (idx + n) size xs h)

-- `memmove` that opens a gap at `idx`, with `w` written into it.
pub take-open_gap :
    (xs w : List ℕ) (idx size : ℕ)
    → idx ≤ size
    → size + length w ≤ length xs
    → take
        (size + length w)
        (overwrite (overwrite xs (idx + length w) (take (size - idx) (drop idx xs))) idx w)
      ≡ take idx (take size xs) ++ (w ++ drop idx (take size xs))
take-open_gap xs w idx size h k =
    take-overwrite moved w idx (size + length w) (omega arith)
      (omega (arith, length-overwrite xs tail (idx + length w), length-slice xs idx (size - idx)))
    ∙ ap (λ l. overwrite l idx w) prefix
    ∙ rewritten
  where
    tail : List ℕ
    tail = take (size - idx) (drop idx xs)

    moved : List ℕ
    moved = overwrite xs (idx + length w) tail

    prefix : take (size + length w) moved ≡ take (idx + length w) xs ++ tail
    prefix =
        take-overwrite_end xs tail (idx + length w) _ (omega arith)
          (omega (arith, length-slice xs idx (size - idx)))

    rewritten :
        overwrite (take (idx + length w) xs ++ tail) idx w
        ≡ take idx (take size xs) ++ (w ++ drop idx (take size xs))
    rewritten =
        unfold overwrite in
        ap₂ ◌++◌
          (take-append idx (take (idx + length w) xs) tail
              (omega (arith, length-take (idx + length w) xs))
            ∙ take-take idx (idx + length w) xs (omega arith)
            ∙ sym (take-take idx size xs h))
          (ap (◌++◌ w) (
            drop-append (idx + length w) (take (idx + length w) xs) tail
              (omega (arith, length-take (idx + length w) xs))
            ∙ drop-take_le idx size xs h))

-- `for (i = 0; i < n; i++) to[idx + i] = v;`
unfoldable pub fill : List ℕ → ℕ → ℕ → ℕ → Option (List ℕ)
unfolding store
fill to idx zero v = some to
fill to idx (suc n) v = elim (store to idx v) [ none ↦ none | some next ↦ fill next (idx + 1) n v ]

drop-overwrite :
    (to xs : List ℕ) (at k : ℕ)
    → at ≤ length to
    → drop (at + length xs + k) (overwrite to at xs) ≡ drop (at + length xs + k) to
unfolding overwrite
drop-overwrite to xs at k h =
    sym (drop-drop k (at + length xs) (overwrite to at xs))
    ∙ ap (drop k) (sym (drop-drop (length xs) at (overwrite to at xs)) ∙ past)
    ∙ drop-drop k (at + length xs) to
  where
    past : drop (length xs) (drop at (overwrite to at xs)) ≡ drop (at + length xs) to
    past =
        ap (drop (length xs)) (
          drop-append at (take at to) (xs ++ drop (at + length xs) to)
            (omega (arith, length-take at to)))
        ∙ drop-append (length xs) xs (drop (at + length xs) to) refl

-- Two writes side by side are one.
overwrite-overwrite_next :
    (to xs ys : List ℕ) (at : ℕ)
    → at ≤ length to
    → overwrite (overwrite to at xs) (at + length xs) ys ≡ overwrite to at (xs ++ ys)
overwrite-overwrite_next to xs ys at h =
    unfold overwrite in
    ap₂ ◌++◌ (take-overwrite_end to xs at _ h refl)
      (ap (◌++◌ ys) (drop-overwrite to xs at (length ys) h))
    ∙ append_assoc (take at to) xs (ys ++ drop (at + length xs + length ys) to)
    ∙ ap (◌++◌ (take at to)) (
        sym (append_assoc xs ys (drop (at + length xs + length ys) to))
        ∙ ap (λ k. (xs ++ ys) ++ drop k to) (omega (arith, length-append xs ys)))

pub overwrite-nil : (to : List ℕ) (at : ℕ) → overwrite to at [] ≡ to
unfolding overwrite
overwrite-nil to at = ap (λ k. take at to ++ drop k to) (omega arith) ∙ take-append-drop at to

pub fill_lem :
    (to : List ℕ) (idx n v : ℕ)
    → idx + n ≤ length to
    → fill to idx n v ≡ some (overwrite to idx (replicate n v))
unfolding fill
fill_lem to idx zero v h = ap some (sym (overwrite-nil to idx))
fill_lem to idx (suc n) v h =
    rw (store_lem to idx v (omega arith), fill)
      (fill_lem (overwrite to idx (v ∷ [])) (idx + 1) n v
          (omega (arith, length-overwrite to (v ∷ []) idx))
        ∙ ap some (overwrite-overwrite_next to (v ∷ []) (replicate n v) idx (omega arith)))

pub overwrite-overwrite_before :
    (to xs ys : List ℕ) (at : ℕ)
    → at + length ys + length xs ≤ length to
    → overwrite (overwrite to (at + length ys) xs) at ys ≡ overwrite to at (ys ++ xs)
overwrite-overwrite_before to xs ys at h =
    unfold overwrite in
    ap₂ ◌++◌
      (take-append at (take (at + length ys) to) (xs ++ drop (at + length ys + length xs) to)
          (omega (arith, length-take (at + length ys) to))
        ∙ take-take at (at + length ys) to (omega arith))
      (ap (◌++◌ ys) (
          drop-append (at + length ys) (take (at + length ys) to)
            (xs ++ drop (at + length ys + length xs) to)
            (omega (arith, length-take (at + length ys) to)))
        ∙ sym (append_assoc ys xs (drop (at + length ys + length xs) to))
        ∙ ap (λ k. (ys ++ xs) ++ drop k to) (omega (arith, length-append ys xs)))
