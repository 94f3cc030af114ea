-- ===== src/Mutate/Bytes/Change.antt =====
-- `Mutate_ChangeByte` and `Mutate_ChangeBit` of FuzzerMutate.cpp do not fault, and what they
-- change. On an empty input both write the first byte of the array, and return 0.
use native.Mathlib.Decide.{dec_lt}
use pfuzzer.Base.{Bool, some, get_elem?-take, ◌≢◌, not, and-true, ltb→lt, ◌&&◌}
use pfuzzer.Base.Below.{checked, checked_lem}
use pfuzzer.Base.{
  ℕ, ◌-◌, ◌^◌, ◌≤◌, ◌<◌, ◌≡◌, refl, ◌⊎◌, inl, inr, ltb, ◌==◌, bit_xor, true, List, [], ◌∷◌,
  get_elem?, length, take, arith, ◌∙◌, get_elem?_lt, All-get_elem?,
}
use pfuzzer.Base.Comp.{Ensures, pure-Ensures, bind-Ensures, lift-Ensures, if-Ensures}
use pfuzzer.Base.Memory.{IsByte, overwrite, store_lem, take-overwrite}
use pfuzzer.Mutate.Frame.{overwrite-IsEdited, length-input}
use pfuzzer.Random.Laws.{rand-Ensures}
use pfuzzer.Mutate.Edit.{Edit, IsEdited, IsInput, result}
use pfuzzer.Mutate.Bytes.Erase.{rand_ch-IsByte}
use pfuzzer.Mutate.Bytes.{change_byte, change_bit}

-- One byte of the input is overwritten by `c`, and its size is kept.
abbrev pub ChangedTo : List ℕ → ℕ → ℕ → Edit → Type 0
ChangedTo old idx c r =
    (r.1 ≡ length old) × (idx < length old) × (result r ≡ overwrite old idx (c ∷ []))

change-ChangedTo :
    {mem : List ℕ} {size max_size : ℕ} (v : IsInput mem size max_size) (idx c : ℕ)
    → idx < size
    → ChangedTo (take size mem) idx c (overwrite mem idx (c ∷ []), size)
change-ChangedTo {mem} {size} v idx c h = (
  omega (arith, length-input v),
  omega (arith, length-input v),
  take-overwrite mem (c ∷ []) idx size (omega arith) (omega (arith, v.room, v.sized)),
)

-- `Mutate_ChangeByte`, where at least one byte may be written, never faults; it writes a byte
-- over one of the input, or the input is empty and it returns 0.
pub change_byte-Ensures :
    (mem : List ℕ) (size max_size s : ℕ)
    → IsInput mem size max_size
    → 0 < max_size
    → Ensures (change_byte mem size max_size) s (λ r t.
      IsEdited mem max_size r
      × ((size ≡ 0) × (r.1 ≡ 0) ⊎ ((idx c : ℕ) × IsByte c × ChangedTo (take size mem) idx c r)))
unfolding change_byte
change_byte-Ensures mem size max_size s v pos =
    if-Ensures (ltb max_size size) (λ e. absurd (omega (arith, ltb→lt max_size size e)))
      λ _. bind-Ensures (rand-Ensures size s) λ idx t h. bind-Ensures (rand_ch-IsByte t) λ c u b.
        lift-Ensures _ (store_lem mem idx c (omega arith)) (
          pure-Ensures _ (
            overwrite-IsEdited v (c ∷ []) idx size (omega arith) (b, tt) v.sized,
            split idx c b h.0,
          ))
  where
    split :
        (idx c : ℕ)
        → IsByte c
        → idx ≤ size - 1
        → (size ≡ 0) × (size ≡ 0)
          ⊎ ((i d : ℕ) × IsByte d
              × ChangedTo (take size mem) i d (overwrite mem idx (c ∷ []), size))
    split idx c b h = elim (dec_lt idx size) [
      | yes p ↦ inr (idx, c, b, change-ChangedTo v idx c p)
      | no p ↦ inl (omega arith, omega arith)
    ]

-- Flipping bit `k` leaves a byte, and another one.
abbrev flips_well : ℕ → ℕ → Bool
flips_well x k = ltb (bit_xor x (2 ^ k)) 256 && not (bit_xor x (2 ^ k) == x)

all_flips : checked (λ x. checked (flips_well x) 8) 256 ≡ true
unfolding checked
all_flips = refl

flip-IsByte : (x k : ℕ) → x < 256 → k < 8 → IsByte (bit_xor x (2 ^ k)) × (bit_xor x (2 ^ k) ≢ x)
flip-IsByte x k h g =
    let every_bit = checked_lem (λ y. checked (flips_well y) 8) 256 all_flips x h in
    let (small, other) = and-true _ _ (checked_lem (flips_well x) 8 every_bit k g) in
    (ltb→lt _ _ small, ground arith)

-- One bit of one byte is flipped.
abbrev pub Flipped : List ℕ → Edit → Type 0
Flipped old r =
    (idx c k : ℕ) × (get_elem? old idx ≡ some c)
    × (k < 8)
    × (bit_xor c (2 ^ k) ≢ c)
    × ChangedTo old idx (bit_xor c (2 ^ k)) r

-- `Mutate_ChangeBit`, where at least one byte may be written, never faults; it flips one bit of
-- one byte of the input, which changes this byte, or the input is empty and it returns 0.
pub change_bit-Ensures :
    (mem : List ℕ) (size max_size s : ℕ)
    → IsInput mem size max_size
    → 0 < max_size
    → Ensures
        (change_bit mem size max_size)
        s
        (λ r t. IsEdited mem max_size r × ((size ≡ 0) × (r.1 ≡ 0) ⊎ Flipped (take size mem) r))
unfolding change_bit
change_bit-Ensures mem size max_size s v pos =
    if-Ensures (ltb max_size size) (λ e. absurd (omega (arith, ltb→lt max_size size e)))
      λ _. bind-Ensures (rand-Ensures size s) λ idx t h.
        let (c, e) = get_elem?_lt mem idx (omega arith) in
        let b : IsByte c = All-get_elem? IsByte mem idx c v.bytes e in
        lift-Ensures _ e (
          bind-Ensures (rand-Ensures 8 t) λ k u g.
            let f = flip-IsByte c k b (omega arith) in
            lift-Ensures _ (store_lem mem idx (bit_xor c (2 ^ k)) (omega arith)) (
              pure-Ensures _ (
                overwrite-IsEdited v (bit_xor c (2 ^ k) ∷ []) idx size (omega arith) (f.0, tt)
                    v.sized,
                split idx c k e h.0 (omega arith) f.1,
              )))
  where
    split :
        (idx c k : ℕ)
        → get_elem? mem idx ≡ some c
        → idx ≤ size - 1
        → k < 8
        → bit_xor c (2 ^ k) ≢ c
        → (size ≡ 0) × (size ≡ 0)
          ⊎ Flipped (take size mem) (overwrite mem idx (bit_xor c (2 ^ k) ∷ []), size)
    split idx c k e h g f = elim (dec_lt idx size) [
      | yes p ↦ inr (idx, c, k, get_elem?-take mem size idx p ∙ e, g, f, change-ChangedTo v idx _ p)
      | no p ↦ inl (omega arith, omega arith)
    ]
