-- ===== src/Mutate/Binary/Laws.antt =====
-- `Mutate_ChangeBinaryInteger` of FuzzerMutate.cpp does not fault, and which integer it writes.
use native.Mathlib.Nat.{one-le-pow, pow-succ'}
use pfuzzer.Base.Digits.{mod-base}
use pfuzzer.Base.{
  ℕ, zero, suc, ◌+◌, ◌-◌, ◌/◌, ◌%◌, ◌^◌, ◌≤◌, ◌<◌, ◌≡◌, ◌≢◌, refl, ◌⊎◌, inl, inr, ltb, ◌==◌, Bool,
  true, false, if◌then◌else◌, List, length, take, drop, All, arith, le→leb, ap, sym, ◌∙◌,
  ltb_false→le, ltb→lt, ==→eq, ==_false→ne,
}
use pfuzzer.Base.Slices.{take_all}
use pfuzzer.Base.Comp.{
  Ensures, pure, pure-Ensures, bind-Ensures, assert-Ensures, minus-Ensures, lift-Ensures,
  if-Ensures, Ensures-mono,
}
use pfuzzer.Base.Memory.{IsByte, overwrite, copy_bytes_lem, take-overwrite}
use pfuzzer.Random.{rand, rand_bool}
use pfuzzer.Random.Laws.{rand-Ensures, rand_bool-Ensures}
use pfuzzer.Mutate.Edit.{Edit, IsEdited, IsInput, result}
use pfuzzer.Mutate.Frame.{Failed, failed-IsEdited, overwrite-IsEdited}
use pfuzzer.Mutate.Binary.{
  from_bytes, to_bytes, bswap, swap_sometimes, adjust, change_integer, change_binary_integer,
}

pub length-to_bytes : (width val : ℕ) → length (to_bytes width val) ≡ width
unfolding to_bytes
length-to_bytes zero val = refl
length-to_bytes (suc width) val = ap suc (length-to_bytes width (val / 256))

pub to_bytes-IsByte : (width val : ℕ) → All IsByte (to_bytes width val)
unfolding to_bytes
to_bytes-IsByte zero val = tt
to_bytes-IsByte (suc width) val = (omega arith, to_bytes-IsByte width (val / 256))

-- The bytes of an integer, low byte first, stand for the integer modulo 256 to the number of
-- bytes.
pub from_bytes-to_bytes : (width val : ℕ) → from_bytes (to_bytes width val) ≡ val % 256 ^ width
unfolding from_bytes to_bytes
from_bytes-to_bytes zero val = omega arith
from_bytes-to_bytes (suc width) val =
    omega (arith, from_bytes-to_bytes width (val / 256))
    ∙ mod-base val 256 (256 ^ width) (omega arith) (one-le-pow width 256 (omega arith))
    ∙ ap (λ k. val % k) (sym (pow-succ' 256 width))

-- A number between -10 and 10, modulo `modulus`.
abbrev pub IsAddend : ℕ → ℕ → Type 0
IsAddend modulus add = (r : ℕ) × (r ≤ 20) × (add ≡ (r % modulus + modulus - 10 % modulus) % modulus)

-- The sum of the old integer and the addend, in either byte order.
abbrev pub IsSum : ℕ → ℕ → ℕ → ℕ → Type 0
IsSum width old add x =
    (x ≡ (old + add) % 256 ^ width) ⊎ (x ≡ bswap width ((bswap width old + add) % 256 ^ width))

-- The old integer plus a number between -10 and 10, in either byte order; the sum is negated, or the
-- number is not 0 and it may stay.
abbrev pub IsAdjusted : ℕ → ℕ → ℕ → Type 0
IsAdjusted width old new =
    (add : ℕ) × (x : ℕ) × IsAddend (256 ^ width) add
    × IsSum width old add x
    × (((add ≢ 0) × (new ≡ x)) ⊎ (new ≡ (256 ^ width - x) % 256 ^ width))

adjust-IsAdjusted :
    (width old s : ℕ) → Ensures (adjust width old) s (λ new t. IsAdjusted width old new)
unfolding adjust
adjust-IsAdjusted width old s = bind-Ensures (rand-Ensures 21 s) λ r t h.
    let modulus = 256 ^ width in
    let add = (r % modulus + modulus - 10 % modulus) % modulus in
    bind-Ensures (rand_bool-Ensures t) λ swap u _.
      bind-Ensures (negation add u)
        λ negate w q. pure-Ensures _ (made add swap negate (r, omega arith, refl) q)
  where
    negation :
        (add s : ℕ)
        → Ensures (if add == 0 then pure true else rand_bool) s (λ b t. (add ≢ 0) ⊎ (b ≡ true))
    negation add s =
        if-Ensures (add == 0) (λ _. pure-Ensures _ (inr refl))
          λ e. Ensures-mono (λ b t _. inl (==_false→ne add 0 e)) (rand_bool-Ensures s)

    signed_sum :
        (add x : ℕ) (negate : Bool)
        → (add ≢ 0) ⊎ (negate ≡ true)
        → let new = if negate then (256 ^ width - x) % 256 ^ width else x in
          ((add ≢ 0) × (new ≡ x)) ⊎ (new ≡ (256 ^ width - x) % 256 ^ width)
    signed_sum add x true q = inr refl
    signed_sum add x false (inl ne) = inl (ne, refl)
    signed_sum add x false (inr e) = absurd (cc)

    made :
        (add : ℕ) (swap negate : Bool)
        → IsAddend (256 ^ width) add
        → (add ≢ 0) ⊎ (negate ≡ true)
        → let val =
            if swap
            then bswap width ((bswap width old + add) % 256 ^ width)
            else (old + add) % 256 ^ width in
          IsAdjusted width old (if negate then (256 ^ width - val) % 256 ^ width else val)
    made add true negate a q = (add, _, a, inr refl, signed_sum add _ negate q)
    made add false negate a q = (add, _, a, inl refl, signed_sum add _ negate q)

-- The sizes of the types that the mutator is made for.
abbrev pub IsWidth : ℕ → Type 0
IsWidth width = (width ≡ 1) ⊎ ((width ≡ 2) ⊎ ((width ≡ 4) ⊎ (width ≡ 8)))

-- An integer of `width` bytes is written over the input; it is the size of the input (perhaps with
-- its bytes swapped) near the start, or the old integer, adjusted.
pub record IsNewInteger (width : ℕ) (mem : List ℕ) (size : ℕ) (r : Edit) : Type 0 where
  pub off : ℕ
  pub value : ℕ
  pub within : off + width ≤ size
  pub same_size : r.1 ≡ size
  pub written : result r ≡ overwrite (take size mem) off (to_bytes width value)
  pub source :
      ((off < 64) × ((value ≡ size % 256 ^ width) ⊎ (value ≡ bswap width (size % 256 ^ width))))
      ⊎ IsAdjusted width (from_bytes (take width (drop off mem))) value

abbrev Source : ℕ → List ℕ → ℕ → ℕ → ℕ → Type 0
Source width mem size off value =
    ((off < 64) × ((value ≡ size % 256 ^ width) ⊎ (value ≡ bswap width (size % 256 ^ width))))
    ⊎ IsAdjusted width (from_bytes (take width (drop off mem))) value

swap_sometimes-Ensures :
    (width val s : ℕ)
    → Ensures (swap_sometimes width val) s (λ r t. (r ≡ val) ⊎ (r ≡ bswap width val))
unfolding swap_sometimes
swap_sometimes-Ensures width val s =
    bind-Ensures (rand_bool-Ensures s) λ swap t _. pure-Ensures _ (either swap)
  where
    either :
        (swap : Bool)
        → let r = if swap then bswap width val else val in (r ≡ val) ⊎ (r ≡ bswap width val)
    either true = inr refl
    either false = inl refl

near_start :
    (off s : ℕ) → Ensures (if ltb off 64 then rand 4 else pure 1) s (λ k t. (off < 64) ⊎ (k ≡ 1))
near_start off s =
    if-Ensures (ltb off 64) (λ h. Ensures-mono (λ k t _. inl (ltb→lt off 64 h)) (rand-Ensures 4 s))
      λ _. pure-Ensures 1 (inr refl)

pub change_integer-Ensures :
    (width : ℕ) (mem : List ℕ) (size max_size s : ℕ)
    → IsInput mem size max_size
    → Ensures (change_integer width mem size) s (λ r t.
      IsEdited mem max_size r × ((Failed mem r × (size < width)) ⊎ IsNewInteger width mem size r))
unfolding change_integer
change_integer-Ensures width mem size max_size s v =
    if-Ensures (ltb size width)
      (λ short. pure-Ensures _ (failed-IsEdited v, inl ((refl, refl), ltb→lt size width short)))
      λ fits.
        let g : width ≤ size = ltb_false→le size width fits in
        minus-Ensures _ g (
          bind-Ensures (rand-Ensures (size - width + 1) s) λ off t h.
            let w : off + width ≤ size = omega arith in
            assert-Ensures (le→leb _ _ w) (
              bind-Ensures (near_start off t) λ k u n. bind-Ensures (chosen off k u n) λ value x c.
                lift-Ensures _
                  (copy_bytes_lem mem (to_bytes width value) off 0 width
                    (omega (arith, length-to_bytes width value)) (omega (arith, v.room, v.sized)))
                  (pure-Ensures _ (made off value w c))))
  where
    chosen :
        (off k s : ℕ)
        → (off < 64) ⊎ (k ≡ 1)
        → Ensures
            (if k == 0
              then swap_sometimes width (size % 256 ^ width)
              else adjust width (from_bytes (take width (drop off mem))))
            s
            (λ value t. Source width mem size off value)
    chosen off k s n =
        if-Ensures (k == 0)
          (λ z.
            Ensures-mono (λ r t q. inl (early n (==→eq k 0 z), q))
              (swap_sometimes-Ensures width _ s))
          λ _. Ensures-mono (λ r t q. inr q) (adjust-IsAdjusted width _ s)
      where
        early : (off < 64) ⊎ (k ≡ 1) → k ≡ 0 → off < 64
        early n z = omega arith

    made :
        (off value : ℕ)
        → off + width ≤ size
        → Source width mem size off value
        → let r : Edit = (overwrite mem off (take width (to_bytes width value)), size) in
          IsEdited mem max_size r
          × ((Failed mem r × (size < width)) ⊎ IsNewInteger width mem size r)
    made off value h c =
        let n = length-to_bytes width value in
        rw (take_all width (to_bytes width value) (omega (arith, n))) (
          overwrite-IsEdited v (to_bytes width value) off size (omega (arith, n, v.room, v.sized))
              (to_bytes-IsByte width value) v.sized,
          inr (record {
            off = off;
            value = value;
            within = h;
            same_size = refl;
            written =
                take-overwrite mem (to_bytes width value) off size (omega (arith, n))
                  (omega (arith, v.room, v.sized));
            source = c;
          }),
        )

below_eight : (width size : ℕ) → IsWidth width → size < width → size < 8
below_eight width size (inl e) l = omega (arith, e, l)
below_eight width size (inr (inl e)) l = omega (arith, e, l)
below_eight width size (inr (inr (inl e))) l = omega (arith, e, l)
below_eight width size (inr (inr (inr e))) l = omega (arith, e, l)

-- `Mutate_ChangeBinaryInteger` never faults; it fails without a change, which it does only on an
-- input of fewer than eight bytes, or writes an integer of 1, 2, 4 or 8 bytes over one in the
-- input: near the start the input's size in either byte order, or the old integer plus a number
-- between -10 and 10, added in either byte order, and negated, always where the number is 0.
pub change_binary_integer-Ensures :
    (mem : List ℕ) (size max_size s : ℕ)
    → IsInput mem size max_size
    → Ensures (change_binary_integer mem size max_size) s (λ r t.
      IsEdited mem max_size r
      × ((Failed mem r × (size < 8))
          ⊎ ((width : ℕ) × IsWidth width × IsNewInteger width mem size r)))
unfolding change_binary_integer
change_binary_integer-Ensures mem size max_size s v =
    if-Ensures (ltb max_size size)
      (λ over. let l = ltb→lt max_size size over in absurd (omega (arith, l, v.sized)))
      λ _. bind-Ensures (rand-Ensures 4 s) λ k t _.
        if-Ensures (k == 3) (λ _. at 8 t (inr (inr (inr refl))))
          λ _.
            if-Ensures (k == 2) (λ _. at 4 t (inr (inr (inl refl))))
              λ _. if-Ensures (k == 1) (λ _. at 2 t (inr (inl refl))) (λ _. at 1 t (inl refl))
  where
    at :
        (width s : ℕ)
        → IsWidth width
        → Ensures (change_integer width mem size) s (λ r t.
          IsEdited mem max_size r
          × ((Failed mem r × (size < 8))
              ⊎ ((width : ℕ) × IsWidth width × IsNewInteger width mem size r)))
    at width s h =
        Ensures-mono (λ r t q. (q.0, wide r q.1))
          (change_integer-Ensures width mem size max_size s v)
      where
        wide :
            (r : Edit)
            → (Failed mem r × (size < width)) ⊎ IsNewInteger width mem size r
            → (Failed mem r × (size < 8))
              ⊎ ((width : ℕ) × IsWidth width × IsNewInteger width mem size r)
        wide r (inl (f, short)) = inl (f, below_eight width size h short)
        wide r (inr q) = inr (width, h, q)
