-- ===== src/Util/Laws.antt =====
-- `ToASCII` of FuzzerUtil.cpp leaves characters that `IsASCII` accepts.
use pfuzzer.Base.{
  ℕ, zero, suc, ◌≤◌, ◌<◌, ◌≡◌, refl, ◌||◌, true, List, [], ◌∷◌, some, length, take, drop, All,
  arith, ap, and-true,
}
use pfuzzer.Base.Memory.{IsByte}
use pfuzzer.Util.{isspace, isprint, to_ascii_byte, to_ascii, is_ascii}

to_ascii_byte-lt : (x : ℕ) → to_ascii_byte x < 128
unfolding to_ascii_byte
to_ascii_byte-lt x = ground arith

to_ascii_byte-isprint : (x : ℕ) → (isprint (to_ascii_byte x) || isspace (to_ascii_byte x)) ≡ true
unfolding to_ascii_byte
to_ascii_byte-isprint x = ground arith

to_ascii_byte_kept : (x : ℕ) → (isprint x || isspace x) ≡ true → to_ascii_byte x ≡ x
unfolding to_ascii_byte
to_ascii_byte_kept x h = ground arith

-- `ToASCII` on the first bytes of an array leaves bytes that `IsASCII` accepts, and the other
-- bytes as they are.
pub to_ascii_lem :
    (xs : List ℕ) (n : ℕ)
    → n ≤ length xs
    → All IsByte xs
    → (ys : List ℕ) × (to_ascii xs n ≡ some ys)
      × (length ys ≡ length xs)
      × All IsByte ys
      × (is_ascii (take n ys) ≡ true)
      × (drop n ys ≡ drop n xs)
unfolding to_ascii is_ascii
to_ascii_lem xs zero h b = (xs, refl, refl, b, refl, refl)
to_ascii_lem [] (suc n) h b = absurd (omega arith)
to_ascii_lem (x ∷ xs) (suc n) h (b, bs) =
    let (ys, e, l, c, a, d) = to_ascii_lem xs n (omega arith) bs in
    (
      to_ascii_byte x ∷ ys,
      rw e refl,
      omega arith,
      (omega (arith, to_ascii_byte-lt x), c),
      rw (to_ascii_byte-isprint x) a,
      d,
    )

-- `ToASCII` changes nothing where `IsASCII` accepts the bytes.
pub to_ascii_kept :
    (xs : List ℕ) (n : ℕ) → n ≤ length xs → is_ascii (take n xs) ≡ true → to_ascii xs n ≡ some xs
unfolding to_ascii is_ascii
to_ascii_kept xs zero h a = refl
to_ascii_kept [] (suc n) h a = absurd (omega arith)
to_ascii_kept (x ∷ xs) (suc n) h a =
    let (p, q) = and-true _ (is_ascii (take n xs)) a in
    rw (to_ascii_kept xs n (omega arith) q) (ap (λ y. some (y ∷ xs)) (to_ascii_byte_kept x p))
