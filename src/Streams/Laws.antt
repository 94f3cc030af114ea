-- ===== src/Streams/Laws.antt =====
-- Reading lines and numbers gives back what was written.
use pfuzzer.Base.{
  ℕ, zero, suc, ◌+◌, ◌-◌, ◌*◌, ◌/◌, ◌%◌, ◌^◌, ◌<◌, ◌≡◌, refl, ltb, ◌==◌, true, false, if◌then◌else◌,
  List, [], ◌∷◌, ◌++◌, length, All, arith, tests, ap, ◌∙◌, lt→ltb, ltb→lt, ltb_false→le, Bool-cases,
  inl, inr,
}
use mathlib.Core.List.{append_assoc}
use pfuzzer.Util.{isspace}
use pfuzzer.Streams.{
  on_first, lines_of, skip_spaces, got, bad, is_digit, read_digits, in_width, read_magnitude,
  read_signed, read_number, read_numbers, print_digits, print_number, print_numbers,
}

-- A text with no line break.
abbrev pub IsLine : List ℕ → Type 0
IsLine = All (λ c. (c == b'\n') ≡ false)

pub lines_of-append :
    (l rest : List ℕ) → IsLine l → lines_of (l ++ (b'\n' ∷ rest)) ≡ l ∷ lines_of rest
unfolding lines_of on_first
lines_of-append [] rest h = refl
lines_of-append (c ∷ l) rest (p, h) = rw (p, lines_of-append l rest h) refl

-- What follows a number in a text that is read: nothing, or no digit.
abbrev pub Ends : List ℕ → Type 0
Ends [] = Unit
Ends (c ∷ cs) = is_digit c ≡ false

read_digits_end : (n : ℕ) (rest : List ℕ) → Ends rest → read_digits n rest ≡ (n, rest)
unfolding read_digits
read_digits_end n [] h = refl
read_digits_end n (c ∷ cs) h = rw h refl

read_digit :
    (n d : ℕ) (rest : List ℕ)
    → d < 10
    → read_digits n ((b'0' + d) ∷ rest) ≡ read_digits (n * 10 + d) rest
unfolding read_digits
read_digit n d rest h =
    let e : is_digit (b'0' + d) ≡ true = ground arith in
    let f : n * 10 + (b'0' + d - b'0') ≡ n * 10 + d = omega arith in rw (e, f) refl

read_digits-print_digits :
    (f n : ℕ) (rest : List ℕ)
    → n < f
    → read_digits 0 (print_digits f n ++ rest) ≡ read_digits n rest
unfolding print_digits
read_digits-print_digits zero n rest h = absurd (omega arith)
read_digits-print_digits (suc f) n rest h = elim (Bool-cases (ltb n 10)) [
  | inl e ↦
      rw e (read_digit 0 n rest (omega (tests, e)) ∙ ap (λ v. read_digits v rest) (omega arith))
  | inr e ↦
      let big = ltb_false→le n 10 e in
      let back : n / 10 * 10 + n % 10 ≡ n = omega arith in
      rw e (
        ap (read_digits 0) (append_assoc (print_digits f (n / 10)) ((b'0' + n % 10) ∷ []) rest)
        ∙ read_digits-print_digits f (n / 10) ((b'0' + n % 10) ∷ rest) (omega arith)
        ∙ read_digit (n / 10) (n % 10) rest (omega arith)
        ∙ ap (λ v. read_digits v rest) back)
]

-- The first character of a number is a digit.
pub data StartsDigit : List ℕ → Type 0 where
  starts : (c : ℕ) (cs : List ℕ) → is_digit c ≡ true → StartsDigit (c ∷ cs)

pub print_digits-StartsDigit :
    (f n : ℕ) (rest : List ℕ) → n < f → StartsDigit (print_digits f n ++ rest)
unfolding print_digits
print_digits-StartsDigit zero n rest h = absurd (omega arith)
print_digits-StartsDigit (suc f) n rest h = elim (Bool-cases (ltb n 10)) [
  | inl e ↦ let l = ltb→lt n 10 e in rw e (starts (b'0' + n) rest (ground arith))
  | inr e ↦
      let big = ltb_false→le n 10 e in
      rw (e, append_assoc (print_digits f (n / 10)) ((b'0' + n % 10) ∷ []) rest)
        (print_digits-StartsDigit f (n / 10) ((b'0' + n % 10) ∷ rest) (omega arith))
]

in_width-got : (w n : ℕ) (rest : List ℕ) → n < 2 ^ w → in_width w false (n, rest) ≡ got n rest
unfolding in_width
in_width-got w n rest l = rw (lt→ltb n (2 ^ w) l) refl

magnitude :
    (w n c : ℕ) (cs rest : List ℕ)
    → is_digit c ≡ true
    → read_digits 0 (c ∷ cs) ≡ (n, rest)
    → n < 2 ^ w
    → read_magnitude w false (c ∷ cs) ≡ got n rest
unfolding read_magnitude
magnitude w n c cs rest d e l =
    ap (λ b. if b then in_width w false (read_digits 0 (c ∷ cs)) else bad 0) d
    ∙ ap (in_width w false) e
    ∙ in_width-got w n rest l

read_digit_start :
    (w n : ℕ) (s rest : List ℕ)
    → StartsDigit s
    → read_digits 0 s ≡ (n, rest)
    → n < 2 ^ w
    → read_number w s ≡ got n rest
unfolding read_number read_signed skip_spaces
read_digit_start w n _ rest (starts c cs d) e l =
    let sp : isspace c ≡ false = ground (arith, d) in
    let m : (c == b'-') ≡ false = ground (arith, d) in
    let p : (c == b'+') ≡ false = ground (arith, d) in
    let skip : skip_spaces (c ∷ cs) ≡ c ∷ cs = rw (sp, skip_spaces) refl in
    ap (read_signed w) skip ∙ rw (m, p) (magnitude w n c cs rest d e l)

pub read_number-print_number :
    (w n : ℕ) (rest : List ℕ)
    → n < 2 ^ w
    → Ends rest
    → read_number w (print_number n ++ rest) ≡ got n rest
unfolding print_number
read_number-print_number w n rest l h =
    read_digit_start w n _ rest (print_digits-StartsDigit (suc n) n rest (omega arith))
      (read_digits-print_digits (suc n) n rest (omega arith) ∙ read_digits_end n rest h) l

pub read_number_space : (w : ℕ) (s : List ℕ) → read_number w (b' ' ∷ s) ≡ read_number w s
unfolding read_number skip_spaces
read_number_space w s = refl

pub print_numbers-Ends : (xs : List ℕ) → Ends (print_numbers xs)
unfolding print_numbers
print_numbers-Ends [] = tt
print_numbers-Ends (x ∷ xs) = refl

pub read_numbers-print_numbers :
    (f w : ℕ) (xs : List ℕ)
    → length xs < f
    → All (λ x. x < 2 ^ w) xs
    → read_numbers f w (print_numbers xs) ≡ xs
unfolding read_numbers print_numbers
read_numbers-print_numbers zero w xs h a = absurd (omega arith)
read_numbers-print_numbers (suc f) w [] h a = refl
read_numbers-print_numbers (suc f) w (x ∷ xs) h (l, a) =
    rw
      (
        read_number_space w (print_number x ++ print_numbers xs)
            ∙ read_number-print_number w x (print_numbers xs) l (print_numbers-Ends xs),
        read_numbers,
      )
      (ap (λ r. x ∷ r) (read_numbers-print_numbers f w xs (omega arith) a))
