-- ===== src/Util/Entries/Laws.antt =====
-- `ParseOneDictionaryEntry` of FuzzerUtil.cpp reads what `PrintASCII` prints.
use pfuzzer.Base.{
  ℕ, zero, suc, ◌+◌, ◌/◌, ◌%◌, ◌≤◌, ◌<◌, ◌≡◌, refl, ltb, ◌==◌, ◌||◌, Bool, true, false, List, [],
  ◌∷◌, ◌++◌, Option, none, some, length, All, arith, tests, ap, ◌∙◌, inl, inr, Bool-cases,
  length-append,
}
use mathlib.Core.List.{reverse, reverse-append, reverse-cons, reverse-reverse}
use pfuzzer.Util.{isspace, isprint}
use pfuzzer.Util.Entries.{
  skip_while, escape, push, parse_body, parse_opened, parse_closed, parse_one_dictionary_entry,
  print_ascii_byte, print_ascii,
}

-- A character that can be printed.
abbrev pub IsPrint : ℕ → Type 0
IsPrint b = isprint b ≡ true

parse_plain :
    (n b : ℕ) (rest : List ℕ) (r : Option (List ℕ))
    → IsPrint b
    → (b == 92) ≡ false
    → parse_body n rest ≡ r
    → parse_body (suc n) (b ∷ rest) ≡ push b r
unfolding parse_body push
parse_plain n b rest r p e h = rw (p, e, h) refl

parse_escaped :
    (n b : ℕ) (rest : List ℕ) (r : Option (List ℕ))
    → (b == 92 || b == 34) ≡ true
    → parse_body n rest ≡ r
    → parse_body (suc n) (92 ∷ b ∷ rest) ≡ push b r
unfolding parse_body push escape
parse_escaped n b rest r e h = rw (e, h) refl

print_quoted : (b : ℕ) → (b == 92 || b == 34) ≡ true → print_ascii_byte b ≡ 92 ∷ b ∷ []
unfolding print_ascii_byte
print_quoted b e = grind (arith, tests)

print_plain : (b : ℕ) → IsPrint b → (b == 92 || b == 34) ≡ false → print_ascii_byte b ≡ b ∷ []
unfolding print_ascii_byte
print_plain b p e = grind (arith, tests)

length-print_ascii_byte : (b : ℕ) → 0 < length (print_ascii_byte b)
unfolding print_ascii_byte
length-print_ascii_byte b = grind (arith, tests)

parse_printed :
    (n b : ℕ) (rest : List ℕ) (r : Option (List ℕ))
    → IsPrint b
    → length (print_ascii_byte b ++ rest) ≤ n
    → ((m : ℕ) → length rest ≤ m → parse_body m rest ≡ r)
    → parse_body n (print_ascii_byte b ++ rest) ≡ push b r
parse_printed zero b rest r p l h =
    absurd (omega (arith, length-print_ascii_byte b, length-append (print_ascii_byte b) rest))
parse_printed (suc n) b rest r p l h = elim (Bool-cases (b == 92 || b == 34)) [
  | inl e ↦
      let q = print_quoted b e in
      ap (λ x. parse_body (suc n) (x ++ rest)) q
      ∙ parse_escaped n b rest r e (h n (omega (arith, ap (λ x. length (x ++ rest)) q)))
  | inr e ↦
      let q = print_plain b p e in
      ap (λ x. parse_body (suc n) (x ++ rest)) q
      ∙ parse_plain n b rest r p (grind (arith, tests))
          (h n (omega (arith, ap (λ x. length (x ++ rest)) q)))
]

parse_body-print_ascii :
    (w : List ℕ) (n : ℕ)
    → All IsPrint w
    → length (print_ascii w) ≤ n
    → parse_body n (print_ascii w) ≡ some w
unfolding print_ascii parse_body push
parse_body-print_ascii [] n a l = refl
parse_body-print_ascii (b ∷ w) n (p, a) l =
    parse_printed n b (print_ascii w) (some w) p l (λ m k. parse_body-print_ascii w m a k)

print_octal :
    (b : ℕ)
    → isprint b ≡ false
    → print_ascii_byte b ≡ 92 ∷ (48 + b / 64) ∷ (48 + b / 8 % 8) ∷ (48 + b % 8) ∷ []
unfolding print_ascii_byte
print_octal b p = grind (arith, tests)

escape-none : (d : ℕ) (rest : List ℕ) → d < 52 → 47 < d → escape (d ∷ rest) ≡ none
unfolding escape
escape-none d rest h k = grind (arith, tests)

parse_unknown : (n : ℕ) (rest : List ℕ) → escape rest ≡ none → parse_body n (92 ∷ rest) ≡ none
unfolding parse_body
parse_unknown zero rest h = refl
parse_unknown (suc n) rest h = rw h refl

-- An octal escape is none that the loop knows.
parse_octal :
    (n b : ℕ) (rest : List ℕ)
    → b < 256
    → isprint b ≡ false
    → parse_body n (print_ascii_byte b ++ rest) ≡ none
parse_octal n b rest h p =
    ap (λ x. parse_body n (x ++ rest)) (print_octal b p)
    ∙ parse_unknown n _ (escape-none (48 + b / 64) _ (omega arith) (omega arith))

parse_body-print_ascii-none :
    (v : List ℕ) (b : ℕ) (w : List ℕ) (n : ℕ)
    → All IsPrint v
    → b < 256
    → isprint b ≡ false
    → length (print_ascii (v ++ (b ∷ w))) ≤ n
    → parse_body n (print_ascii (v ++ (b ∷ w))) ≡ none
unfolding print_ascii push
parse_body-print_ascii-none [] b w n a h p l = parse_octal n b (print_ascii w) h p
parse_body-print_ascii-none (x ∷ v) b w n (q, a) h p l =
    parse_printed n x (print_ascii (v ++ (b ∷ w))) none q l
      (λ m k. parse_body-print_ascii-none v b w m a h p k)

skip_while_kept :
    (p : ℕ → Bool) (x : ℕ) (xs : List ℕ) → p x ≡ false → skip_while p (x ∷ xs) ≡ x ∷ xs
unfolding skip_while
skip_while_kept p x [] h = refl
skip_while_kept p x (y ∷ ys) h = rw h refl

length-reverse : (xs : List ℕ) → length (reverse xs) ≡ length xs
length-reverse [] = refl
length-reverse (x ∷ xs) = omega (
  arith,
  ap (length {A = ℕ}) (reverse-cons x xs),
  length-append (reverse xs) (x ∷ []),
  length-reverse xs,
)

opening_kept :
    (b : ℕ) (bs : List ℕ)
    → reverse (skip_while isspace (34 ∷ b ∷ (bs ++ (34 ∷ [])))) ≡ 34 ∷ reverse (34 ∷ b ∷ bs)
unfolding skip_while
opening_kept b bs = reverse-append (34 ∷ b ∷ bs) (34 ∷ [])

parse_closed_lem :
    (b : ℕ) (bs : List ℕ)
    → parse_closed (34 ∷ reverse (34 ∷ b ∷ bs)) ≡ parse_body (length (b ∷ bs)) (b ∷ bs)
unfolding parse_closed skip_while parse_opened
parse_closed_lem b bs = rw (reverse-reverse (34 ∷ b ∷ bs), short) refl
  where
    short : ltb (length (34 ∷ reverse (34 ∷ b ∷ bs))) 3 ≡ false
    short = grind (arith, tests, length-reverse (34 ∷ b ∷ bs))

-- A string that starts and ends with a quote is read between them.
parse_quoted :
    (b : ℕ) (bs : List ℕ)
    → parse_one_dictionary_entry (34 ∷ b ∷ (bs ++ (34 ∷ [])))
      ≡ parse_body (length (b ∷ bs)) (b ∷ bs)
unfolding parse_one_dictionary_entry
parse_quoted b bs =
    ap (λ r. parse_closed (skip_while isspace r)) (opening_kept b bs)
    ∙ ap parse_closed (skip_while_kept isspace 34 (reverse (34 ∷ b ∷ bs)) refl)
    ∙ parse_closed_lem b bs

quoted_printed :
    (r : Option (List ℕ)) (xs : List ℕ)
    → 0 < length xs
    → parse_body (length xs) xs ≡ r
    → parse_one_dictionary_entry (34 ∷ (xs ++ (34 ∷ []))) ≡ r
quoted_printed r [] h e = absurd (omega arith)
quoted_printed r (b ∷ bs) h e = parse_quoted b bs ∙ e

length-print_ascii : (w : List ℕ) → length w ≤ length (print_ascii w)
unfolding print_ascii
length-print_ascii [] = omega arith
length-print_ascii (b ∷ w) = omega (
  arith,
  length-print_ascii_byte b,
  length-append (print_ascii_byte b) (print_ascii w),
  length-print_ascii w,
)

-- `ParseOneDictionaryEntry` accepts what `PrintASCII` prints for a word, put between quotes, and
-- returns the word, if the word is not empty and has only characters that `isprint` accepts,
-- quotes and backslashes included.
pub parse_one_dictionary_entry-print_ascii :
    (w : List ℕ)
    → 0 < length w
    → All IsPrint w
    → parse_one_dictionary_entry (34 ∷ (print_ascii w ++ (34 ∷ []))) ≡ some w
parse_one_dictionary_entry-print_ascii w h a =
    quoted_printed (some w) (print_ascii w) (omega (arith, length-print_ascii w))
      (parse_body-print_ascii w (length (print_ascii w)) a (omega arith))

-- `ParseOneDictionaryEntry` refuses what `PrintASCII` prints for a word, put between quotes, if
-- some byte of the word is none that `isprint` accepts: the octal escape of the first such byte
-- is invalid.
pub parse_one_dictionary_entry-print_ascii-none :
    (v : List ℕ) (b : ℕ) (w : List ℕ)
    → All IsPrint v
    → b < 256
    → isprint b ≡ false
    → parse_one_dictionary_entry (34 ∷ (print_ascii (v ++ (b ∷ w)) ++ (34 ∷ []))) ≡ none
parse_one_dictionary_entry-print_ascii-none v b w a h p =
    let x = v ++ (b ∷ w) in
    quoted_printed none (print_ascii x)
      (omega (arith, length-print_ascii x, length-append v (b ∷ w)))
      (parse_body-print_ascii-none v b w (length (print_ascii x)) a h p (omega arith))
