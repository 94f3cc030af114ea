-- ===== src/Streams.antt =====
-- What the program uses of C++ streams: the lines of a text, words and numbers read from a line,
-- and numbers written in decimal. Texts are lists of bytes.
pub mod Laws
use pfuzzer.Base.{
  ℕ, zero, suc, ◌+◌, ◌-◌, ◌*◌, ◌/◌, ◌%◌, ◌^◌, ltb, leb, ◌==◌, ◌&&◌, Bool, true, false,
  if◌then◌else◌, List, [], ◌∷◌, ◌++◌, Option, none, some, length,
}
use Prim.Native.Char.{code}
use Prim.Native.String.{String}
use pfuzzer.Util.{isspace}

-- The bytes of a literal.
abbrev pub bytes_of : String → List ℕ
bytes_of String.[] = []
bytes_of (String.◌∷◌ c s) = code c ∷ bytes_of s

unfoldable pub on_first : ℕ → List (List ℕ) → List (List ℕ)
on_first c [] = (c ∷ []) ∷ []
on_first c (l ∷ ls) = (c ∷ l) ∷ ls

-- The lines that `std::getline` reads one after another.
unfoldable pub lines_of : List ℕ → List (List ℕ)
unfolding on_first
lines_of [] = []
lines_of (c ∷ cs) = if c == b'\n' then [] ∷ lines_of cs else on_first c (lines_of cs)

unfoldable pub skip_spaces : List ℕ → List ℕ
skip_spaces [] = []
skip_spaces (c ∷ cs) = if isspace c then skip_spaces cs else c ∷ cs

-- The characters up to a space, and the others.
unfoldable pub word_of : List ℕ → List ℕ × List ℕ
word_of [] = ([], [])
word_of (c ∷ cs) = let (w, rest) = word_of cs in if isspace c then ([], c ∷ cs) else (c ∷ w, rest)

-- `>>` into a string.
unfoldable pub read_word : List ℕ → Option (List ℕ × List ℕ)
unfolding skip_spaces word_of
read_word s = elim (skip_spaces s) [ [] ↦ none | c ∷ cs ↦ some (word_of (c ∷ cs)) ]

-- `>>` into an unsigned number: the value and what is left, or nothing is there and the variable
-- keeps its value, or it fails and gives the variable a value.
pub data Extract : Type 0 where
  got : ℕ → List ℕ → Extract
  nothing : Extract
  bad : ℕ → Extract

abbrev pub is_digit : ℕ → Bool
is_digit c = leb b'0' c && leb c b'9'

unfoldable pub read_digits : ℕ → List ℕ → ℕ × List ℕ
read_digits n [] = (n, [])
read_digits n (c ∷ cs) = if is_digit c then read_digits (n * 10 + (c - b'0')) cs else (n, c ∷ cs)

unfoldable pub in_width : ℕ → Bool → ℕ × List ℕ → Extract
in_width w negative (n, rest) =
    if ltb n (2 ^ w)
    then got (if negative then (2 ^ w - n) % 2 ^ w else n) rest
    else bad (2 ^ w - 1)

unfoldable pub read_magnitude : ℕ → Bool → List ℕ → Extract
unfolding read_digits in_width
read_magnitude w negative [] = bad 0
read_magnitude w negative (c ∷ cs) =
    if is_digit c then in_width w negative (read_digits 0 (c ∷ cs)) else bad 0

unfoldable pub read_signed : ℕ → List ℕ → Extract
unfolding read_magnitude
read_signed w [] = nothing
read_signed w (c ∷ cs) =
    if c == b'-'
    then read_magnitude w true cs
    else if c == b'+'
    then read_magnitude w false cs
    else read_magnitude w false (c ∷ cs)

unfoldable pub read_number : ℕ → List ℕ → Extract
unfolding read_signed skip_spaces
read_number w s = read_signed w (skip_spaces s)

-- The numbers that a loop reads until one fails, on fuel.
unfoldable pub read_numbers : ℕ → ℕ → List ℕ → List ℕ
unfolding read_number
read_numbers zero w s = []
read_numbers (suc n) w s = elim (read_number w s) [
  | got x rest ↦ x ∷ read_numbers n w rest
  | nothing ↦ []
  | bad x ↦ []
]

unfoldable pub print_digits : ℕ → ℕ → List ℕ
print_digits zero n = []
print_digits (suc f) n =
    let more = print_digits f (n / 10) ++ ((b'0' + n % 10) ∷ []) in
    if ltb n 10 then (b'0' + n) ∷ [] else more

-- `<<` of an unsigned number.
unfoldable pub print_number : ℕ → List ℕ
unfolding print_digits
print_number n = print_digits (suc n) n

-- Numbers, each with a space before it.
unfoldable pub print_numbers : List ℕ → List ℕ
unfolding print_number
print_numbers [] = []
print_numbers (x ∷ xs) = b' ' ∷ (print_number x ++ print_numbers xs)
