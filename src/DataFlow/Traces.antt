-- ===== src/DataFlow/Traces.antt =====
-- The lines of the traces: `ParseDFTLine` and `DFTStringToVector`.
use pfuzzer.Base.{
  ℕ, zero, suc, ◌+◌, ◌/◌, ◌%◌, ◌^◌, ◌<◌, ◌≡◌, refl, ltb, ◌==◌, Bool, true, false, if◌then◌else◌,
  List, [], ◌∷◌, ◌++◌, Option, none, some, All, All-append, arith, ap, ap₂, ◌∙◌, Bool-cases, inl,
  inr,
}
use pfuzzer.Command.{Text}
use pfuzzer.Streams.{print_digits, print_number}
use pfuzzer.Streams.Laws.{read_number-print_number}
use pfuzzer.DataFlow.Focus.{
  no_trace, asserts, traced, after_space, is_bits, trace_after, parse_dft_line,
  dft_string_to_vector, find_trace, atol,
}

-- The string of a trace.
abbrev pub dft_string : List Bool → Text
dft_string [] = []
dft_string (b ∷ bs) = (if b then b'1' else b'0') ∷ dft_string bs

abbrev pub bits : List Bool → List ℕ
bits [] = []
bits (b ∷ bs) = (if b then 1 else 0) ∷ bits bs

-- The line `FN` with the trace of a function.
abbrev pub trace_line : ℕ → List Bool → Text
trace_line n bs = b'F' ∷ (print_number n ++ (b' ' ∷ dft_string bs))

abbrev NoSpace : Text → Type 0
NoSpace = All (λ c. (c == b' ') ≡ false)

after_space-append : (s rest : Text) → NoSpace s → after_space (s ++ (b' ' ∷ rest)) ≡ some rest
unfolding after_space
after_space-append [] rest a = refl
after_space-append (c ∷ cs) rest (h, a) = rw h (after_space-append cs rest a)

print_digits-NoSpace : (f n : ℕ) → NoSpace (print_digits f n)
unfolding print_digits
print_digits-NoSpace zero n = tt
print_digits-NoSpace (suc f) n = elim (Bool-cases (ltb n 10)) [
  | inl e ↦ rw e ((ground arith, tt))
  | inr e ↦ rw e (
      All-append (λ c. (c == b' ') ≡ false) (print_digits f (n / 10)) ((b'0' + n % 10) ∷ [])
        (print_digits-NoSpace f (n / 10)) (ground arith, tt))
]

is_bits-dft_string : (bs : List Bool) → is_bits (dft_string bs) ≡ true
unfolding is_bits
is_bits-dft_string [] = refl
is_bits-dft_string (true ∷ bs) = is_bits-dft_string bs
is_bits-dft_string (false ∷ bs) = is_bits-dft_string bs

dft_string_to_vector-dft_string : (bs : List Bool) → dft_string_to_vector (dft_string bs) ≡ bits bs
unfolding dft_string_to_vector
dft_string_to_vector-dft_string [] = refl
dft_string_to_vector-dft_string (true ∷ bs) = ap (λ v. 1 ∷ v) (dft_string_to_vector-dft_string bs)
dft_string_to_vector-dft_string (false ∷ bs) = ap (λ v. 0 ∷ v) (dft_string_to_vector-dft_string bs)

trace_after-dft_string :
    (n : ℕ) (b : Bool) (bs : List Bool)
    → trace_after n (some (dft_string (b ∷ bs))) ≡ traced n (dft_string (b ∷ bs))
unfolding trace_after
trace_after-dft_string n b bs = rw (is_bits-dft_string (b ∷ bs)) refl

parse_dft_line-print_number :
    (n : ℕ) (rest : Text)
    → n < 2 ^ 63
    → parse_dft_line (b'F' ∷ (print_number n ++ (b' ' ∷ rest))) ≡ trace_after n (some rest)
unfolding parse_dft_line atol print_number
parse_dft_line-print_number n rest l =
    ap₂ trace_after (ap atol (read_number-print_number 64 n (b' ' ∷ rest) (omega arith) refl))
      (after_space-append (b'F' ∷ print_number n) rest (refl, print_digits-NoSpace (suc n) n))

-- `ParseDFTLine` reads a line with the number of a function and a trace that is not empty, and
-- `DFTStringToVector` gives the trace back; where the trace is empty, an assertion fails.
pub parse_dft_line-trace_line :
    (n : ℕ) (b : Bool) (bs : List Bool)
    → n < 2 ^ 63
    → (parse_dft_line (trace_line n (b ∷ bs)) ≡ traced n (dft_string (b ∷ bs)))
      × (dft_string_to_vector (dft_string (b ∷ bs)) ≡ bits (b ∷ bs))
      × (parse_dft_line (trace_line n []) ≡ asserts)
unfolding trace_after
parse_dft_line-trace_line n b bs l = (
  parse_dft_line-print_number n (dft_string (b ∷ bs)) l ∙ trace_after-dft_string n b bs,
  dft_string_to_vector-dft_string (b ∷ bs),
  parse_dft_line-print_number n [] l,
)

-- The traces of functions, none of them empty.
abbrev pub Traced : Type 0
Traced = ℕ × Bool × List Bool

abbrev pub trace_lines : List Traced → List Text
trace_lines [] = []
trace_lines ((n, b, bs) ∷ ts) = trace_line n (b ∷ bs) ∷ trace_lines ts

-- The first trace of a function.
abbrev pub first_trace : ℕ → List Traced → Option (List ℕ)
first_trace focus [] = none
first_trace focus ((n, b, bs) ∷ ts) =
    let more = first_trace focus ts in if n == focus then some (bits (b ∷ bs)) else more

find_trace_step :
    (focus n : ℕ) (l s : Text) (ls : List Text)
    → parse_dft_line l ≡ traced n s
    → find_trace focus (l ∷ ls)
      ≡ (if n == focus then some (some (dft_string_to_vector s)) else find_trace focus ls)
unfolding find_trace
find_trace_step focus n l s ls e =
    ap
      (λ t. elim t [
        | no_trace ↦ find_trace focus ls
        | asserts ↦ none
        | traced m s' ↦
            if m == focus then some (some (dft_string_to_vector s')) else find_trace focus ls
      ])
      e

-- In a file with traces, none of them empty, of functions with numbers below 2^63, the loop of
-- `Init` finds the first trace of the function in focus, if there is one, and no assertion fails.
pub find_trace-trace_lines :
    (focus : ℕ) (ts : List Traced)
    → All (λ t. t.0 < 2 ^ 63) ts
    → find_trace focus (trace_lines ts) ≡ some (first_trace focus ts)
unfolding find_trace
find_trace-trace_lines focus [] a = refl
find_trace-trace_lines focus ((n, b, bs) ∷ ts) (l, a) =
    let (read, same, empty) = parse_dft_line-trace_line n b bs l in
    find_trace_step focus n (trace_line n (b ∷ bs)) (dft_string (b ∷ bs)) (trace_lines ts) read
    ∙ elim (Bool-cases (n == focus)) [
      | inl e ↦ rw e (ap (λ v. some (some v)) same)
      | inr e ↦ rw e (find_trace-trace_lines focus ts a)
    ]
