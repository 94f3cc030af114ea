-- ===== src/Util/Files/Laws.antt =====
-- What `ParseDictionaryFile` makes of a file with printed words, comments and empty lines.
use pfuzzer.Base.{
  ℕ, ◌<◌, ◌≡◌, refl, leb, ltb, ◌==◌, ◌&&◌, true, false, List, [], ◌∷◌, ◌++◌, none, some, length,
  All, All-append, arith, ap, sym, ◌∙◌, inl, inr, Bool-cases,
}
use mathlib.Core.List.{append_assoc, append-nil}
use pfuzzer.Util.{isspace, isprint}
use pfuzzer.Util.Entries.{print_ascii_byte, print_ascii, parse_one_dictionary_entry}
use pfuzzer.Util.Entries.Laws.{
  IsPrint, parse_one_dictionary_entry-print_ascii, parse_one_dictionary_entry-print_ascii-none,
}
use pfuzzer.Streams.{lines_of, skip_spaces}
use pfuzzer.Streams.Laws.{IsLine, lines_of-append}
use pfuzzer.Util.Files.{parse_dictionary_lines, parse_dictionary_file}

-- A line of a dictionary: a word between quotes, or a comment, or spaces.
pub data Line : Type 0 where
  entry : List ℕ → Line
  comment : List ℕ → Line
  blank : List ℕ → Line

abbrev pub print_line : Line → List ℕ
print_line (entry w) = b'"' ∷ (print_ascii w ++ (b'"' ∷ []))
print_line (comment s) = b'#' ∷ s
print_line (blank s) = s

abbrev pub print_lines : List Line → List ℕ
print_lines [] = []
print_lines (l ∷ ls) = print_line l ++ (b'\n' ∷ print_lines ls)

-- A word has a character at least, and all of them can be printed; nothing has a line break.
abbrev pub IsDictionaryLine : Line → Type 0
IsDictionaryLine (entry w) = (0 < length w) × All IsPrint w
IsDictionaryLine (comment s) = IsLine s
IsDictionaryLine (blank s) = IsLine s × All (λ c. isspace c ≡ true) s

abbrev pub words_of : List Line → List (List ℕ)
words_of [] = []
words_of (entry w ∷ ls) = w ∷ words_of ls
words_of (comment s ∷ ls) = words_of ls
words_of (blank s ∷ ls) = words_of ls

print_ascii_byte-IsLine : (b : ℕ) → IsLine (print_ascii_byte b)
unfolding print_ascii_byte
print_ascii_byte-IsLine b = elim (Bool-cases (b == 92)) [
  | inl e ↦ rw e (refl, (refl, tt))
  | inr e ↦ elim (Bool-cases (b == 34)) [
    | inl f ↦ rw (e, f) (refl, (refl, tt))
    | inr f ↦ elim (Bool-cases (leb 32 b && ltb b 127)) [
      | inl g ↦ let line : (b == b'\n') ≡ false = ground (arith, g) in rw (e, f, g) (line, tt)
      | inr g ↦ rw (e, f, g) (refl, (ground arith, (ground arith, (ground arith, tt))))
    ]
  ]
]

print_ascii-IsLine : (w : List ℕ) → IsLine (print_ascii w)
unfolding print_ascii
print_ascii-IsLine [] = tt
print_ascii-IsLine (b ∷ w) =
    All-append (λ c. (c == b'\n') ≡ false) (print_ascii_byte b) (print_ascii w)
      (print_ascii_byte-IsLine b) (print_ascii-IsLine w)

skip_spaces-blank : (s : List ℕ) → All (λ c. isspace c ≡ true) s → skip_spaces s ≡ []
unfolding skip_spaces
skip_spaces-blank [] a = refl
skip_spaces-blank (c ∷ cs) (h, a) = rw h (skip_spaces-blank cs a)

parse_dictionary_lines_entry :
    (s u : List ℕ) (ls units : List (List ℕ))
    → parse_one_dictionary_entry (b'"' ∷ s) ≡ some u
    → parse_dictionary_lines ((b'"' ∷ s) ∷ ls) units ≡ parse_dictionary_lines ls (units ++ (u ∷ []))
unfolding parse_dictionary_lines skip_spaces
parse_dictionary_lines_entry s u ls units e =
    ap
      (λ o. elim o [
        | none ↦ (false, units)
        | some v ↦ parse_dictionary_lines ls (units ++ (v ∷ []))
      ])
      e

parse_dictionary_lines_blank :
    (s : List ℕ) (ls units : List (List ℕ))
    → skip_spaces s ≡ []
    → parse_dictionary_lines (s ∷ ls) units ≡ parse_dictionary_lines ls units
unfolding parse_dictionary_lines
parse_dictionary_lines_blank s ls units e = rw (e, parse_dictionary_lines) refl

quoted-IsLine : (w : List ℕ) → IsLine (print_line (entry w))
quoted-IsLine w = (
  refl,
  All-append (λ c. (c == b'\n') ≡ false) (print_ascii w) (b'"' ∷ []) (print_ascii-IsLine w)
      (refl, tt),
)

print_line-IsLine : (l : Line) → IsDictionaryLine l → IsLine (print_line l)
print_line-IsLine (entry w) h = quoted-IsLine w
print_line-IsLine (comment s) h = (refl, h)
print_line-IsLine (blank s) (h, a) = h

parse_dictionary_lines_comment :
    (s : List ℕ) (t units : List (List ℕ))
    → parse_dictionary_lines ((b'#' ∷ s) ∷ t) units ≡ parse_dictionary_lines t units
unfolding parse_dictionary_lines skip_spaces
parse_dictionary_lines_comment s t units = refl

parse_dictionary_lines-print_line :
    (l : Line) (t units : List (List ℕ))
    → IsDictionaryLine l
    → parse_dictionary_lines (print_line l ∷ t) units
      ≡ parse_dictionary_lines t (units ++ words_of (l ∷ []))
parse_dictionary_lines-print_line (entry w) t units (h, a) =
    parse_dictionary_lines_entry (print_ascii w ++ (b'"' ∷ [])) w t units
      (parse_one_dictionary_entry-print_ascii w h a)
parse_dictionary_lines-print_line (comment s) t units h =
    parse_dictionary_lines_comment s t units
    ∙ ap (parse_dictionary_lines t) (sym (append-nil units))
parse_dictionary_lines-print_line (blank s) t units (h, a) =
    parse_dictionary_lines_blank s t units (skip_spaces-blank s a)
    ∙ ap (parse_dictionary_lines t) (sym (append-nil units))

words_of_cons : (l : Line) (ls : List Line) → words_of (l ∷ []) ++ words_of ls ≡ words_of (l ∷ ls)
words_of_cons (entry w) ls = refl
words_of_cons (comment s) ls = refl
words_of_cons (blank s) ls = refl

-- The loop goes past lines of a dictionary.
parse_dictionary_lines-print_lines :
    (ls : List Line) (rest : List ℕ) (units : List (List ℕ))
    → All IsDictionaryLine ls
    → parse_dictionary_lines (lines_of (print_lines ls ++ rest)) units
      ≡ parse_dictionary_lines (lines_of rest) (units ++ words_of ls)
parse_dictionary_lines-print_lines [] rest units a =
    ap (parse_dictionary_lines (lines_of rest)) (sym (append-nil units))
parse_dictionary_lines-print_lines (l ∷ ls) rest units (h, a) =
    let split : lines_of (print_lines (l ∷ ls) ++ rest)
        ≡ print_line l ∷ lines_of (print_lines ls ++ rest) =
      ap lines_of (append_assoc (print_line l) (b'\n' ∷ print_lines ls) rest)
      ∙ lines_of-append (print_line l) (print_lines ls ++ rest) (print_line-IsLine l h) in
    let words : (units ++ words_of (l ∷ [])) ++ words_of ls ≡ units ++ words_of (l ∷ ls) =
      append_assoc units (words_of (l ∷ [])) (words_of ls)
      ∙ ap (λ w. units ++ w) (words_of_cons l ls) in
    ap (λ t. parse_dictionary_lines t units) split
    ∙ parse_dictionary_lines-print_line l (lines_of (print_lines ls ++ rest)) units h
    ∙ parse_dictionary_lines-print_lines ls rest (units ++ words_of (l ∷ [])) a
    ∙ ap (parse_dictionary_lines (lines_of rest)) words

parse_dictionary_lines_refused :
    (s : List ℕ) (ls units : List (List ℕ))
    → parse_one_dictionary_entry (b'"' ∷ s) ≡ none
    → parse_dictionary_lines ((b'"' ∷ s) ∷ ls) units ≡ (false, units)
unfolding parse_dictionary_lines skip_spaces
parse_dictionary_lines_refused s ls units e =
    ap
      (λ o. elim o [
        | none ↦ (false, units)
        | some v ↦ parse_dictionary_lines ls (units ++ (v ∷ []))
      ])
      e

-- A file that is not empty is read line by line.
whole_file :
    (l : Line) (ls : List Line) (rest : List ℕ) (units : List (List ℕ))
    → parse_dictionary_file (print_lines (l ∷ ls) ++ rest) units
      ≡ parse_dictionary_lines (lines_of (print_lines (l ∷ ls) ++ rest)) []
unfolding parse_dictionary_file
whole_file (entry w) ls rest units = refl
whole_file (comment s) ls rest units = refl
whole_file (blank []) ls rest units = refl
whole_file (blank (c ∷ s)) ls rest units = refl

-- `ParseDictionaryFile` reads words, none of them empty and all of printable characters, that
-- `PrintASCII` prints between quotes, with comments and empty lines among them, and forgets the
-- units before; at a line with the first word that has a byte which `isprint` does not accept, it
-- fails with the words of the lines before.
pub parse_dictionary_file-print_lines :
    (l : Line) (ls : List Line) (v w rest : List ℕ) (b : ℕ) (units : List (List ℕ))
    → All IsDictionaryLine (l ∷ ls)
    → All IsPrint v
    → b < 256
    → isprint b ≡ false
    → (parse_dictionary_file (print_lines (l ∷ ls)) units ≡ (true, words_of (l ∷ ls)))
      × (parse_dictionary_file
            (print_lines (l ∷ ls) ++ (print_line (entry (v ++ (b ∷ w))) ++ (b'\n' ∷ rest)))
            units
          ≡ (false, words_of (l ∷ ls)))
unfolding parse_dictionary_lines lines_of
parse_dictionary_file-print_lines l ls v w rest b units a p h n =
    let bad = print_line (entry (v ++ (b ∷ w))) in
    (
      ap (λ t. parse_dictionary_file t units) (sym (append-nil (print_lines (l ∷ ls))))
          ∙ whole_file l ls [] units
          ∙ parse_dictionary_lines-print_lines (l ∷ ls) [] [] a,
      whole_file l ls (bad ++ (b'\n' ∷ rest)) units
          ∙ parse_dictionary_lines-print_lines (l ∷ ls) (bad ++ (b'\n' ∷ rest)) [] a
          ∙ ap (λ t. parse_dictionary_lines t (words_of (l ∷ ls)))
              (lines_of-append bad rest (quoted-IsLine (v ++ (b ∷ w))))
          ∙ parse_dictionary_lines_refused (print_ascii (v ++ (b ∷ w)) ++ (b'"' ∷ []))
              (lines_of rest) (words_of (l ∷ ls))
              (parse_one_dictionary_entry-print_ascii-none v b w p h n),
    )
