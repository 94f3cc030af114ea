-- ===== src/Tests/Texts.antt =====
-- The theorems on dictionary files and on Base64 at concrete inputs.
use pfuzzer.Base.{◌+◌, ◌*◌, ◌/◌, ◌≡◌, refl, true, false, List, [], ◌∷◌, ◌++◌, length, arith}
use pfuzzer.Streams.{bytes_of}
use pfuzzer.Base64.{base64}
use pfuzzer.Base64.Laws.{decode, decode-base64}
use pfuzzer.Util.Files.{parse_dictionary_file}
use pfuzzer.Util.Files.Laws.{
  Line, entry, comment, blank, print_line, print_lines, parse_dictionary_file-print_lines,
}

decode-base64_example :
    (decode (base64 (77 ∷ 97 ∷ 110 ∷ 255 ∷ [])) ≡ 77 ∷ 97 ∷ 110 ∷ 255 ∷ [])
    × (length (base64 (77 ∷ 97 ∷ 110 ∷ 255 ∷ [])) ≡ (4 + 2) / 3 * 4)
decode-base64_example =
    decode-base64 (77 ∷ 97 ∷ 110 ∷ 255 ∷ [])
      (omega arith, (omega arith, (omega arith, (omega arith, tt))))

base64_man : base64 (bytes_of "Man") ≡ bytes_of "TWFu"
unfolding base64
base64_man = refl

abbrev words : List Line
words = blank (32 ∷ 9 ∷ []) ∷ entry (b'"' ∷ b'a' ∷ []) ∷ []

-- A comment, an empty line and a word; then a line with the byte 200.
parse_dictionary_file-print_lines_example :
    (parse_dictionary_file (print_lines (comment (bytes_of "x") ∷ words)) ([] ∷ [])
      ≡ (true, (b'"' ∷ b'a' ∷ []) ∷ []))
    × (parse_dictionary_file
          (print_lines (comment (bytes_of "x") ∷ words)
            ++ (print_line (entry ((b'b' ∷ []) ++ (200 ∷ []))) ++ (b'\n' ∷ [])))
          ([] ∷ [])
        ≡ (false, (b'"' ∷ b'a' ∷ []) ∷ []))
parse_dictionary_file-print_lines_example =
    parse_dictionary_file-print_lines (comment (bytes_of "x")) words (b'b' ∷ []) [] [] 200 ([] ∷ [])
      (
        (refl, tt),
        (((refl, (refl, tt)), (refl, (refl, tt))), ((omega arith, (refl, (refl, tt))), tt)),
      )
      (refl, tt) (omega arith) refl
