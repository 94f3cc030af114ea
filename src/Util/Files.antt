-- ===== src/Util/Files.antt =====
-- `ParseDictionaryFile` of FuzzerUtil.cpp, without its messages.
pub mod Laws
use pfuzzer.Base.{
  ℕ, ◌==◌, Bool, true, false, if◌then◌else◌, List, [], ◌∷◌, ◌++◌, Option, none, some,
}
use pfuzzer.Util.Entries.{parse_one_dictionary_entry}
use pfuzzer.Streams.{lines_of, skip_spaces}

-- The loop over the lines: whether all could be parsed, and the units.
unfoldable pub parse_dictionary_lines : List (List ℕ) → List (List ℕ) → Bool × List (List ℕ)
unfolding parse_one_dictionary_entry skip_spaces
parse_dictionary_lines [] units = (true, units)
parse_dictionary_lines (s ∷ ls) units = elim (skip_spaces s) [
  | [] ↦ parse_dictionary_lines ls units
  | c ∷ cs ↦ elim (c == b'#') [
    | true ↦ parse_dictionary_lines ls units
    | false ↦ elim (parse_one_dictionary_entry s) [
      | none ↦ (false, units)
      | some u ↦ parse_dictionary_lines ls (units ++ (u ∷ []))
    ]
  ]
]

-- `ParseDictionaryFile`: the result, and the units afterwards.
unfoldable pub parse_dictionary_file : List ℕ → List (List ℕ) → Bool × List (List ℕ)
unfolding parse_dictionary_lines lines_of
parse_dictionary_file [] units = (false, units)
parse_dictionary_file (c ∷ cs) units = parse_dictionary_lines (lines_of (c ∷ cs)) []
