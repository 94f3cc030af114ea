-- ===== src/DataFlow/Focus.antt =====
-- `DataFlowTrace`: the coverage and the traces of the function in focus.
use pfuzzer.Base.{
  ℕ, ◌+◌, leb, ltb, ◌==◌, ◌&&◌, ◌||◌, not, Bool, true, false, if◌then◌else◌, List, [], ◌∷◌, Option,
  none, some, length, map,
}
use pfuzzer.Base.Bytes.{bytes_eq}
use pfuzzer.Command.{Text}
use pfuzzer.Streams.{bytes_of, lines_of, Extract, got, nothing, bad, read_number}
use pfuzzer.DataFlow.{Blocks, append_coverage, function_weights}

abbrev pub functions_txt : Text
functions_txt = bytes_of "functions.txt"

unfoldable pub has_name : Text → List Text → Bool
unfolding bytes_eq
has_name n [] = false
has_name n (m ∷ ms) = bytes_eq n m || has_name n ms

-- Whether a file of the directory is the trace of a corpus file.
unfoldable pub is_trace : List Text → Text → Bool
unfolding has_name bytes_eq
is_trace hashes name = not (bytes_eq name functions_txt) && has_name name hashes

-- `ReadCoverage`, which ignores what `AppendCoverage` returns.
unfoldable pub read_coverage : List Text → List (Text × Text) → Blocks → Option Blocks
unfolding is_trace append_coverage lines_of
read_coverage hashes [] b = some b
read_coverage hashes ((name, content) ∷ fs) b = elim (is_trace hashes name) [
  | false ↦ read_coverage hashes fs b
  | true ↦ elim (append_coverage (lines_of content) b) [
    | none ↦ none
    | some (ok, c) ↦ read_coverage hashes fs c
  ]
]

-- What a line of a trace file is.
pub data Trace : Type 0 where
  no_trace : Trace
  asserts : Trace
  traced : ℕ → Text → Trace

unfoldable pub after_space : Text → Option Text
after_space [] = none
after_space (c ∷ cs) = if c == b' ' then some cs else after_space cs

unfoldable pub is_bits : Text → Bool
is_bits [] = true
is_bits (c ∷ cs) = (c == b'0' || c == b'1') && is_bits cs

-- `std::atol`, for what a `long` has room for, as `size_t`.
unfoldable pub atol : Extract → ℕ
atol (got n rest) = n
atol nothing = 0
atol (bad n) = 0

unfoldable pub trace_after : ℕ → Option Text → Trace
unfolding is_bits
trace_after n none = no_trace
trace_after n (some []) = asserts
trace_after n (some (c ∷ cs)) = if is_bits (c ∷ cs) then traced n (c ∷ cs) else no_trace

-- `ParseDFTLine`.
unfoldable pub parse_dft_line : Text → Trace
unfolding trace_after after_space atol read_number
parse_dft_line [] = no_trace
parse_dft_line (c ∷ cs) =
    if c == b'F' then trace_after (atol (read_number 64 cs)) (after_space (c ∷ cs)) else no_trace

-- `DFTStringToVector`.
unfoldable pub dft_string_to_vector : Text → List ℕ
dft_string_to_vector s = map (λ c. if c == b'1' then 1 else 0) s

-- The loop over the lines of a trace file: `none` where an assertion fails, and the trace of the
-- function in focus where there is one.
-- The function in focus is one of functions.txt, so that the test of `N` after it always passes, and is
-- left out.
unfoldable pub find_trace : ℕ → List Text → Option (Option (List ℕ))
unfolding parse_dft_line dft_string_to_vector
find_trace focus [] = some none
find_trace focus (l ∷ ls) =
    let more = find_trace focus ls in
    elim (parse_dft_line l) [
      | no_trace ↦ more
      | asserts ↦ none
      | traced n s ↦ if n == focus then some (some (dft_string_to_vector s)) else more
    ]

unfoldable pub add_trace : Text → Option (List ℕ) → List (Text × List ℕ) → List (Text × List ℕ)
add_trace name none ts = ts
add_trace name (some v) ts = (name, v) ∷ ts

-- The loop over the trace files: how many there are, and the traces, the latest first.
unfoldable pub read_traces :
    List Text
    → ℕ
    → List (Text × Text)
    → ℕ
    → List (Text × List ℕ)
    → Option (ℕ × List (Text × List ℕ))
unfolding is_trace find_trace lines_of add_trace
read_traces hashes focus [] n ts = some (n, ts)
read_traces hashes focus ((name, content) ∷ fs) n ts = elim (is_trace hashes name) [
  | false ↦ read_traces hashes focus fs n ts
  | true ↦ elim (find_trace focus (lines_of content)) [
    | none ↦ none
    | some t ↦ read_traces hashes focus fs (n + 1) (add_trace name t ts)
  ]
]

-- The index of the last line that is the function in focus.
unfoldable pub focus_index : Text → ℕ → List Text → Option ℕ → Option ℕ
unfolding bytes_eq
focus_index focus i [] found = found
focus_index focus i (l ∷ ls) found =
    focus_index focus (i + 1) ls (if bytes_eq focus l then some i else found)

-- The part of `Init` after the function was chosen.
unfoldable pub init_traces :
    List Text → List (Text × Text) → Option ℕ → Option (Bool × List (Text × List ℕ))
unfolding read_traces
init_traces hashes files none = some (false, [])
init_traces hashes files (some focus) =
    let read : Option (Bool × List (Text × List ℕ)) = elim (read_traces hashes focus files 0 []) [
      | none ↦ none
      | some (n, ts) ↦ some (ltb 0 n, ts)
    ] in
    if leb (length files) 1 then some (false, []) else read

-- The function that "auto" stands for.
unfoldable pub auto_focus : (List (ℕ × ℕ) → ℕ) → ℕ → Option Blocks → Option ℕ
unfolding function_weights
auto_focus choose n none = none
auto_focus choose n (some b) = elim (function_weights n b) [
  | none ↦ none
  | some ws ↦ if ltb (choose ws) n then some (choose ws) else none
]

-- `DataFlowTrace::Init`, for a directory that is named: `hashes` are those of the corpus files, `names`
-- is the text of functions.txt, `files` has all files of the directory, that one included, and
-- `choose` is the random choice of a function by its weight.
unfoldable pub init :
    (List (ℕ × ℕ) → ℕ)
    → List Text
    → Text
    → List (Text × Text)
    → Text
    → Option (Bool × List (Text × List ℕ))
unfolding focus_index read_coverage auto_focus init_traces lines_of bytes_eq
init choose hashes names files focus =
    let ls = lines_of names in
    let covered = read_coverage hashes files (record { functions = []; with_dft = [] }) in
    let chosen : Option (Bool × List (Text × List ℕ)) =
      elim (auto_focus choose (length ls) covered) [
        | none ↦ none
        | some i ↦ init_traces hashes files (some i)
      ] in
    if length ls == 0
    then some (false, [])
    else if bytes_eq focus (bytes_of "auto")
    then chosen
    else init_traces hashes files (focus_index focus 0 ls none)
