-- ===== src/Tests/Flow.antt =====
-- The theorems on the data flow traces at concrete inputs.
use pfuzzer.Base.{
  ℕ, ◌+◌, ◌*◌, ◌%◌, ◌^◌, ◌≤◌, ◌≡◌, true, false, if◌then◌else◌, List, [], ◌∷◌, some, length,
  get_elem?, arith, ◌⊎◌,
}
use pfuzzer.Base.Sets.{contains}
use pfuzzer.DataFlow.{
  Blocks, append_coverage, get_counter, function_weights, weight, counters_of, counter_at,
}
use pfuzzer.DataFlow.Focus.{find_trace, traced, asserts, parse_dft_line, dft_string_to_vector}
use pfuzzer.DataFlow.Laws.{Run, entries, coverage_lines, IsCoverage, append_coverage-coverage_lines}
use pfuzzer.DataFlow.Weights.{IsLeast, zeros, weight_lem, function_weights_lem}
use pfuzzer.DataFlow.Traces.{
  Traced, trace_line, trace_lines, first_trace, dft_string, bits, find_trace-trace_lines,
  parse_dft_line-trace_line,
}

abbrev no_blocks : Blocks
no_blocks = record { functions = []; with_dft = 4 ∷ [] }

-- Functions with four blocks each.
abbrev four : ℕ → ℕ
four k = 4

abbrev two_runs : List Run
two_runs = (7, 2 ∷ 3 ∷ []) ∷ (7, 2 ∷ []) ∷ []

append_coverage-coverage_lines_example :
    (b' : Blocks) × (append_coverage (coverage_lines four two_runs) no_blocks ≡ some (true, b'))
    × IsCoverage four b'
    × ((k j : ℕ) → get_counter k j b' ≡ (entries k j two_runs + get_counter k j no_blocks) % 2 ^ 32)
append_coverage-coverage_lines_example =
    append_coverage-coverage_lines four two_runs no_blocks
      (
        (omega arith, omega arith, omega arith, (omega arith, (omega arith, tt))),
        ((omega arith, omega arith, omega arith, (omega arith, tt)), tt),
      )
      tt

-- Function 4 with traces, of which a block was not covered.
abbrev covered : Blocks
covered = record { functions = (4, 3 ∷ 0 ∷ 2 ∷ []) ∷ []; with_dft = 4 ∷ [] }

weight_lem_example :
    (m : ℕ) × (weight (4 ∷ []) 4 (3 ∷ 0 ∷ 2 ∷ [])
      ≡ some ((if contains 4 (4 ∷ []) then 1000 else 1) * (zeros (3 ∷ 0 ∷ 2 ∷ []) + 1), m))
    × IsLeast m (3 ∷ 0 ∷ 2 ∷ [])
weight_lem_example = weight_lem (4 ∷ []) 4 3 (0 ∷ 2 ∷ []) (omega arith) (omega arith)

function_weights_lem_example :
    (ws : List (ℕ × ℕ)) × (function_weights 6 covered ≡ some ws)
    × (length ws ≡ 6)
    × ((i : ℕ)
        → (get_elem? ws i ≡ some (0, 1))
          ⊎ ((6 ≤ i) ⊎ ((cs : List ℕ) × (counters_of i covered.functions ≡ some cs))))
unfolding counter_at
function_weights_lem_example =
    function_weights_lem 6 covered ((omega arith, omega arith, omega arith), tt)

abbrev two_traces : List Traced
two_traces = (3, true, false ∷ []) ∷ (12, false, true ∷ true ∷ []) ∷ []

find_trace-trace_lines_example :
    find_trace 12 (trace_lines two_traces) ≡ some (first_trace 12 two_traces)
find_trace-trace_lines_example =
    find_trace-trace_lines 12 two_traces (omega arith, (omega arith, tt))

parse_dft_line-trace_line_example :
    (parse_dft_line (trace_line 12 (true ∷ false ∷ []))
      ≡ traced 12 (dft_string (true ∷ false ∷ [])))
    × (dft_string_to_vector (dft_string (true ∷ false ∷ [])) ≡ bits (true ∷ false ∷ []))
    × (parse_dft_line (trace_line 12 []) ≡ asserts)
parse_dft_line-trace_line_example = parse_dft_line-trace_line 12 true (false ∷ []) (omega arith)
