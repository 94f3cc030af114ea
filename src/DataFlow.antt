-- ===== src/DataFlow.antt =====
-- FuzzerDataFlowTrace.h and FuzzerDataFlowTrace.cpp: block coverage, and the traces of the function in
-- focus. Files are given by their names and texts; maps are association lists.
pub mod Counters
pub mod Focus
pub mod Laws
pub mod Weights
pub mod Traces
use pfuzzer.Base.{
  ℕ, zero, suc, ◌+◌, ◌-◌, ◌*◌, ◌%◌, ◌^◌, min, leb, ltb, ◌==◌, ◌&&◌, ◌||◌, not, Bool, true, false,
  if◌then◌else◌, List, [], ◌∷◌, ◌++◌, Option, none, some, length, get_elem?, set, replicate, map,
}
use pfuzzer.Base.Bytes.{bytes_eq}
use pfuzzer.Base.Sets.{set_insert, contains}
use pfuzzer.Command.{Text}
use pfuzzer.Streams.{bytes_of, lines_of, Extract, got, nothing, bad, read_number, read_numbers}

-- `BlockCoverage`.
pub record Blocks : Type 0 where
  pub functions : List (ℕ × List ℕ)
  pub with_dft : List ℕ

unfoldable pub counters_of : ℕ → List (ℕ × List ℕ) → Option (List ℕ)
counters_of k [] = none
counters_of k ((j, cs) ∷ fs) = if k == j then some cs else counters_of k fs

unfoldable pub put_counters : ℕ → List ℕ → List (ℕ × List ℕ) → List (ℕ × List ℕ)
put_counters k cs [] = (k, cs) ∷ []
put_counters k cs ((j, ds) ∷ fs) =
    let rest = put_counters k cs fs in if k == j then (k, cs) ∷ fs else (j, ds) ∷ rest

-- `Counters[i]++`, inside the vector.
unfoldable pub bump : ℕ → List ℕ → List ℕ
bump i [] = []
bump zero (c ∷ cs) = ((c + 1) % 2 ^ 32) ∷ cs
bump (suc i) (c ∷ cs) = c ∷ bump i cs

unfoldable pub bump_all : List ℕ → List ℕ → List ℕ
unfolding bump
bump_all [] cs = cs
bump_all (i ∷ is) cs = bump_all is (bump i cs)

-- Whether every block is below the number of blocks.
unfoldable pub all_below_num : ℕ → List ℕ → Bool
all_below_num n [] = true
all_below_num n (x ∷ xs) = ltb x n && all_below_num n xs

-- `back` and `pop_back`.
unfoldable pub split_back : ℕ → List ℕ → List ℕ × ℕ
split_back x [] = ([], x)
split_back x (y ∷ ys) = let (zs, z) = split_back y ys in (x ∷ zs, z)

unfoldable pub counters_or_new : ℕ → Option (List ℕ) → List ℕ
counters_or_new n none = replicate n 0
counters_or_new n (some cs) = cs

-- The end of a round: the blocks `xs` of a function with `n` blocks. `none` stands for a write to a
-- vector with no elements.
unfoldable pub add_blocks : ℕ → List ℕ → ℕ → Blocks → Option (Bool × Blocks)
unfolding counters_of put_counters bump_all all_below_num counters_or_new
add_blocks k xs n b =
    let cs = counters_or_new n (counters_of k b.functions) in
    let b' = record b { functions = put_counters k (bump_all xs (bump 0 cs)) b.functions } in
    if not (all_below_num n xs)
    then some (false, b)
    else if not (length cs == n)
    then some (false, b)
    else if n == 0
    then none
    else some (true, b')

-- The function's number, and the text after it where that could be read.
unfoldable pub function_number : Extract → ℕ × Option Text
function_number (got n rest) = (n, some rest)
function_number nothing = (0, none)
function_number (bad n) = (n, none)

unfoldable pub numbers_after : Option Text → List ℕ
unfolding read_numbers
numbers_after none = []
numbers_after (some s) = read_numbers (length s + 1) 32 s

unfoldable pub append_covered : ℕ → List ℕ → Blocks → Option (Bool × Blocks)
unfolding add_blocks split_back
append_covered k [] b = some (false, b)
append_covered k (x ∷ xs) b = let (ys, n) = split_back x xs in add_blocks k ys n b

-- A round of `AppendCoverage`.
unfoldable pub append_line : Text → Blocks → Option (Bool × Blocks)
unfolding function_number numbers_after append_covered set_insert read_number
append_line [] b = some (true, b)
append_line (c ∷ cs) b =
    let (k, rest) = function_number (read_number 64 cs) in
    if c == b'F'
    then some (true, record b { with_dft = set_insert k b.with_dft })
    else if not (c == b'C')
    then some (true, b)
    else append_covered k (numbers_after rest) b

-- `AppendCoverage` on the lines of a text.
unfoldable pub append_coverage : List Text → Blocks → Option (Bool × Blocks)
unfolding append_line
append_coverage [] b = some (true, b)
append_coverage (l ∷ ls) b = elim (append_line l b) [
  | none ↦ none
  | some (ok, c) ↦ elim ok [ true ↦ append_coverage ls c | false ↦ some (false, c) ]
]

unfoldable pub counter_at : ℕ → Option (List ℕ) → ℕ
counter_at j none = 0
counter_at j (some cs) = elim (get_elem? cs j) [ none ↦ 0 | some c ↦ c ]

-- `GetCounter`.
unfoldable pub get_counter : ℕ → ℕ → Blocks → ℕ
unfolding counters_of counter_at
get_counter k j b = counter_at j (counters_of k b.functions)

-- `GetNumberOfBlocks`.
unfoldable pub get_number_of_blocks : ℕ → Blocks → ℕ
unfolding counters_of
get_number_of_blocks k b = elim (counters_of k b.functions) [
  | none ↦ 0
  | some cs ↦ length cs % 2 ^ 32
]

-- `NumberOfCoveredBlocks`.
unfoldable pub number_of_covered_blocks : List ℕ → ℕ
number_of_covered_blocks [] = 0
number_of_covered_blocks (c ∷ cs) =
    let n = number_of_covered_blocks cs in if c == 0 then n else n + 1

-- `GetNumberOfCoveredBlocks`.
unfoldable pub get_number_of_covered_blocks : ℕ → Blocks → ℕ
unfolding counters_of number_of_covered_blocks
get_number_of_covered_blocks k b = elim (counters_of k b.functions) [
  | none ↦ 0
  | some cs ↦ number_of_covered_blocks cs
]

-- `NumberOfUncoveredBlocks`.
unfoldable pub number_of_uncovered_blocks : List ℕ → ℕ
unfolding number_of_covered_blocks
number_of_uncovered_blocks cs = (length cs % 2 ^ 32 + 2 ^ 32 - number_of_covered_blocks cs) % 2 ^ 32

unfoldable pub smallest_loop : ℕ → List ℕ → ℕ
smallest_loop res [] = res
smallest_loop res (c ∷ cs) = smallest_loop (if c == 0 then res else min res c) cs

-- `SmallestNonZeroCounter`.
unfoldable pub smallest_non_zero_counter : List ℕ → Option ℕ
unfolding smallest_loop
smallest_non_zero_counter [] = none
smallest_non_zero_counter (c ∷ cs) =
    let res = smallest_loop c (c ∷ cs) in if res == 0 then none else some res

-- The weight of a function, which the source rounds to a `double`, as a numerator and a denominator.
unfoldable pub weight : List ℕ → ℕ → List ℕ → Option (ℕ × ℕ)
unfolding smallest_non_zero_counter number_of_uncovered_blocks
weight with_dft k cs = elim (smallest_non_zero_counter cs) [
  | none ↦ none
  | some least ↦
      let base = if contains k with_dft then 1000 else 1 in
      some (base * ((number_of_uncovered_blocks cs + 1) % 2 ^ 32), least)
]

unfoldable pub put_weight : ℕ → Option (ℕ × ℕ) → List (ℕ × ℕ) → Option (List (ℕ × ℕ))
put_weight k none ws = none
put_weight k (some w) ws = if ltb k (length ws) then some (set ws k w) else none

unfoldable pub weights_loop : List ℕ → List (ℕ × List ℕ) → List (ℕ × ℕ) → Option (List (ℕ × ℕ))
unfolding weight put_weight
weights_loop with_dft [] ws = some ws
weights_loop with_dft ((k, cs) ∷ fs) ws = elim (put_weight k (weight with_dft k cs) ws) [
  | none ↦ none
  | some ws' ↦ weights_loop with_dft fs ws'
]

-- `FunctionWeights`; `none` stands for an assertion that fails.
unfoldable pub function_weights : ℕ → Blocks → Option (List (ℕ × ℕ))
unfolding weights_loop
function_weights n b = weights_loop b.with_dft b.functions (replicate n (0, 1))
