-- ===== src/DataFlow/Laws.antt =====
-- What `AppendCoverage` makes of the lines that a run of the instrumented program writes.
use pfuzzer.Base.{
  ℕ, zero, suc, ◌+◌, ◌%◌, ◌^◌, ◌≤◌, ◌<◌, ◌≡◌, refl, ◌==◌, true, false, if◌then◌else◌, List, [], ◌∷◌,
  ◌++◌, none, some, length, replicate, length-replicate, length-append, All, All-append, arith, ap,
  sym, ◌∙◌, subst, Bool-cases, inl, inr, ==→eq, ==_refl,
}
use pfuzzer.Command.{Text}
use pfuzzer.Streams.{print_number, print_numbers}
use pfuzzer.Streams.Laws.{read_number-print_number, print_numbers-Ends, read_numbers-print_numbers}
use pfuzzer.DataFlow.{
  Blocks, bump_all, counter_at, counters_of, put_counters, counters_or_new, add_blocks, split_back,
  append_covered, numbers_after, append_line, append_coverage, get_counter,
}
use pfuzzer.DataFlow.Counters.{
  occurrences, length-bump_all, counter_at-bump_all, all_below_num_lem, counters_of-put_counters,
  put_counters-All, counters_of-All,
}

-- A run of a function: its number, and the blocks that were covered besides the entry.
abbrev pub Run : Type 0
Run = ℕ × List ℕ

-- The line `CN X Y Z T` of a run of a function with `n` blocks.
abbrev pub coverage_line : ℕ → Run → Text
coverage_line n (k, xs) = b'C' ∷ (print_number k ++ print_numbers (xs ++ (n ∷ [])))

-- How often the runs enter a block of a function.
abbrev pub entries : ℕ → ℕ → List Run → ℕ
entries k j [] = 0
entries k j (r ∷ rs) = (if k == r.0 then occurrences j (0 ∷ r.1) else 0) + entries k j rs

module _ (size : ℕ → ℕ) where
  -- A function has a block at least, and its runs enter no others than its blocks.
  abbrev pub IsRun : Run → Type 0
  IsRun (k, xs) = (k < 2 ^ 64) × (0 < size k) × (size k < 2 ^ 32) × All (λ x. x < size k) xs

  -- The counters of a function: one for each block.
  abbrev pub IsCounted : ℕ × List ℕ → Type 0
  IsCounted (k, cs) = (length cs ≡ size k) × ((j : ℕ) → counter_at j (some cs) < 2 ^ 32)

  abbrev pub IsCoverage : Blocks → Type 0
  IsCoverage b = All IsCounted b.functions

counter_at-replicate : (n j : ℕ) → counter_at j (some (replicate n 0)) ≡ 0
unfolding counter_at
counter_at-replicate zero j = refl
counter_at-replicate (suc n) zero = refl
counter_at-replicate (suc n) (suc j) = counter_at-replicate n j

split_back-append : (x : ℕ) (xs : List ℕ) (n : ℕ) → split_back x (xs ++ (n ∷ [])) ≡ (x ∷ xs, n)
unfolding split_back
split_back-append x [] n = refl
split_back-append x (y ∷ ys) n = rw (split_back-append y ys n) refl

append_covered-append :
    (k : ℕ) (xs : List ℕ) (n : ℕ) (b : Blocks)
    → append_covered k (xs ++ (n ∷ [])) b ≡ add_blocks k xs n b
unfolding append_covered split_back
append_covered-append k [] n b = refl
append_covered-append k (x ∷ xs) n b = rw (split_back-append x xs n) refl

length-print_numbers : (xs : List ℕ) → length xs ≤ length (print_numbers xs)
unfolding print_numbers
length-print_numbers [] = omega arith
length-print_numbers (x ∷ xs) =
    let m = length-append (print_number x) (print_numbers xs) in
    omega (arith, m, length-print_numbers xs)

append_line-coverage_line :
    (k n : ℕ) (xs : List ℕ) (b : Blocks)
    → k < 2 ^ 64
    → All (λ x. x < 2 ^ 32) (xs ++ (n ∷ []))
    → append_line (coverage_line n (k, xs)) b ≡ add_blocks k xs n b
unfolding append_line numbers_after
append_line-coverage_line k n xs b l a =
    let ys = xs ++ (n ∷ []) in
    let s = print_numbers ys in
    let first = read_number-print_number 64 k s l (print_numbers-Ends ys) in
    let all =
      read_numbers-print_numbers (length s + 1) 32 ys
        (let m = length-print_numbers ys in omega (arith, m)) a in
    rw (first, all) (append_covered-append k xs n b)

-- The counters that a run starts from.
found_lem :
    (size : ℕ → ℕ) (k : ℕ) (b : Blocks)
    → IsCoverage size b
    → IsCounted size (k, counters_or_new (size k) (counters_of k b.functions))
      × ((j : ℕ)
          → counter_at j (some (counters_or_new (size k) (counters_of k b.functions)))
            ≡ get_counter k j b)
unfolding get_counter counters_or_new counter_at
found_lem size k b a = elim (counters_of-All (IsCounted size) k b.functions a) [
  | inl e ↦
      let zeros = counter_at-replicate (size k) in
      rw e ((length-replicate (size k) 0, λ j. rw (zeros j) (omega arith)), zeros)
  | inr (cs, e, p) ↦ rw e (p, λ j. refl)
]

get_counter_lt :
    (size : ℕ → ℕ) (k j : ℕ) (b : Blocks) → IsCoverage size b → get_counter k j b < 2 ^ 32
get_counter_lt size k j b a =
    let found = found_lem size k b a in subst (λ v. v < 2 ^ 32) (found.1 j) (found.0.1 j)

get_counter-put :
    (k k' j : ℕ) (cs : List ℕ) (b : Blocks)
    → get_counter k' j (record b { functions = put_counters k cs b.functions })
      ≡ (if k' == k then counter_at j (some cs) else get_counter k' j b)
unfolding get_counter
get_counter-put k k' j cs b = elim (Bool-cases (k' == k)) [
  | inl e ↦ rw (counters_of-put_counters k k' cs b.functions, e) refl
  | inr e ↦ rw (counters_of-put_counters k k' cs b.functions, e) refl
]

-- The counters of a function after a run with the blocks `xs`.
counted_lem :
    (size : ℕ → ℕ) (k : ℕ) (xs cs : List ℕ)
    → IsRun size (k, xs)
    → IsCounted size (k, cs)
    → IsCounted size (k, bump_all (0 ∷ xs) cs)
      × ((j : ℕ)
          → counter_at j (some (bump_all (0 ∷ xs) cs))
            ≡ (occurrences j (0 ∷ xs) + counter_at j (some cs)) % 2 ^ 32)
counted_lem size k xs cs (kl, pos, sl, below) (len, wide) =
    let all : All (λ x. x < length cs) (0 ∷ xs) =
      subst (λ n. All (λ x. x < n) (0 ∷ xs)) (sym len) (pos, below) in
    let count = λ (j : ℕ). counter_at-bump_all j (0 ∷ xs) cs all (wide j) in
    ((length-bump_all (0 ∷ xs) cs ∙ len, λ j. rw (count j) (omega arith)), count)

get_counter_counted :
    (k k' j : ℕ) (xs cs : List ℕ) (b : Blocks)
    → counter_at j (some cs) ≡ (occurrences j (0 ∷ xs) + get_counter k j b) % 2 ^ 32
    → get_counter k' j b < 2 ^ 32
    → get_counter k' j (record b { functions = put_counters k cs b.functions })
      ≡ (entries k' j ((k, xs) ∷ []) + get_counter k' j b) % 2 ^ 32
get_counter_counted k k' j xs cs b e l = elim (Bool-cases (k' == k)) [
  | inl own ↦
      let same : get_counter k j b ≡ get_counter k' j b =
        ap (λ i. get_counter i j b) (sym (==→eq k' k own)) in
      get_counter-put k k' j cs b ∙ rw own (e ∙ omega (arith, same))
  | inr other ↦ get_counter-put k k' j cs b ∙ rw other (omega arith)
]

add_blocks_lem :
    (size : ℕ → ℕ) (k : ℕ) (xs : List ℕ) (b : Blocks)
    → IsRun size (k, xs)
    → IsCoverage size b
    → (b' : Blocks) × (add_blocks k xs (size k) b ≡ some (true, b'))
      × IsCoverage size b'
      × ((k' j : ℕ)
          → get_counter k' j b' ≡ (entries k' j ((k, xs) ∷ []) + get_counter k' j b) % 2 ^ 32)
unfolding add_blocks bump_all
add_blocks_lem size k xs b r a =
    let (kl, pos, sl, below) = r in
    let (counted, old) = found_lem size k b a in
    let cs = counters_or_new (size k) (counters_of k b.functions) in
    let (counted', count) = counted_lem size k xs cs r counted in
    let b' = record b { functions = put_counters k (bump_all (0 ∷ xs) cs) b.functions } in
    let same : (length cs == size k) ≡ true = rw (counted.0) (==_refl (size k)) in
    let some_blocks : (size k == 0) ≡ false = ground (arith, pos) in
    let step : add_blocks k xs (size k) b ≡ some (true, b') =
      rw (all_below_num_lem (size k) xs below, same, some_blocks) refl in
    (
      b',
      step,
      put_counters-All (IsCounted size) k _ b.functions counted' a,
      λ k' j.
          get_counter_counted k k' j xs _ b
            (count j ∙ ap (λ v. (occurrences j (0 ∷ xs) + v) % 2 ^ 32) (old j))
            (get_counter_lt size k' j b a),
    )

below-wide : (n : ℕ) (xs : List ℕ) → n < 2 ^ 32 → All (λ x. x < n) xs → All (λ x. x < 2 ^ 32) xs
below-wide n [] l a = tt
below-wide n (x ∷ xs) l (h, a) = (omega arith, below-wide n xs l a)

-- The lines that runs write.
abbrev pub coverage_lines : (ℕ → ℕ) → List Run → List Text
coverage_lines size [] = []
coverage_lines size (r ∷ rs) = coverage_line (size r.0) r ∷ coverage_lines size rs

append_coverage_step :
    (l : Text) (ls : List Text) (b b' : Blocks)
    → append_line l b ≡ some (true, b')
    → append_coverage (l ∷ ls) b ≡ append_coverage ls b'
unfolding append_coverage
append_coverage_step l ls b b' e =
    ap
      (λ o. elim o [
        | none ↦ none
        | some (ok, c) ↦ elim ok [ true ↦ append_coverage ls c | false ↦ some (false, c) ]
      ])
      e

-- `AppendCoverage` accepts the lines that runs write, where the functions have at least one block
-- and fewer than 2^32, and adds to the counter of each block how often the runs enter it, modulo
-- 2^32.
pub append_coverage-coverage_lines :
    (size : ℕ → ℕ) (rs : List Run) (b : Blocks)
    → All (IsRun size) rs
    → IsCoverage size b
    → (b' : Blocks) × (append_coverage (coverage_lines size rs) b ≡ some (true, b'))
      × IsCoverage size b'
      × ((k j : ℕ) → get_counter k j b' ≡ (entries k j rs + get_counter k j b) % 2 ^ 32)
unfolding append_coverage
append_coverage-coverage_lines size [] b rs-IsRun a =
    (b, refl, a, λ k j. let l = get_counter_lt size k j b a in omega (arith, l))
append_coverage-coverage_lines size ((k, xs) ∷ rs) b (r, more) a =
    let (kl, pos, sl, below) = r in
    let (b1, e1, a1, g1) = add_blocks_lem size k xs b r a in
    let (b2, e2, a2, g2) = append_coverage-coverage_lines size rs b1 more a1 in
    let small : All (λ x. x < 2 ^ 32) (xs ++ (size k ∷ [])) =
      All-append (λ x. x < 2 ^ 32) xs (size k ∷ []) (below-wide (size k) xs sl below) (sl, tt) in
    let first = append_line-coverage_line k (size k) xs b kl small ∙ e1 in
    (
      b2,
      append_coverage_step (coverage_line (size k) (k, xs)) (coverage_lines size rs) b b1 first
          ∙ e2,
      a2,
      λ k' j. let e = g1 k' j in g2 k' j ∙ omega (arith, e),
    )
