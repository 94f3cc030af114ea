-- ===== src/DataFlow/Weights.antt =====
-- The weights of functions: the assertions of `FunctionWeights` and of the helpers that it calls.
use pfuzzer.Base.{
  ℕ, zero, suc, ◌+◌, ◌*◌, ◌%◌, ◌^◌, ◌≤◌, ◌<◌, min, ◌≡◌, ◌≢◌, refl, ltb, ◌==◌, true, false,
  if◌then◌else◌, List, [], ◌∷◌, none, some, length, length-set, get_elem?, get_elem?-set_ne, set,
  replicate, length-replicate, All, arith, ap, sym, ◌∙◌, subst, Bool-cases, Option-cases, inl, inr,
  ◌⊎◌, lt→ltb, ltb→lt, ltb_false→le, ==→eq, ==_false→ne,
}
use pfuzzer.Base.Sets.{contains}
use pfuzzer.DataFlow.{
  Blocks, counter_at, counters_of, number_of_covered_blocks, number_of_uncovered_blocks,
  smallest_loop, smallest_non_zero_counter, weight, put_weight, weights_loop, function_weights,
}

-- A number is the least of the counters that are not 0.
abbrev pub IsLeast : ℕ → List ℕ → Type 0
IsLeast m cs = (0 < m) × (contains m cs ≡ true) × All (λ d. (d ≡ 0) ⊎ (m ≤ d)) cs

-- The counters that are 0.
abbrev pub zeros : List ℕ → ℕ
zeros [] = 0
zeros (c ∷ cs) = (if c == 0 then 1 else 0) + zeros cs

-- The least of a number and the counters that are not 0.
abbrev IsLeastOr : ℕ → List ℕ → ℕ → Type 0
IsLeastOr res cs m =
    (0 < m) × (m ≤ res) × ((m ≡ res) ⊎ (contains m cs ≡ true)) × All (λ d. (d ≡ 0) ⊎ (m ≤ d)) cs

contains_tail : (m c : ℕ) (cs : List ℕ) → contains m cs ≡ true → contains m (c ∷ cs) ≡ true
unfolding contains
contains_tail m c cs h = ground (arith, h)

contains_head : (m c : ℕ) (cs : List ℕ) → m ≡ c → contains m (c ∷ cs) ≡ true
unfolding contains
contains_head m c cs h = let e : (m == c) ≡ true = ground (arith, h) in rw e refl

least_zero : (res c m : ℕ) (cs : List ℕ) → c ≡ 0 → IsLeastOr res cs m → IsLeastOr res (c ∷ cs) m
least_zero res c m cs e (pos, le, inl own, all) = (pos, le, inl own, (inl e, all))
least_zero res c m cs e (pos, le, inr mem, all) =
    (pos, le, inr (contains_tail m c cs mem), (inl e, all))

least_min : (res c m : ℕ) (cs : List ℕ) → IsLeastOr (min res c) cs m → IsLeastOr res (c ∷ cs) m
least_min res c m cs (pos, le, inr mem, all) =
    (pos, omega arith, inr (contains_tail m c cs mem), (inr (omega arith), all))
least_min res c m cs (pos, le, inl own, all) = elim (Bool-cases (ltb c res)) [
  | inl below ↦
      let l = ltb→lt c res below in
      (pos, omega arith, inr (contains_head m c cs (omega arith)), (inr (omega arith), all))
  | inr above ↦
      let l = ltb_false→le c res above in
      (pos, omega arith, inl (omega arith), (inr (omega arith), all))
]

smallest_loop_lem : (cs : List ℕ) (res : ℕ) → 0 < res → IsLeastOr res cs (smallest_loop res cs)
unfolding smallest_loop
smallest_loop_lem [] res h = (h, omega arith, inl refl, tt)
smallest_loop_lem (c ∷ cs) res h = elim (Bool-cases (c == 0)) [
  | inl e ↦
      let step : smallest_loop res (c ∷ cs) ≡ smallest_loop res cs = rw e refl in
      subst (IsLeastOr res (c ∷ cs)) (sym step)
        (least_zero res c _ cs (==→eq c 0 e) (smallest_loop_lem cs res h))
  | inr e ↦
      let ne = ==_false→ne c 0 e in
      let step : smallest_loop res (c ∷ cs) ≡ smallest_loop (min res c) cs = rw e refl in
      subst (IsLeastOr res (c ∷ cs)) (sym step)
        (least_min res c _ cs (smallest_loop_lem cs (min res c) (omega (arith, ne))))
]

smallest_non_zero_counter_lem :
    (c : ℕ) (cs : List ℕ)
    → 0 < c
    → (m : ℕ) × (smallest_non_zero_counter (c ∷ cs) ≡ some m) × IsLeast m (c ∷ cs)
unfolding smallest_non_zero_counter
smallest_non_zero_counter_lem c cs h =
    let (pos, le, mem, all) = smallest_loop_lem (c ∷ cs) c h in
    let m = smallest_loop c (c ∷ cs) in
    let e : (m == 0) ≡ false = ground (arith, pos) in
    (m, rw e refl, (pos, elim mem [ inl own ↦ contains_head m c cs own | inr there ↦ there ], all))

covered_zeros : (cs : List ℕ) → number_of_covered_blocks cs + zeros cs ≡ length cs
unfolding number_of_covered_blocks
covered_zeros [] = omega arith
covered_zeros (c ∷ cs) = ground (arith, covered_zeros cs)

number_of_uncovered_blocks_lem :
    (cs : List ℕ) → length cs < 2 ^ 32 → number_of_uncovered_blocks cs ≡ zeros cs
unfolding number_of_uncovered_blocks
number_of_uncovered_blocks_lem cs l = let e = covered_zeros cs in omega (arith, e)

zeros_lt : (c : ℕ) (cs : List ℕ) → 0 < c → zeros (c ∷ cs) < length (c ∷ cs)
zeros_lt c cs h =
    let e : (c == 0) ≡ false = ground (arith, h) in
    let t = covered_zeros cs in rw e (omega (arith, t))

-- The weight of a function whose entry was covered and that has fewer than 2^32 blocks: 1000
-- where it has traces and else 1, times one more than the number of its counters that are 0, over
-- the least of the others.
pub weight_lem :
    (with_dft : List ℕ) (k c : ℕ) (cs : List ℕ)
    → 0 < c
    → length (c ∷ cs) < 2 ^ 32
    → (m : ℕ) × (weight with_dft k (c ∷ cs)
        ≡ some ((if contains k with_dft then 1000 else 1) * (zeros (c ∷ cs) + 1), m))
      × IsLeast m (c ∷ cs)
unfolding weight
weight_lem with_dft k c cs h l =
    let (m, e, is_least) = smallest_non_zero_counter_lem c cs h in
    let n : (number_of_uncovered_blocks (c ∷ cs) + 1) % 2 ^ 32 ≡ zeros (c ∷ cs) + 1 =
      let z = zeros_lt c cs h in
      let u = number_of_uncovered_blocks_lem (c ∷ cs) l in omega (arith, z, u) in
    let base = if contains k with_dft then 1000 else 1 in
    (
      m,
      ap
            (λ o. elim o [
              | none ↦ none
              | some x ↦ some (base * ((number_of_uncovered_blocks (c ∷ cs) + 1) % 2 ^ 32), x)
            ])
            e
          ∙ ap (λ x. some (base * x, m)) n,
      is_least,
    )

-- The entry of each function was covered, and the functions have numbers below `n`.
abbrev pub IsStarted : ℕ → List (ℕ × List ℕ) → Type 0
IsStarted n = All (λ f. (f.0 < n) × (0 < counter_at 0 (some f.1)) × length f.1 < 2 ^ 32)

weight-some :
    (with_dft : List ℕ) (k : ℕ) (cs : List ℕ)
    → 0 < counter_at 0 (some cs)
    → length cs < 2 ^ 32
    → (w : ℕ × ℕ) × (weight with_dft k cs ≡ some w)
unfolding counter_at
weight-some with_dft k [] h l = absurd (omega arith)
weight-some with_dft k (c ∷ cs) h l =
    let (m, e, is_least) = weight_lem with_dft k c cs h l in (_, e)

put_weight_lem :
    (k : ℕ) (w : ℕ × ℕ) (ws : List (ℕ × ℕ))
    → k < length ws
    → put_weight k (some w) ws ≡ some (set ws k w)
unfolding put_weight
put_weight_lem k w ws l = rw (lt→ltb k (length ws) l) refl

not_first :
    (i k : ℕ) (cs : List ℕ) (fs : List (ℕ × List ℕ))
    → counters_of i ((k, cs) ∷ fs) ≡ none
    → (k ≢ i) × (counters_of i fs ≡ none)
unfolding counters_of
not_first i k cs fs h = elim (Bool-cases (i == k)) [
  | inl e ↦
      let step : counters_of i ((k, cs) ∷ fs) ≡ some cs = rw e refl in
      let clash = sym step ∙ h in absurd (cc)
  | inr e ↦
      let ne = ==_false→ne i k e in
      let step : counters_of i ((k, cs) ∷ fs) ≡ counters_of i fs = rw e refl in
      (λ same. ne (sym same), sym step ∙ h)
]

weights_loop_lem :
    (with_dft : List ℕ) (fs : List (ℕ × List ℕ)) (ws : List (ℕ × ℕ))
    → IsStarted (length ws) fs
    → (ws' : List (ℕ × ℕ)) × (weights_loop with_dft fs ws ≡ some ws')
      × (length ws' ≡ length ws)
      × ((i : ℕ) → counters_of i fs ≡ none → get_elem? ws' i ≡ get_elem? ws i)
unfolding weights_loop
weights_loop_lem with_dft [] ws a = (ws, refl, refl, λ i h. refl)
weights_loop_lem with_dft ((k, cs) ∷ fs) ws ((kl, h, l), a) =
    let (w, e) = weight-some with_dft k cs h l in
    let same = length-set ws k w in
    let (ws', e', len, others) =
      weights_loop_lem with_dft fs (set ws k w) (subst (λ n. IsStarted n fs) (sym same) a) in
    let put = ap (λ o. put_weight k o ws) e ∙ put_weight_lem k w ws kl in
    (
      ws',
      ap (λ o. elim o [ none ↦ none | some v ↦ weights_loop with_dft fs v ]) put ∙ e',
      len ∙ same,
      λ i h'.
          let (ne, none_i) = not_first i k cs fs h' in
          others i none_i ∙ get_elem?-set_ne ws k i w ne,
    )

get_elem?-replicate : (n i : ℕ) (w : ℕ × ℕ) → i < n → get_elem? (replicate n w) i ≡ some w
get_elem?-replicate zero i w h = absurd (omega arith)
get_elem?-replicate (suc n) zero w h = refl
get_elem?-replicate (suc n) (suc i) w h = get_elem?-replicate n i w (omega arith)

-- `FunctionWeights` gives as many weights as there are functions, and no assertion fails, where
-- the entry of every function with counters was covered, the function has fewer than 2^32 blocks
-- and its number is below the number of functions; a function without counters has the weight 0.
pub function_weights_lem :
    (n : ℕ) (b : Blocks)
    → IsStarted n b.functions
    → (ws : List (ℕ × ℕ)) × (function_weights n b ≡ some ws)
      × (length ws ≡ n)
      × ((i : ℕ)
          → (get_elem? ws i ≡ some (0, 1))
            ⊎ ((n ≤ i) ⊎ ((cs : List ℕ) × (counters_of i b.functions ≡ some cs))))
unfolding function_weights
function_weights_lem n b a =
    let no_weight : ℕ × ℕ = (0, 1) in
    let zeros_len = length-replicate n no_weight in
    let (ws, e, len, others) =
      weights_loop_lem b.with_dft b.functions (replicate n no_weight)
        (subst (λ m. IsStarted m b.functions) (sym zeros_len) a) in
    (
      ws,
      e,
      len ∙ zeros_len,
      λ i. elim (Bool-cases (ltb i n)) [
        | inr e' ↦ inr (inl (ltb_false→le i n e'))
        | inl e' ↦ elim (Option-cases (counters_of i b.functions)) [
          | inl h ↦ inl (others i h ∙ get_elem?-replicate n i no_weight (ltb→lt i n e'))
          | inr (cs, h) ↦ inr (inr (cs, h))
        ]
      ],
    )
