-- ===== src/DataFlow/Counters.antt =====
-- The counters of a function, and the map from functions to them.
use pfuzzer.Base.{
  ℕ, zero, suc, ◌+◌, ◌%◌, ◌^◌, ◌<◌, ◌≡◌, refl, ◌==◌, true, false, if◌then◌else◌, List, [], ◌∷◌,
  none, some, length, All, arith, tests, ap, sym, subst, ◌∙◌, Bool-cases, inl, inr, ◌⊎◌, ==→eq,
  lt→ltb,
}
use pfuzzer.DataFlow.{bump, bump_all, all_below_num, counter_at, counters_of, put_counters}

-- How often a block stands in a list.
abbrev pub occurrences : ℕ → List ℕ → ℕ
occurrences j [] = 0
occurrences j (x ∷ xs) = (if x == j then 1 else 0) + occurrences j xs

pub length-bump : (i : ℕ) (cs : List ℕ) → length (bump i cs) ≡ length cs
unfolding bump
length-bump i [] = refl
length-bump zero (c ∷ cs) = refl
length-bump (suc i) (c ∷ cs) = ap suc (length-bump i cs)

pub length-bump_all : (xs cs : List ℕ) → length (bump_all xs cs) ≡ length cs
unfolding bump_all
length-bump_all [] cs = refl
length-bump_all (x ∷ xs) cs = length-bump_all xs (bump x cs) ∙ length-bump x cs

counter_at-bump :
    (i j : ℕ) (cs : List ℕ)
    → i < length cs
    → counter_at j (some cs) < 2 ^ 32
    → counter_at j (some (bump i cs))
      ≡ ((if i == j then 1 else 0) + counter_at j (some cs)) % 2 ^ 32
unfolding bump counter_at
counter_at-bump i j [] h l = absurd (omega arith)
counter_at-bump zero zero (c ∷ cs) h l = omega arith
counter_at-bump zero (suc j) (c ∷ cs) h l =
    let e : (0 == suc j) ≡ false = ground arith in rw e (omega arith)
counter_at-bump (suc i) zero (c ∷ cs) h l =
    let e : (suc i == 0) ≡ false = ground arith in rw e (omega arith)
counter_at-bump (suc i) (suc j) (c ∷ cs) h l =
    let e : (suc i == suc j) ≡ (i == j) = ground arith in
    rw e (counter_at-bump i j cs (omega arith) l)

pub counter_at-bump_all :
    (j : ℕ) (xs cs : List ℕ)
    → All (λ x. x < length cs) xs
    → counter_at j (some cs) < 2 ^ 32
    → counter_at j (some (bump_all xs cs)) ≡ (occurrences j xs + counter_at j (some cs)) % 2 ^ 32
unfolding bump_all
counter_at-bump_all j [] cs a l = omega arith
counter_at-bump_all j (x ∷ xs) cs (h, a) l =
    let first = counter_at-bump x j cs h l in
    let same = sym (length-bump x cs) in
    let wide : counter_at j (some (bump x cs)) < 2 ^ 32 = omega (arith, first) in
    let others =
      counter_at-bump_all j xs (bump x cs) (subst (λ n. All (λ y. y < n) xs) same a) wide in
    omega (arith, first, others)

pub all_below_num_lem : (n : ℕ) (xs : List ℕ) → All (λ x. x < n) xs → all_below_num n xs ≡ true
unfolding all_below_num
all_below_num_lem n [] a = refl
all_below_num_lem n (x ∷ xs) (h, a) = rw (lt→ltb x n h, all_below_num_lem n xs a) refl

pub counters_of-put_counters :
    (k k' : ℕ) (cs : List ℕ) (fs : List (ℕ × List ℕ))
    → counters_of k' (put_counters k cs fs) ≡ (if k' == k then some cs else counters_of k' fs)
unfolding counters_of put_counters
counters_of-put_counters k k' cs [] = refl
counters_of-put_counters k k' cs ((j, ds) ∷ fs) =
    grind (tests, Bool-cases, counters_of-put_counters k k' cs fs)

pub put_counters-All :
    (P : (ℕ × List ℕ) → Type 0) (k : ℕ) (cs : List ℕ) (fs : List (ℕ × List ℕ))
    → P (k, cs)
    → All P fs
    → All P (put_counters k cs fs)
unfolding put_counters
put_counters-All P k cs [] p a = (p, tt)
put_counters-All P k cs ((j, ds) ∷ fs) p (q, a) = elim (Bool-cases (k == j)) [
  | inl e ↦ rw e (p, a)
  | inr e ↦ rw e (q, put_counters-All P k cs fs p a)
]

-- What is found is an entry.
pub counters_of-All :
    (P : (ℕ × List ℕ) → Type 0) (k : ℕ) (fs : List (ℕ × List ℕ))
    → All P fs
    → (counters_of k fs ≡ none) ⊎ ((cs : List ℕ) × (counters_of k fs ≡ some cs) × P (k, cs))
unfolding counters_of
counters_of-All P k [] a = inl refl
counters_of-All P k ((j, ds) ∷ fs) (q, a) = elim (Bool-cases (k == j)) [
  | inl e ↦ inr (ds, rw e refl, subst (λ i. P (i, ds)) (sym (==→eq k j e)) q)
  | inr e ↦ rw e (counters_of-All P k fs a)
]
