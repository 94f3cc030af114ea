-- ===== src/Global/Laws.antt =====
-- The invariant of `GlobalCorpusInfo` (FuzzerFork.h): an input counts the features that it
-- owns, and is alive while there are any.
pub mod Adding
pub mod Inputs
pub mod Offers
use pfuzzer.Base.{
  ℕ, zero, suc, ◌+◌, ◌-◌, ◌%◌, ◌^◌, ◌≤◌, ◌<◌, ◌≡◌, refl, ◌≢◌, ltb, ◌==◌, ◌||◌, ◌&&◌, not, Bool,
  true, false, if◌then◌else◌, List, [], ◌∷◌, ◌++◌, Option, none, some, length, get_elem?, set,
  tests, arith, ap, sym, ◌∙◌, subst, ==→eq, ==_false→ne, ==_refl,
}
use native.Mathlib.Decide.{ℕ_discrete}
use pfuzzer.Global.{feature_set_size, Seed, GlobalCorpus, put}

abbrev pub one_if : Bool → ℕ
one_if b = if b then 1 else 0

-- How many numbers below the bound pass the test.
unfoldable pub count : ℕ → (ℕ → Bool) → ℕ
count zero p = 0
count (suc n) p = one_if (p n) + count n p

pub count-same : (n : ℕ) (p q : ℕ → Bool) → ((j : ℕ) → j < n → p j ≡ q j) → count n p ≡ count n q
unfolding count
count-same zero p q h = refl
count-same (suc n) p q h =
    omega (arith, ap one_if (h n (omega arith)), count-same n p q (λ j l. h j (omega arith)))

-- Two tests that differ at one number only.
pub count-change :
    (n i : ℕ) (p q : ℕ → Bool)
    → i < n
    → ((j : ℕ) → j ≢ i → p j ≡ q j)
    → count n p + one_if (q i) ≡ count n q + one_if (p i)
unfolding count
count-change zero i p q l h = absurd (omega arith)
count-change (suc n) i p q l h = elim (ℕ_discrete n i) [
  | yes e ↦ omega (
    arith,
    ap (λ k. one_if (p k)) e,
    ap (λ k. one_if (q k)) e,
    count-same n p q (λ j m. h j (λ s. absurd (omega arith))),
  )
  | no d ↦ omega (arith, ap one_if (h n d), count-change n i p q (omega arith) h)
]

-- Input `k` owns the feature: it is the smallest seen that has it.
abbrev pub owns : GlobalCorpus → ℕ → ℕ → Bool
owns g k j = ltb 0 (g.input_sizes j) && (g.smallest_element j == k)

-- How many features input `k` owns.
unfoldable pub owned : GlobalCorpus → ℕ → ℕ
owned g k = count feature_set_size (owns g k)

unfoldable pub dead : List Seed → ℕ
dead [] = 0
dead (s ∷ ss) = one_if (not s.live) + dead ss
