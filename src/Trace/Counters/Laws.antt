-- ===== src/Trace/Counters/Laws.antt =====
-- The buckets that FuzzerTracePC.h puts its counters into.
use pfuzzer.Base.{ℕ, ◌+◌, ◌-◌, ◌≤◌, ◌<◌, ◌≡◌, leb, if◌then◌else◌, List, [], ◌∷◌, some, tests, arith}
use pfuzzer.Trace.Counters.{counter_to_feature}

-- The least counter of each bucket.
abbrev pub bucket_starts : List ℕ
bucket_starts = 1 ∷ 2 ∷ 3 ∷ 4 ∷ 8 ∷ 16 ∷ 32 ∷ 128 ∷ []

-- How many buckets start at the counter or below it.
unfoldable pub started : List ℕ → ℕ → ℕ
started [] c = 0
started (s ∷ ss) c = if leb s c then 1 + started ss c else started ss c

-- The feature of a counter that is not 0 is one less than the number of the buckets 1, 2, 3, 4,
-- 8, 16, 32 and 128 that start at the counter or below it; so the cascade of tests finds the last
-- bucket that the counter has reached.
pub counter_to_feature_lem :
    (c : ℕ) → 0 < c → counter_to_feature c ≡ some (started bucket_starts c - 1)
unfolding counter_to_feature started
counter_to_feature_lem c h = grind (arith, tests)

-- Larger counters have features that are no smaller, and none is above 7.
pub counter_to_feature-increases :
    (c d k m : ℕ)
    → c ≤ d
    → counter_to_feature c ≡ some k
    → counter_to_feature d ≡ some m
    → k ≤ m × m ≤ 7
unfolding counter_to_feature
counter_to_feature-increases c d k m h e f = (grind (arith, tests), grind (arith, tests))
