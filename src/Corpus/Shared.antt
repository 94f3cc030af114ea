-- ===== src/Corpus/Shared.antt =====
-- `AddFeature` of `InputCorpus` (FuzzerCorpus.h) and of `GlobalCorpusInfo` (FuzzerFork.h) do the same.
use pfuzzer.Base.{
  ℕ, zero, suc, ◌+◌, ◌-◌, ◌%◌, ◌^◌, ◌≡◌, refl, ltb, ◌==◌, ◌||◌, not, Bool, true, false,
  if◌then◌else◌, List, [], ◌∷◌, Option, none, some, length, get_elem?, set, map, arith, ap, sym,
  ◌∙◌, Bool-cases, inl, inr,
}
use pfuzzer.Global.{Seed, GlobalCorpus, feature_set_size, put}
use pfuzzer.Global
use pfuzzer.Corpus.{InputInfo, InputCorpus}
use pfuzzer.Corpus.Features.{delete_input, lose_feature, release, own, gain, add_feature}

-- What the corpus of the fork mode knows of an input: it is alive while it has bytes.
abbrev pub seed_of : InputInfo → Seed
seed_of ii = record {
  file = [];
  num_features = ii.num_features;
  live = not (length ii.unit == 0);
  seed_funcs = [];
}

-- What it knows of the corpus, where `d` inputs were deleted and `u` updates are counted.
abbrev pub shared_as : ℕ → ℕ → InputCorpus → GlobalCorpus
shared_as d u c = record {
  inputs = map seed_of c.inputs;
  delete_nums = d;
  num_updated_features = u;
  num_added_features = c.num_added_features;
  input_sizes = c.input_sizes_per_feature;
  smallest_element = c.smallest_element_per_feature;
  feature_freqs = c.global_feature_freqs;
  non_zero_features = [];
}

-- What it knows where it counts all updates; its counter has 32 bits.
abbrev pub shared : ℕ → InputCorpus → GlobalCorpus
shared d c = shared_as d (c.num_updated_features % 2 ^ 32) c

pub length-map : (iis : List InputInfo) → length (map seed_of iis) ≡ length iis
length-map [] = refl
length-map (ii ∷ iis) = ap suc (length-map iis)

set-map :
    (iis : List InputInfo) (i : ℕ) (ii : InputInfo)
    → map seed_of (set iis i ii) ≡ set (map seed_of iis) i (seed_of ii)
set-map [] i ii = refl
set-map (x ∷ xs) zero ii = refl
set-map (x ∷ xs) (suc i) ii = ap (λ t. seed_of x ∷ t) (set-map xs i ii)

abbrev seed_at : Option InputInfo → Option Seed
seed_at none = none
seed_at (some ii) = some (seed_of ii)

get_elem?-map :
    (iis : List InputInfo) (i : ℕ) → get_elem? (map seed_of iis) i ≡ seed_at (get_elem? iis i)
get_elem?-map [] i = refl
get_elem?-map (x ∷ xs) zero = refl
get_elem?-map (x ∷ xs) (suc i) = get_elem?-map xs i

-- The number of deletions afterwards.
abbrev deletions : ℕ → InputInfo → ℕ
deletions d ii = if ii.num_features - 1 == 0 then (d + 1) % 2 ^ 64 else d

lose-shared :
    (d u idx : ℕ) (ii : InputInfo) (c : InputCorpus)
    → Global.lose_feature idx (seed_of ii) (shared_as d u c)
      ≡ shared_as (deletions d ii) u (lose_feature idx ii c)
unfolding lose_feature delete_input Global.lose_feature Global.delete_input
lose-shared d u idx ii c = elim (Bool-cases (ii.num_features - 1 == 0)) [
  | inl e ↦
      let ii' = record ii {
        num_features = ii.num_features - 1;
        unit = [];
        needs_energy_update = false;
      } in
      rw e (
        ap (λ iis. record (shared_as ((d + 1) % 2 ^ 64) u c) { inputs = iis })
          (sym (set-map c.inputs idx ii')))
  | inr e ↦
      let ii' = record ii { num_features = ii.num_features - 1 } in
      rw e (ap (λ iis. record (shared_as d u c) { inputs = iis }) (sym (set-map c.inputs idx ii')))
]

lose_updated :
    (idx : ℕ) (ii : InputInfo) (c : InputCorpus)
    → (lose_feature idx ii c).num_updated_features ≡ c.num_updated_features
unfolding lose_feature delete_input
lose_updated idx ii c = elim (Bool-cases (ii.num_features - 1 == 0)) [
  | inl e ↦ rw e refl
  | inr e ↦ rw e refl
]

-- The results of the first parts agree, up to the set of features and the number of deletions, and
-- leave the counters of updates at `u` and `n`.
abbrev SameRelease : ℕ → ℕ → Option InputCorpus → Option (List ℕ × GlobalCorpus) → Type 0
SameRelease u n none none = Unit
SameRelease u n none (some q) = ⊥
SameRelease u n (some c) none = ⊥
SameRelease u n (some c) (some (fs, g)) =
    (d : ℕ) × (g ≡ shared_as d u c) × (c.num_updated_features ≡ n)

lost-shared :
    (d u idx : ℕ) (fs : List ℕ) (c : InputCorpus) (o : Option InputInfo)
    → SameRelease u c.num_updated_features
        (elim o [
          | none ↦ none
          | some ii ↦ if ii.num_features == 0 then none else some (lose_feature idx ii c)
        ])
        (elim (seed_at o) [
          | none ↦ none
          | some s ↦
              if s.num_features == 0
              then none
              else some (fs, Global.lose_feature idx s (shared_as d u c))
        ])
lost-shared d u idx fs c none = tt
lost-shared d u idx fs c (some ii) = elim (Bool-cases (ii.num_features == 0)) [
  | inl e ↦ rw e tt
  | inr e ↦ rw e (deletions d ii, lose-shared d u idx ii c, lose_updated idx ii c)
]

release-shared :
    (d u i : ℕ) (fs : List ℕ) (c : InputCorpus)
    → c.entropic.enabled ≡ false
    → SameRelease u c.num_updated_features (release i c) (Global.release i fs (shared_as d u c))
unfolding release Global.release
release-shared d u i fs c off = elim (Bool-cases (ltb 0 (c.input_sizes_per_feature i))) [
  | inr e ↦ rw (e, off) (d, refl, refl)
  | inl e ↦
      let idx = c.smallest_element_per_feature i in
      rw (e, get_elem?-map c.inputs idx) (lost-shared d u idx fs c (get_elem? c.inputs idx))
]

-- The results agree, where the counters were at `u` and `n` before.
abbrev pub SameCounted :
    ℕ → ℕ → Option (Bool × InputCorpus) → Option (Bool × List ℕ × GlobalCorpus) → Type 0
SameCounted u n none none = Unit
SameCounted u n none (some q) = ⊥
SameCounted u n (some p) none = ⊥
SameCounted u n (some (b, c)) (some (b', fs, g)) =
    (b ≡ b')
    × (d : ℕ) × (g ≡ shared_as d (if b then (u + 1) % 2 ^ 32 else u) c)
    × (c.num_updated_features ≡ (if b then (n + 1) % 2 ^ 64 else n))

own-shared :
    (d u i new_size : ℕ) (c : InputCorpus)
    → Global.own i new_size (shared_as d u c) ≡ shared_as d ((u + 1) % 2 ^ 32) (own i new_size c)
unfolding own Global.own put
own-shared d u i new_size c =
    ap
      (λ len. record (shared_as d ((u + 1) % 2 ^ 32) c) {
        smallest_element = put c.smallest_element_per_feature i (len % 2 ^ 32);
        input_sizes = put c.input_sizes_per_feature i new_size;
      })
      (length-map c.inputs)

own_updated :
    (i new_size n : ℕ) (c : InputCorpus)
    → c.num_updated_features ≡ n
    → (own i new_size c).num_updated_features ≡ (n + 1) % 2 ^ 64
unfolding own
own_updated i new_size n c e = ap (λ m. (m + 1) % 2 ^ 64) e

gain-shared :
    (u n i new_size : ℕ) (p : Option InputCorpus) (q : Option (List ℕ × GlobalCorpus))
    → SameRelease u n p q
    → SameCounted u n (gain i new_size p) (Global.gain i new_size q)
unfolding gain Global.gain
gain-shared u n i new_size none none h = tt
gain-shared u n i new_size none (some q) h = absurd h
gain-shared u n i new_size (some c) none h = absurd h
gain-shared u n i new_size (some c) (some (fs, g)) (d, e, m) = (
  refl,
  d,
  ap (Global.own i new_size) e ∙ own-shared d u i new_size c,
  own_updated i new_size n c m,
)

pub add_feature-SameCounted :
    (d u idx new_size : ℕ) (fs : List ℕ) (c : InputCorpus)
    → c.entropic.enabled ≡ false
    → SameCounted u c.num_updated_features
        (add_feature idx new_size true c)
        (Global.add_feature idx new_size fs (shared_as d u c))
unfolding add_feature Global.add_feature
add_feature-SameCounted d u idx new_size fs c off =
    let i = idx % feature_set_size in
    let old_size = c.input_sizes_per_feature i in
    elim (Bool-cases (new_size == 0)) [
      | inl e ↦ rw e tt
      | inr e ↦ elim (Bool-cases (old_size == 0 || ltb new_size old_size)) [
        | inl f ↦
            rw (e, f)
              (gain-shared u c.num_updated_features i new_size (release i c)
                (Global.release i fs (shared_as d u c)) (release-shared d u i fs c off))
        | inr f ↦ rw (e, f) (refl, d, refl, refl)
      ]
    ]

-- The results agree.
abbrev pub SameResult : Option (Bool × InputCorpus) → Option (Bool × List ℕ × GlobalCorpus) → Type 0
SameResult none none = Unit
SameResult none (some q) = ⊥
SameResult (some p) none = ⊥
SameResult (some (b, c)) (some (b', fs, g)) = (b ≡ b') × ((d : ℕ) × (g ≡ shared d c))

-- The counters with 64 and 32 bits stay in step.
counted-SameResult :
    (n : ℕ) (p : Option (Bool × InputCorpus)) (q : Option (Bool × List ℕ × GlobalCorpus))
    → SameCounted (n % 2 ^ 32) n p q
    → SameResult p q
counted-SameResult n none none h = tt
counted-SameResult n none (some q) h = absurd h
counted-SameResult n (some p) none h = absurd h
counted-SameResult n (some (true, c)) (some (b', fs, g)) (same, d, e, m) =
    let updated : (n % 2 ^ 32 + 1) % 2 ^ 32 ≡ c.num_updated_features % 2 ^ 32 = omega (arith, m) in
    (same, (d, e ∙ ap (λ v. shared_as d v c) updated))
counted-SameResult n (some (false, c)) (some (b', fs, g)) (same, d, e, m) =
    (same, (d, e ∙ ap (λ v. shared_as d (v % 2 ^ 32) c) (sym m)))

-- Where features are not counted for entropy, `AddFeature` of `InputCorpus`, which may shrink,
-- and of `GlobalCorpusInfo` fail on the same corpora, return the same, and leave corpora that
-- agree on the inputs, on who owns which feature and on the numbers of features.
pub add_feature-shared :
    (d idx new_size : ℕ) (fs : List ℕ) (c : InputCorpus)
    → c.entropic.enabled ≡ false
    → SameResult (add_feature idx new_size true c) (Global.add_feature idx new_size fs (shared d c))
add_feature-shared d idx new_size fs c off =
    counted-SameResult c.num_updated_features _ _
      (add_feature-SameCounted d (c.num_updated_features % 2 ^ 32) idx new_size fs c off)
