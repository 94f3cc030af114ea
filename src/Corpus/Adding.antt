-- ===== src/Corpus/Adding.antt =====
-- `AddFeature` of `InputCorpus` (FuzzerCorpus.h) while the features of a new input are added.
use pfuzzer.Base.{
  ℕ, zero, suc, ◌+◌, ◌-◌, ◌%◌, ◌^◌, ◌≤◌, ◌<◌, ◌≡◌, refl, Bool, true, false, if◌then◌else◌, List, [],
  ◌∷◌, Option, none, some, length, arith, ap, ◌∙◌, subst,
}
use pfuzzer.Global.{GlobalCorpus, feature_set_size}
use pfuzzer.Global.Laws.{count, owns, owned}
use pfuzzer.Global.Laws.Adding.{IsPending}
use pfuzzer.Global.Laws.Inputs.{add_feature-Step}
use pfuzzer.Global.Laws.Offers.{
  is_offered, takes, IsOffered, AfterFeature, add_feature-AfterFeature,
}
use pfuzzer.Corpus.{InputCorpus}
use pfuzzer.Corpus.Features.{add_feature}
use pfuzzer.Corpus.Shared.{shared_as, length-map, SameCounted, add_feature-SameCounted}

-- The invariant while the features of an input of `new_size` bytes are added, whose counter of updates,
-- of 64 bits, started at `base`: it went on by as many as the next input is to have features.
abbrev pub IsAdding : ℕ → ℕ → InputCorpus → Type 0
IsAdding new_size base c =
    (d : ℕ) × (u : ℕ) × IsPending new_size 0 (shared_as d u c)
    × (c.num_updated_features ≡ (base + u) % 2 ^ 64)

-- The next input, of `new_size` bytes, has the feature now if no input had it, or a larger one.
abbrev pub IsTaken : ℕ → ℕ → InputCorpus → InputCorpus → Type 0
IsTaken idx new_size c c' =
    (j : ℕ)
    → (let taken = takes new_size (is_offered j (idx ∷ [])) (c.input_sizes_per_feature j) in
        (c'.input_sizes_per_feature j ≡ (if taken then new_size else c.input_sizes_per_feature j))
        × (c'.smallest_element_per_feature j
            ≡ (if taken then length c.inputs else c.smallest_element_per_feature j)))

count_le : (n : ℕ) (p : ℕ → Bool) → count n p ≤ n
unfolding count
count_le zero p = omega arith
count_le (suc n) p = ground (arith, count_le n p)

-- The next input gets no more features than there are.
few_updates :
    (new_size d u : ℕ) (c : InputCorpus) → IsPending new_size 0 (shared_as d u c) → u < 2 ^ 32 - 1
unfolding owned
few_updates new_size d u c v =
    let g = shared_as d u c in
    omega (arith, v.updated, count_le feature_set_size (owns g (length g.inputs)))

taken :
    (d u d' u' idx new_size : ℕ) (c c' : InputCorpus)
    → IsOffered new_size (idx ∷ []) (shared_as d u c) (shared_as d' u' c')
    → IsTaken idx new_size c c'
taken d u d' u' idx new_size c c' offered j =
    let (size, owner) = offered j in
    let takes_j = takes new_size (is_offered j (idx ∷ [])) (c.input_sizes_per_feature j) in
    (
      size,
      owner
          ∙ ap (λ n. if takes_j then n else c.smallest_element_per_feature j) (length-map c.inputs),
    )

-- `AddFeature` of `InputCorpus`, where features are not counted for entropy and inputs may be
-- replaced by smaller ones, never fails its assertions, for an input of at least one byte. It
-- returns true, and the feature goes to the next input, exactly where no input had it, or one of
-- more bytes; no other feature changes its size or owner. The invariant is kept: every input
-- counts the features that it owns, it has bytes if and only if there are any, and the counter of
-- updates, of 64 bits, went on by as many as the next input owns.
pub add_feature-IsAdding :
    (idx new_size base : ℕ) (c : InputCorpus)
    → 0 < new_size
    → c.entropic.enabled ≡ false
    → IsAdding new_size base c
    → (b : Bool) × (c' : InputCorpus) × (add_feature idx new_size true c ≡ some (b, c'))
      × (b ≡ takes new_size true (c.input_sizes_per_feature (idx % feature_set_size)))
      × IsAdding new_size base c'
      × IsTaken idx new_size c c'
add_feature-IsAdding idx new_size base c pos off (d, u, v, updated) =
    let g = shared_as d u c in
    let (b, fs, g', e, v', le) =
      add_feature-Step new_size pos 0 idx [] g v (few_updates new_size d u c v) in
    let few : length g.inputs < 2 ^ 32 = omega (arith, v.few) in
    go b fs g' v'
      (subst (AfterFeature new_size idx g) e (add_feature-AfterFeature idx new_size [] g few))
      (add_feature idx new_size true c)
      (subst (SameCounted u c.num_updated_features (add_feature idx new_size true c)) e
        (add_feature-SameCounted d u idx new_size [] c off))
  where
    go :
        (b : Bool) (fs : List ℕ) (g' : GlobalCorpus)
        → IsPending new_size 0 g'
        → AfterFeature new_size idx (shared_as d u c) (some (b, fs, g'))
        → (p : Option (Bool × InputCorpus))
        → SameCounted u c.num_updated_features p (some (b, fs, g'))
        → (b' : Bool) × (c' : InputCorpus) × (p ≡ some (b', c'))
          × (b' ≡ takes new_size true (c.input_sizes_per_feature (idx % feature_set_size)))
          × IsAdding new_size base c'
          × IsTaken idx new_size c c'
    go b fs g' v' after none h = absurd h
    go b fs g' v' ((o, len), ret) (some (true, c')) (same, d', e, m) =
        let small = few_updates new_size d u c v in
        let u' = (u + 1) % 2 ^ 32 in
        (
          true,
          c',
          refl,
          same ∙ ret,
          (d', u', subst (IsPending new_size 0) e v', omega (arith, updated, m, small)),
          taken d u d' u' idx new_size c c'
              (subst (IsOffered new_size (idx ∷ []) (shared_as d u c)) e o),
        )
    go b fs g' v' ((o, len), ret) (some (false, c')) (same, d', e, m) = (
      false,
      c',
      refl,
      same ∙ ret,
      (d', u, subst (IsPending new_size 0) e v', m ∙ updated),
      taken d u d' u idx new_size c c'
          (subst (IsOffered new_size (idx ∷ []) (shared_as d u c)) e o),
    )
