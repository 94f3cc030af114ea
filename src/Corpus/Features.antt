-- ===== src/Corpus/Features.antt =====
-- The operations of `InputCorpus` on features: `AddFeature`, `DeleteInput` and `UpdateFeatureFrequency`.
use pfuzzer.Base.{
  ℕ, zero, suc, ◌+◌, ◌-◌, ◌%◌, ◌^◌, ltb, ◌==◌, ◌&&◌, ◌||◌, not, Bool, true, false, if◌then◌else◌,
  List, [], ◌∷◌, Option, none, some, length, get_elem?, set,
}
use pfuzzer.Global.{feature_set_size, put}
use pfuzzer.Corpus.{InputInfo, InputCorpus, update_local_frequency, add_rare_feature}

-- `DeleteInput`, on the input `ii` at `idx`.
unfoldable pub delete_input : ℕ → InputInfo → InputCorpus → InputCorpus
delete_input idx ii c = record c {
  inputs = set c.inputs idx (record ii { unit = []; needs_energy_update = false });
  distribution_needs_update = true;
}

-- The input `ii` at `idx` loses a feature, and is deleted with the last one.
unfoldable pub lose_feature : ℕ → InputInfo → InputCorpus → InputCorpus
unfolding delete_input
lose_feature idx ii c =
    let ii' = record ii { num_features = ii.num_features - 1 } in
    if ii'.num_features == 0
    then delete_input idx ii' c
    else record c { inputs = set c.inputs idx ii' }

-- The first part of `AddFeature`: the input that has the feature loses it, or the feature is new.
unfoldable pub release : ℕ → InputCorpus → Option InputCorpus
unfolding lose_feature add_rare_feature
release i c =
    let added = record c { num_added_features = (c.num_added_features + 1) % 2 ^ 64 } in
    let idx = c.smallest_element_per_feature i in
    let lost : Option InputCorpus = elim (get_elem? c.inputs idx) [
      | none ↦ none
      | some ii ↦ if ii.num_features == 0 then none else some (lose_feature idx ii c)
    ] in
    if ltb 0 (c.input_sizes_per_feature i)
    then lost
    else if c.entropic.enabled
    then add_rare_feature i added
    else some added

-- The second part: the feature goes to the input that is added next.
unfoldable pub own : ℕ → ℕ → InputCorpus → InputCorpus
unfolding put
own i new_size c = record c {
  num_updated_features = (c.num_updated_features + 1) % 2 ^ 64;
  smallest_element_per_feature = put c.smallest_element_per_feature i (length c.inputs % 2 ^ 32);
  input_sizes_per_feature = put c.input_sizes_per_feature i new_size;
}

unfoldable pub gain : ℕ → ℕ → Option InputCorpus → Option (Bool × InputCorpus)
unfolding own
gain i new_size none = none
gain i new_size (some c) = some (true, own i new_size c)

-- `AddFeature`.
unfoldable pub add_feature : ℕ → ℕ → Bool → InputCorpus → Option (Bool × InputCorpus)
unfolding release gain
add_feature idx new_size shrink c =
    let i = idx % feature_set_size in
    let old_size = c.input_sizes_per_feature i in
    let changed = gain i new_size (release i c) in
    let kept : Option (Bool × InputCorpus) =
      if old_size == 0 || (shrink && ltb new_size old_size) then changed else some (false, c) in
    if new_size == 0 then none else kept

unfoldable pub update_at : (InputInfo → InputInfo) → ℕ → List InputInfo → List InputInfo
update_at f i [] = []
update_at f zero (x ∷ xs) = f x ∷ xs
update_at f (suc i) (x ∷ xs) = x ∷ update_at f i xs

unfoldable pub update_input : Option ℕ → ℕ → InputCorpus → InputCorpus
unfolding update_at update_local_frequency
update_input none idx c = c
update_input (some i) idx c = record c {
  inputs = update_at (update_local_frequency idx) i c.inputs;
}

-- `UpdateFeatureFrequency`, for the input at a place or for none.
unfoldable pub update_feature_frequency : Option ℕ → ℕ → InputCorpus → InputCorpus
unfolding update_input put
update_feature_frequency at idx c =
    let i = idx % feature_set_size in
    let freq = c.global_feature_freqs i in
    let most = c.freq_of_most_abundant_rare_feature in
    let c' = record c { global_feature_freqs = put c.global_feature_freqs i (freq + 1) } in
    let most' = if freq == most then (most + 1) % 2 ^ 16 else most in
    let c'' = record c' { freq_of_most_abundant_rare_feature = most' } in
    if freq == 0xFFFF
    then c
    else if ltb most freq || not (c.is_rare_feature i)
    then c'
    else update_input at i c''
