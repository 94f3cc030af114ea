-- ===== src/Corpus.antt =====
-- `InputInfo` and `InputCorpus` of FuzzerCorpus.h. The arrays over features are functions, inputs are
-- known by their places, and SHA-1 is an argument. Energies, which are `double` and change nothing else
-- here, are left out, and so is the deletion of files.
pub mod Frequencies
pub mod Features
pub mod Units
pub mod Rare
pub mod Shared
pub mod Adding
use pfuzzer.Base.{
  ℕ, zero, suc, ◌+◌, ◌-◌, ◌%◌, ◌^◌, max, leb, ltb, ◌==◌, ◌&&◌, ◌||◌, not, Bool, true, false,
  if◌then◌else◌, List, [], ◌∷◌, ◌++◌, Option, none, some, length, get_elem?, set, take, map,
}
use pfuzzer.Base.Bytes.{bytes_eq}
use pfuzzer.Base.Sets.{sort_numbers}
use pfuzzer.Command.{Text}
use pfuzzer.Global.{feature_set_size, put}

pub record InputInfo : Type 0 where
  pub unit : List ℕ
  pub time_of_unit : ℕ
  pub sha1 : Text
  pub num_features : ℕ
  pub never_reduce : Bool
  pub may_delete_file : Bool
  pub reduced : Bool
  pub has_focus_function : Bool
  pub uniq_feature_set : List ℕ
  pub data_flow_trace : List ℕ
  pub needs_energy_update : Bool
  pub feature_freqs : List (ℕ × ℕ)

pub record EntropicOptions : Type 0 where
  pub enabled : Bool
  pub number_of_rarest_features : ℕ
  pub feature_frequency_threshold : ℕ

pub record InputCorpus : Type 0 where
  pub entropic : EntropicOptions
  pub hashes : List Text
  pub inputs : List InputInfo
  pub num_added_features : ℕ
  pub num_updated_features : ℕ
  pub input_sizes_per_feature : ℕ → ℕ
  pub smallest_element_per_feature : ℕ → ℕ
  pub distribution_needs_update : Bool
  pub freq_of_most_abundant_rare_feature : ℕ
  pub global_feature_freqs : ℕ → ℕ
  pub rare_features : List ℕ
  pub is_rare_feature : ℕ → Bool

-- The list without the feature, and whether it was there. `std::lower_bound` finds the first pair that
-- is not below (Idx, 0), and the list is ordered.
unfoldable pub delete_freq : ℕ → List (ℕ × ℕ) → Bool × List (ℕ × ℕ)
delete_freq idx [] = (false, [])
delete_freq idx ((k, n) ∷ fs) =
    let (found, rest) = delete_freq idx fs in
    if ltb k idx
    then (found, (k, n) ∷ rest)
    else if k == idx
    then (true, fs)
    else (false, (k, n) ∷ fs)

-- `InputInfo::DeleteFeatureFreq`.
unfoldable pub delete_feature_freq : ℕ → InputInfo → Bool × InputInfo
unfolding delete_freq
delete_feature_freq idx ii =
    let (found, fs) = delete_freq idx ii.feature_freqs in (found, record ii { feature_freqs = fs })

unfoldable pub increment_freq : ℕ → List (ℕ × ℕ) → List (ℕ × ℕ)
increment_freq idx [] = (idx, 1) ∷ []
increment_freq idx ((k, n) ∷ fs) =
    let rest = increment_freq idx fs in
    if ltb k idx
    then (k, n) ∷ rest
    else if k == idx
    then (k, (n + 1) % 2 ^ 16) ∷ fs
    else (idx, 1) ∷ (k, n) ∷ fs

-- `InputInfo::UpdateFeatureFrequency`.
unfoldable pub update_local_frequency : ℕ → InputInfo → InputInfo
unfolding increment_freq
update_local_frequency idx ii = record ii {
  needs_energy_update = true;
  feature_freqs = increment_freq idx ii.feature_freqs;
}

-- The two features of the loop, the first of them the most abundant, and its place.
pub record Abundant : Type 0 where
  pub most : ℕ
  pub second : ℕ
  pub delete : ℕ

unfoldable pub find_abundant : (ℕ → ℕ) → ℕ → List ℕ → Abundant → Abundant
find_abundant freqs i [] a = a
find_abundant freqs i (r ∷ rs) a =
    let a' : Abundant = record { most = r; second = a.most; delete = i } in
    find_abundant freqs (i + 1) rs (if leb (freqs a.most) (freqs r) then a' else a)

-- The last element takes the place of the one that is removed.
unfoldable pub remove_rare : ℕ → List ℕ → List ℕ
remove_rare i rs = elim (get_elem? rs (length rs - 1)) [
  | none ↦ []
  | some back ↦ take (length rs - 1) (set rs i back)
]

-- An input forgets a feature.
unfoldable pub forget : ℕ → InputInfo → InputInfo
unfolding delete_feature_freq
forget idx ii =
    let (found, ii') = delete_feature_freq idx ii in
    record ii' { needs_energy_update = found || ii'.needs_energy_update }

unfoldable pub clear_bit : (ℕ → Bool) → ℕ → ℕ → Bool
clear_bit f i j = if j == i then false else f j

unfoldable pub set_bit : (ℕ → Bool) → ℕ → ℕ → Bool
set_bit f i j = if j == i then true else f j

-- The test of the loop of `AddRareFeature`.
unfoldable pub too_many_rare : InputCorpus → Bool
too_many_rare c =
    ltb c.entropic.number_of_rarest_features (length c.rare_features)
    && ltb c.entropic.feature_frequency_threshold c.freq_of_most_abundant_rare_feature

-- A round of the loop on rare features that start with `r`.
unfoldable pub rare_round : ℕ → InputCorpus → InputCorpus
unfolding find_abundant remove_rare forget clear_bit
rare_round r c =
    let start : Abundant = record { most = r; second = r; delete = 0 } in
    let a = find_abundant c.global_feature_freqs 0 c.rare_features start in
    record c {
      is_rare_feature = clear_bit c.is_rare_feature a.delete;
      rare_features = remove_rare a.delete c.rare_features;
      inputs = map (forget a.most) c.inputs;
      freq_of_most_abundant_rare_feature = c.global_feature_freqs a.second;
    }

unfoldable pub rare_step : List ℕ → InputCorpus → Option InputCorpus
unfolding rare_round
rare_step [] c = none
rare_step (r ∷ rs) c = some (rare_round r c)

-- The loop, on fuel.
unfoldable pub rare_loop : ℕ → InputCorpus → Option InputCorpus
unfolding too_many_rare rare_step
rare_loop zero c = if too_many_rare c then none else some c
rare_loop (suc n) c =
    let next : Option InputCorpus = elim (rare_step c.rare_features c) [
      | none ↦ none
      | some c' ↦ rare_loop n c'
    ] in
    if too_many_rare c then next else some c

-- `AddRareFeature`.
unfoldable pub add_rare_feature : ℕ → InputCorpus → Option InputCorpus
unfolding rare_loop set_bit delete_feature_freq put
add_rare_feature idx c = elim (rare_loop (length c.rare_features) c) [
  | none ↦ none
  | some c' ↦ some (record c' {
    rare_features = c'.rare_features ++ (idx ∷ []);
    is_rare_feature = set_bit c'.is_rare_feature idx;
    global_feature_freqs = put c'.global_feature_freqs idx 0;
    inputs = map (λ ii. (delete_feature_freq idx ii).1) c'.inputs;
    distribution_needs_update = true;
  })
]
