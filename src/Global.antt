-- ===== src/Global.antt =====
-- `GlobalCorpusInfo` of FuzzerFork.h, the corpus that the jobs of the fork mode share: which input
-- is the smallest that has a feature, and which inputs are still alive. The arrays over features
-- are functions. Files are not modelled, nor are the energies and scores, which are `double`.
pub mod Laws
use pfuzzer.Base.{
  ℕ, zero, suc, ◌+◌, ◌-◌, ◌%◌, ◌^◌, ltb, ◌==◌, ◌||◌, not, Bool, true, false, if◌then◌else◌, List,
  [], ◌∷◌, ◌++◌, Option, none, some, length, get_elem?, set,
}
use pfuzzer.Base.Sets.{set_insert}

abbrev pub feature_set_size : ℕ
feature_set_size = 2 ^ 21

-- `SeedInfo`.
pub record Seed : Type 0 where
  pub file : List ℕ
  pub num_features : ℕ
  pub live : Bool
  pub seed_funcs : List ℕ

pub record GlobalCorpus : Type 0 where
  pub inputs : List Seed
  pub delete_nums : ℕ
  pub num_updated_features : ℕ
  pub num_added_features : ℕ
  pub input_sizes : ℕ → ℕ
  pub smallest_element : ℕ → ℕ
  pub feature_freqs : ℕ → ℕ
  pub non_zero_features : List ℕ

unfoldable pub put : (ℕ → ℕ) → ℕ → ℕ → ℕ → ℕ
put f i v j = if j == i then v else f j

-- `UpdateFeatureFrequency`.
unfoldable pub update_feature_frequency : ℕ → GlobalCorpus → GlobalCorpus
unfolding put
update_feature_frequency idx g =
    let i = idx % feature_set_size in
    let freq = g.feature_freqs i in
    if freq == 0xFFFF then g else record g {
      feature_freqs = put g.feature_freqs i (freq + 1);
      non_zero_features =
          if freq == 1 then g.non_zero_features ++ (i ∷ []) else g.non_zero_features;
    }

-- `DeleteInput`, on the input `s` at `idx`.
unfoldable pub delete_input : ℕ → Seed → GlobalCorpus → GlobalCorpus
delete_input idx s g = record g {
  inputs = set g.inputs idx (record s { live = false; seed_funcs = [] });
}

-- The input `s` at `idx` loses a feature, and is deleted with the last one.
unfoldable pub lose_feature : ℕ → Seed → GlobalCorpus → GlobalCorpus
unfolding delete_input
lose_feature idx s g =
    let s' = record s { num_features = s.num_features - 1 } in
    let deleted = delete_input idx s' g in
    if s'.num_features == 0
    then record deleted { delete_nums = (g.delete_nums + 1) % 2 ^ 64 }
    else record g { inputs = set g.inputs idx s' }

-- The first part of `AddFeature`: the input that has the feature loses it, or the feature is new.
unfoldable pub release : ℕ → List ℕ → GlobalCorpus → Option (List ℕ × GlobalCorpus)
unfolding lose_feature set_insert
release i features g =
    let added = record g { num_added_features = (g.num_added_features + 1) % 2 ^ 64 } in
    let idx = g.smallest_element i in
    let lost : Option (List ℕ × GlobalCorpus) = elim (get_elem? g.inputs idx) [
      | none ↦ none
      | some s ↦ if s.num_features == 0 then none else some (features, lose_feature idx s g)
    ] in
    if ltb 0 (g.input_sizes i) then lost else some (set_insert i features, added)

-- The second part: the feature goes to the input that is added next.
unfoldable pub own : ℕ → ℕ → GlobalCorpus → GlobalCorpus
unfolding put
own i new_size g = record g {
  num_updated_features = (g.num_updated_features + 1) % 2 ^ 32;
  smallest_element = put g.smallest_element i (length g.inputs % 2 ^ 32);
  input_sizes = put g.input_sizes i new_size;
}

-- The feature is gained where it could be released.
unfoldable pub gain : ℕ → ℕ → Option (List ℕ × GlobalCorpus) → Option (Bool × List ℕ × GlobalCorpus)
unfolding own
gain i new_size none = none
gain i new_size (some (fs, g)) = some (true, fs, own i new_size g)

-- `AddFeature`, with the set that `Features` points to.
unfoldable pub add_feature : ℕ → ℕ → List ℕ → GlobalCorpus → Option (Bool × List ℕ × GlobalCorpus)
unfolding release gain
add_feature idx new_size features g =
    let i = idx % feature_set_size in
    let old_size = g.input_sizes i in
    let changed = gain i new_size (release i features g) in
    let kept : Option (Bool × List ℕ × GlobalCorpus) =
      if old_size == 0 || ltb new_size old_size then changed else some (false, features, g) in
    if new_size == 0 then none else kept

-- `AddToCorpus`.
unfoldable pub add_to_corpus : List ℕ → ℕ → List ℕ → GlobalCorpus → Option GlobalCorpus
add_to_corpus file num_features seed_funcs g =
    if ltb (length g.inputs) (2 ^ 32 - 1)
    then some (record g {
      inputs =
          g.inputs
          ++ ((record {
            file = file;
            num_features = num_features;
            live = true;
            seed_funcs = seed_funcs;
          })
              ∷ []);
    })
    else none

-- `GetLiveInputsSize`.
unfoldable pub get_live_inputs_size : GlobalCorpus → ℕ
get_live_inputs_size g = (length g.inputs + 2 ^ 64 - g.delete_nums) % 2 ^ 64

-- The loop over the features of an input in FuzzerFork.cpp.
unfoldable pub add_features : List ℕ → ℕ → List ℕ → GlobalCorpus → Option (List ℕ × GlobalCorpus)
unfolding add_feature update_feature_frequency
add_features [] new_size features g = some (features, g)
add_features (x ∷ xs) new_size features g = elim (add_feature x new_size features g) [
  | none ↦ none
  | some (b, fs, g') ↦ add_features xs new_size fs (update_feature_frequency x g')
]

-- An input is added where it has a feature that is new, or had by larger inputs only.
unfoldable pub add_input :
    List ℕ → List ℕ → ℕ → List ℕ → List ℕ → GlobalCorpus → Option (List ℕ × GlobalCorpus)
unfolding add_features add_to_corpus
add_input file xs new_size seed_funcs features g = elim (add_features xs new_size features g) [
  | none ↦ none
  | some (fs, g') ↦
      let n = (g'.num_updated_features + 2 ^ 64 - g.num_updated_features) % 2 ^ 64 in
      let added : Option (List ℕ × GlobalCorpus) = elim (add_to_corpus file n seed_funcs g') [
        | none ↦ none
        | some g'' ↦ some (fs, g'')
      ] in
      if n == 0 then some (fs, g') else added
]
