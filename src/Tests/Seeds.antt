-- ===== src/Tests/Seeds.antt =====
-- The theorems on the corpus of a process at concrete inputs.
use pfuzzer.Base.{
  ℕ, ◌+◌, ◌≤◌, ◌≡◌, refl, ◌==◌, Bool, true, false, if◌then◌else◌, List, [], ◌∷◌, none, some, length,
  arith, ◌⊎◌,
}
use pfuzzer.Global.{feature_set_size}
use pfuzzer.Global
use pfuzzer.Global.Laws.{owned, dead}
use pfuzzer.Global.Laws.Inputs.{count-none}
use pfuzzer.Corpus.{InputInfo, InputCorpus, add_rare_feature, delete_freq, increment_freq}
use pfuzzer.Corpus.Features.{add_feature}
use pfuzzer.Corpus.Frequencies.{
  IsOrdered, freq_of, found_in, one_more, increment_freq_lem, delete_freq_lem,
}
use pfuzzer.Corpus.Rare.{AllWithout, add_rare_feature_lem}
use pfuzzer.Corpus.Shared.{shared, SameResult, add_feature-shared}
use pfuzzer.Global.Laws.Offers.{takes}
use pfuzzer.Corpus.Adding.{IsAdding, IsTaken, add_feature-IsAdding}

abbrev freqs : List (ℕ × ℕ)
freqs = (3, 65535) ∷ (8, 2) ∷ []

increment_freq_lem_example :
    IsOrdered (increment_freq 3 freqs)
    × ((k : ℕ)
        → freq_of k (increment_freq 3 freqs)
          ≡ (if k == 3 then some (one_more (freq_of 3 freqs)) else freq_of k freqs))
increment_freq_lem_example = increment_freq_lem 3 freqs ((omega arith, tt), (tt, tt))

delete_freq_lem_example :
    IsOrdered ((delete_freq 8 freqs).1)
    × ((delete_freq 8 freqs).0 ≡ found_in (freq_of 8 freqs))
    × ((k : ℕ) → freq_of k ((delete_freq 8 freqs).1) ≡ (if k == 8 then none else freq_of k freqs))
delete_freq_lem_example = delete_freq_lem 8 freqs ((omega arith, tt), (tt, tt))

abbrev seed : InputInfo
seed = record {
  unit = 97 ∷ [];
  time_of_unit = 5;
  sha1 = [];
  num_features = 1;
  never_reduce = false;
  may_delete_file = false;
  reduced = false;
  has_focus_function = false;
  uniq_feature_set = [];
  data_flow_trace = [];
  needs_energy_update = false;
  feature_freqs = freqs;
}

-- Three rare features, where the options want one.
abbrev rare_corpus : InputCorpus
rare_corpus = record {
  entropic = record {
    enabled = true;
    number_of_rarest_features = 1;
    feature_frequency_threshold = 4;
  };
  hashes = [];
  inputs = seed ∷ [];
  num_added_features = 3;
  num_updated_features = 3;
  input_sizes_per_feature = λ j. 0;
  smallest_element_per_feature = λ j. 0;
  distribution_needs_update = false;
  freq_of_most_abundant_rare_feature = 9;
  global_feature_freqs = λ j. j + 1;
  rare_features = 3 ∷ 8 ∷ 5 ∷ [];
  is_rare_feature = λ j. true;
}

add_rare_feature_lem_example :
    (c' : InputCorpus) × (add_rare_feature 8 rare_corpus ≡ some c')
    × AllWithout 8 c'.inputs
    × (c'.is_rare_feature 8 ≡ true)
    × (c'.global_feature_freqs 8 ≡ 0)
    × ((length c'.rare_features ≤ 1 + 1) ⊎ (c'.freq_of_most_abundant_rare_feature ≤ 4))
add_rare_feature_lem_example =
    add_rare_feature_lem 8 rare_corpus (((omega arith, tt), (tt, tt)), tt)

-- A corpus with no inputs, after seven updates.
abbrev fresh : InputCorpus
fresh = record {
  entropic = record {
    enabled = false;
    number_of_rarest_features = 0;
    feature_frequency_threshold = 0;
  };
  hashes = [];
  inputs = [];
  num_added_features = 0;
  num_updated_features = 7;
  input_sizes_per_feature = λ j. 0;
  smallest_element_per_feature = λ j. 0;
  distribution_needs_update = true;
  freq_of_most_abundant_rare_feature = 0;
  global_feature_freqs = λ j. 0;
  rare_features = [];
  is_rare_feature = λ j. false;
}

add_feature-shared_example :
    SameResult (add_feature 5 3 true fresh) (Global.add_feature 5 3 [] (shared 0 fresh))
add_feature-shared_example = add_feature-shared 0 5 3 [] fresh refl

fresh-IsAdding : IsAdding 3 7 fresh
unfolding owned dead
fresh-IsAdding = (
  0,
  0,
  record {
    few = omega arith;
    owners = λ j m h. absurd (omega (arith, h));
    sizes = λ j m h e. absurd (omega (arith, h));
    counts = λ k s h. absurd (cc);
    alive = λ k s h. absurd (cc);
    deleted = refl;
    updated = omega (arith, count-none feature_set_size _ (λ j m. refl));
  },
  refl,
)

add_feature-IsAdding_example :
    (b : Bool) × (c' : InputCorpus) × (add_feature 5 3 true fresh ≡ some (b, c'))
    × (b ≡ takes 3 true (fresh.input_sizes_per_feature 5))
    × IsAdding 3 7 c'
    × IsTaken 5 3 fresh c'
add_feature-IsAdding_example = add_feature-IsAdding 5 3 7 fresh (omega arith) refl fresh-IsAdding
