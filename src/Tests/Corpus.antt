-- ===== src/Tests/Corpus.antt =====
-- The global corpus of the fork mode with few inputs.
use pfuzzer.Base.{[], ◌∷◌, false}
use pfuzzer.Global.{Seed, GlobalCorpus}

abbrev deleted_seed : Seed
deleted_seed = record { file = 97 ∷ []; num_features = 0; live = false; seed_funcs = [] }

-- A corpus whose only input was deleted.
abbrev corpus : GlobalCorpus
corpus = record {
  inputs = deleted_seed ∷ [];
  delete_nums = 1;
  num_updated_features = 1;
  num_added_features = 1;
  input_sizes = λ j. 0;
  smallest_element = λ j. 0;
  feature_freqs = λ j. 0;
  non_zero_features = [];
}
