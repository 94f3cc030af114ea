-- ===== src/Corpus/Units.antt =====
-- The operations of `InputCorpus` on units: `AddToCorpus`, `Replace`, `HasUnit`, and the counts of inputs.
use pfuzzer.Base.{
  ℕ, ◌+◌, ◌-◌, ◌^◌, max, ltb, ◌==◌, ◌||◌, not, Bool, true, false, if◌then◌else◌, List, [], ◌∷◌,
  ◌++◌, Option, none, some, length, get_elem?, set,
}
use pfuzzer.Base.Bytes.{bytes_eq}
use pfuzzer.Base.Sets.{sort_numbers}
use pfuzzer.Command.{Text}
use pfuzzer.Corpus.{InputInfo, InputCorpus}

unfoldable pub trace_of : Text → List (Text × List ℕ) → List ℕ
unfolding bytes_eq
trace_of h [] = []
trace_of h ((name, v) ∷ ts) = let more = trace_of h ts in if bytes_eq h name then v else more

-- The trace of a new input, or the one of its base input.
unfoldable pub new_trace : Bool → Text → List (Text × List ℕ) → Option InputInfo → List ℕ
unfolding trace_of
new_trace focus h traces base =
    let own_trace = if focus then trace_of h traces else [] in
    let base_trace : List ℕ = elim base [ none ↦ [] | some ii ↦ ii.data_flow_trace ] in
    if length own_trace == 0 then base_trace else own_trace

unfoldable pub insert_hash : Text → List Text → List Text
unfolding bytes_eq
insert_hash h [] = h ∷ []
insert_hash h (g ∷ gs) = let rest = insert_hash h gs in if bytes_eq h g then g ∷ gs else g ∷ rest

unfoldable pub erase_hash : Text → List Text → List Text
unfolding bytes_eq
erase_hash h [] = []
erase_hash h (g ∷ gs) = let rest = erase_hash h gs in if bytes_eq h g then gs else g ∷ rest

-- `HasUnit`, for a hash.
unfoldable pub has_unit : Text → List Text → Bool
unfolding bytes_eq
has_unit h [] = false
has_unit h (g ∷ gs) = bytes_eq h g || has_unit h gs

-- `AddToCorpus`.
unfoldable pub add_to_corpus :
    (List ℕ → Text)
    → List ℕ
    → ℕ
    → Bool
    → Bool
    → Bool
    → ℕ
    → List ℕ
    → List (Text × List ℕ)
    → Option InputInfo
    → InputCorpus
    → Option InputCorpus
unfolding insert_hash new_trace sort_numbers
add_to_corpus sha1 unit num_features may_delete focus never_reduce time features traces base c =
    let h = sha1 unit in
    let ii : InputInfo = record {
      unit = unit;
      time_of_unit = time;
      sha1 = h;
      num_features = num_features;
      never_reduce = never_reduce;
      may_delete_file = may_delete;
      reduced = false;
      has_focus_function = focus;
      uniq_feature_set = sort_numbers features;
      data_flow_trace = new_trace focus h traces base;
      needs_energy_update = false;
      feature_freqs = [];
    } in
    let added = record c {
      inputs = c.inputs ++ (ii ∷ []);
      hashes = insert_hash h c.hashes;
      distribution_needs_update = true;
    } in
    if length unit == 0 || not (ltb (length c.inputs) (2 ^ 32 - 1)) then none else some added

-- `Replace`, of the unit of the input at a place.
unfoldable pub replace : (List ℕ → Text) → ℕ → List ℕ → ℕ → InputCorpus → Option InputCorpus
unfolding insert_hash erase_hash
replace sha1 i unit time c = elim (get_elem? c.inputs i) [
  | none ↦ none
  | some ii ↦
      let h = sha1 unit in
      let ii' = record ii { sha1 = h; unit = unit; reduced = true; time_of_unit = time } in
      let replaced = record c {
        inputs = set c.inputs i ii';
        hashes = insert_hash h (erase_hash ii.sha1 c.hashes);
        distribution_needs_update = true;
      } in
      if ltb (length unit) (length ii.unit) then some replaced else none
]

-- `NumActiveUnits` and `MaxInputSize`.
unfoldable pub num_active_units : List InputInfo → ℕ
num_active_units [] = 0
num_active_units (ii ∷ iis) =
    let n = num_active_units iis in if length ii.unit == 0 then n else n + 1

unfoldable pub max_input_size : List InputInfo → ℕ
max_input_size [] = 0
max_input_size (ii ∷ iis) = max (length ii.unit) (max_input_size iis)
