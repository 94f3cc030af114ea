-- ===== src/Global/Laws/Inputs.antt =====
-- Adding an input to the global corpus of FuzzerFork.h: its assertions hold, and the invariant is
-- kept.
use pfuzzer.Base.{
  ℕ, zero, suc, ◌+◌, ◌-◌, ◌%◌, ◌^◌, ◌≤◌, ◌<◌, ◌≡◌, refl, ltb, ◌==◌, ◌||◌, not, Bool, true, false,
  if◌then◌else◌, List, [], ◌∷◌, Option, none, some, length, get_elem?, set, tests, arith, ap, sym,
  subst, get_elem?_lt,
}
use native.Mathlib.Decide.{ℕ_discrete}
use pfuzzer.Base.Sets.{set_insert}
use pfuzzer.Global.{
  feature_set_size, Seed, GlobalCorpus, lose_feature, delete_input, release, own, gain, add_feature,
  get_live_inputs_size,
}
use pfuzzer.Global.Laws.{one_if, count, owned, dead}
use pfuzzer.Global.Laws.Adding.{
  IsPending, IsReleased, own-IsPending, new-IsReleased, lost-IsReleased, not_equal,
}

-- The invariant between inputs.
pub record IsCorpus (g : GlobalCorpus) : Type 0 where
  pub owners :
      (j : ℕ) → j < feature_set_size → 0 < g.input_sizes j → g.smallest_element j < length g.inputs
  pub counts : (k : ℕ) (s : Seed) → get_elem? g.inputs k ≡ some s → s.num_features ≡ owned g k
  pub alive : (k : ℕ) (s : Seed) → get_elem? g.inputs k ≡ some s → s.live ≡ ltb 0 s.num_features
  pub deleted : g.delete_nums ≡ dead g.inputs

-- Nothing but the inputs and the number of deletions changes.
lose_shape :
    (idx : ℕ) (s : Seed) (g : GlobalCorpus)
    → let t = lose_feature idx s g in
      t ≡ record g { inputs = t.inputs; delete_nums = t.delete_nums }
unfolding lose_feature delete_input
lose_shape idx s g = chosen (s.num_features - 1 == 0)
  where
    chosen :
        (b : Bool)
        → let s' = record s { num_features = s.num_features - 1 } in
          let deleted = delete_input idx s' g in
          let t =
            if b
            then record deleted { delete_nums = (g.delete_nums + 1) % 2 ^ 64 }
            else record g { inputs = set g.inputs idx s' } in
          t ≡ record g { inputs = t.inputs; delete_nums = t.delete_nums }
    chosen true = refl
    chosen false = refl

module _ (new_size : ℕ) (pos : 0 < new_size) (base : ℕ) where
  -- What one feature leaves.
  abbrev Step : GlobalCorpus → Option (Bool × List ℕ × GlobalCorpus) → Type 0
  Step g o =
      (b : Bool) × (fs : List ℕ) × (g' : GlobalCorpus) × (o ≡ some (b, fs, g'))
      × IsPending new_size base g'
      × (g'.num_updated_features ≤ g.num_updated_features + 1)

  -- The feature goes to the next input once it was released.
  released-Step :
      (i : ℕ) (small : i < feature_set_size) (fs : List ℕ) (g : GlobalCorpus) (xs : List Seed)
      (dn added : ℕ)
      → IsPending new_size base g
      → g.num_updated_features < 2 ^ 32 - 1
      → IsReleased new_size pos i small g xs dn
      → Step g (
          some (
            true,
            fs,
            own i new_size (record g { inputs = xs; delete_nums = dn; num_added_features = added }),
          ))
  unfolding own
  released-Step i small fs g xs dn added v room r = (
    true,
    fs,
    _,
    refl,
    own-IsPending new_size pos i small base g xs dn added v r room,
    omega arith,
  )

  -- The two ways to release a feature.
  release-Step :
      (i : ℕ) (small : i < feature_set_size) (features : List ℕ) (g : GlobalCorpus)
      → IsPending new_size base g
      → g.num_updated_features < 2 ^ 32 - 1
      → (g.input_sizes i == 0 || ltb new_size (g.input_sizes i)) ≡ true
      → Step g (gain i new_size (release i features g))
  unfolding release gain
  release-Step i small features g v room change = chosen (ltb 0 (g.input_sizes i)) refl
    where
      larger : ltb 0 (g.input_sizes i) ≡ true → new_size < g.input_sizes i
      larger e = ground (arith, change, e)

      empty : ltb 0 (g.input_sizes i) ≡ false → g.input_sizes i ≡ 0
      empty e = ground (arith, e)

      within : ltb 0 (g.input_sizes i) ≡ true → g.smallest_element i < length g.inputs
      within e = elim (ℕ_discrete (g.smallest_element i) (length g.inputs)) [
        | yes s ↦ absurd (omega (arith, larger e, v.sizes i small (omega (tests, e)) s))
        | no d ↦ omega (arith, v.owners i small (omega (tests, e)))
      ]

      lost :
          (s : Seed)
          → 0 < s.num_features
          → (let t = lose_feature (g.smallest_element i) s g in
              IsReleased new_size pos i small g t.inputs t.delete_nums)
          → Step g (
              gain i new_size (
                if s.num_features == 0
                then none
                else some (features, lose_feature (g.smallest_element i) s g)))
      lost s has r =
          let t : GlobalCorpus = lose_feature (g.smallest_element i) s g in
          rw (not_equal s.num_features 0 (λ e. absurd (omega (arith, e, has)))) (
            subst (λ (u : GlobalCorpus). Step g (some (true, features, own i new_size u)))
              (sym (lose_shape (g.smallest_element i) s g))
              (released-Step i small features g t.inputs t.delete_nums g.num_added_features v room
                r))

      chosen :
          (b : Bool)
          → ltb 0 (g.input_sizes i) ≡ b
          → Step g (
              gain i new_size (
                if b
                then elim (get_elem? g.inputs (g.smallest_element i)) [
                  | none ↦ none
                  | some s ↦
                      if s.num_features == 0
                      then none
                      else some (features, lose_feature (g.smallest_element i) s g)
                ]
                else some (
                  set_insert i features,
                  record g { num_added_features = (g.num_added_features + 1) % 2 ^ 64 },
                )))
      chosen true e =
          let (s, at) = get_elem?_lt g.inputs (g.smallest_element i) (within e) in
          let (has, r) = lost-IsReleased new_size pos i small base g s v (larger e) at in
          rw at (lost s has r)
      chosen false e =
          released-Step i small (set_insert i features) g g.inputs g.delete_nums _ v room
            (new-IsReleased new_size pos i small base g v (empty e))

  -- `AddFeature` never fails its assertions, and keeps the invariant.
  pub add_feature-Step :
      (x : ℕ) (features : List ℕ) (g : GlobalCorpus)
      → IsPending new_size base g
      → g.num_updated_features < 2 ^ 32 - 1
      → Step g (add_feature x new_size features g)
  unfolding add_feature
  add_feature-Step x features g v room =
      rw (not_equal new_size 0 (λ e. absurd (omega arith)), add_feature)
        (chosen
          (g.input_sizes (x % feature_set_size) == 0
            || ltb new_size (g.input_sizes (x % feature_set_size)))
          refl)
    where
      chosen :
          (b : Bool)
          → (g.input_sizes (x % feature_set_size) == 0
              || ltb new_size (g.input_sizes (x % feature_set_size)))
            ≡ b
          → Step g (
              if b
              then gain (x % feature_set_size) new_size (release (x % feature_set_size) features g)
              else some (false, features, g))
      chosen true e = release-Step (x % feature_set_size) (omega arith) features g v room e
      chosen false e = (false, features, g, refl, v, omega arith)

pub count-none : (n : ℕ) (p : ℕ → Bool) → ((j : ℕ) → j < n → p j ≡ false) → count n p ≡ 0
unfolding count
count-none zero p h = refl
count-none (suc n) p h =
    omega (arith, ap one_if (h n (omega arith)), count-none n p (λ j l. h j (omega arith)))

-- How many inputs are alive.
unfoldable pub living : List Seed → ℕ
living [] = 0
living (s ∷ ss) = one_if s.live + living ss

living-dead : (xs : List Seed) → living xs + dead xs ≡ length xs
unfolding living dead
living-dead [] = refl
living-dead (s ∷ ss) = omega (arith, living-dead ss, either s.live)
  where
    either : (b : Bool) → one_if b + one_if (not b) ≡ 1
    either true = refl
    either false = refl

-- Under the invariant, and with fewer than 2^32 inputs, `GetLiveInputsSize` is the number of
-- inputs that are alive.
pub get_live_inputs_size_lem :
    (g : GlobalCorpus)
    → IsCorpus g
    → length g.inputs < 2 ^ 32
    → get_live_inputs_size g ≡ living g.inputs
unfolding get_live_inputs_size
get_live_inputs_size_lem g v few = omega (arith, v.deleted, living-dead g.inputs)
