-- ===== src/Global/Laws/Offers.antt =====
-- Which features an input takes from the others when it is offered to the global corpus of FuzzerFork.h:
-- those that are new, and those that only larger inputs had.
use pfuzzer.Base.{
  ℕ, ◌-◌, ◌%◌, ◌^◌, ◌<◌, ◌≡◌, refl, ltb, ◌==◌, ◌||◌, ◌&&◌, Bool, true, false, if◌then◌else◌, List,
  [], ◌∷◌, Option, none, some, length, length-set, get_elem?, arith, ap, ap₂, sym, ◌∙◌, subst,
  ==→eq, Bool-cases, inl, inr,
}
use pfuzzer.Global.{
  feature_set_size, Seed, GlobalCorpus, put, lose_feature, delete_input, release, own, gain,
  add_feature, add_features, update_feature_frequency,
}

-- A feature is among those of the input, which are reduced modulo the number of features.
abbrev pub is_offered : ℕ → List ℕ → Bool
is_offered j [] = false
is_offered j (x ∷ xs) = j == x % feature_set_size || is_offered j xs

-- An input of `new_size` bytes takes a feature that no input had, or a larger one of `old_size` bytes.
abbrev pub takes : ℕ → Bool → ℕ → Bool
takes new_size offered old_size = offered && (old_size == 0 || ltb new_size old_size)

-- The sizes and the owners of the features after an input was offered.
abbrev pub IsOffered : ℕ → List ℕ → GlobalCorpus → GlobalCorpus → Type 0
IsOffered new_size xs g g' =
    (j : ℕ)
    → (g'.input_sizes j ≡ (
        if takes new_size (is_offered j xs) (g.input_sizes j) then new_size else g.input_sizes j))
      × (g'.smallest_element j ≡ (
          if takes new_size (is_offered j xs) (g.input_sizes j)
          then length g.inputs
          else g.smallest_element j))

-- Neither the features nor the number of inputs change.
abbrev IsKept : GlobalCorpus → GlobalCorpus → Type 0
IsKept g h =
    (h.input_sizes ≡ g.input_sizes)
    × (h.smallest_element ≡ g.smallest_element)
    × (length h.inputs ≡ length g.inputs)

lose_feature-IsKept : (idx : ℕ) (s : Seed) (g : GlobalCorpus) → IsKept g (lose_feature idx s g)
unfolding lose_feature delete_input
lose_feature-IsKept idx s g = elim (Bool-cases (s.num_features - 1 == 0)) [
  | inl e ↦ rw e (refl, refl, length-set g.inputs idx _)
  | inr e ↦ rw e (refl, refl, length-set g.inputs idx _)
]

abbrev WhenReleased : GlobalCorpus → Option (List ℕ × GlobalCorpus) → Type 0
WhenReleased g none = Unit
WhenReleased g (some (fs, h)) = IsKept g h

lost-WhenReleased :
    (idx : ℕ) (fs : List ℕ) (g : GlobalCorpus) (o : Option Seed)
    → WhenReleased g (elim o [
      | none ↦ none
      | some s ↦ if s.num_features == 0 then none else some (fs, lose_feature idx s g)
    ])
lost-WhenReleased idx fs g none = tt
lost-WhenReleased idx fs g (some s) = elim (Bool-cases (s.num_features == 0)) [
  | inl e ↦ rw e tt
  | inr e ↦ rw e (lose_feature-IsKept idx s g)
]

release-WhenReleased : (i : ℕ) (fs : List ℕ) (g : GlobalCorpus) → WhenReleased g (release i fs g)
unfolding release
release-WhenReleased i fs g = elim (Bool-cases (ltb 0 (g.input_sizes i))) [
  | inl e ↦
      rw e
        (lost-WhenReleased (g.smallest_element i) fs g (get_elem? g.inputs (g.smallest_element i)))
  | inr e ↦ rw e (refl, refl, refl)
]

-- What an input with one feature or more leaves.
abbrev pub WhenOffered : ℕ → List ℕ → GlobalCorpus → GlobalCorpus → Type 0
WhenOffered new_size xs g h = IsOffered new_size xs g h × (length h.inputs ≡ length g.inputs)

abbrev pub AfterFeature : ℕ → ℕ → GlobalCorpus → Option (Bool × List ℕ × GlobalCorpus) → Type 0
AfterFeature new_size x g none = Unit
AfterFeature new_size x g (some (b, fs, h)) =
    WhenOffered new_size (x ∷ []) g h
    × (b ≡ takes new_size true (g.input_sizes (x % feature_set_size)))

owned-WhenOffered :
    (new_size x : ℕ) (g h : GlobalCorpus)
    → length g.inputs < 2 ^ 32
    → (g.input_sizes (x % feature_set_size) == 0
        || ltb new_size (g.input_sizes (x % feature_set_size)))
      ≡ true
    → IsKept g h
    → WhenOffered new_size (x ∷ []) g (own (x % feature_set_size) new_size h)
unfolding own put
owned-WhenOffered new_size x g h few change (sizes, owners, len) = (per, len)
  where
    i : ℕ
    i = x % feature_set_size

    per : IsOffered new_size (x ∷ []) g (own (x % feature_set_size) new_size h)
    per j = elim (Bool-cases (j == i)) [
      | inr e ↦ rw e (ap (λ f. f j) sizes, ap (λ f. f j) owners)
      | inl e ↦
          let at_j =
            subst (λ k. (g.input_sizes k == 0 || ltb new_size (g.input_sizes k)) ≡ true)
              (sym (==→eq j i e)) change in
          rw (e, at_j) (refl, omega (arith, few, len))
    ]

gain-AfterFeature :
    (new_size x : ℕ) (g : GlobalCorpus) (o : Option (List ℕ × GlobalCorpus))
    → length g.inputs < 2 ^ 32
    → (g.input_sizes (x % feature_set_size) == 0
        || ltb new_size (g.input_sizes (x % feature_set_size)))
      ≡ true
    → WhenReleased g o
    → AfterFeature new_size x g (gain (x % feature_set_size) new_size o)
unfolding gain
gain-AfterFeature new_size x g none few change k = tt
gain-AfterFeature new_size x g (some (fs, h)) few change k =
    (owned-WhenOffered new_size x g h few change k, sym change)

kept-WhenOffered :
    (new_size x : ℕ) (g : GlobalCorpus)
    → (g.input_sizes (x % feature_set_size) == 0
        || ltb new_size (g.input_sizes (x % feature_set_size)))
      ≡ false
    → WhenOffered new_size (x ∷ []) g g
kept-WhenOffered new_size x g change = (per, refl)
  where
    per : IsOffered new_size (x ∷ []) g g
    per j = elim (Bool-cases (j == x % feature_set_size)) [
      | inr e ↦ rw e (refl, refl)
      | inl e ↦
          let at_j =
            subst (λ k. (g.input_sizes k == 0 || ltb new_size (g.input_sizes k)) ≡ false)
              (sym (==→eq j _ e)) change in
          rw (e, at_j) (refl, refl)
    ]

-- `AddFeature` gives the feature to the next input where no input had it, or a larger one.
pub add_feature-AfterFeature :
    (x new_size : ℕ) (fs : List ℕ) (g : GlobalCorpus)
    → length g.inputs < 2 ^ 32
    → AfterFeature new_size x g (add_feature x new_size fs g)
unfolding add_feature
add_feature-AfterFeature x new_size fs g few =
    let i = x % feature_set_size in
    elim (Bool-cases (new_size == 0)) [
      | inl e ↦ rw e tt
      | inr e ↦ elim (Bool-cases (g.input_sizes i == 0 || ltb new_size (g.input_sizes i))) [
        | inl f ↦
            rw (e, f)
              (gain-AfterFeature new_size x g (release i fs g) few f (release-WhenReleased i fs g))
        | inr f ↦ rw (e, f) (kept-WhenOffered new_size x g f, sym f)
      ]
    ]

-- Two steps on one feature: `a` tells whether the first offers it, `o` whether the second does.
twice :
    (a o : Bool) (n old owner len : ℕ)
    → 0 < n
    → let s = if takes n (a || false) old then n else old in
      let w = if takes n (a || false) old then len else owner in
      ((if takes n o s then n else s) ≡ (if takes n (a || o) old then n else old))
      × ((if takes n o s then len else w) ≡ (if takes n (a || o) old then len else owner))
twice false o n old owner len pos = (refl, refl)
twice true false n old owner len pos = (refl, refl)
twice true true n old owner len pos = elim (Bool-cases (old == 0 || ltb n old)) [
  | inr e ↦ rw e (rw e (refl, refl))
  | inl e ↦
      let over : (n == 0 || ltb n n) ≡ false = ground (arith, pos) in rw (e, over) (refl, refl)
]

update_feature_frequency-IsKept :
    (x : ℕ) (g : GlobalCorpus) → IsKept g (update_feature_frequency x g)
unfolding update_feature_frequency
update_feature_frequency-IsKept x g =
    elim (Bool-cases (g.feature_freqs (x % feature_set_size) == 0xFFFF)) [
      | inl e ↦ rw e (refl, refl, refl)
      | inr e ↦ rw e (refl, refl, refl)
    ]

nothing-WhenOffered : (new_size : ℕ) (g : GlobalCorpus) → WhenOffered new_size [] g g
nothing-WhenOffered new_size g = (λ j. (refl, refl), refl)

-- One feature, what its frequency becomes, and the others.
more-WhenOffered :
    (new_size x : ℕ) (xs : List ℕ) (g g1 g2 g3 : GlobalCorpus)
    → 0 < new_size
    → WhenOffered new_size (x ∷ []) g g1
    → IsKept g1 g2
    → WhenOffered new_size xs g2 g3
    → WhenOffered new_size (x ∷ xs) g g3
more-WhenOffered new_size x xs g g1 g2 g3 pos (first, len1) (sizes, owners, len2) (others, len3) =
    (per, len3 ∙ len2 ∙ len1)
  where
    per : IsOffered new_size (x ∷ xs) g g3
    per j =
        let (size1, owner1) = first j in
        let (size3, owner3) = others j in
        let size2 = ap (λ f. f j) sizes ∙ size1 in
        let owner2 = ap (λ f. f j) owners ∙ owner1 in
        let (size, owner) =
          twice (j == x % feature_set_size) (is_offered j xs) new_size (g.input_sizes j)
            (g.smallest_element j) (length g.inputs) pos in
        let len = len2 ∙ len1 in
        let first_takes = takes new_size (is_offered j (x ∷ [])) (g.input_sizes j) in
        let size_then = if first_takes then new_size else g.input_sizes j in
        (
          size3 ∙ ap (λ v. if takes new_size (is_offered j xs) v then new_size else v) size2 ∙ size,
          owner3
              ∙ ap₂ (λ v w. if takes new_size (is_offered j xs) v then w else g2.smallest_element j)
                  size2 len
              ∙ ap (λ w. if takes new_size (is_offered j xs) size_then then length g.inputs else w)
                  owner2
              ∙ owner,
        )

abbrev pub AfterFeatures : ℕ → List ℕ → GlobalCorpus → Option (List ℕ × GlobalCorpus) → Type 0
AfterFeatures new_size xs g none = Unit
AfterFeatures new_size xs g (some (fs, h)) = WhenOffered new_size xs g h

-- The loop over the features of an input takes those that are new or had by larger inputs.
pub add_features-AfterFeatures :
    (xs : List ℕ) (new_size : ℕ) (fs : List ℕ) (g : GlobalCorpus)
    → 0 < new_size
    → length g.inputs < 2 ^ 32
    → AfterFeatures new_size xs g (add_features xs new_size fs g)
unfolding add_features
add_features-AfterFeatures [] new_size fs g pos few = nothing-WhenOffered new_size g
add_features-AfterFeatures (x ∷ xs) new_size fs g pos few =
    step (λ fs' g'. add_features-AfterFeatures xs new_size fs' g' pos) (add_feature x new_size fs g)
      (add_feature-AfterFeature x new_size fs g few)
  where
    step :
        ((fs' : List ℕ) (g' : GlobalCorpus)
          → length g'.inputs < 2 ^ 32
          → AfterFeatures new_size xs g' (add_features xs new_size fs' g'))
        → (o : Option (Bool × List ℕ × GlobalCorpus)) → AfterFeature new_size x g o
        → AfterFeatures new_size (x ∷ xs) g (elim o [
          | none ↦ none
          | some (b, fs', g') ↦ add_features xs new_size fs' (update_feature_frequency x g')
        ])
    step rest none a = tt
    step rest (some (b, fs', g1)) a =
        let g2 = update_feature_frequency x g1 in
        let kept = update_feature_frequency-IsKept x g1 in
        let few2 : length g2.inputs < 2 ^ 32 = omega (arith, kept.2, a.0.1, few) in
        join (add_features xs new_size fs' g2) (rest fs' g2 few2)
      where
        join :
            (p : Option (List ℕ × GlobalCorpus))
            → AfterFeatures new_size xs (update_feature_frequency x g1) p
            → AfterFeatures new_size (x ∷ xs) g p
        join none h = tt
        join (some (fs2, g3)) h =
            more-WhenOffered new_size x xs g g1 (update_feature_frequency x g1) g3 pos a.0
              (update_feature_frequency-IsKept x g1) h
