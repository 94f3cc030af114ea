-- ===== src/Corpus/Rare.antt =====
-- The loop of `AddRareFeature` ends, and what it leaves.
use pfuzzer.Base.{
  ℕ, zero, suc, ◌+◌, ◌-◌, ◌≤◌, ◌≡◌, refl, ltb, true, false, List, [], ◌∷◌, ◌++◌, none, some, length,
  length-set, length-append, length-take, get_elem?, get_elem?_lt, set, take, map, All, arith, ap,
  ◌∙◌, Bool-cases, inl, inr, ◌⊎◌, ltb_false→le, ==_refl,
}
use pfuzzer.Corpus.{
  InputInfo, InputCorpus, Abundant, find_abundant, delete_feature_freq, forget, remove_rare,
  too_many_rare, rare_round, rare_step, rare_loop, add_rare_feature, set_bit,
}
use pfuzzer.Corpus.Frequencies.{IsOrdered, freq_of, delete_freq_lem}
use pfuzzer.Global.{put}

-- The frequencies of all inputs are in order.
abbrev pub AllOrdered : List InputInfo → Type 0
AllOrdered = All (λ ii. IsOrdered ii.feature_freqs)

length-remove_rare : (i r : ℕ) (rs : List ℕ) → length (remove_rare i (r ∷ rs)) ≡ length rs
unfolding remove_rare
length-remove_rare i r rs =
    let (back, e) = get_elem?_lt (r ∷ rs) (length rs) (omega arith) in
    let same : length (r ∷ rs) - 1 ≡ length rs = omega arith in
    let found : get_elem? (r ∷ rs) (length (r ∷ rs) - 1) ≡ some back =
      ap (get_elem? (r ∷ rs)) same ∙ e in
    ap (λ o. length (elim o [ none ↦ [] | some b ↦ take (length (r ∷ rs) - 1) (set (r ∷ rs) i b) ]))
      found
    ∙ (let t = length-take (length (r ∷ rs) - 1) (set (r ∷ rs) i back) in
        let l = length-set (r ∷ rs) i back in omega (arith, t, l))

forget-AllOrdered :
    (idx : ℕ) (iis : List InputInfo) → AllOrdered iis → AllOrdered (map (forget idx) iis)
unfolding forget delete_feature_freq
forget-AllOrdered idx [] a = tt
forget-AllOrdered idx (ii ∷ iis) (h, a) =
    ((delete_freq_lem idx ii.feature_freqs h).0, forget-AllOrdered idx iis a)

-- What the loop leaves.
abbrev IsLeft : InputCorpus → InputCorpus → Type 0
IsLeft c c' = (too_many_rare c' ≡ false) × (c'.entropic ≡ c.entropic) × AllOrdered c'.inputs

-- A round takes one of the rare features away.
IsShorter : InputCorpus → InputCorpus → Type 0
IsShorter c c' =
    (length c'.rare_features + 1 ≡ length c.rare_features)
    × (c'.entropic ≡ c.entropic)
    × AllOrdered c'.inputs

shorter : (i r : ℕ) (rs all : List ℕ) → all ≡ r ∷ rs → length (remove_rare i all) + 1 ≡ length all
shorter i r rs all e =
    let l = ap (λ t. length (remove_rare i t)) e ∙ length-remove_rare i r rs in
    let m : length all ≡ length (r ∷ rs) = ap length e in omega (arith, l, m)

rare_round-IsShorter :
    (r : ℕ) (rs : List ℕ) (c : InputCorpus)
    → c.rare_features ≡ r ∷ rs
    → AllOrdered c.inputs
    → IsShorter c (rare_round r c)
unfolding rare_round IsShorter
rare_round-IsShorter r rs c e a =
    let start : Abundant = record { most = r; second = r; delete = 0 } in
    let found = find_abundant c.global_feature_freqs 0 c.rare_features start in
    (shorter found.delete r rs c.rare_features e, refl, forget-AllOrdered found.most c.inputs a)

no_rare : (c : InputCorpus) → c.rare_features ≡ [] → too_many_rare c ≡ false
unfolding too_many_rare
no_rare c e =
    let l : length c.rare_features ≡ 0 = ap length e in
    let f : ltb c.entropic.number_of_rarest_features (length c.rare_features) ≡ false =
      ground (arith, l) in
    rw f refl

rare_step_lem :
    (rs : List ℕ) (c : InputCorpus)
    → c.rare_features ≡ rs
    → too_many_rare c ≡ true
    → AllOrdered c.inputs
    → (c' : InputCorpus) × (rare_step rs c ≡ some c') × IsShorter c c'
unfolding rare_step
rare_step_lem [] c e t a = let f = no_rare c e in absurd (cc)
rare_step_lem (r ∷ rs) c e t a = (rare_round r c, refl, rare_round-IsShorter r rs c e a)

rare_loop_lem :
    (n : ℕ) (c : InputCorpus)
    → length c.rare_features ≤ n
    → AllOrdered c.inputs
    → (c' : InputCorpus) × (rare_loop n c ≡ some c') × IsLeft c c'
unfolding rare_loop IsShorter
rare_loop_lem zero c h a = elim (Bool-cases (too_many_rare c)) [
  | inl t ↦
      let (c', e, (s, same, left)) = rare_step_lem c.rare_features c refl t a in
      absurd (omega (arith, s, h))
  | inr f ↦ (c, rw f refl, (f, refl, a))
]
rare_loop_lem (suc n) c h a = elim (Bool-cases (too_many_rare c)) [
  | inl t ↦
      let (c1, e1, (s, same1, a1)) = rare_step_lem c.rare_features c refl t a in
      let (c2, e2, (f, same2, a2)) = rare_loop_lem n c1 (omega (arith, s, h)) a1 in
      (
        c2,
        rw t (ap (λ o. elim o [ none ↦ none | some c' ↦ rare_loop n c' ]) e1 ∙ e2),
        (f, same2 ∙ same1, a2),
      )
  | inr f ↦ (c, rw f refl, (f, refl, a))
]

-- The inputs after they forgot a feature.
abbrev pub AllWithout : ℕ → List InputInfo → Type 0
AllWithout idx = All (λ ii. IsOrdered ii.feature_freqs × (freq_of idx ii.feature_freqs ≡ none))

delete-AllWithout :
    (idx : ℕ) (iis : List InputInfo)
    → AllOrdered iis
    → AllWithout idx (map (λ ii. (delete_feature_freq idx ii).1) iis)
unfolding delete_feature_freq
delete-AllWithout idx [] a = tt
delete-AllWithout idx (ii ∷ iis) (h, a) =
    let (ordered, found, freq) = delete_freq_lem idx ii.feature_freqs h in
    let e = ==_refl idx in ((ordered, freq idx ∙ rw e refl), delete-AllWithout idx iis a)

few_rare :
    (c : InputCorpus)
    → too_many_rare c ≡ false
    → (length c.rare_features ≤ c.entropic.number_of_rarest_features)
      ⊎ (c.freq_of_most_abundant_rare_feature ≤ c.entropic.feature_frequency_threshold)
unfolding too_many_rare
few_rare c f =
    elim (Bool-cases (ltb c.entropic.number_of_rarest_features (length c.rare_features))) [
      | inr e ↦ inl (ltb_false→le _ _ e)
      | inl e ↦ inr (ground (arith, f, e))
    ]

-- `AddRareFeature` ends, whatever the frequencies of all features are, where the frequencies that
-- each input keeps are in order: the new feature is rare, no input has a frequency for it, and
-- there is one feature more than the options want at most, or the frequency of the most abundant
-- one is within the threshold.
pub add_rare_feature_lem :
    (idx : ℕ) (c : InputCorpus)
    → AllOrdered c.inputs
    → (c' : InputCorpus) × (add_rare_feature idx c ≡ some c')
      × AllWithout idx c'.inputs
      × (c'.is_rare_feature idx ≡ true)
      × (c'.global_feature_freqs idx ≡ 0)
      × ((length c'.rare_features ≤ c.entropic.number_of_rarest_features + 1)
          ⊎ (c'.freq_of_most_abundant_rare_feature ≤ c.entropic.feature_frequency_threshold))
unfolding add_rare_feature set_bit put
add_rare_feature_lem idx c a =
    let (c1, e, (f, same, a1)) = rare_loop_lem (length c.rare_features) c (omega arith) a in
    let c2 = record c1 {
      rare_features = c1.rare_features ++ (idx ∷ []);
      is_rare_feature = set_bit c1.is_rare_feature idx;
      global_feature_freqs = put c1.global_feature_freqs idx 0;
      inputs = map (λ ii. (delete_feature_freq idx ii).1) c1.inputs;
      distribution_needs_update = true;
    } in
    let self = ==_refl idx in
    let len = length-append c1.rare_features (idx ∷ []) in
    let rarest = ap (λ o. o.number_of_rarest_features) same in
    let threshold = ap (λ o. o.feature_frequency_threshold) same in
    (
      c2,
      rw (e, add_rare_feature) refl,
      delete-AllWithout idx c1.inputs a1,
      rw self refl,
      rw self refl,
      elim (few_rare c1 f) [
        | inl l ↦ inl (omega (arith, l, len, rarest))
        | inr l ↦ inr (omega (arith, l, threshold))
      ],
    )
