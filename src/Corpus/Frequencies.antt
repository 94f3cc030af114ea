-- ===== src/Corpus/Frequencies.antt =====
-- The frequencies of an input's features (`DeleteFeatureFreq` and `UpdateFeatureFrequency` of `InputInfo`)
-- are a map from features to numbers.
use pfuzzer.Base.{
  ℕ, ◌+◌, ◌%◌, ◌^◌, ◌<◌, ◌≤◌, ◌≡◌, refl, ltb, ◌==◌, Bool, true, false, if◌then◌else◌, List, [], ◌∷◌,
  Option, none, some, All, arith, ap, sym, Bool-cases, inl, inr, ltb→lt, ltb_false→le, ==→eq,
  ==_false→ne,
}
use pfuzzer.Corpus.{delete_freq, increment_freq}

-- Every feature stands once, and smaller features stand first.
abbrev pub IsOrdered : List (ℕ × ℕ) → Type 0
IsOrdered [] = Unit
IsOrdered ((k, n) ∷ fs) = All (λ f. k < f.0) fs × IsOrdered fs

abbrev pub freq_of : ℕ → List (ℕ × ℕ) → Option ℕ
freq_of k [] = none
freq_of k ((j, n) ∷ fs) = let more = freq_of k fs in if k == j then some n else more

abbrev pub found_in : Option ℕ → Bool
found_in none = false
found_in (some n) = true

abbrev pub one_more : Option ℕ → ℕ
one_more none = 1
one_more (some n) = (n + 1) % 2 ^ 16

freq_of_below : (k j : ℕ) (fs : List (ℕ × ℕ)) → All (λ f. j < f.0) fs → k ≤ j → freq_of k fs ≡ none
freq_of_below k j [] a l = refl
freq_of_below k j ((i, n) ∷ fs) (h, a) l =
    let e : (k == i) ≡ false = ground (arith, h, l) in rw e (freq_of_below k j fs a l)

increment-All :
    (j idx : ℕ) (fs : List (ℕ × ℕ))
    → j < idx
    → All (λ f. j < f.0) fs
    → All (λ f. j < f.0) (increment_freq idx fs)
unfolding increment_freq
increment-All j idx [] h a = (h, tt)
increment-All j idx ((k, n) ∷ fs) h (l, a) = elim (Bool-cases (ltb k idx)) [
  | inl e ↦ rw e (l, increment-All j idx fs h a)
  | inr e ↦ elim (Bool-cases (k == idx)) [
    | inl f ↦ rw (e, f) (l, a)
    | inr f ↦ rw (e, f) (h, (l, a))
  ]
]

All-trans : (j k : ℕ) (fs : List (ℕ × ℕ)) → j < k → All (λ f. k < f.0) fs → All (λ f. j < f.0) fs
All-trans j k [] h a = tt
All-trans j k ((i, n) ∷ fs) h (l, a) = (omega arith, All-trans j k fs h a)

increment-IsOrdered :
    (idx : ℕ) (fs : List (ℕ × ℕ)) → IsOrdered fs → IsOrdered (increment_freq idx fs)
unfolding increment_freq
increment-IsOrdered idx [] o = (tt, tt)
increment-IsOrdered idx ((k, n) ∷ fs) (a, o) = elim (Bool-cases (ltb k idx)) [
  | inl e ↦ rw e (increment-All k idx fs (ltb→lt k idx e) a, increment-IsOrdered idx fs o)
  | inr e ↦ elim (Bool-cases (k == idx)) [
    | inl f ↦ rw (e, f) (a, o)
    | inr f ↦
        let le = ltb_false→le k idx e in
        let ne = ==_false→ne k idx f in
        let lt : idx < k = omega (arith, le, ne) in
        rw (e, f) ((lt, All-trans idx k fs lt a), (a, o))
  ]
]

freq_of-increment :
    (k idx : ℕ) (fs : List (ℕ × ℕ))
    → IsOrdered fs
    → freq_of k (increment_freq idx fs)
      ≡ (if k == idx then some (one_more (freq_of idx fs)) else freq_of k fs)
unfolding increment_freq
freq_of-increment k idx [] o = refl
freq_of-increment k idx ((j, n) ∷ fs) (a, o) = elim (Bool-cases (ltb j idx)) [
  | inl e ↦
      let l = ltb→lt j idx e in
      let apart : (idx == j) ≡ false = ground (arith, l) in
      rw (e, apart)
        (elim (Bool-cases (k == j)) [
          | inl g ↦
              let k_j = ==→eq k j g in
              let other : (k == idx) ≡ false = ground (arith, k_j, l) in rw (g, other) refl
          | inr g ↦ rw g (freq_of-increment k idx fs o)
        ])
  | inr e ↦ elim (Bool-cases (j == idx)) [
    | inl f ↦
        let j_idx = ==→eq j idx f in
        let own : (idx == j) ≡ true = ground (arith, j_idx) in
        let same : (k == idx) ≡ (k == j) = ap (λ i. k == i) (sym j_idx) in
        rw (e, f, own, same) (elim (Bool-cases (k == j)) [ inl g ↦ rw g refl | inr g ↦ rw g refl ])
    | inr f ↦
        let le = ltb_false→le j idx e in
        let ne = ==_false→ne j idx f in
        let apart : (idx == j) ≡ false = ground (arith, ne) in
        rw (e, f, apart, freq_of_below idx j fs a le) refl
  ]
]

-- `UpdateFeatureFrequency` of an input keeps the order of the frequencies, adds one to the
-- frequency of the feature, modulo 2^16, or starts it with 1, and changes no other.
pub increment_freq_lem :
    (idx : ℕ) (fs : List (ℕ × ℕ))
    → IsOrdered fs
    → IsOrdered (increment_freq idx fs)
      × ((k : ℕ)
          → freq_of k (increment_freq idx fs)
            ≡ (if k == idx then some (one_more (freq_of idx fs)) else freq_of k fs))
increment_freq_lem idx fs o = (increment-IsOrdered idx fs o, λ k. freq_of-increment k idx fs o)

delete-All :
    (j idx : ℕ) (fs : List (ℕ × ℕ))
    → All (λ f. j < f.0) fs
    → All (λ f. j < f.0) ((delete_freq idx fs).1)
unfolding delete_freq
delete-All j idx [] a = tt
delete-All j idx ((k, n) ∷ fs) (l, a) = elim (Bool-cases (ltb k idx)) [
  | inl e ↦ rw e (l, delete-All j idx fs a)
  | inr e ↦ elim (Bool-cases (k == idx)) [ inl f ↦ rw (e, f) a | inr f ↦ rw (e, f) (l, a) ]
]

delete-IsOrdered : (idx : ℕ) (fs : List (ℕ × ℕ)) → IsOrdered fs → IsOrdered ((delete_freq idx fs).1)
unfolding delete_freq
delete-IsOrdered idx [] o = tt
delete-IsOrdered idx ((k, n) ∷ fs) (a, o) = elim (Bool-cases (ltb k idx)) [
  | inl e ↦ rw e (delete-All k idx fs a, delete-IsOrdered idx fs o)
  | inr e ↦ elim (Bool-cases (k == idx)) [ inl f ↦ rw (e, f) o | inr f ↦ rw (e, f) (a, o) ]
]

freq_of-delete :
    (k idx : ℕ) (fs : List (ℕ × ℕ))
    → IsOrdered fs
    → (freq_of k ((delete_freq idx fs).1) ≡ (if k == idx then none else freq_of k fs))
      × ((delete_freq idx fs).0 ≡ found_in (freq_of idx fs))
unfolding delete_freq
freq_of-delete k idx [] o = (ground arith, refl)
freq_of-delete k idx ((j, n) ∷ fs) (a, o) = elim (Bool-cases (ltb j idx)) [
  | inl e ↦
      let l = ltb→lt j idx e in
      let apart : (idx == j) ≡ false = ground (arith, l) in
      let (freq, found) = freq_of-delete k idx fs o in
      rw (e, apart)
        (
          (elim (Bool-cases (k == j)) [
            | inl g ↦
                let k_j = ==→eq k j g in
                let other : (k == idx) ≡ false = ground (arith, k_j, l) in rw (g, other) refl
            | inr g ↦ rw g freq
          ]),
          found,
        )
  | inr e ↦ elim (Bool-cases (j == idx)) [
    | inl f ↦
        let j_idx = ==→eq j idx f in
        let own : (idx == j) ≡ true = ground (arith, j_idx) in
        let same : (k == idx) ≡ (k == j) = ap (λ i. k == i) (sym j_idx) in
        rw (e, f, own, same)
          (
            (elim (Bool-cases (k == j)) [
              | inl g ↦ let k_j = ==→eq k j g in rw g (freq_of_below k j fs a (omega (arith, k_j)))
              | inr g ↦ rw g refl
            ]),
            refl,
          )
    | inr f ↦
        let le = ltb_false→le j idx e in
        let ne = ==_false→ne j idx f in
        let apart : (idx == j) ≡ false = ground (arith, ne) in
        let gone = freq_of_below idx j fs a le in
        rw (e, f, apart, gone)
          (
            (elim (Bool-cases (k == idx)) [
              | inl g ↦
                  let k_idx = ==→eq k idx g in
                  let k_j : (k == j) ≡ false = ground (arith, k_idx, ne) in
                  rw (k_j, g) (freq_of_below k j fs a (omega (arith, k_idx, le)))
              | inr g ↦ rw g refl
            ]),
            refl,
          )
  ]
]

-- `DeleteFeatureFreq` keeps the order of the frequencies, removes the feature and no other, and
-- tells whether the feature was there.
pub delete_freq_lem :
    (idx : ℕ) (fs : List (ℕ × ℕ))
    → IsOrdered fs
    → IsOrdered ((delete_freq idx fs).1)
      × ((delete_freq idx fs).0 ≡ found_in (freq_of idx fs))
      × ((k : ℕ) → freq_of k ((delete_freq idx fs).1) ≡ (if k == idx then none else freq_of k fs))
delete_freq_lem idx fs o =
    (delete-IsOrdered idx fs o, (freq_of-delete 0 idx fs o).1, λ k. (freq_of-delete k idx fs o).0)
