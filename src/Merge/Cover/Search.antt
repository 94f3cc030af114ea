-- ===== src/Merge/Cover/Search.antt =====
-- The search of `SetCoverMerge` for the file with most features that are not covered.
use pfuzzer.Base.{
  ℕ, ◌%◌, ◌≤◌, ◌<◌, ◌≡◌, refl, ltb, ◌==◌, ◌||◌, ◌&&◌, not, Bool, true, false, List, [], ◌∷◌, Option,
  none, some, length, get_elem?, arith, ap, sym, ◌∙◌, Bool-cases, ==→eq, inl, inr, subst, ltb→lt,
  ltb_false→le, ==_refl, get_elem?_lt,
}
use pfuzzer.Base.Sets.{contains, set_insert, contains-set_insert}
use pfuzzer.Merge.{MergeFile}
use pfuzzer.Merge.Cover.{
  cover_size, Best, count_unique, search_file, search_best, set_erase, erase_all,
}

-- Whether a feature of the list has the place `w` in the bit vector.
unfoldable pub has_place : ℕ → List ℕ → Bool
has_place w [] = false
has_place w (x ∷ xs) = w == x % cover_size || has_place w xs

pub count_unique-zero :
    (w : ℕ) (covered xs : List ℕ)
    → count_unique covered xs ≡ 0
    → has_place w xs ≡ true
    → contains w covered ≡ true
unfolding count_unique has_place
count_unique-zero w covered [] h p = absurd (cc)
count_unique-zero w covered (x ∷ xs) h p = elim (Bool-cases (contains (x % cover_size) covered)) [
  | inl e ↦ elim (Bool-cases (w == x % cover_size)) [
    | inl f ↦ subst (λ v. contains v covered ≡ true) (sym (==→eq w (x % cover_size) f)) e
    | inr f ↦ count_unique-zero w covered xs (ground (arith, e)) (rw f at p)
  ]
  | inr e ↦ absurd (ground (arith, e))
]

pub contains-set_erase :
    (z x : ℕ) (xs : List ℕ) → contains z (set_erase x xs) ≡ (contains z xs && not (x == z))
unfolding contains set_erase
contains-set_erase z x [] = refl
contains-set_erase z x (y ∷ ys) = ground (arith, contains-set_erase z x ys)

pub contains-erase_all :
    (z : ℕ) (xs s : List ℕ) → contains z (erase_all xs s) ≡ (contains z s && not (contains z xs))
unfolding contains erase_all
contains-erase_all z [] s = ground arith
contains-erase_all z (x ∷ xs) s =
    ground (arith, contains-erase_all z xs (set_erase x s), contains-set_erase z x s)

length-set_erase_le : (x : ℕ) (xs : List ℕ) → length (set_erase x xs) ≤ length xs
unfolding set_erase
length-set_erase_le x [] = omega arith
length-set_erase_le x (y ∷ ys) = ground (arith, length-set_erase_le x ys)

pub length-set_erase :
    (x : ℕ) (xs : List ℕ) → contains x xs ≡ true → length (set_erase x xs) < length xs
unfolding set_erase contains
length-set_erase x [] h = absurd (cc)
length-set_erase x (y ∷ ys) h = ground (arith, length-set_erase x ys, length-set_erase_le x ys)

pub length-erase_all : (xs s : List ℕ) → length (erase_all xs s) ≤ length s
unfolding erase_all
length-erase_all [] s = omega arith
length-erase_all (x ∷ xs) s =
    omega (arith, length-erase_all xs (set_erase x s), length-set_erase_le x s)

module _ (files : List MergeFile) (covered remaining : List ℕ) where
  -- What the search knows: its best file remains and has so many features that are not covered, and
  -- the files that it wants to remove have none.
  pub record IsFound (b : Best) : Type 0 where
    pub at_max :
        0 < b.max_num
        → (g : MergeFile) × (get_elem? files b.max_index ≡ some g)
          × (count_unique covered g.features ≡ b.max_num)
          × (contains b.max_index remaining ≡ true)
    pub useless :
        (j : ℕ) (f : MergeFile)
        → contains j b.remove_indices ≡ true
        → get_elem? files j ≡ some f
        → count_unique covered f.features ≡ 0

  -- What one more file does to the search.
  pub data Searches (i : ℕ) (f : MergeFile) (b : Best) : Option Best → Type 0 where
    searches :
        (b' : Best)
        → IsFound b'
        → b.max_num ≤ b'.max_num
        → count_unique covered f.features ≤ b'.max_num
        → Searches i f b (some b')

  IsFound-more :
      (i : ℕ) (f : MergeFile) (b : Best)
      → IsFound b
      → get_elem? files i ≡ some f
      → contains i remaining ≡ true
      → IsFound (record b { max_num = count_unique covered f.features; max_index = i })
  IsFound-more i f b h e r = record { at_max = λ p. (f, e, refl, r); useless = h.useless }

  removed_more :
      (i : ℕ) (f : MergeFile) (b : Best)
      → IsFound b
      → get_elem? files i ≡ some f
      → count_unique covered f.features ≡ 0
      → IsFound (record b { remove_indices = set_insert i b.remove_indices })
  removed_more i f b h e z = record {
    at_max = h.at_max;
    useless = λ j g c k. elim (Bool-cases (j == i)) [
      | inl same ↦
          let eq : some f ≡ some g = sym e ∙ ap (get_elem? files) (sym (==→eq j i same)) ∙ k in
          let fg : f ≡ g = cc (eq) in
          subst (λ (v : MergeFile). count_unique covered v.features ≡ 0) fg z
      | inr other ↦ h.useless j g (ground (arith, contains-set_insert j i b.remove_indices)) k
    ];
  }

  tie :
      (i : ℕ) (f : MergeFile) (b : Best)
      → IsFound b
      → get_elem? files i ≡ some f
      → contains i remaining ≡ true
      → (count_unique covered f.features == 0) ≡ false
      → ltb b.max_num (count_unique covered f.features) ≡ false
      → (count_unique covered f.features == b.max_num) ≡ true
      → Searches i f b (search_file files covered i f b)
  unfolding search_file
  tie i f b h e r nz nl same =
      let eq : count_unique covered f.features ≡ b.max_num = ==→eq _ _ same in
      let (g, at, n, c) = h.at_max (ground (arith, nz, eq)) in
      elim (Bool-cases (ltb f.size g.size)) [
        | inl l ↦
            let found : IsFound (record b { max_index = i }) = record {
              at_max = λ p. (f, e, eq, r);
              useless = h.useless;
            } in
            rw (nz, nl, same, at, l)
              (searches (record b { max_index = i }) found (omega arith) (omega arith))
        | inr nl' ↦ rw (nz, nl, same, at, nl') (searches b h (omega arith) (omega arith))
      ]

  search_file-Searches :
      (i : ℕ) (f : MergeFile) (b : Best)
      → IsFound b
      → get_elem? files i ≡ some f
      → contains i remaining ≡ true
      → Searches i f b (search_file files covered i f b)
  unfolding search_file
  search_file-Searches i f b h e r = elim (Bool-cases (count_unique covered f.features == 0)) [
    | inl z ↦ rw z (
        searches _ (removed_more i f b h e (==→eq _ 0 z)) (omega arith)
          (omega (arith, ==→eq _ 0 z)))
    | inr nz ↦ elim (Bool-cases (ltb b.max_num (count_unique covered f.features))) [
      | inl l ↦
          rw (nz, l)
            (searches _ (IsFound-more i f b h e r) (omega (arith, ltb→lt _ _ l)) (omega arith))
      | inr nl ↦ elim (Bool-cases (count_unique covered f.features == b.max_num)) [
        | inl same ↦ tie i f b h e r nz nl same
        | inr other ↦ rw (nz, nl, other) (searches b h (omega arith) (ltb_false→le _ _ nl))
      ]
    ]
  ]

  pub data SearchesAll (is : List ℕ) (b : Best) : Option Best → Type 0 where
    searches_all :
        (b' : Best)
        → IsFound b'
        → b.max_num ≤ b'.max_num
        → ((i : ℕ) (f : MergeFile)
            → contains i is ≡ true
            → get_elem? files i ≡ some f
            → count_unique covered f.features ≤ b'.max_num)
        → SearchesAll is b (some b')

  search_more :
      (i : ℕ) (is : List ℕ) (f : MergeFile) (b : Best) (r : Option Best)
      → get_elem? files i ≡ some f
      → Searches i f b r
      → ((b' : Best) → IsFound b' → SearchesAll is b' (search_best files covered is b'))
      → SearchesAll (i ∷ is) b (elim r [ none ↦ none | some b' ↦ search_best files covered is b' ])
  unfolding contains
  search_more i is f b none e q rest = elim q [ ]
  search_more i is f b (some b') e (searches _ h m n) rest =
      joined (search_best files covered is b') (rest b' h)
    where
      joined : (q : Option Best) → SearchesAll is b' q → SearchesAll (i ∷ is) b q
      joined none k = elim k [ ]
      joined (some c) (searches_all _ k o all) = searches_all c k (omega arith) (λ j g p at.
          elim (Bool-cases (j == i)) [
            | inl same ↦
                let eq : some f ≡ some g =
                  sym e ∙ ap (get_elem? files) (sym (==→eq j i same)) ∙ at in
                ground (arith, eq)
            | inr other ↦ all j g (rw other at p) at
          ])

  pub search_best-SearchesAll :
      (is : List ℕ) (b : Best)
      → IsFound b
      → ((i : ℕ) → contains i is ≡ true → contains i remaining ≡ true)
      → ((i : ℕ) → contains i is ≡ true → i < length files)
      → SearchesAll is b (search_best files covered is b)
  unfolding search_best contains
  search_best-SearchesAll [] b h r l = searches_all b h (omega arith) (λ i f c e. absurd (cc))
  search_best-SearchesAll (i ∷ is) b h r l =
      let here : contains i (i ∷ is) ≡ true = rw (==_refl i) refl in
      let (f, e) = get_elem?_lt files i (l i here) in
      rw (e, search_best)
        (search_more i is f b (search_file files covered i f b) e
          (search_file-Searches i f b h e (r i here))
          (λ b' k.
            search_best-SearchesAll is b' k (λ j c. r j (grind arith)) (λ j c. l j (grind arith))))
