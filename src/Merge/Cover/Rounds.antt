-- ===== src/Merge/Cover/Rounds.antt =====
-- The rounds of `SetCoverMerge` of FuzzerMerge.cpp: each covers more, or all is covered.
use pfuzzer.Base.{
  ℕ, zero, suc, ◌≤◌, ◌<◌, ◌≡◌, refl, ltb, ◌==◌, ◌||◌, Bool, true, false, List, [], ◌∷◌, ◌++◌,
  Option, none, some, length, get_elem?, arith, ap, sym, ◌∙◌, Bool-cases, ==→eq, inl, inr, subst,
  get_elem?-some, lt→ltb, ◌≢◌, ==_false→ne, ◌⊎◌,
}
use pfuzzer.Base.Sets.{contains}
use pfuzzer.Base.Sorted.{IsSorted, set_ext}
use pfuzzer.Merge.{MergeFile}
use pfuzzer.Merge.Cover.{
  Cover, Best, count_unique, set_erase, erase_all, cover_file, integrate, cover_round, cover_loop,
}
use pfuzzer.Merge.Cover.Search.{
  has_place, count_unique-zero, contains-set_erase, contains-erase_all, length-set_erase,
  length-erase_all, IsFound, SearchesAll, searches_all, search_best-SearchesAll,
}
use pfuzzer.Merge.Cover.Places.{IsKept, cover_features-Covers}

-- The feature is one of a file whose name is among the new ones.
pub record IsOfFile (files : List MergeFile) (names : List (List ℕ)) (z : ℕ) : Type 0 where
  pub index : ℕ
  pub file : MergeFile
  pub at : get_elem? files index ≡ some file
  pub has : contains z file.features ≡ true
  pub place : ℕ
  pub named : get_elem? names place ≡ some file.name

get_elem?-append_left :
    (xs ys : List (List ℕ)) (k : ℕ) (a : List ℕ)
    → get_elem? xs k ≡ some a
    → get_elem? (xs ++ ys) k ≡ some a
get_elem?-append_left [] ys k a h = absurd (cc)
get_elem?-append_left (x ∷ xs) ys zero a h = h
get_elem?-append_left (x ∷ xs) ys (suc k) a h = get_elem?-append_left xs ys k a h

get_elem?-append_last :
    (xs : List (List ℕ)) (a : List ℕ) → get_elem? (xs ++ (a ∷ [])) (length xs) ≡ some a
get_elem?-append_last [] a = refl
get_elem?-append_last (x ∷ xs) a = get_elem?-append_last xs a

-- A remaining file has a feature with the place.
pub record IsOpen (files : List MergeFile) (remaining : List ℕ) (w : ℕ) : Type 0 where
  pub index : ℕ
  pub file : MergeFile
  pub remains : contains index remaining ≡ true
  pub at : get_elem? files index ≡ some file
  pub has : has_place w file.features ≡ true

-- What a round leaves of the remaining files.
abbrev left_of : Cover → Best → List ℕ
left_of s b = set_erase b.max_index (erase_all b.remove_indices s.remaining)

module _ (num_first : ℕ) (files : List MergeFile) (initial_cov base all : List ℕ)
    (sorted_all : IsSorted all)
    (whole : (i : ℕ) (f : MergeFile)
      → get_elem? files i ≡ some f
      → num_first ≤ i
      → (w : ℕ) → has_place w f.features ≡ true
      → contains w all ≡ true) where
  -- What holds before every round.
  pub record IsCover (s : Cover) : Type 0 where
    pub kept : IsKept base s
    pub in_range : (i : ℕ) → contains i s.remaining ≡ true → (num_first ≤ i) × (i < length files)
    pub within : (w : ℕ) → contains w s.covered ≡ true → contains w all ≡ true
    pub reachable :
        (w : ℕ) → contains w all ≡ true → contains w s.covered ≡ false → IsOpen files s.remaining w
    pub from : (z : ℕ) → contains z s.new_features ≡ true → IsOfFile files s.new_files z

  left_in :
      (s : Cover) (b : Best) (i : ℕ)
      → contains i (left_of s b) ≡ true
      → contains i s.remaining ≡ true
  left_in s b i h = ground (
    arith,
    contains-set_erase i b.max_index (erase_all b.remove_indices s.remaining),
    contains-erase_all i b.remove_indices s.remaining,
  )

  old-IsOfFile :
      (names : List (List ℕ)) (name : List ℕ) (z : ℕ)
      → IsOfFile files names z
      → IsOfFile files (names ++ (name ∷ [])) z
  old-IsOfFile names name z o = record {
    index = o.index;
    file = o.file;
    at = o.at;
    has = o.has;
    place = o.place;
    named = get_elem?-append_left names (name ∷ []) o.place o.file.name o.named;
  }

  -- A place that is open after the round was open before, in a file that the round leaves.
  still-IsOpen :
      (s : Cover) (b : Best) (g : MergeFile) (w : ℕ)
      → IsFound files s.covered s.remaining b
      → get_elem? files b.max_index ≡ some g
      → contains w s.covered ≡ false
      → has_place w g.features ≡ false
      → IsOpen files s.remaining w
      → IsOpen files (left_of s b) w
  still-IsOpen s b g w k e c n o = record {
    index = o.index;
    file = o.file;
    at = o.at;
    has = o.has;
    remains = ground (
      arith,
      contains-set_erase o.index b.max_index (erase_all b.remove_indices s.remaining),
      contains-erase_all o.index b.remove_indices s.remaining,
      o.remains,
      useful,
      other,
    );
  }
    where
      useful : contains o.index b.remove_indices ≡ false
      useful = elim (Bool-cases (contains o.index b.remove_indices)) [
        | inl r ↦
            let z =
              count_unique-zero w s.covered o.file.features (k.useless o.index o.file r o.at)
                o.has in
            absurd (cc (z, c))
        | inr r ↦ r
      ]

      other : (b.max_index == o.index) ≡ false
      other = elim (Bool-cases (b.max_index == o.index)) [
        | inl same ↦
            let eq : some g ≡ some o.file = sym e ∙ ap (get_elem? files) (==→eq _ _ same) ∙ o.at in
            let gf : g ≡ o.file = cc (eq) in
            let bad : has_place w g.features ≡ true =
              subst (λ (v : MergeFile). has_place w v.features ≡ true) (sym gf) o.has in
            absurd (cc (n, bad))
        | inr r ↦ r
      ]

  cover_file-IsCover :
      (s : Cover) (b : Best) (g : MergeFile)
      → IsCover s
      → IsFound files s.covered s.remaining b
      → get_elem? files b.max_index ≡ some g
      → contains b.max_index s.remaining ≡ true
      → IsCover (cover_file initial_cov g (record s { remaining = left_of s b }))
  unfolding cover_file
  cover_file-IsCover s b g h k e r =
      let s' : Cover = record s { remaining = left_of s b } in
      let c =
        cover_features-Covers base g.features s'
          (record { sorted = h.kept.sorted; counted = h.kept.counted; split = h.kept.split }) in
      record {
        kept = record { sorted = c.kept.sorted; counted = c.kept.counted; split = c.kept.split };
        in_range = λ i p. h.in_range i (left_in s b i (sym (ap (contains i) c.same_remaining) ∙ p));
        within = λ w p. within' w (Bool-cases (has_place w g.features)) (sym (c.more w) ∙ p);
        reachable = λ w p q.
            let f : (has_place w g.features ≡ false) × (contains w s.covered ≡ false) =
              ground (arith, c.more w, q) in
            subst (λ r'. IsOpen files r' w) (sym c.same_remaining)
              (still-IsOpen s b g w k e f.1 f.0 (h.reachable w p f.1));
        from = λ z p.
            subst (λ names. IsOfFile files (names ++ (g.name ∷ [])) z) (sym c.same_files)
              (from' z (c.from z p));
      }
    where
      within' :
          (w : ℕ)
          → (has_place w g.features ≡ true) ⊎ (has_place w g.features ≡ false)
          → (has_place w g.features || contains w s.covered) ≡ true
          → contains w all ≡ true
      within' w (inl p) q = whole b.max_index g e (h.in_range b.max_index r).0 w p
      within' w (inr p) q = h.within w (rw p at q)

      from' :
          (z : ℕ)
          → (contains z s.new_features ≡ true) ⊎ (contains z g.features ≡ true)
          → IsOfFile files (s.new_files ++ (g.name ∷ [])) z
      from' z (inl p) = old-IsOfFile s.new_files g.name z (h.from z p)
      from' z (inr p) = record {
        index = b.max_index;
        file = g;
        at = e;
        has = p;
        place = length s.new_files;
        named = get_elem?-append_last s.new_files g.name;
      }

  -- A round on a state that has not covered all goes on, with fewer files.
  data GoesOn (s : Cover) : Option (Cover × Bool) → Type 0 where
    goes_on :
        (t : Cover)
        → IsCover t
        → length t.remaining < length s.remaining
        → GoesOn s (some (t, true))

  fewer_remain :
      (s : Cover) (b : Best) (g : MergeFile)
      → IsCover s
      → contains b.max_index (erase_all b.remove_indices s.remaining) ≡ true
      → length (cover_file initial_cov g (record s { remaining = left_of s b })).remaining
        < length s.remaining
  unfolding cover_file
  fewer_remain s b g h r =
      let c =
        cover_features-Covers base g.features (record s { remaining = left_of s b })
          (record { sorted = h.kept.sorted; counted = h.kept.counted; split = h.kept.split }) in
      omega (
        arith,
        ap (length {A = ℕ}) c.same_remaining,
        length-set_erase b.max_index (erase_all b.remove_indices s.remaining) r,
        length-erase_all b.remove_indices s.remaining,
      )

  integrate-GoesOn :
      (s : Cover) (b : Best)
      → IsCover s
      → IsFound files s.covered s.remaining b
      → 0 < b.max_num
      → GoesOn s (integrate files initial_cov (length all) s b)
  unfolding integrate
  integrate-GoesOn s b h k m =
      let (g, e, n, r) = k.at_max m in
      let kept : contains b.max_index b.remove_indices ≡ false =
        elim (Bool-cases (contains b.max_index b.remove_indices)) [
          | inl c ↦ absurd (omega (arith, k.useless b.max_index g c e))
          | inr c ↦ c
        ] in
      let left : contains b.max_index (erase_all b.remove_indices s.remaining) ≡ true =
        ground (arith, contains-erase_all b.max_index b.remove_indices s.remaining, r, kept) in
      let in_files : ltb b.max_index (length files) ≡ true =
        lt→ltb _ _ (get_elem?-some files b.max_index g e) in
      let some_left : (b.max_num == 0) ≡ false = ground (arith, m) in
      rw (in_files, some_left, e, left)
        (goes_on _ (cover_file-IsCover s b g h k e r) (fewer_remain s b g h left))

  all_covered :
      (s : Cover) (b : Best)
      → IsCover s
      → ((i : ℕ) (f : MergeFile)
          → contains i s.remaining ≡ true
          → get_elem? files i ≡ some f
          → count_unique s.covered f.features ≤ b.max_num)
      → b.max_num ≡ 0
      → s.num_covered ≡ length all
  all_covered s b h most z =
      h.kept.counted ∙ ap (length {A = ℕ}) (set_ext s.covered all h.kept.sorted sorted_all same)
    where
      same : (w : ℕ) → contains w s.covered ≡ contains w all
      same w = elim (Bool-cases (contains w s.covered)) [
        | inl c ↦ c ∙ sym (h.within w c)
        | inr c ↦ elim (Bool-cases (contains w all)) [
          | inl a ↦
              let o = h.reachable w a c in
              let n =
                count_unique-zero w s.covered o.file.features
                  (omega (arith, most o.index o.file o.remains o.at)) o.has in
              absurd (cc (n, c))
          | inr a ↦ c ∙ sym a
        ]
      ]

  start_IsFound :
      (s : Cover)
      → IsFound files s.covered s.remaining
          (record { max_index = num_first; max_num = 0; remove_indices = [] })
  unfolding contains
  start_IsFound s = record { at_max = λ p. absurd (omega arith); useless = λ j f c e. absurd (cc) }

  searched :
      (s : Cover) (r : Option Best)
      → IsCover s
      → s.num_covered ≢ length all
      → SearchesAll files s.covered s.remaining s.remaining
          (record { max_index = num_first; max_num = 0; remove_indices = [] })
          r
      → GoesOn s (elim r [ none ↦ none | some b ↦ integrate files initial_cov (length all) s b ])
  searched s none h ne q = elim q [ ]
  searched s (some b) h ne (searches_all _ k _ most) = elim (Bool-cases (b.max_num == 0)) [
    | inl z ↦ absurd (ne (all_covered s b h most (==→eq _ _ z)))
    | inr nz ↦ integrate-GoesOn s b h k (ground (arith, nz))
  ]

  cover_round-GoesOn :
      (s : Cover)
      → IsCover s
      → s.num_covered ≢ length all
      → GoesOn s (cover_round num_first files initial_cov (length all) s)
  unfolding cover_round
  cover_round-GoesOn s h ne = searched s _ h ne (
      search_best-SearchesAll files s.covered s.remaining s.remaining _ (start_IsFound s) (λ i c. c)
        (λ i c. (h.in_range i c).1))

  pub data CoversAll : Option Cover → Type 0 where
    covers_all : (t : Cover) → IsCover t → t.num_covered ≡ length all → CoversAll (some t)

  went_on :
      (s : Cover) (r : Option (Cover × Bool)) (n : ℕ)
      → GoesOn s r
      → length s.remaining < suc n
      → ((t : Cover)
          → IsCover t
          → length t.remaining < n
          → CoversAll (cover_loop n num_first files initial_cov (length all) t))
      → CoversAll (elim r [
        | none ↦ none
        | some (t, on) ↦ elim on [
          | false ↦ some t
          | true ↦ cover_loop n num_first files initial_cov (length all) t
        ]
      ])
  went_on s none n q l ih = elim q [ ]
  went_on s (some (t, on)) n (goes_on _ h m) l ih = ih t h (omega arith)

  -- With more fuel than files remain, the loop covers all.
  pub cover_loop-CoversAll :
      (n : ℕ) (s : Cover)
      → IsCover s
      → length s.remaining < n
      → CoversAll (cover_loop n num_first files initial_cov (length all) s)
  unfolding cover_loop
  cover_loop-CoversAll zero s h l = absurd (omega arith)
  cover_loop-CoversAll (suc n) s h l = elim (Bool-cases (s.num_covered == length all)) [
    | inl e ↦ rw e (covers_all s h (==→eq _ _ e))
    | inr e ↦ rw e (
        went_on s _ n (cover_round-GoesOn s h (==_false→ne _ _ e)) l
          (λ t k m. cover_loop-CoversAll n t k m))
  ]
