-- ===== src/Merge/Cover/Laws.antt =====
-- `SetCoverMerge` of FuzzerMerge.cpp ends, never fails an assertion, and keeps enough files.
use pfuzzer.Base.{
  ℕ, zero, suc, ◌+◌, ◌-◌, ◌≤◌, ◌<◌, ◌≡◌, refl, ◌==◌, ◌||◌, Bool, true, false, List, [], ◌∷◌, Option,
  none, some, length, take, drop, get_elem?, arith, ap, sym, ◌∙◌, Bool-cases, ==→eq, inl, inr,
  subst, ==_refl, le→leb, ◌⊎◌, length-drop,
}
use pfuzzer.Base.Sets.{contains, set_insert, insert_all}
use pfuzzer.Base.Sorted.{IsSorted, subset_lem}
use pfuzzer.Merge.{MergeFile, known_features}
use pfuzzer.Merge.Cover.{
  Cover, cover_start, cover_all, set_cover_merge, file_indices, insert_places,
}
use pfuzzer.Merge.Cover.Search.{has_place}
use pfuzzer.Merge.Cover.Places.{
  files_have_place, has_place-set_insert, insert_places-contains, insert_files-contains,
  insert_places-IsSorted, insert_files-IsSorted, Marks, cover_existing-Marks,
}
use pfuzzer.Merge.Cover.Rounds.{
  IsOfFile, IsOpen, IsCover, CoversAll, covers_all, cover_loop-CoversAll,
}

has_place-insert_all :
    (w : ℕ) (xs s : List ℕ) → has_place w (insert_all xs s) ≡ (has_place w xs || has_place w s)
unfolding has_place insert_all
has_place-insert_all w [] s = refl
has_place-insert_all w (x ∷ xs) s =
    ground (arith, has_place-insert_all w xs (set_insert x s), has_place-set_insert w x s)

has_place-known_features :
    (w : ℕ) (fs : List MergeFile) (all : List ℕ)
    → has_place w (known_features fs all) ≡ (files_have_place w fs || has_place w all)
unfolding files_have_place known_features
has_place-known_features w [] all = refl
has_place-known_features w (f ∷ fs) all = ground (
  arith,
  has_place-known_features w fs (insert_all f.features all),
  has_place-insert_all w f.features all,
)

files_have_place-split :
    (w n : ℕ) (fs : List MergeFile)
    → files_have_place w fs ≡ (files_have_place w (take n fs) || files_have_place w (drop n fs))
unfolding files_have_place
files_have_place-split w zero fs = refl
files_have_place-split w (suc n) [] = refl
files_have_place-split w (suc n) (f ∷ fs) = ground (arith, files_have_place-split w n fs)

get_elem?-drop : (n i : ℕ) (fs : List MergeFile) → get_elem? (drop n fs) i ≡ get_elem? fs (n + i)
get_elem?-drop zero i fs = let e : i ≡ 0 + i = omega arith in ap (get_elem? fs) e
get_elem?-drop (suc n) i [] = refl
get_elem?-drop (suc n) i (f ∷ fs) =
    let e : suc (n + i) ≡ suc n + i = omega arith in
    get_elem?-drop n i fs ∙ ap (get_elem? (f ∷ fs)) e

has_place-file :
    (w i : ℕ) (f : MergeFile) (fs : List MergeFile)
    → get_elem? fs i ≡ some f
    → has_place w f.features ≡ true
    → files_have_place w fs ≡ true
unfolding files_have_place
has_place-file w i f [] h p = absurd (cc)
has_place-file w zero f (g ∷ fs) h p =
    let gf : g ≡ f = cc (h) in
    rw (subst (λ (v : MergeFile). has_place w v.features ≡ true) (sym gf) p) refl
has_place-file w (suc i) f (g ∷ fs) h p = ground (arith, has_place-file w i f fs h p)

contains-file_indices :
    (i n : ℕ) (fs : List MergeFile)
    → contains i (file_indices n fs) ≡ true
    → (n ≤ i) × (i < n + length fs)
unfolding contains file_indices
contains-file_indices i n [] h = absurd (cc)
contains-file_indices i n (f ∷ fs) h = elim (Bool-cases (i == n)) [
  | inl e ↦ omega (arith, ==→eq i n e)
  | inr e ↦ omega (arith, contains-file_indices i (n + 1) fs (rw e at h))
]

-- Where a place comes from, in a list of files whose indices start at `n`.
record IsFoundAt (w n : ℕ) (fs : List MergeFile) : Type 0 where
  offset : ℕ
  file : MergeFile
  at : get_elem? fs offset ≡ some file
  listed : contains (n + offset) (file_indices n fs) ≡ true
  has : has_place w file.features ≡ true

or_true : (a : Bool) {b : Bool} → b ≡ true → (a || b) ≡ true
or_true a h = ground arith

find_place : (w n : ℕ) (fs : List MergeFile) → files_have_place w fs ≡ true → IsFoundAt w n fs
unfolding files_have_place contains file_indices
find_place w n [] h = absurd (cc)
find_place w n (f ∷ fs) h = elim (Bool-cases (has_place w f.features)) [
  | inl p ↦ record {
    offset = 0;
    file = f;
    at = refl;
    listed = let e : n + 0 ≡ n = omega arith in rw (e, ==_refl n) refl;
    has = p;
  }
  | inr p ↦
      let o = find_place w (n + 1) fs (rw p at h) in
      record {
        offset = suc o.offset;
        file = o.file;
        at = o.at;
        listed =
            let e : n + suc o.offset ≡ n + 1 + o.offset = omega arith in
            subst (λ i. (i == n || contains i (file_indices (n + 1) fs)) ≡ true) (sym e)
              (or_true (n + 1 + o.offset == n) o.listed);
        has = o.has;
      }
]

module _ (num_first : ℕ) (files : List MergeFile) (initial_features : List ℕ) where
  abbrev old : List ℕ
  old = known_features (take num_first files) initial_features

  abbrev start : Cover
  start = cover_start num_first files initial_features

  abbrev all : List ℕ
  all = cover_all num_first files initial_features

  start-Marks :
      Marks old
        (record {
          covered = [];
          num_covered = 0;
          remaining = file_indices num_first (drop num_first files);
          new_features = [];
          new_cov = [];
          new_files = [];
        })
        start
  unfolding cover_start
  start-Marks = cover_existing-Marks old _ tt refl

  contains-start : (w : ℕ) → contains w start.covered ≡ has_place w old
  unfolding contains
  contains-start w = ground (arith, start-Marks.more w)

  contains-all :
      (w : ℕ) → contains w all ≡ (files_have_place w (drop num_first files) || has_place w old)
  unfolding cover_all contains
  contains-all w =
      insert_files-contains w (drop num_first files) (insert_places old [])
      ∙ ground (arith, insert_places-contains w old [])

  all-IsSorted : IsSorted all
  unfolding cover_all
  all-IsSorted = insert_files-IsSorted (drop num_first files) _ (insert_places-IsSorted old [] tt)

  at_offset :
      (i : ℕ) (f : MergeFile)
      → get_elem? files i ≡ some f
      → num_first ≤ i
      → get_elem? (drop num_first files) (i - num_first) ≡ some f
  at_offset i f e l =
      let j : num_first + (i - num_first) ≡ i = omega arith in
      get_elem?-drop num_first (i - num_first) files ∙ ap (get_elem? files) j ∙ e

  whole :
      (i : ℕ) (f : MergeFile)
      → get_elem? files i ≡ some f
      → num_first ≤ i
      → (w : ℕ) → has_place w f.features ≡ true
      → contains w all ≡ true
  whole i f e l w p = ground (
    arith,
    contains-all w,
    has_place-file w (i - num_first) f (drop num_first files) (at_offset i f e l) p,
  )

  module _ (initial_cov : List ℕ) (h : num_first ≤ length files) where
    reachable :
        (w : ℕ)
        → contains w all ≡ true
        → contains w start.covered ≡ false
        → IsOpen files start.remaining w
    reachable w p q =
        let o =
          find_place w num_first (drop num_first files)
            (ground (arith, contains-all w, contains-start w, p, q)) in
        record {
          index = num_first + o.offset;
          file = o.file;
          remains = ap (contains (num_first + o.offset)) start-Marks.same_remaining ∙ o.listed;
          at = sym (get_elem?-drop num_first o.offset files) ∙ o.at;
          has = o.has;
        }

    start-IsCover : IsCover num_first files initial_cov start.covered all all-IsSorted whole start
    unfolding contains has_place
    start-IsCover = record {
      kept = record {
        sorted = start-Marks.sorted;
        counted = start-Marks.counted;
        split = λ w. ground (arith, ap (has_place w) start-Marks.same_features);
      };
      in_range = λ i p.
          let c =
            contains-file_indices i num_first (drop num_first files)
              (sym (ap (contains i) start-Marks.same_remaining) ∙ p) in
          omega (arith, length-drop num_first files);
      within = λ w p. ground (arith, contains-start w, contains-all w);
      reachable = reachable;
      from = λ z p. absurd (cc (ap (contains z) start-Marks.same_features, p));
    }

    length-file_indices : (n : ℕ) (fs : List MergeFile) → length (file_indices n fs) ≡ length fs
    unfolding file_indices
    length-file_indices n [] = refl
    length-file_indices n (f ∷ fs) = ap suc (length-file_indices (n + 1) fs)

    looped :
        CoversAll num_first files initial_cov start.covered all all-IsSorted whole
          (set_cover_merge num_first files initial_features initial_cov)
    unfolding set_cover_merge
    looped = rw (le→leb num_first (length files) h) (
        cover_loop-CoversAll num_first files initial_cov start.covered all all-IsSorted whole
          (length files + 1) start start-IsCover
          (omega (
            arith,
            ap (length {A = ℕ}) start-Marks.same_remaining,
            length-file_indices num_first (drop num_first files),
            length-drop num_first files,
          )))

    -- What the result tells of a place `w` and of a feature `z`.
    enough :
        (z w : ℕ) (r : Option Cover)
        → CoversAll num_first files initial_cov start.covered all all-IsSorted whole r
        → (t : Cover) × (r ≡ some t)
          × ((has_place w initial_features || files_have_place w files) ≡ (
              (has_place w initial_features || files_have_place w (take num_first files))
              || has_place w t.new_features))
          × ((contains z t.new_features ≡ false) ⊎ IsOfFile files t.new_files z)
    enough z w none q = elim q [ ]
    enough z w (some t) (covers_all _ k n) =
        let same : t.covered ≡ all =
          (subset_lem t.covered all k.kept.sorted all-IsSorted k.within).1
            (sym k.kept.counted ∙ n) in
        (
          t,
          refl,
          ground (
            arith,
            ap (contains w) same,
            k.kept.split w,
            contains-start w,
            contains-all w,
            has_place-known_features w (take num_first files) initial_features,
            files_have_place-split w num_first files,
          ),
          elim (Bool-cases (contains z t.new_features)) [
            | inl c ↦ inr (k.from z c)
            | inr c ↦ inl c
          ],
        )

-- Where the first corpus is a part of the files, `SetCoverMerge` ends and its assertions hold. A
-- place of the bit vector belongs to some feature of the initial ones or of the files if and only
-- if it belongs to an initial feature, a feature of the first corpus or a new feature, and every
-- new feature is one of a file whose name is among the new ones: the files that are kept cover
-- all places.
pub set_cover_merge_lem :
    (z w num_first : ℕ) (files : List MergeFile) (initial_features initial_cov : List ℕ)
    → num_first ≤ length files
    → (t : Cover) × (set_cover_merge num_first files initial_features initial_cov ≡ some t)
      × ((has_place w initial_features || files_have_place w files) ≡ (
          (has_place w initial_features || files_have_place w (take num_first files))
          || has_place w t.new_features))
      × ((contains z t.new_features ≡ false) ⊎ IsOfFile files t.new_files z)
set_cover_merge_lem z w num_first files initial_features initial_cov h =
    enough num_first files initial_features initial_cov h z w _
      (looped num_first files initial_features initial_cov h)
