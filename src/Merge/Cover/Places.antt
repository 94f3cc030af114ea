-- ===== src/Merge/Cover/Places.antt =====
-- The bit vector of `SetCoverMerge`, its counter, and the set of all features.
use pfuzzer.Base.{
  ℕ, ◌+◌, ◌%◌, ◌≡◌, refl, ◌==◌, ◌||◌, Bool, true, false, List, [], ◌∷◌, ◌⊎◌, inl, inr, length,
  arith, sym, Bool-cases, ==→eq, subst,
}
use pfuzzer.Base.Sets.{contains, set_insert, contains-set_insert}
use pfuzzer.Base.Sorted.{IsSorted, set_insert-IsSorted, length-set_insert}
use pfuzzer.Merge.{MergeFile}
use pfuzzer.Merge.Cover.{
  cover_size, Cover, cover_existing, insert_places, insert_files, cover_features,
}
use pfuzzer.Merge.Cover.Search.{has_place}

-- Whether a file of the list has a feature with the place.
unfoldable pub files_have_place : ℕ → List MergeFile → Bool
unfolding has_place
files_have_place w [] = false
files_have_place w (f ∷ fs) = has_place w f.features || files_have_place w fs

pub has_place-set_insert :
    (w x : ℕ) (xs : List ℕ)
    → has_place w (set_insert x xs) ≡ (w == x % cover_size || has_place w xs)
unfolding has_place set_insert
has_place-set_insert w x [] = refl
has_place-set_insert w x (y ∷ ys) = ground (arith, has_place-set_insert w x ys)

pub has_place-contains :
    (x : ℕ) (xs : List ℕ) → contains x xs ≡ true → has_place (x % cover_size) xs ≡ true
unfolding has_place contains
has_place-contains x [] h = absurd (cc)
has_place-contains x (y ∷ ys) h = ground (arith, has_place-contains x ys)

pub insert_places-contains :
    (w : ℕ) (xs all : List ℕ)
    → contains w (insert_places xs all) ≡ (has_place w xs || contains w all)
unfolding insert_places has_place
insert_places-contains w [] all = refl
insert_places-contains w (x ∷ xs) all = ground (
  arith,
  insert_places-contains w xs (set_insert (x % cover_size) all),
  contains-set_insert w (x % cover_size) all,
)

pub insert_files-contains :
    (w : ℕ) (fs : List MergeFile) (all : List ℕ)
    → contains w (insert_files fs all) ≡ (files_have_place w fs || contains w all)
unfolding insert_files files_have_place
insert_files-contains w [] all = refl
insert_files-contains w (f ∷ fs) all = ground (
  arith,
  insert_files-contains w fs (insert_places f.features all),
  insert_places-contains w f.features all,
)

pub insert_places-IsSorted : (xs all : List ℕ) → IsSorted all → IsSorted (insert_places xs all)
unfolding insert_places
insert_places-IsSorted [] all h = h
insert_places-IsSorted (x ∷ xs) all h =
    insert_places-IsSorted xs (set_insert (x % cover_size) all) (set_insert-IsSorted _ all h)

pub insert_files-IsSorted :
    (fs : List MergeFile) (all : List ℕ) → IsSorted all → IsSorted (insert_files fs all)
unfolding insert_files
insert_files-IsSorted [] all h = h
insert_files-IsSorted (f ∷ fs) all h =
    insert_files-IsSorted fs _ (insert_places-IsSorted f.features all h)

-- The counter is right, and the places that are covered are those of `base` and of the new features.
pub record IsKept (base : List ℕ) (s : Cover) : Type 0 where
  pub sorted : IsSorted s.covered
  pub counted : s.num_covered ≡ length s.covered
  pub split : (w : ℕ) → contains w s.covered ≡ (contains w base || has_place w s.new_features)

-- What the loop over the features of a file does.
pub record Covers (base xs : List ℕ) (s t : Cover) : Type 0 where
  pub kept : IsKept base t
  pub more : (w : ℕ) → contains w t.covered ≡ (has_place w xs || contains w s.covered)
  pub from :
      (z : ℕ)
      → contains z t.new_features ≡ true
      → (contains z s.new_features ≡ true) ⊎ (contains z xs ≡ true)
  pub same_remaining : t.remaining ≡ s.remaining
  pub same_files : t.new_files ≡ s.new_files

cover_feature-IsKept :
    (base : List ℕ) (x : ℕ) (s : Cover)
    → contains (x % cover_size) s.covered ≡ false
    → IsKept base s
    → IsKept base (record s {
      covered = set_insert (x % cover_size) s.covered;
      num_covered = s.num_covered + 1;
      new_features = set_insert x s.new_features;
    })
cover_feature-IsKept base x s e h = record {
  sorted = set_insert-IsSorted (x % cover_size) s.covered h.sorted;
  counted = omega (arith, length-set_insert (x % cover_size) s.covered e, h.counted);
  split = λ w. ground (
    arith,
    h.split w,
    contains-set_insert w (x % cover_size) s.covered,
    has_place-set_insert w x s.new_features,
  );
}

known_place :
    (w i : ℕ) (p : Bool) (covered : List ℕ) (b : Bool)
    → contains i covered ≡ true
    → b ≡ (p || contains w covered)
    → b ≡ ((w == i || p) || contains w covered)
known_place w i p covered b e m = elim (Bool-cases (w == i)) [
  | inl f ↦
      let c = subst (λ v. contains v covered ≡ true) (sym (==→eq w i f)) e in ground (arith, m, c)
  | inr f ↦ ground (arith, m)
]

pub cover_features-Covers :
    (base xs : List ℕ) (s : Cover) → IsKept base s → Covers base xs s (cover_features xs s)
unfolding cover_features has_place contains
cover_features-Covers base [] s h = record {
  kept = h;
  more = λ w. refl;
  from = λ z c. inl c;
  same_remaining = refl;
  same_files = refl;
}
cover_features-Covers base (x ∷ xs) s h = elim (Bool-cases (contains (x % cover_size) s.covered)) [
  | inl e ↦
      let c = cover_features-Covers base xs s h in
      rw (e, cover_features)
        (record {
          kept = c.kept;
          more = λ w. known_place w (x % cover_size) (has_place w xs) s.covered _ e (c.more w);
          from = λ z p. later z (c.from z p);
          same_remaining = c.same_remaining;
          same_files = c.same_files;
        })
  | inr e ↦
      let c = cover_features-Covers base xs _ (cover_feature-IsKept base x s e h) in
      rw (e, cover_features)
        (record {
          kept = c.kept;
          more = λ w. ground (arith, c.more w, contains-set_insert w (x % cover_size) s.covered);
          from = λ z p. new z (c.from z p);
          same_remaining = c.same_remaining;
          same_files = c.same_files;
        })
]
  where
    later :
        (z : ℕ)
        → (contains z s.new_features ≡ true) ⊎ (contains z xs ≡ true)
        → (contains z s.new_features ≡ true) ⊎ ((z == x || contains z xs) ≡ true)
    later z (inl p) = inl p
    later z (inr p) = inr (grind arith)

    new :
        (z : ℕ)
        → (contains z (set_insert x s.new_features) ≡ true) ⊎ (contains z xs ≡ true)
        → (contains z s.new_features ≡ true) ⊎ ((z == x || contains z xs) ≡ true)
    new z (inl p) = elim (Bool-cases (z == x)) [
      | inl f ↦ inr (ground (arith, f))
      | inr f ↦ inl (ground (arith, contains-set_insert z x s.new_features))
    ]
    new z (inr p) = inr (grind arith)

-- What marking the features of the initial corpus does, before any feature is new.
pub record Marks (xs : List ℕ) (s t : Cover) : Type 0 where
  pub sorted : IsSorted t.covered
  pub counted : t.num_covered ≡ length t.covered
  pub more : (w : ℕ) → contains w t.covered ≡ (has_place w xs || contains w s.covered)
  pub same_remaining : t.remaining ≡ s.remaining
  pub same_features : t.new_features ≡ s.new_features
  pub same_files : t.new_files ≡ s.new_files

pub cover_existing-Marks :
    (xs : List ℕ) (s : Cover)
    → IsSorted s.covered
    → s.num_covered ≡ length s.covered
    → Marks xs s (cover_existing xs s)
unfolding cover_existing has_place contains
cover_existing-Marks [] s h n = record {
  sorted = h;
  counted = n;
  more = λ w. refl;
  same_remaining = refl;
  same_features = refl;
  same_files = refl;
}
cover_existing-Marks (x ∷ xs) s h n = elim (Bool-cases (contains (x % cover_size) s.covered)) [
  | inl e ↦
      let c = cover_existing-Marks xs s h n in
      rw (e, cover_existing)
        (record {
          sorted = c.sorted;
          counted = c.counted;
          more = λ w. known_place w (x % cover_size) (has_place w xs) s.covered _ e (c.more w);
          same_remaining = c.same_remaining;
          same_features = c.same_features;
          same_files = c.same_files;
        })
  | inr e ↦
      let c =
        cover_existing-Marks xs
          (record s {
            covered = set_insert (x % cover_size) s.covered;
            num_covered = s.num_covered + 1;
          })
          (set_insert-IsSorted _ s.covered h)
          (omega (arith, length-set_insert (x % cover_size) s.covered e)) in
      rw (e, cover_existing)
        (record {
          sorted = c.sorted;
          counted = c.counted;
          more = λ w. ground (arith, c.more w, contains-set_insert w (x % cover_size) s.covered);
          same_remaining = c.same_remaining;
          same_features = c.same_features;
          same_files = c.same_files;
        })
]
