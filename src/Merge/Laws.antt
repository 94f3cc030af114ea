-- ===== src/Merge/Laws.antt =====
-- What `Merger::Merge` of FuzzerMerge.cpp adds: the features of the other corpora that are not
-- known, every one of them, and nothing else.
use pfuzzer.Base.{
  ℕ, ◌≤◌, ◌≡◌, refl, ◌==◌, ◌||◌, ◌&&◌, not, Bool, true, false, if◌then◌else◌, List, [], ◌∷◌, some,
  length, take, drop, arith, ap, ap₂, ◌∙◌, le→leb, ==→eq,
}
use pfuzzer.Base.Sets.{
  contains, set_insert, insert_all, contains-set_insert, contains-insert_all,
  set_difference-contains,
}
use pfuzzer.Merge.{
  MergeFile, Merged, known_features, remove_known, comes_before, insert_file, sort_files,
  take_features, take_cov, merge_file, greedy_pass, merge,
}

-- Whether a file of the list has the feature.
unfoldable pub has_feature : ℕ → List MergeFile → Bool
unfolding contains
has_feature z [] = false
has_feature z (f ∷ fs) = contains z f.features || has_feature z fs

unfoldable pub has_cov : ℕ → List MergeFile → Bool
unfolding contains
has_cov z [] = false
has_cov z (f ∷ fs) = contains z f.cov || has_cov z fs

contains-known_features :
    (z : ℕ) (fs : List MergeFile) (all : List ℕ)
    → contains z (known_features fs all) ≡ (has_feature z fs || contains z all)
unfolding known_features has_feature
contains-known_features z [] all = refl
contains-known_features z (f ∷ fs) all = ground (
  arith,
  contains-known_features z fs (insert_all f.features all),
  contains-insert_all z f.features all,
)

has_feature-remove_known :
    (z : ℕ) (all : List ℕ) (fs : List MergeFile)
    → contains z all ≡ false
    → has_feature z (remove_known all fs) ≡ has_feature z fs
unfolding has_feature remove_known
has_feature-remove_known z all [] h = refl
has_feature-remove_known z all (f ∷ fs) h =
    ap₂ ◌||◌ (set_difference-contains z f.features all h) (has_feature-remove_known z all fs h)

has_cov-remove_known :
    (z : ℕ) (all : List ℕ) (fs : List MergeFile) → has_cov z (remove_known all fs) ≡ has_cov z fs
unfolding has_cov remove_known
has_cov-remove_known z all [] = refl
has_cov-remove_known z all (f ∷ fs) =
    ap (λ b. contains z f.cov || b) (has_cov-remove_known z all fs)

has_feature-insert_file :
    (z : ℕ) (f : MergeFile) (fs : List MergeFile)
    → has_feature z (insert_file f fs) ≡ (contains z f.features || has_feature z fs)
unfolding has_feature insert_file
has_feature-insert_file z f [] = refl
has_feature-insert_file z f (g ∷ gs) = chosen (comes_before g f) (has_feature-insert_file z f gs)
  where
    chosen :
        (b : Bool)
        → has_feature z (insert_file f gs) ≡ (contains z f.features || has_feature z gs)
        → has_feature z (if b then g ∷ insert_file f gs else f ∷ (g ∷ gs))
          ≡ (contains z f.features || (contains z g.features || has_feature z gs))
    chosen true e = ground (arith, e)
    chosen false e = refl

has_feature-sort_files :
    (z : ℕ) (fs : List MergeFile) → has_feature z (sort_files fs) ≡ has_feature z fs
unfolding has_feature sort_files
has_feature-sort_files z [] = refl
has_feature-sort_files z (f ∷ fs) =
    has_feature-insert_file z f (sort_files fs)
    ∙ ap (λ b. contains z f.features || b) (has_feature-sort_files z fs)

insert_or_not :
    (z x : ℕ) (known : Bool) (new : List ℕ)
    → contains z (if known then new else set_insert x new)
      ≡ (contains z new || (not known && (z == x)))
insert_or_not z x true new = ground arith
insert_or_not z x false new = contains-set_insert z x new ∙ or_comm (z == x) (contains z new)
  where
    or_comm : (a b : Bool) → (a || b) ≡ (b || a)
    or_comm a b = ground arith

new_or_not :
    (e kx kz n c : Bool)
    → (e ≡ true → kz ≡ kx)
    → ((n || (not kx && e)) || (c && not (e || kz))) ≡ (n || ((e || c) && not kz))
new_or_not true kx kz n c h = rw (h refl) (ground arith)
new_or_not false kx kz n c h = ground arith

all_or_not : (e kz c : Bool) → (c || (e || kz)) ≡ ((e || c) || kz)
all_or_not e kz c = ground arith

-- What the features of one file add.
take_features-contains :
    (z : ℕ) (xs : List ℕ) (s : Merged) (found : Bool)
    → let (t, _) = take_features xs s found in
      (contains z t.all_features ≡ (contains z xs || contains z s.all_features))
      × (contains z t.new_features
          ≡ (contains z s.new_features || (contains z xs && not (contains z s.all_features))))
unfolding take_features contains
take_features-contains z [] s found = (refl, or-false (contains z s.new_features))
  where
    or-false : (b : Bool) → b ≡ (b || false)
    or-false true = refl
    or-false false = refl
take_features-contains z (x ∷ xs) s found =
    let known : Bool = contains x s.all_features in
    let next : Merged = record s {
      all_features = set_insert x s.all_features;
      new_features = if known then s.new_features else set_insert x s.new_features;
    } in
    let (a, n) = take_features-contains z xs next (if known then found else true) in
    let i = contains-set_insert z x s.all_features in
    (
      a
          ∙ ap (λ b. contains z xs || b) i
          ∙ all_or_not (z == x) (contains z s.all_features) (contains z xs),
      n
          ∙ ap₂ (λ b c. b || (contains z xs && not c)) (insert_or_not z x known s.new_features) i
          ∙ new_or_not (z == x) known (contains z s.all_features) (contains z s.new_features)
              (contains z xs) (λ e. ap (λ v. contains v s.all_features) (==→eq z x e)),
    )

-- The loop over the features leaves the coverage and the files alone.
take_features-others :
    (xs : List ℕ) (s : Merged) (found : Bool) → (take_features xs s found).0.new_cov ≡ s.new_cov
unfolding take_features
take_features-others [] s found = refl
take_features-others (x ∷ xs) s found = take_features-others xs _ _

take_cov-contains :
    (z : ℕ) (initial cs new : List ℕ)
    → contains z (take_cov initial cs new)
      ≡ (contains z new || (contains z cs && not (contains z initial)))
unfolding take_cov contains
take_cov-contains z initial [] new = ground arith
take_cov-contains z initial (c ∷ cs) new =
    take_cov-contains z initial cs _
    ∙ ap (λ b. b || (contains z cs && not (contains z initial))) (cov_or_not (contains c initial))
    ∙ regroup (z == c) (contains c initial) (contains z initial) (contains z new) (contains z cs)
        (λ e. ap (λ v. contains v initial) (==→eq z c e))
  where
    cov_or_not :
        (known : Bool)
        → contains z (if not known then set_insert c new else new)
          ≡ (contains z new || (not known && (z == c)))
    cov_or_not true = insert_or_not z c true new
    cov_or_not false = insert_or_not z c false new

    regroup :
        (e kc kz n m : Bool)
        → (e ≡ true → kz ≡ kc)
        → ((n || (not kc && e)) || (m && not kz)) ≡ (n || ((e || m) && not kz))
    regroup true kc kz n m h = rw (h refl) (ground arith)
    regroup false kc kz n m h = ground arith

-- What one file adds.
merge_file-contains :
    (z : ℕ) (initial_cov : List ℕ) (f : MergeFile) (s : Merged)
    → let t = merge_file initial_cov f s in
      (contains z t.all_features ≡ (contains z f.features || contains z s.all_features))
      × (contains z t.new_features ≡ (
          contains z s.new_features || (contains z f.features && not (contains z s.all_features))))
      × (contains z t.new_cov
          ≡ (contains z s.new_cov || (contains z f.cov && not (contains z initial_cov))))
unfolding merge_file
merge_file-contains z initial_cov f s =
    let (a, n) = take_features-contains z f.features s false in
    (
      a,
      n,
      take_cov-contains z initial_cov f.cov _
          ∙ ap (λ c. contains z c || (contains z f.cov && not (contains z initial_cov)))
              (take_features-others f.features s false),
    )

more_new :
    (n f g k : Bool) → ((n || (f && not k)) || (g && not (f || k))) ≡ (n || ((f || g) && not k))
more_new n f g k = ground arith

more_all : (f g k : Bool) → (g || (f || k)) ≡ ((f || g) || k)
more_all f g k = ground arith

more_cov : (n f g k : Bool) → ((n || (f && k)) || (g && k)) ≡ (n || ((f || g) && k))
more_cov n f g k = ground arith

greedy_pass-contains :
    (z : ℕ) (initial_cov : List ℕ) (fs : List MergeFile) (s : Merged)
    → let t = greedy_pass initial_cov fs s in
      (contains z t.all_features ≡ (has_feature z fs || contains z s.all_features))
      × (contains z t.new_features
          ≡ (contains z s.new_features || (has_feature z fs && not (contains z s.all_features))))
      × (contains z t.new_cov
          ≡ (contains z s.new_cov || (has_cov z fs && not (contains z initial_cov))))
unfolding greedy_pass has_feature has_cov
greedy_pass-contains z initial_cov [] s = ground arith
greedy_pass-contains z initial_cov (f ∷ fs) s =
    let (a, n, c) = greedy_pass-contains z initial_cov fs (merge_file initial_cov f s) in
    let (a1, n1, c1) = merge_file-contains z initial_cov f s in
    (
      a
          ∙ ap (λ b. has_feature z fs || b) a1
          ∙ more_all (contains z f.features) (has_feature z fs) (contains z s.all_features),
      n
          ∙ ap₂ (λ x y. x || (has_feature z fs && not y)) n1 a1
          ∙ more_new (contains z s.new_features) (contains z f.features) (has_feature z fs)
              (contains z s.all_features),
      c
          ∙ ap (λ x. x || (has_cov z fs && not (contains z initial_cov))) c1
          ∙ more_cov (contains z s.new_cov) (contains z f.cov) (has_cov z fs)
              (not (contains z initial_cov)),
    )

has_cov-insert_file :
    (z : ℕ) (f : MergeFile) (fs : List MergeFile)
    → has_cov z (insert_file f fs) ≡ (contains z f.cov || has_cov z fs)
unfolding has_cov insert_file
has_cov-insert_file z f [] = refl
has_cov-insert_file z f (g ∷ gs) = chosen (comes_before g f) (has_cov-insert_file z f gs)
  where
    chosen :
        (b : Bool)
        → has_cov z (insert_file f gs) ≡ (contains z f.cov || has_cov z gs)
        → has_cov z (if b then g ∷ insert_file f gs else f ∷ (g ∷ gs))
          ≡ (contains z f.cov || (contains z g.cov || has_cov z gs))
    chosen true e = ground (arith, e)
    chosen false e = refl

has_cov-sort_files : (z : ℕ) (fs : List MergeFile) → has_cov z (sort_files fs) ≡ has_cov z fs
unfolding has_cov sort_files
has_cov-sort_files z [] = refl
has_cov-sort_files z (f ∷ fs) =
    has_cov-insert_file z f (sort_files fs)
    ∙ ap (λ b. contains z f.cov || b) (has_cov-sort_files z fs)

-- Where the first corpus is a part of the files, `Merger::Merge` succeeds. A feature is new if
-- and only if a file outside the first corpus has it and neither a file of the first corpus nor
-- the initial features do; coverage is new if and only if a file outside the first corpus has it
-- and the initial coverage does not.
pub merge-contains :
    (z num_first : ℕ) (files : List MergeFile) (initial_features initial_cov : List ℕ)
    → num_first ≤ length files
    → (t : Merged) × (merge num_first files initial_features initial_cov ≡ some t)
      × (contains z t.new_features ≡ (
          has_feature z (drop num_first files)
          && not (has_feature z (take num_first files) || contains z initial_features)))
      × (contains z t.new_cov ≡ (has_cov z (drop num_first files) && not (contains z initial_cov)))
unfolding merge contains
merge-contains z num_first files initial_features initial_cov h =
    let all = known_features (take num_first files) initial_features in
    let rest = drop num_first files in
    let (a, n, c) =
      greedy_pass-contains z initial_cov (sort_files (remove_known all rest))
        (record { all_features = all; new_features = []; new_cov = []; new_files = [] }) in
    rw (le→leb num_first (length files) h, merge)
      (
        _,
        refl,
        n
            ∙ ap (λ b. b && not (contains z all)) (has_feature-sort_files z (remove_known all rest))
            ∙ only_new (contains z all) refl
            ∙ ap (λ b. has_feature z rest && not b)
                (contains-known_features z (take num_first files) initial_features),
        c
            ∙ ap (λ b. b && not (contains z initial_cov))
                (has_cov-sort_files z (remove_known all rest) ∙ has_cov-remove_known z all rest),
      )
  where
    only_new :
        (known : Bool)
        → contains z (known_features (take num_first files) initial_features) ≡ known
        → (has_feature z (
              remove_known
                (known_features (take num_first files) initial_features)
                (drop num_first files))
            && not known)
          ≡ (has_feature z (drop num_first files) && not known)
    only_new true e = ground arith
    only_new false e = ap (λ b. b && true) (has_feature-remove_known z _ (drop num_first files) e)
