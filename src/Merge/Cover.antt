-- ===== src/Merge/Cover.antt =====
-- `Merger::SetCoverMerge` of FuzzerMerge.cpp. The bit vector `Covered` is the set of the places that
-- are true in it.
pub mod Search
pub mod Places
pub mod Rounds
pub mod Laws
use pfuzzer.Base.{
  ℕ, zero, suc, ◌+◌, ◌-◌, ◌%◌, ◌^◌, ltb, leb, ◌==◌, ◌&&◌, not, Bool, true, false, if◌then◌else◌,
  List, [], ◌∷◌, ◌++◌, Option, none, some, length, take, drop, get_elem?,
}
use pfuzzer.Base.Sets.{contains, set_insert}
use pfuzzer.Merge.{MergeFile, known_features, take_cov}

abbrev pub cover_size : ℕ
cover_size = 2 ^ 21

-- The variables of the loop that integrates files.
pub record Cover : Type 0 where
  pub covered : List ℕ
  pub num_covered : ℕ
  pub remaining : List ℕ
  pub new_features : List ℕ
  pub new_cov : List ℕ
  pub new_files : List (List ℕ)

-- The variables of the search for the best file.
pub record Best : Type 0 where
  pub max_index : ℕ
  pub max_num : ℕ
  pub remove_indices : List ℕ

-- The features of the initial corpus are covered.
unfoldable pub cover_existing : List ℕ → Cover → Cover
unfolding contains set_insert
cover_existing [] s = s
cover_existing (x ∷ xs) s =
    let i = x % cover_size in
    let known = contains i s.covered in
    cover_existing xs (record s {
      covered = if known then s.covered else set_insert i s.covered;
      num_covered = if known then s.num_covered else s.num_covered + 1;
    })

unfoldable pub insert_places : List ℕ → List ℕ → List ℕ
unfolding set_insert
insert_places [] all = all
insert_places (x ∷ xs) all = insert_places xs (set_insert (x % cover_size) all)

unfoldable pub insert_files : List MergeFile → List ℕ → List ℕ
unfolding insert_places
insert_files [] all = all
insert_files (f ∷ fs) all = insert_files fs (insert_places f.features all)

-- The indices of `fs`, of which `i` is the first.
unfoldable pub file_indices : ℕ → List MergeFile → List ℕ
file_indices i [] = []
file_indices i (f ∷ fs) = i ∷ file_indices (i + 1) fs

-- `CurrentUnique`.
unfoldable pub count_unique : List ℕ → List ℕ → ℕ
unfolding contains
count_unique covered [] = 0
count_unique covered (x ∷ xs) =
    let n = count_unique covered xs in if contains (x % cover_size) covered then n else n + 1

-- A round of the search, on the file `f` at `i`.
unfoldable pub search_file : List MergeFile → List ℕ → ℕ → MergeFile → Best → Option Best
unfolding count_unique set_insert
search_file files covered i f b =
    let n = count_unique covered f.features in
    let smaller : Option Best = elim (get_elem? files b.max_index) [
      | none ↦ none
      | some g ↦ some (if ltb f.size g.size then record b { max_index = i } else b)
    ] in
    if n == 0
    then some (record b { remove_indices = set_insert i b.remove_indices })
    else if ltb b.max_num n
    then some (record b { max_num = n; max_index = i })
    else if n == b.max_num
    then smaller
    else some b

unfoldable pub search_best : List MergeFile → List ℕ → List ℕ → Best → Option Best
unfolding search_file
search_best files covered [] b = some b
search_best files covered (i ∷ is) b = elim (get_elem? files i) [
  | none ↦ none
  | some f ↦ elim (search_file files covered i f b) [
    | none ↦ none
    | some b' ↦ search_best files covered is b'
  ]
]

-- `erase`.
unfoldable pub set_erase : ℕ → List ℕ → List ℕ
set_erase x [] = []
set_erase x (y ∷ ys) = if x == y then set_erase x ys else y ∷ set_erase x ys

unfoldable pub erase_all : List ℕ → List ℕ → List ℕ
unfolding set_erase
erase_all [] s = s
erase_all (x ∷ xs) s = erase_all xs (set_erase x s)

-- The features of the best file are covered.
unfoldable pub cover_features : List ℕ → Cover → Cover
unfolding contains set_insert
cover_features [] s = s
cover_features (x ∷ xs) s =
    let i = x % cover_size in
    let known = contains i s.covered in
    cover_features xs (record s {
      covered = if known then s.covered else set_insert i s.covered;
      num_covered = if known then s.num_covered else s.num_covered + 1;
      new_features = if known then s.new_features else set_insert x s.new_features;
    })

unfoldable pub cover_file : List ℕ → MergeFile → Cover → Cover
unfolding cover_features take_cov
cover_file initial_cov f s =
    let t = cover_features f.features s in
    record t {
      new_files = t.new_files ++ (f.name ∷ []);
      new_cov = take_cov initial_cov f.cov t.new_cov;
    }

-- What a round does with the file that it found: the state and whether the loop goes on.
unfoldable pub integrate : List MergeFile → List ℕ → ℕ → Cover → Best → Option (Cover × Bool)
unfolding contains set_erase erase_all cover_file
integrate files initial_cov num_all s b =
    let left = erase_all b.remove_indices s.remaining in
    let finished : Option (Cover × Bool) =
      if length left == 0 && s.num_covered == num_all
      then some (record s { remaining = left }, false)
      else none in
    let chosen : Option (Cover × Bool) = elim (get_elem? files b.max_index) [
      | none ↦ none
      | some f ↦
          if contains b.max_index left
          then some
              (cover_file initial_cov f (record s { remaining = set_erase b.max_index left }), true)
          else none
    ] in
    if not (ltb b.max_index (length files))
    then none
    else if b.max_num == 0
    then finished
    else chosen

-- A round of the loop.
unfoldable pub cover_round : ℕ → List MergeFile → List ℕ → ℕ → Cover → Option (Cover × Bool)
unfolding search_best integrate
cover_round num_first files initial_cov num_all s =
    elim (search_best files s.covered s.remaining
      (record { max_index = num_first; max_num = 0; remove_indices = [] })) [
        | none ↦ none
        | some b ↦ integrate files initial_cov num_all s b
      ]

-- The loop, on fuel.
unfoldable pub cover_loop : ℕ → ℕ → List MergeFile → List ℕ → ℕ → Cover → Option Cover
unfolding cover_round
cover_loop zero num_first files initial_cov num_all s = none
cover_loop (suc n) num_first files initial_cov num_all s =
    let more : Option Cover = elim (cover_round num_first files initial_cov num_all s) [
      | none ↦ none
      | some (t, on) ↦ elim on [
        | false ↦ some t
        | true ↦ cover_loop n num_first files initial_cov num_all t
      ]
    ] in
    if s.num_covered == num_all then some s else more

unfoldable pub cover_start : ℕ → List MergeFile → List ℕ → Cover
unfolding cover_existing known_features file_indices
cover_start num_first files initial_features =
    cover_existing (known_features (take num_first files) initial_features) (record {
      covered = [];
      num_covered = 0;
      remaining = file_indices num_first (drop num_first files);
      new_features = [];
      new_cov = [];
      new_files = [];
    })

-- `AllFeatures`.
unfoldable pub cover_all : ℕ → List MergeFile → List ℕ → List ℕ
unfolding known_features insert_places insert_files
cover_all num_first files initial_features =
    insert_files (drop num_first files)
      (insert_places (known_features (take num_first files) initial_features) [])

-- `Merger::SetCoverMerge`. What it returns is the length of `new_features`.
unfoldable pub set_cover_merge : ℕ → List MergeFile → List ℕ → List ℕ → Option Cover
unfolding cover_start cover_all cover_loop
set_cover_merge num_first files initial_features initial_cov =
    if leb num_first (length files)
    then cover_loop (length files + 1) num_first files initial_cov
        (length (cover_all num_first files initial_features))
        (cover_start num_first files initial_features)
    else none
