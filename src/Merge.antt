-- ===== src/Merge.antt =====
-- FuzzerMerge.h and FuzzerMerge.cpp: which inputs a merge keeps. Sets and vectors of features and
-- of coverage are lists; a file's name is the list of its bytes.
pub mod Control
pub mod Cover
pub mod Outer
pub mod Laws
use pfuzzer.Base.{
  ℕ, zero, suc, ◌+◌, ltb, leb, ◌==◌, ◌||◌, not, Bool, true, false, if◌then◌else◌, List, [], ◌∷◌,
  ◌++◌, Option, none, some, length, take, drop,
}
use pfuzzer.Base.Sets.{contains, set_insert, insert_all, set_difference}

-- `MergeFileInfo`.
pub record MergeFile : Type 0 where
  pub name : List ℕ
  pub size : ℕ
  pub features : List ℕ
  pub cov : List ℕ

-- The results of `Merger::Merge`, and what the greedy pass keeps.
pub record Merged : Type 0 where
  pub all_features : List ℕ
  pub new_features : List ℕ
  pub new_cov : List ℕ
  pub new_files : List (List ℕ)

-- The first loop.
unfoldable pub known_features : List MergeFile → List ℕ → List ℕ
unfolding insert_all
known_features [] all = all
known_features (f ∷ fs) all = known_features fs (insert_all f.features all)

-- The second loop.
unfoldable pub remove_known : List ℕ → List MergeFile → List MergeFile
unfolding set_difference
remove_known all [] = []
remove_known all (f ∷ fs) =
    record f { features = set_difference f.features all } ∷ remove_known all fs

-- The order: smaller files first, and of these the ones with more features.
unfoldable pub comes_before : MergeFile → MergeFile → Bool
comes_before a b =
    if not (a.size == b.size)
    then ltb a.size b.size
    else ltb (length b.features) (length a.features)

-- `std::sort`, which leaves the order of files that compare equal open; here they keep it.
unfoldable pub insert_file : MergeFile → List MergeFile → List MergeFile
unfolding comes_before
insert_file f [] = f ∷ []
insert_file f (g ∷ gs) =
    let rest = insert_file f gs in if comes_before g f then g ∷ rest else f ∷ (g ∷ gs)

unfoldable pub sort_files : List MergeFile → List MergeFile
unfolding insert_file
sort_files [] = []
sort_files (f ∷ fs) = insert_file f (sort_files fs)

-- The loop over a file's features, and whether it found a new one.
unfoldable pub take_features : List ℕ → Merged → Bool → Merged × Bool
unfolding contains set_insert
take_features [] s found = (s, found)
take_features (x ∷ xs) s found =
    let known = contains x s.all_features in
    take_features xs
      (record s {
        all_features = set_insert x s.all_features;
        new_features = if known then s.new_features else set_insert x s.new_features;
      })
      (if known then found else true)

-- The loop over a file's coverage.
unfoldable pub take_cov : List ℕ → List ℕ → List ℕ → List ℕ
unfolding contains set_insert
take_cov initial [] new = new
take_cov initial (c ∷ cs) new =
    take_cov initial cs (if not (contains c initial) then set_insert c new else new)

-- A round of the greedy pass.
unfoldable pub merge_file : List ℕ → MergeFile → Merged → Merged
unfolding take_features take_cov
merge_file initial_cov f s =
    let (t, found) = take_features f.features s false in
    record t {
      new_cov = take_cov initial_cov f.cov t.new_cov;
      new_files = if found then t.new_files ++ (f.name ∷ []) else t.new_files;
    }

unfoldable pub greedy_pass : List ℕ → List MergeFile → Merged → Merged
unfolding merge_file
greedy_pass initial_cov [] s = s
greedy_pass initial_cov (f ∷ fs) s = greedy_pass initial_cov fs (merge_file initial_cov f s)

-- `Merger::Merge`. What it returns is the length of `new_features`.
unfoldable pub merge : ℕ → List MergeFile → List ℕ → List ℕ → Option Merged
unfolding known_features remove_known sort_files greedy_pass insert_all
merge num_first files initial_features initial_cov =
    let all = known_features (take num_first files) initial_features in
    if leb num_first (length files)
    then some (
        greedy_pass initial_cov (sort_files (remove_known all (drop num_first files)))
          (record { all_features = all; new_features = []; new_cov = []; new_files = [] }))
    else none
