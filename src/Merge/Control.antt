-- ===== src/Merge/Control.antt =====
-- The control file of a merge in FuzzerMerge.cpp: `Merger::Parse`, `WriteNewControlFile`, and what
-- `CrashResistantMergeInternalStep` appends. A text is read as the list of its lines.
pub mod Laws
pub mod Accepted
pub mod Steps
pub mod Written
use pfuzzer.Base.{
  ℕ, zero, suc, ◌+◌, ◌-◌, leb, ltb, ◌==◌, ◌&&◌, ◌||◌, not, Bool, true, false, if◌then◌else◌, List,
  [], ◌∷◌, ◌++◌, Option, none, some, length, take, drop, replicate, get_elem?, set, map,
}
use pfuzzer.Base.Bytes.{bytes_eq}
use pfuzzer.Base.Sets.{sort_numbers, contains, set_insert, insert_all}
use pfuzzer.Streams.{
  Extract, got, nothing, bad, read_word, read_number, read_numbers, print_number, print_numbers,
  lines_of,
}
use pfuzzer.Merge.{MergeFile}

-- The fields of `Merger`.
pub record Merger : Type 0 where
  pub files : List MergeFile
  pub num_files_in_first_corpus : ℕ
  pub first_not_processed_file : ℕ
  pub last_failure : List ℕ

-- `Parse` returns false, writes outside an array, or accepts the text.
pub data Outcome (A : Type 0) : Type 0 where
  refused : Outcome A
  faulted : Outcome A
  parsed : A → Outcome A

infixl 5 ◌>>=◌
abbrev pub ◌>>=◌ : {A B : Type 0} → Outcome A → (A → Outcome B) → Outcome B
refused >>= f = refused
faulted >>= f = faulted
parsed a >>= f = f a

-- The variables of the loop over the lines; `none` stands for `kInvalidStartMarker`.
pub record Progress : Type 0 where
  pub files : List MergeFile
  pub expected : ℕ
  pub last_seen : Option ℕ
  pub have_ft : Bool
  pub pcs : List ℕ

abbrev pub blank_file : MergeFile
blank_file = record { name = []; size = 0; features = []; cov = [] }

-- `>>` into a number that has a value before.
unfoldable pub extract_or : ℕ → ℕ → List ℕ → ℕ
extract_or w old line = elim (read_number w line) [ got n rest ↦ n | nothing ↦ old | bad n ↦ n ]

unfoldable pub read_names :
    List MergeFile → List (List ℕ) → Outcome (List MergeFile × List (List ℕ))
read_names [] ls = parsed ([], ls)
read_names (f ∷ fs) [] = refused
read_names (f ∷ fs) (l ∷ ls) =
    read_names fs ls >>= λ (gs, rest). parsed (record f { name = l } ∷ gs, rest)

abbrev pub started_marker : List ℕ
started_marker = b'S' ∷ b'T' ∷ b'A' ∷ b'R' ∷ b'T' ∷ b'E' ∷ b'D' ∷ []

abbrev pub ft_marker : List ℕ
ft_marker = b'F' ∷ b'T' ∷ []

abbrev pub cov_marker : List ℕ
cov_marker = b'C' ∷ b'O' ∷ b'V' ∷ []

unfoldable pub parse_started : ℕ → List ℕ → Progress → Outcome Progress
unfolding extract_or
parse_started n rest s =
    let accepted : Outcome Progress = elim (get_elem? s.files s.expected) [
      | none ↦ faulted
      | some f ↦ parsed (record s {
        files = set s.files s.expected (record f { size = extract_or 64 f.size rest });
        last_seen = some s.expected;
        expected = s.expected + 1;
        have_ft = false;
      })
    ] in
    if s.expected == n then accepted else refused

unfoldable pub is_seen : ℕ → Option ℕ → Bool
is_seen n none = false
is_seen n (some i) = n == i

unfoldable pub parse_ft : Bool → ℕ → List ℕ → Progress → Outcome Progress
unfolding is_seen sort_numbers
parse_ft parse_coverage n rest s =
    let covered : Outcome Progress = elim (get_elem? s.files n) [
      | none ↦ faulted
      | some f ↦
          let xs = sort_numbers (read_numbers (length rest + 1) 32 rest) in
          parsed (record s { files = set s.files n (record f { features = xs }); have_ft = true })
    ] in
    let plain = parsed (record s { have_ft = true }) in
    if is_seen n s.last_seen then (if parse_coverage then covered else plain) else refused

-- The loop that reads coverage: only what no other file had is kept.
unfoldable pub add_cov : List ℕ → List ℕ → List ℕ → List ℕ × List ℕ
unfolding contains set_insert
add_cov [] pcs cov = (pcs, cov)
add_cov (x ∷ xs) pcs cov =
    let known = contains x pcs in
    add_cov xs (if known then pcs else set_insert x pcs) (if known then cov else cov ++ (x ∷ []))

unfoldable pub parse_cov : Bool → ℕ → List ℕ → Progress → Outcome Progress
unfolding is_seen add_cov
parse_cov parse_coverage n rest s =
    let covered : Outcome Progress = elim (get_elem? s.files n) [
      | none ↦ faulted
      | some f ↦
          let (pcs', cov') = add_cov (read_numbers (length rest + 1) 32 rest) s.pcs f.cov in
          parsed (record s { files = set s.files n (record f { cov = cov' }); pcs = pcs' })
    ] in
    if is_seen n s.last_seen then (if parse_coverage then covered else parsed s) else refused

unfoldable pub parse_marker : Bool → List ℕ → ℕ → List ℕ → Progress → Outcome Progress
unfolding parse_started parse_ft parse_cov bytes_eq
parse_marker parse_coverage marker n rest s =
    if bytes_eq marker started_marker
    then parse_started n rest s
    else if bytes_eq marker ft_marker
    then parse_ft parse_coverage n rest s
    else if bytes_eq marker cov_marker
    then parse_cov parse_coverage n rest s
    else refused

unfoldable pub parse_line : Bool → List ℕ → Progress → Outcome Progress
unfolding read_word read_number parse_marker
parse_line parse_coverage line s = elim (read_word line) [
  | none ↦ refused
  | some (marker, r) ↦ elim (read_number 32 r) [
    | got n rest ↦ parse_marker parse_coverage marker n rest s
    | nothing ↦ refused
    | bad n ↦ refused
  ]
]

unfoldable pub parse_lines : Bool → List (List ℕ) → Progress → Outcome Progress
unfolding parse_line
parse_lines parse_coverage [] s = parsed s
parse_lines parse_coverage (l ∷ ls) s =
    parse_line parse_coverage l s >>= λ t. parse_lines parse_coverage ls t

abbrev pub merger_of : ℕ → Progress → List ℕ → Merger
merger_of num_first s failure = record {
  files = s.files;
  num_files_in_first_corpus = num_first;
  first_not_processed_file = s.expected;
  last_failure = failure;
}

-- The end of `Parse`.
unfoldable pub finish : ℕ → Progress → Outcome Merger
finish num_first s =
    let failed : Outcome Merger = elim s.last_seen [
      | none ↦ parsed (merger_of num_first s [])
      | some i ↦ elim (get_elem? s.files i) [
        | none ↦ faulted
        | some f ↦ parsed (merger_of num_first s f.name)
      ]
    ] in
    if s.have_ft then parsed (merger_of num_first s []) else failed

unfoldable pub resize : ℕ → List MergeFile → List MergeFile
resize n files = take n files ++ replicate (n - length files) blank_file

-- `Parse` after the two numbers.
unfoldable pub parse_files : Bool → ℕ → ℕ → List MergeFile → List (List ℕ) → Outcome Merger
unfolding read_names parse_lines finish resize
parse_files parse_coverage n num_first old ls = read_names (resize n old) ls >>= λ (files, rest).
    parse_lines parse_coverage rest
      (record { files = files; expected = 0; last_seen = none; have_ft = true; pcs = [] })
    >>= λ s. finish num_first s

-- The tests of the two numbers, and what follows.
unfoldable pub parse_sized : Bool → ℕ → ℕ → List MergeFile → List (List ℕ) → Outcome Merger
unfolding parse_files
parse_sized parse_coverage n num_first old ls =
    if n == 0 || ltb 10000000 n
    then refused
    else if ltb n num_first
    then refused
    else parse_files parse_coverage n num_first old ls

-- `Merger::Parse` on the lines of a text; `old` are the files that the object had before.
unfoldable pub parse : Bool → List MergeFile → List (List ℕ) → Outcome Merger
unfolding extract_or parse_sized
parse parse_coverage old [] = refused
parse parse_coverage old (l ∷ []) = refused
parse parse_coverage old (l ∷ m ∷ ls) =
    let n = extract_or 64 0 l in parse_sized parse_coverage n (extract_or 64 (n + 1) m) old ls

-- `AllFeatures`.
unfoldable pub all_features : List MergeFile → List ℕ → List ℕ
unfolding insert_all
all_features [] s = s
all_features (f ∷ fs) s = all_features fs (insert_all f.features s)

unfoldable pub is_known : List ℕ → List MergeFile → Bool
unfolding bytes_eq
is_known name [] = false
is_known name (f ∷ fs) = bytes_eq name f.name || is_known name fs

-- The names of a corpus that are not known.
unfoldable pub files_to_use : List MergeFile → List (List ℕ) → List (List ℕ)
unfolding is_known
files_to_use known [] = []
files_to_use known (n ∷ ns) =
    let rest = files_to_use known ns in if is_known n known then rest else n ∷ rest

unfoldable pub unlines : List (List ℕ) → List ℕ
unlines [] = []
unlines (l ∷ ls) = l ++ (b'\n' ∷ unlines ls)

-- `WriteNewControlFile`: the text, and the number of files in it.
unfoldable pub write_new_control_file : List (List ℕ) → List (List ℕ) → List MergeFile → List ℕ × ℕ
unfolding files_to_use unlines print_number
write_new_control_file old_corpus new_corpus known =
    let from_old = files_to_use known old_corpus in
    let used = from_old ++ files_to_use known new_corpus in
    (unlines (print_number (length used) ∷ print_number (length from_old) ∷ used), length used)

-- What a process can do with an input: it crashes, or has features and observed places.
abbrev pub Target : Type 0
Target = ℕ → List ℕ → Option (List ℕ × List ℕ)

-- The features that are collected: all, or those that no file before had.
unfoldable pub fresh_of : List ℕ → List ℕ → List ℕ → List ℕ
unfolding contains set_insert
fresh_of [] known s = s
fresh_of (x ∷ xs) known s = fresh_of xs known (if contains x known then s else set_insert x s)

-- The places that no file before had, in the order in which they are observed.
unfoldable pub fresh_places : List ℕ → List ℕ → List ℕ
unfolding contains set_insert
fresh_places [] known = []
fresh_places (x ∷ xs) known =
    let rest = fresh_places xs (set_insert x known) in if contains x known then rest else x ∷ rest

-- The lines that the loop of `CrashResistantMergeInternalStep` appends for the files from `i` on,
-- and whether it gets to the end.
module _ (content : List ℕ → List ℕ) (max_input_len : ℕ) (run : Target) (is_set_cover : Bool) where
  unfoldable pub internal_loop : ℕ → List MergeFile → List ℕ → List ℕ → List (List ℕ) × Bool
  unfolding fresh_of fresh_places insert_all
  internal_loop i [] all pcs = ([], true)
  internal_loop i (f ∷ fs) all pcs =
      let u = take max_input_len (content f.name) in
      let before : List ℕ =
        started_marker ++ (b' ' ∷ (print_number i ++ (b' ' ∷ print_number (length u)))) in
      elim (run i u) [
        | none ↦ (before ∷ [], false)
        | some (xs, observed) ↦
            let features = fresh_of xs (if is_set_cover then [] else all) [] in
            let places = fresh_places observed pcs in
            let (ls, ended) =
              internal_loop (i + 1) fs (insert_all xs all) (insert_all observed pcs) in
            (
              before
                  ∷ (ft_marker ++ (b' ' ∷ (print_number i ++ print_numbers features)))
                  ∷ (cov_marker ++ (b' ' ∷ (print_number i ++ print_numbers places)))
                  ∷ ls,
              ended,
            )
      ]

  -- `CrashResistantMergeInternalStep` on the lines of the control file: the lines that it appends,
  -- and whether the process ends well.
  unfoldable pub internal_step : List (List ℕ) → Outcome (List (List ℕ) × Bool)
  unfolding parse internal_loop
  internal_step ls = elim (parse false [] ls) [
    | refused ↦ parsed ([], false)
    | faulted ↦ faulted
    | parsed m ↦
        parsed
          (internal_loop m.first_not_processed_file (drop m.first_not_processed_file m.files) [] [])
  ]
