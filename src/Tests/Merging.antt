-- ===== src/Tests/Merging.antt =====
-- Merges that survive crashes.
use pfuzzer.Base.{
  ℕ, ◌≤◌, ◌<◌, ◌≡◌, refl, ◌==◌, ◌||◌, ◌⊎◌, true, false, if◌then◌else◌, List, [], ◌∷◌, ◌++◌, none,
  some, length, take, map, arith,
}
use pfuzzer.Base.Sets.{contains}
use pfuzzer.Streams.{lines_of, bytes_of}
use pfuzzer.Command.{Text, Command}
use pfuzzer.Merge.{MergeFile}
use pfuzzer.Merge.Cover.{Cover, set_cover_merge}
use pfuzzer.Merge.Cover.Search.{has_place}
use pfuzzer.Merge.Cover.Places.{files_have_place}
use pfuzzer.Merge.Cover.Rounds.{IsOfFile}
use pfuzzer.Merge.Cover.Laws.{set_cover_merge_lem}
use pfuzzer.Merge.Control.{
  Merger, parsed, parse, write_new_control_file, files_to_use, unlines, Target,
}
use pfuzzer.Merge.Control.Accepted.{parse_bounds}
use pfuzzer.Merge.Control.Written.{named_file, parse-write_new_control_file}
use pfuzzer.Merge.Outer.{attempts_loop, inner_process, crash_resistant_merge}
use pfuzzer.Merge.Outer.Laws.{
  IsControl, fresh-IsControl, fresh_lines, attempts_loop_lem, Merges, crash_resistant_merge-Merges,
}

-- The first corpus has feature 1; of the other files `c` has most that are not covered.
abbrev files : List MergeFile
files =
    (record { name = bytes_of "a"; size = 9; features = 1 ∷ []; cov = 1 ∷ [] })
    ∷ (record { name = bytes_of "b"; size = 5; features = 1 ∷ 2 ∷ []; cov = 1 ∷ 2 ∷ [] })
    ∷ (record { name = bytes_of "c"; size = 5; features = 2 ∷ 3 ∷ []; cov = [] })
    ∷ []

set_cover_merge_lem_example :
    (t : Cover) × (set_cover_merge 1 files [] [] ≡ some t)
    × ((has_place 3 [] || files_have_place 3 files)
        ≡ ((has_place 3 [] || files_have_place 3 (take 1 files)) || has_place 3 t.new_features))
    × ((contains 2 t.new_features ≡ false) ⊎ IsOfFile files t.new_files 2)
set_cover_merge_lem_example = set_cover_merge_lem 2 3 1 files [] [] (omega arith)

abbrev olds : List Text
olds = bytes_of "a" ∷ []

abbrev news : List Text
news = bytes_of "b" ∷ bytes_of "c" ∷ []

parse-write_new_control_file_example :
    parse true [] (lines_of (write_new_control_file olds news []).0)
    ≡ parsed (record {
      files = map named_file (files_to_use [] olds ++ files_to_use [] news);
      num_files_in_first_corpus = length (files_to_use [] olds);
      first_not_processed_file = 0;
      last_failure = [];
    })
unfolding write_new_control_file files_to_use
parse-write_new_control_file_example =
    parse-write_new_control_file true olds news [] ((refl, tt), tt) ((refl, tt), ((refl, tt), tt))
      (omega arith) (omega arith)

-- The target crashes on the file with number 1.
abbrev crashing : ℕ → Target
crashing n i u = if i == 1 then none else some (i ∷ [], i ∷ [])

crash_resistant_merge-Merges_example : Merges (
    crash_resistant_merge
      (inner_process (λ name. name) 4096 crashing true)
      (bytes_of "/dev/null")
      []
      olds
      news
      []
      []
      (bytes_of "control")
      false
      true
      [])
crash_resistant_merge-Merges_example =
    crash_resistant_merge-Merges (λ name. name) 4096 crashing (bytes_of "/dev/null") [] olds news []
      [] (bytes_of "control") false true ((refl, tt), tt) ((refl, tt), ((refl, tt), tt))
      (omega arith) (omega arith)

abbrev written : Merger
written = record {
  files = map named_file (files_to_use [] olds ++ files_to_use [] news);
  num_files_in_first_corpus = length (files_to_use [] olds);
  first_not_processed_file = 0;
  last_failure = [];
}

parse_bounds_example :
    (0 < length written.files)
    × (length written.files ≤ 10000000)
    × (written.num_files_in_first_corpus ≤ length written.files)
    × (written.first_not_processed_file ≤ length written.files)
unfolding write_new_control_file files_to_use
parse_bounds_example =
    parse_bounds true [] (lines_of (write_new_control_file olds news []).0) written (
      parse-write_new_control_file true olds news [] ((refl, tt), tt) ((refl, tt), ((refl, tt), tt))
        (omega arith) (omega arith))

abbrev inner_cmd : Command
inner_cmd = record { args = []; combined_out_and_err = false; output_file = [] }

-- Three files, none of them processed, and three attempts.
attempts_loop_lem_example :
    (ls : List (List ℕ)) × (attempts_loop
        (inner_process (λ name. name) 4096 crashing true)
        inner_cmd
        3
        (unlines (fresh_lines olds news))
      ≡ unlines ls)
    × IsControl
        (λ name. name)
        4096
        true
        ls
        (length (files_to_use [] olds ++ files_to_use [] news))
        (length (files_to_use [] olds ++ files_to_use [] news))
unfolding files_to_use
attempts_loop_lem_example =
    attempts_loop_lem (λ name. name) 4096 true crashing inner_cmd 3 (fresh_lines olds news)
      (length (files_to_use [] olds ++ files_to_use [] news)) 0
      (fresh-IsControl (λ name. name) 4096 true olds news ((refl, tt), tt)
        ((refl, tt), ((refl, tt), tt)) (omega arith) (omega arith))
      (omega arith)
