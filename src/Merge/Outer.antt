-- ===== src/Merge/Outer.antt =====
-- `CrashResistantMerge` of FuzzerMerge.cpp, the process that starts the inner ones. The inner process
-- is a function of its number, its command and the control file, which it may change.
pub mod Laws
use pfuzzer.Base.{
  ℕ, zero, suc, ◌+◌, ◌-◌, leb, ◌==◌, ◌&&◌, not, Bool, true, false, if◌then◌else◌, List, [], ◌∷◌,
  ◌++◌, Option, none, some, length, map,
}
use pfuzzer.Streams.{bytes_of, lines_of}
use pfuzzer.Command.{Command, Text, remove_flag, add_flag, set_output_file, combine_out_and_err}
use pfuzzer.Merge.{MergeFile, Merged, merge}
use pfuzzer.Merge.Control.{
  Merger, Outcome, refused, faulted, parsed, parse, write_new_control_file, unlines, Target,
  internal_step,
}
use pfuzzer.Merge.Cover.{Cover, set_cover_merge}

-- How `CrashResistantMerge` ends.
pub data Ending : Type 0 where
  nothing_to_merge : Ending
  exits : ℕ → Ending
  faults : Ending
  merges : (new_files : List Text) → (new_features new_cov : List ℕ) → Ending

-- What it takes from a control file that is there: to exit, or the known files and the attempts.
pub data Resumed : Type 0 where
  completed : Resumed
  broken : Resumed
  resumed : List MergeFile → ℕ → Resumed

unfoldable pub resume : ℕ → List ℕ → Resumed
unfolding parse lines_of
resume num_inputs content =
    let read : Resumed = elim (parse true [] (lines_of content)) [
      | refused ↦ resumed [] 0
      | faulted ↦ broken
      | parsed m ↦
          if leb (length m.files) m.first_not_processed_file
          then (if length m.files == num_inputs then completed else resumed m.files 0)
          else resumed [] (length m.files - m.first_not_processed_file)
    ] in
    if length content == 0 then resumed [] 0 else read

-- The command of every attempt.
unfoldable pub inner_command : List Text → Text → Bool → Bool → Text → Command
unfolding remove_flag add_flag set_output_file combine_out_and_err
inner_command args cf_path verbose is_set_cover dev_null =
    let base = remove_flag (bytes_of "collect_data_flow") (
      remove_flag (bytes_of "fork") (
        remove_flag (bytes_of "set_cover_merge") (
          remove_flag (bytes_of "merge")
            (record { args = args; combined_out_and_err = false; output_file = [] })))) in
    let cmd =
      add_flag (bytes_of "merge_inner") (if is_set_cover then bytes_of "2" else bytes_of "1")
        (add_flag (bytes_of "merge_control_file") cf_path base) in
    if verbose then cmd else combine_out_and_err true (set_output_file dev_null cmd)

module _ (execute : ℕ → Command → List ℕ → Bool × List ℕ) (cmd : Command) where
  -- The loop of the attempts that are left: the control file after it. An inner process returns
  -- whether its exit code is 0, and the control file.
  unfoldable pub attempts_loop : ℕ → List ℕ → List ℕ
  attempts_loop zero content = content
  attempts_loop (suc n) content =
      let (passed, content') = execute n cmd content in
      elim passed [ true ↦ content' | false ↦ attempts_loop n content' ]

unfoldable pub ending_of_cover : Option Cover → Ending
ending_of_cover none = faults
ending_of_cover (some t) = merges t.new_files t.new_features t.new_cov

unfoldable pub ending_of_merge : Option Merged → Ending
ending_of_merge none = faults
ending_of_merge (some t) = merges t.new_files t.new_features t.new_cov

-- The merge after the attempts.
unfoldable pub final_merge : Bool → List MergeFile → List ℕ → List ℕ → Outcome Merger → Ending
unfolding ending_of_cover ending_of_merge set_cover_merge merge
final_merge is_set_cover known initial_features initial_cov refused = exits 1
final_merge is_set_cover known initial_features initial_cov faulted = faults
final_merge is_set_cover known initial_features initial_cov (parsed m) =
    let files = m.files ++ known in
    if is_set_cover
    then ending_of_cover
        (set_cover_merge m.num_files_in_first_corpus files initial_features initial_cov)
    else ending_of_merge (merge m.num_files_in_first_corpus files initial_features initial_cov)

unfoldable pub run_merge :
    (ℕ → Command → List ℕ → Bool × List ℕ)
    → Command
    → ℕ
    → List ℕ
    → Bool
    → List MergeFile
    → List ℕ
    → List ℕ
    → Ending
unfolding attempts_loop final_merge parse lines_of
run_merge execute cmd attempts content is_set_cover known initial_features initial_cov =
    final_merge is_set_cover known initial_features initial_cov
      (parse true [] (lines_of (attempts_loop execute cmd attempts content)))

-- The known files and the attempts that `resume` found, or a fresh control file.
unfoldable pub start_merge :
    (ℕ → Command → List ℕ → Bool × List ℕ)
    → Command
    → List Text
    → List Text
    → List ℕ
    → Bool
    → List ℕ
    → List ℕ
    → Resumed
    → Ending
unfolding run_merge write_new_control_file
start_merge execute cmd old new content is_set_cover features cov completed = exits 0
start_merge execute cmd old new content is_set_cover features cov broken = faults
start_merge execute cmd old new content is_set_cover features cov (resumed known n) =
    let (fresh, m) = write_new_control_file old new known in
    if n == 0
    then run_merge execute cmd m fresh is_set_cover known features cov
    else run_merge execute cmd n content is_set_cover known features cov

-- `CrashResistantMerge`, with the names of the inputs and the control file that is there.
unfoldable pub crash_resistant_merge :
    (ℕ → Command → List ℕ → Bool × List ℕ)
    → Text
    → List Text
    → List Text
    → List Text
    → List ℕ
    → List ℕ
    → Text
    → Bool
    → Bool
    → List ℕ
    → Ending
unfolding resume start_merge
crash_resistant_merge execute dev_null args old new features cov cf_path verbose is_set_cover
      content =
    if length new == 0 && length old == 0
    then nothing_to_merge
    else start_merge execute (inner_command args cf_path verbose is_set_cover dev_null) old new
        content is_set_cover features cov (resume (length old + length new) content)

-- An inner process as `CrashResistantMergeInternalStep` runs it: it appends what it flushed. The
-- target's runs may differ from process to process.
module _ (content : List ℕ → List ℕ) (max_input_len : ℕ) (runs : ℕ → Target)
    (is_set_cover : Bool) where
  unfoldable pub inner_process : ℕ → Command → List ℕ → Bool × List ℕ
  unfolding internal_step unlines lines_of
  inner_process n cmd text =
      elim (internal_step content max_input_len (runs n) is_set_cover (lines_of text)) [
        | refused ↦ (false, text)
        | faulted ↦ (false, text)
        | parsed (more, ended) ↦ (ended, text ++ unlines more)
      ]
