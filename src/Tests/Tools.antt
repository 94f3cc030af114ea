-- ===== src/Tests/Tools.antt =====
-- Command lines, merges and printable text.
use pfuzzer.Base.{
  ℕ, ◌≡◌, refl, ap, List, [], ◌∷◌, ◌++◌, none, some, length, take, drop, arith, false, true, ◌||◌,
  ◌&&◌, not,
}
use pfuzzer.Base.Bytes.{bytes_eq}
use pfuzzer.Base.Sets.{contains}
use pfuzzer.Command.{
  Text, Command, ignore_remaining_args, is_end, remaining_args, mutable_args, end_mutable_args,
  any_of, is_match, add_argument, remove_argument, has_flag, flag_prefix, get_flag_value, add_flag,
  remove_flag,
}
use pfuzzer.Command.Laws.{remaining_args-unchanged, get_flag_value-add_flag}
use pfuzzer.Trace.Counters.{counter_to_feature}
use pfuzzer.Trace.Counters.Laws.{started, counter_to_feature_lem}
use pfuzzer.Streams.{print_number}
use pfuzzer.Flags.{
  int_flag, str_flag, FlagDescription, Flag, number, text, plus, minus, my_stol, parse_value,
  parse_one_flag,
}
use pfuzzer.Flags.Laws.{flag_argument, my_stol-print_number, parse_one_flag_lem}
use pfuzzer.Merge.{MergeFile, Merged, merge}
use pfuzzer.Merge.Laws.{has_feature, has_cov, merge-contains}

abbrev runs : Text
runs = b'r' ∷ b'u' ∷ b'n' ∷ b's' ∷ []

-- `f -runs=1 -ignore_remaining_args=1 -runs=2`.
abbrev command : Command
command = record {
  args =
      (b'f' ∷ [])
      ∷ (b'-' ∷ (runs ++ (b'=' ∷ b'1' ∷ [])))
      ∷ ignore_remaining_args
      ∷ (b'-' ∷ (runs ++ (b'=' ∷ b'2' ∷ [])))
      ∷ [];
  combined_out_and_err = false;
  output_file = [];
}

abbrev seed : Text
seed = b's' ∷ b'e' ∷ b'e' ∷ b'd' ∷ []

remaining_args-unchanged_example :
    (remaining_args (add_argument seed command) ≡ remaining_args command)
    × (remaining_args (remove_argument seed command) ≡ remaining_args command)
    × (remaining_args (remove_flag runs command) ≡ remaining_args command)
unfolding is_end bytes_eq
remaining_args-unchanged_example = remaining_args-unchanged seed runs command refl

get_flag_value-add_flag_example :
    get_flag_value seed (add_flag seed (b'7' ∷ []) command) ≡ b'7' ∷ []
unfolding is_end bytes_eq has_flag any_of is_match flag_prefix mutable_args end_mutable_args
get_flag_value-add_flag_example = get_flag_value-add_flag seed (b'7' ∷ []) command refl refl

-- The first corpus has feature 1; two files of another add 2, one of them 3.
abbrev files : List MergeFile
files =
    (record { name = b'a' ∷ []; size = 9; features = 1 ∷ []; cov = 1 ∷ [] })
    ∷ (record { name = b'b' ∷ []; size = 5; features = 1 ∷ 2 ∷ []; cov = 1 ∷ 2 ∷ [] })
    ∷ (record { name = b'c' ∷ []; size = 5; features = 1 ∷ 2 ∷ 3 ∷ []; cov = [] })
    ∷ []

merge-contains_example :
    (t : Merged) × (merge 1 files [] (1 ∷ []) ≡ some t)
    × (contains 2 t.new_features
        ≡ (has_feature 2 (drop 1 files) && not (has_feature 2 (take 1 files) || contains 2 [])))
    × (contains 2 t.new_cov ≡ (has_cov 2 (drop 1 files) && not (contains 2 (1 ∷ []))))
merge-contains_example = merge-contains 2 1 files [] (1 ∷ []) (omega arith)

counter_to_feature_example : counter_to_feature 20 ≡ some 5
unfolding started
counter_to_feature_example = counter_to_feature_lem 20 (omega arith)

my_stol-print_number_example :
    (my_stol (print_number 12) ≡ some (plus 12))
    × (my_stol (b'-' ∷ print_number 12) ≡ some (minus 12))
    × (my_stol (b'-' ∷ (print_number 12 ++ (b'k' ∷ []))) ≡ some (plus 12))
my_stol-print_number_example = my_stol-print_number 12 b'k' [] (omega arith) refl

-- `-runs=7`, after a flag with the name `x`.
abbrev other_flag : Flag
other_flag = (record { name = b'x' ∷ []; kind = str_flag; default = 0 }, text none)

parse_one_flag_lem_example :
    let d : FlagDescription = record { name = runs; kind = int_flag; default = 0 } in
    parse_one_flag (flag_argument runs (b'7' ∷ [])) (other_flag ∷ (d, number 0) ∷ [])
    ≡ some (true, other_flag ∷ (d, number 7) ∷ [])
unfolding parse_value
parse_one_flag_lem_example =
    parse_one_flag_lem b'r' (b'u' ∷ b'n' ∷ b's' ∷ []) (b'7' ∷ []) (other_flag ∷ []) [] int_flag 0
      (number 0) (number 7) refl (refl, (refl, (refl, (refl, tt))))
      (((refl, tt), λ e. absurd (omega (arith, ap (length {A = ℕ}) e))), tt) refl
