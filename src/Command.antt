-- ===== src/Command.antt =====
-- FuzzerCommand.h: a command line, whose arguments from `-ignore_remaining_args=1` on are left
-- alone. Strings are lists of bytes.
pub mod Laws
use pfuzzer.Base.{
  ℕ, zero, suc, ◌+◌, ◌-◌, ◌==◌, ◌||◌, not, Bool, true, false, if◌then◌else◌, List, [], ◌∷◌, ◌++◌,
  Option, none, some, length, take, drop,
}
use pfuzzer.Base.Bytes.{bytes_eq}

abbrev pub Text : Type 0
Text = List ℕ

-- `-ignore_remaining_args=1`.
abbrev pub ignore_remaining_args : Text
ignore_remaining_args =
    b'-' ∷ b'i' ∷ b'g' ∷ b'n' ∷ b'o' ∷ b'r' ∷ b'e' ∷ b'_' ∷ b'r' ∷ b'e' ∷ b'm' ∷ b'a' ∷ b'i' ∷ b'n'
    ∷ b'i' ∷ b'n' ∷ b'g' ∷ b'_' ∷ b'a' ∷ b'r' ∷ b'g' ∷ b's' ∷ b'=' ∷ b'1' ∷ []

pub record Command : Type 0 where
  pub args : List Text
  pub combined_out_and_err : Bool
  pub output_file : Text

unfoldable pub is_end : Text → Bool
unfolding bytes_eq
is_end a = bytes_eq a ignore_remaining_args

-- `endMutableArgs`: the index that the iterator stands at.
unfoldable pub end_mutable_args : List Text → ℕ
unfolding is_end
end_mutable_args [] = 0
end_mutable_args (a ∷ as') = let n = end_mutable_args as' in if is_end a then 0 else suc n

-- `std::find` over a range, whether it found something.
unfoldable pub any_of : (Text → Bool) → List Text → Bool
any_of p [] = false
any_of p (a ∷ as') = p a || any_of p as'

-- `std::remove_if` over a range.
unfoldable pub remove_if : (Text → Bool) → List Text → List Text
remove_if p [] = []
remove_if p (a ∷ as') = let rest = remove_if p as' in if p a then rest else a ∷ rest

unfoldable pub find_if : (Text → Bool) → List Text → Option Text
find_if p [] = none
find_if p (a ∷ as') = let rest = find_if p as' in if p a then some a else rest

-- The arguments before the end, and the others.
unfoldable pub mutable_args : Command → List Text
unfolding end_mutable_args
mutable_args c = take (end_mutable_args c.args) c.args

unfoldable pub remaining_args : Command → List Text
unfolding end_mutable_args
remaining_args c = drop (end_mutable_args c.args) c.args

unfoldable pub has_argument : Text → Command → Bool
unfolding any_of mutable_args
has_argument arg c = any_of (λ a. bytes_eq a arg) (mutable_args c)

unfoldable pub add_arguments : List Text → Command → Command
unfolding mutable_args remaining_args
add_arguments args c = record c { args = mutable_args c ++ (args ++ remaining_args c) }

unfoldable pub add_argument : Text → Command → Command
unfolding mutable_args remaining_args
add_argument arg c = record c { args = mutable_args c ++ (arg ∷ remaining_args c) }

unfoldable pub remove_argument : Text → Command → Command
unfolding remove_if mutable_args remaining_args
remove_argument arg c = record c {
  args = remove_if (λ a. bytes_eq a arg) (mutable_args c) ++ remaining_args c;
}

-- `"-" + Flag + "="`.
unfoldable pub flag_prefix : Text → Text
flag_prefix flag = b'-' ∷ (flag ++ (b'=' ∷ []))

-- `Arg.compare(0, npos, Other, 0, Arg.length()) == 0`.
unfoldable pub is_match : Text → Text → Bool
unfolding bytes_eq
is_match arg other = bytes_eq arg (take (length arg) other)

unfoldable pub has_flag : Text → Command → Bool
unfolding any_of is_match flag_prefix mutable_args
has_flag flag c = any_of (is_match (flag_prefix flag)) (mutable_args c)

-- `j->substr(Arg.length())`, or the empty string.
unfoldable pub value_after : Text → Option Text → Text
value_after arg none = []
value_after arg (some a) = drop (length arg) a

unfoldable pub get_flag_value : Text → Command → Text
unfolding find_if is_match flag_prefix mutable_args value_after
get_flag_value flag c =
    value_after (flag_prefix flag) (find_if (is_match (flag_prefix flag)) (mutable_args c))

unfoldable pub add_flag : Text → Text → Command → Command
unfolding add_argument flag_prefix
add_flag flag value c = add_argument (flag_prefix flag ++ value) c

unfoldable pub remove_flag : Text → Command → Command
unfolding remove_if is_match flag_prefix mutable_args remaining_args
remove_flag flag c = record c {
  args = remove_if (is_match (flag_prefix flag)) (mutable_args c) ++ remaining_args c;
}

unfoldable pub set_output_file : Text → Command → Command
set_output_file file c = record c { output_file = file }

unfoldable pub combine_out_and_err : Bool → Command → Command
combine_out_and_err b c = record c { combined_out_and_err = b }

-- Every argument, and a space after each.
unfoldable pub spaced : List Text → Text
spaced [] = []
spaced (a ∷ as') = a ++ (b' ' ∷ spaced as')

-- Without its last character.
unfoldable pub drop_last : Text → Text
drop_last [] = []
drop_last (c ∷ []) = []
drop_last (c ∷ d ∷ cs) = c ∷ drop_last (d ∷ cs)

unfoldable pub to_string : Command → Text
unfolding spaced drop_last
to_string c = drop_last (
    spaced c.args
    ++ ((if length c.output_file == 0 then [] else b'>' ∷ (c.output_file ++ (b' ' ∷ [])))
        ++ (if c.combined_out_and_err then b'2' ∷ b'>' ∷ b'&' ∷ b'1' ∷ b' ' ∷ [] else [])))
