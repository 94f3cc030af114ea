-- ===== src/Flags.antt =====
-- The flags of FuzzerDriver.cpp: `FlagValue`, `MyStol`, `ParseOneFlag` and `ParseFlags`. The table of
-- flags, which FuzzerFlags.def generates, is a parameter; an `int` is kept as its bit pattern.
pub mod Laws
use pfuzzer.Base.{
  ℕ, zero, suc, ◌+◌, ◌-◌, ◌*◌, ◌%◌, ◌^◌, leb, ltb, ◌==◌, ◌&&◌, ◌||◌, not, Bool, true, false,
  if◌then◌else◌, List, [], ◌∷◌, ◌++◌, Option, none, some,
}
use pfuzzer.Base.Bytes.{bytes_eq}
use pfuzzer.Command.{Text}
use pfuzzer.Streams.{bytes_of, is_digit, Extract, got, nothing, bad, read_number}

-- What a flag points to.
pub data FlagKind : Type 0 where
  int_flag : FlagKind
  uint_flag : FlagKind
  str_flag : FlagKind
  deprecated : FlagKind

-- `FlagDescription`, with the default as a bit pattern.
pub record FlagDescription : Type 0 where
  pub name : Text
  pub kind : FlagKind
  pub default : ℕ

-- The value of a flag; a string may be the null pointer.
pub data Value : Type 0 where
  number : ℕ → Value
  text : Option Text → Value
  no_value : Value

-- A name with its value.
abbrev pub Flag : Type 0
Flag = FlagDescription × Value

unfoldable pub strip_prefix : Text → Text → Option Text
strip_prefix [] s = some s
strip_prefix (x ∷ xs) [] = none
strip_prefix (x ∷ xs) (y ∷ ys) = if x == y then strip_prefix xs ys else none

unfoldable pub after_equals : Option Text → Option Text
after_equals none = none
after_equals (some []) = none
after_equals (some (c ∷ cs)) = if c == b'=' then some cs else none

-- `FlagValue`.
unfoldable pub flag_value : Text → Text → Option Text
unfolding strip_prefix after_equals
flag_value [] name = none
flag_value (c ∷ cs) name = if c == b'-' then after_equals (strip_prefix name cs) else none

-- A `long`: a sign and a number.
pub data Long : Type 0 where
  plus : ℕ → Long
  minus : ℕ → Long

unfoldable pub signed : Bool → ℕ → Long
signed negative n = if negative then minus n else plus n

-- The loop of `MyStol`; `none` stands for an overflow. A sign is lost where a character is no digit.
unfoldable pub stol_loop : Bool → ℕ → Text → Option Long
unfolding signed
stol_loop negative res [] = some (signed negative res)
stol_loop negative res (c ∷ cs) =
    let res' = res * 10 + (c - b'0') in
    let next = stol_loop negative res' cs in
    if not (is_digit c) then some (plus res) else if ltb res' (2 ^ 63) then next else none

unfoldable pub my_stol : Text → Option Long
unfolding stol_loop
my_stol [] = some (plus 0)
my_stol (c ∷ cs) = if c == b'-' then stol_loop true 0 cs else stol_loop false 0 (c ∷ cs)

-- `static_cast<int>`, as a bit pattern.
unfoldable pub to_int : Long → ℕ
to_int (plus n) = n % 2 ^ 32
to_int (minus n) = (2 ^ 32 - n % 2 ^ 32) % 2 ^ 32

unfoldable pub int_value : Option Long → Option Value
unfolding to_int
int_value none = none
int_value (some v) = some (number (to_int v))

-- `std::stoul`, which throws where no number is there, and `static_cast<unsigned>`.
unfoldable pub uint_value : Extract → Option Value
uint_value (got n rest) = some (number (n % 2 ^ 32))
uint_value nothing = none
uint_value (bad n) = none

-- The new value of a flag that is given as `str`.
unfoldable pub parse_value : FlagKind → Text → Value → Option Value
unfolding my_stol int_value uint_value read_number
parse_value int_flag str v = int_value (my_stol str)
parse_value uint_flag str v = uint_value (read_number 64 str)
parse_value str_flag str v = some (text (some str))
parse_value deprecated str v = some v

unfoldable pub cons_flag : Flag → Option (List Flag) → Option (List Flag)
cons_flag f none = none
cons_flag f (some fs) = some (f ∷ fs)

unfoldable pub set_value : FlagDescription → List Flag → Option Value → Option (List Flag)
set_value d fs none = none
set_value d fs (some v) = some ((d, v) ∷ fs)

-- The loop over the flags, of which the first that fits is set.
unfoldable pub set_flag : Text → List Flag → Option (List Flag)
unfolding flag_value parse_value cons_flag set_value
set_flag param [] = some []
set_flag param ((d, v) ∷ fs) = elim (flag_value param d.name) [
  | none ↦ cons_flag (d, v) (set_flag param fs)
  | some str ↦ set_value d fs (parse_value d.kind str v)
]

-- `ParseOneFlag` on a parameter that starts with a dash: the flags afterwards.
unfoldable pub parse_dashed : Text → List Flag → Option (List Flag)
unfolding set_flag
parse_dashed [] fs = set_flag (b'-' ∷ []) fs
parse_dashed (c ∷ cs) fs = if c == b'-' then some fs else set_flag (b'-' ∷ (c ∷ cs)) fs

-- `ParseOneFlag`: whether the parameter is a flag, and the flags afterwards.
unfoldable pub parse_one_flag : Text → List Flag → Option (Bool × List Flag)
unfolding parse_dashed
parse_one_flag [] fs = some (false, fs)
parse_one_flag (c ∷ cs) fs =
    let dashed : Option (Bool × List Flag) = elim (parse_dashed cs fs) [
      | none ↦ none
      | some gs ↦ some (true, gs)
    ] in
    if c == b'-' then dashed else some (false, fs)

unfoldable pub is_set : Text → List Flag → Bool
unfolding bytes_eq
is_set name [] = false
is_set name ((d, number n) ∷ fs) = (bytes_eq d.name name && not (n == 0)) || is_set name fs
is_set name ((d, text t) ∷ fs) = is_set name fs
is_set name ((d, no_value) ∷ fs) = is_set name fs

-- The loop of `ParseFlags` over the arguments: the flags, and the inputs.
unfoldable pub parse_args : List Text → List Flag → List Text → Option (List Flag × List Text)
unfolding parse_one_flag is_set
parse_args [] fs inputs = some (fs, inputs)
parse_args (a ∷ as') fs inputs = elim (parse_one_flag a fs) [
  | none ↦ none
  | some (b, gs) ↦ elim b [
    | true ↦ elim (is_set (bytes_of "ignore_remaining_args") gs) [
      | true ↦ some (gs, inputs)
      | false ↦ parse_args as' gs inputs
    ]
    | false ↦ parse_args as' gs (inputs ++ (a ∷ []))
  ]
]

unfoldable pub default_value : FlagDescription → Bool → Value
unfolding bytes_eq
default_value d custom =
    let n = if custom && bytes_eq d.name (bytes_of "len_control") then 0 else d.default in
    elim d.kind [
      | int_flag ↦ number n
      | uint_flag ↦ number n
      | str_flag ↦ text none
      | deprecated ↦ no_value
    ]

unfoldable pub default_flags : Bool → List FlagDescription → List Flag
unfolding default_value
default_flags custom [] = []
default_flags custom (d ∷ ds) = (d, default_value d custom) ∷ default_flags custom ds

-- `ParseFlags` on the arguments after the program's name; `custom` tells whether the target has
-- a custom mutator.
unfoldable pub parse_flags :
    Bool → List FlagDescription → List Text → Option (List Flag × List Text)
unfolding parse_args default_flags
parse_flags custom ds args = parse_args args (default_flags custom ds) []
