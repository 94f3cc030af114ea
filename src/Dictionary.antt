-- ===== src/Dictionary.antt =====
-- FuzzerDictionary.h: words of at most 64 bytes, dictionary entries, and dictionaries, which are
-- the used part of an array of 2^14 entries.
pub mod Laws
use pfuzzer.Base.{
  ℕ, zero, suc, ◌+◌, ◌-◌, ◌^◌, ltb, leb, ◌==◌, ◌&&◌, ◌||◌, not, Bool, true, false, if◌then◌else◌,
  List, [], ◌∷◌, ◌++◌, ◌%◌, Option, none, some, length, take, get_elem?,
}
use pfuzzer.Base.Bytes.{bytes_eq}

-- The bytes that are in use.
abbrev pub Word : Type 0
Word = List ℕ

abbrev pub max_word_size : ℕ
max_word_size = 64

-- `FixedWord::Set` on `size` bytes of an array.
unfoldable pub word_set : List ℕ → ℕ → Option Word
word_set bytes size =
    if leb size max_word_size && leb size (length bytes) then some (take size bytes) else none

abbrev pub no_hint : ℕ
no_hint = 2 ^ 64 - 1

pub record Entry : Type 0 where
  pub word : Word
  pub position_hint : ℕ
  pub use_count : ℕ
  pub success_count : ℕ

unfoldable pub entry_of : Word → Entry
entry_of w = record { word = w; position_hint = no_hint; use_count = 0; success_count = 0 }

unfoldable pub entry_at : Word → ℕ → Entry
entry_at w hint = record { word = w; position_hint = hint; use_count = 0; success_count = 0 }

unfoldable pub has_position_hint : Entry → Bool
has_position_hint e = not (e.position_hint == no_hint)

unfoldable pub get_position_hint : Entry → Option ℕ
unfolding has_position_hint
get_position_hint e = if has_position_hint e then some e.position_hint else none

unfoldable pub inc_use_count : Entry → Entry
inc_use_count e = record e { use_count = (e.use_count + 1) % 2 ^ 64 }

unfoldable pub inc_success_count : Entry → Entry
inc_success_count e = record e { success_count = (e.success_count + 1) % 2 ^ 64 }

abbrev pub Dictionary : Type 0
Dictionary = List Entry

abbrev pub max_dict_size : ℕ
max_dict_size = 2 ^ 14

unfoldable pub contains_word : Dictionary → Word → Bool
contains_word [] w = false
contains_word (e ∷ es) w = bytes_eq e.word w || contains_word es w

-- `operator[]`, with its assertion.
unfoldable pub entry_get : Dictionary → ℕ → Option Entry
entry_get d idx = get_elem? d idx

unfoldable pub push_back : Dictionary → Entry → Dictionary
push_back d e = if ltb (length d) max_dict_size then d ++ (e ∷ []) else d
