-- ===== src/Util.antt =====
-- FuzzerUtil.cpp: printable characters and the hash of byte strings.
pub mod Entries
pub mod Files
pub mod Laws
use pfuzzer.Base.{
  ℕ, zero, suc, ◌+◌, ◌*◌, ◌%◌, ◌^◌, ltb, leb, ◌==◌, ◌&&◌, ◌||◌, Bool, true, false, if◌then◌else◌,
  List, [], ◌∷◌, Option, none, some,
}

-- `isspace` and `isprint` of the C locale.
abbrev pub isspace : ℕ → Bool
isspace c = (leb 9 c && leb c 13) || c == 32

abbrev pub isprint : ℕ → Bool
isprint c = leb 32 c && leb c 126

-- One round of `ToASCII`.
unfoldable pub to_ascii_byte : ℕ → ℕ
to_ascii_byte x = let y = x % 128 in if isspace y || isprint y then y else 32

-- `ToASCII`: the array afterwards.
unfoldable pub to_ascii : List ℕ → ℕ → Option (List ℕ)
unfolding to_ascii_byte
to_ascii xs zero = some xs
to_ascii [] (suc n) = none
to_ascii (x ∷ xs) (suc n) = elim (to_ascii xs n) [
  | none ↦ none
  | some ys ↦ some (to_ascii_byte x ∷ ys)
]

-- `IsASCII`.
unfoldable pub is_ascii : List ℕ → Bool
is_ascii [] = true
is_ascii (x ∷ xs) = (isprint x || isspace x) && is_ascii xs

-- `SimpleFastHash`, 64 bits wide.
unfoldable pub simple_fast_hash : List ℕ → ℕ → ℕ
simple_fast_hash [] res = res
simple_fast_hash (x ∷ xs) res = simple_fast_hash xs ((res * 11 + x) % 2 ^ 64)
