-- ===== src/Base64.antt =====
-- `Base64` of FuzzerUtil.cpp. The characters are bytes; `|` of the bytes at their places is a sum, since
-- they have no bits in common.
pub mod Laws
use pfuzzer.Base.{ℕ, ◌+◌, ◌*◌, ◌/◌, ◌%◌, ◌^◌, List, [], ◌∷◌, ◌++◌, Option, none, some, get_elem?}
use pfuzzer.Command.{Text}
use pfuzzer.Streams.{bytes_of}

abbrev pub table : Text
table = bytes_of "ABCDEFGHIJKLMNOPQRSTUVWXYZabcdefghijklmnopqrstuvwxyz0123456789+/"

-- `Table[x & 63]`; the table has 64 characters.
unfoldable pub sextet : ℕ → ℕ
sextet x = elim (get_elem? table (x % 64)) [ none ↦ 0 | some c ↦ c ]

-- `Base64`.
unfoldable pub base64 : List ℕ → Text
unfolding sextet
base64 [] = []
base64 (a ∷ []) = let x = a * 2 ^ 16 in sextet (x / 2 ^ 18) ∷ sextet (x / 2 ^ 12) ∷ b'=' ∷ b'=' ∷ []
base64 (a ∷ b ∷ []) =
    let x = a * 2 ^ 16 + b * 2 ^ 8 in
    sextet (x / 2 ^ 18) ∷ sextet (x / 2 ^ 12) ∷ sextet (x / 2 ^ 6) ∷ b'=' ∷ []
base64 (a ∷ b ∷ c ∷ us) =
    let x = a * 2 ^ 16 + b * 2 ^ 8 + c in
    sextet (x / 2 ^ 18) ∷ sextet (x / 2 ^ 12) ∷ sextet (x / 2 ^ 6) ∷ sextet x ∷ base64 us
