-- ===== src/Util/Entries.antt =====
-- `ParseOneDictionaryEntry` and `PrintASCII` of FuzzerUtil.cpp. A range of the string is the list of
-- its characters, which are bytes; `none` stands for the result `false`.
pub mod Laws
use pfuzzer.Base.{
  ℕ, zero, suc, ◌+◌, ◌-◌, ◌*◌, ◌/◌, ◌%◌, leb, ltb, ◌==◌, ◌&&◌, ◌||◌, not, Bool, if◌then◌else◌, List,
  [], ◌∷◌, ◌++◌, Option, none, some, length,
}
use mathlib.Core.List.{reverse}
use pfuzzer.Util.{isspace, isprint}

-- `isxdigit`.
abbrev pub isxdigit : ℕ → Bool
isxdigit c = (leb 48 c && leb c 57) || (leb 65 c && leb c 70) || (leb 97 c && leb c 102)

-- The value of a hexadecimal digit, as `strtol` reads it.
unfoldable pub hex_value : ℕ → ℕ
hex_value c = if leb c 57 then c - 48 else if leb c 70 then c - 55 else c - 87

-- The loops that move `L` or `R` over characters of a kind, while `L < R`.
unfoldable pub skip_while : (ℕ → Bool) → List ℕ → List ℕ
skip_while p [] = []
skip_while p (x ∷ []) = x ∷ []
skip_while p (x ∷ y ∷ ys) = if p x then skip_while p (y ∷ ys) else x ∷ y ∷ ys

unfoldable pub hex_escape : List ℕ → Option (ℕ × List ℕ)
unfolding hex_value
hex_escape [] = none
hex_escape (a ∷ []) = none
hex_escape (a ∷ b ∷ cs) =
    if isxdigit a && isxdigit b then some (hex_value a * 16 + hex_value b, cs) else none

-- What follows a backslash: the byte that it stands for, and the characters after it.
unfoldable pub escape : List ℕ → Option (ℕ × List ℕ)
unfolding hex_escape
escape [] = none
escape (c ∷ cs) =
    if c == 92 || c == 34 then some (c, cs) else if c == 120 then hex_escape cs else none

unfoldable pub push : ℕ → Option (List ℕ) → Option (List ℕ)
push b none = none
push b (some u) = some (b ∷ u)

-- The loop over the characters between the quotes, on fuel.
unfoldable pub parse_body : ℕ → List ℕ → Option (List ℕ)
unfolding push escape
parse_body n [] = some []
parse_body zero (v ∷ vs) = none
parse_body (suc n) (v ∷ vs) =
    let plain = push v (parse_body n vs) in
    let escaped : Option (List ℕ) = elim (escape vs) [
      | none ↦ none
      | some (b, ws) ↦ push b (parse_body n ws)
    ] in
    if not (isprint v || isspace v) then none else if v == 92 then escaped else plain

-- The part from the opening quote on, without the closing one.
unfoldable pub parse_opened : List ℕ → Option (List ℕ)
unfolding parse_body
parse_opened [] = none
parse_opened (q ∷ []) = none
parse_opened (q ∷ b ∷ bs) = parse_body (length (b ∷ bs)) (b ∷ bs)

-- The part up to the closing quote, back to front.
unfoldable pub parse_closed : List ℕ → Option (List ℕ)
unfolding skip_while parse_opened
parse_closed [] = none
parse_closed (q ∷ rs) =
    let opened = parse_opened (skip_while (λ c. not (c == 34)) (reverse rs)) in
    if ltb (length (q ∷ rs)) 3 then none else if q == 34 then opened else none

-- `ParseOneDictionaryEntry`.
unfoldable pub parse_one_dictionary_entry : List ℕ → Option (List ℕ)
unfolding skip_while parse_closed
parse_one_dictionary_entry str =
    parse_closed (skip_while isspace (reverse (skip_while isspace str)))

-- `PrintASCIIByte`: the characters that it prints.
unfoldable pub print_ascii_byte : ℕ → List ℕ
print_ascii_byte b =
    if b == 92
    then 92 ∷ 92 ∷ []
    else if b == 34
    then 92 ∷ 34 ∷ []
    else if leb 32 b && ltb b 127
    then b ∷ []
    else 92 ∷ (48 + b / 64) ∷ (48 + b / 8 % 8) ∷ (48 + b % 8) ∷ []

-- `PrintASCII`, before `PrintAfter`.
unfoldable pub print_ascii : List ℕ → List ℕ
unfolding print_ascii_byte
print_ascii [] = []
print_ascii (b ∷ bs) = print_ascii_byte b ++ print_ascii bs
