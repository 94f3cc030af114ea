-- ===== src/Base64/Laws.antt =====
-- A decoder gives back what `Base64` encodes.
use pfuzzer.Base.{
  ℕ, ◌+◌, ◌-◌, ◌*◌, ◌/◌, ◌%◌, ◌^◌, ◌<◌, ◌≡◌, refl, leb, ◌==◌, ◌&&◌, not, Bool, true, false,
  if◌then◌else◌, List, [], ◌∷◌, length, All, arith, get_elem?, none, some, ap, ap₂, sym, ◌∙◌,
  and-true, ==→eq,
}
use pfuzzer.Base.Below.{checked, checked_lem}
use pfuzzer.Base.Memory.{IsByte}
use pfuzzer.Command.{Text}
use pfuzzer.Base64.{table, sextet, base64}

-- The number that a character of RFC 4648 stands for; padding counts as 0.
abbrev pub digit_value : ℕ → ℕ
digit_value c =
    if leb b'A' c && leb c b'Z'
    then c - b'A'
    else if leb b'a' c && leb c b'z'
    then c - b'a' + 26
    else if leb b'0' c && leb c b'9'
    then c - b'0' + 52
    else if c == b'+'
    then 62
    else if c == b'/'
    then 63
    else 0

-- A decoder: four characters stand for three bytes, less one for each character of padding.
abbrev pub decode : Text → List ℕ
decode [] = []
decode (p ∷ []) = []
decode (p ∷ q ∷ []) = []
decode (p ∷ q ∷ r ∷ []) = []
decode (p ∷ q ∷ r ∷ s ∷ ts) =
    let x =
      digit_value p * 2 ^ 18 + digit_value q * 2 ^ 12 + digit_value r * 2 ^ 6 + digit_value s in
    let more = decode ts in
    if r == b'='
    then x / 2 ^ 16 ∷ []
    else if s == b'='
    then x / 2 ^ 16 ∷ x / 2 ^ 8 % 2 ^ 8 ∷ []
    else x / 2 ^ 16 ∷ x / 2 ^ 8 % 2 ^ 8 ∷ x % 2 ^ 8 ∷ more

is_sextet : ℕ → Bool
is_sextet x = (digit_value (sextet x) == x) && not (sextet x == b'=')

all_sextets : checked is_sextet 64 ≡ true
unfolding checked is_sextet sextet
all_sextets = refl

flip_lem : (b : Bool) → not b ≡ true → b ≡ false
flip_lem true h = sym h
flip_lem false h = refl

sextet-mod : (x : ℕ) → sextet (x % 64) ≡ sextet x
unfolding sextet
sextet-mod x =
    let e : x % 64 % 64 ≡ x % 64 = omega arith in
    ap (λ y. elim (get_elem? table y) [ none ↦ 0 | some c ↦ c ]) e

-- A character stands for the last six bits, and is no padding.
sextet_lem : (x : ℕ) → (digit_value (sextet x) ≡ x % 64) × ((sextet x == b'=') ≡ false)
unfolding is_sextet
sextet_lem x =
    let (same, other) =
      and-true _ _ (checked_lem is_sextet 64 all_sextets (x % 64) (omega arith)) in
    let value = ==→eq (digit_value (sextet (x % 64))) (x % 64) same in
    let no_padding = flip_lem (sextet (x % 64) == b'=') other in
    (
      sym (ap digit_value (sextet-mod x)) ∙ value,
      sym (ap (λ c. c == b'=') (sextet-mod x)) ∙ no_padding,
    )

quad_lem :
    (x : ℕ)
    → x < 2 ^ 24
    → x / 2 ^ 18 % 64 * 2 ^ 18 + x / 2 ^ 12 % 64 * 2 ^ 12 + x / 2 ^ 6 % 64 * 2 ^ 6 + x % 64 ≡ x
quad_lem x h = omega arith

bytes_lem :
    (y a b c : ℕ)
    → b < 256
    → c < 256
    → y ≡ a * 2 ^ 16 + b * 2 ^ 8 + c
    → (y / 2 ^ 16 ≡ a) × (y / 2 ^ 8 % 2 ^ 8 ≡ b) × (y % 2 ^ 8 ≡ c)
bytes_lem y a b c hb hc e = (omega arith, omega arith, omega arith)

one_lem :
    (a : ℕ)
    → a < 256
    → (a * 2 ^ 16 / 2 ^ 18 % 64 * 2 ^ 18 + a * 2 ^ 16 / 2 ^ 12 % 64 * 2 ^ 12 + 0 + 0) / 2 ^ 16 ≡ a
one_lem a h = omega arith

-- `Base64` of bytes writes four characters for every three bytes or a part of them, and a decoder
-- gives the bytes back.
pub decode-base64 :
    (u : List ℕ)
    → All IsByte u
    → (decode (base64 u) ≡ u) × (length (base64 u) ≡ (length u + 2) / 3 * 4)
unfolding base64
decode-base64 [] h = (refl, omega arith)
decode-base64 (a ∷ []) (ha, h) =
    let x = a * 2 ^ 16 in
    let (p, p') = sextet_lem (x / 2 ^ 18) in
    let (q, q') = sextet_lem (x / 2 ^ 12) in
    (rw (p, q) (ap (λ v. v ∷ []) (one_lem a ha)), omega arith)
decode-base64 (a ∷ b ∷ []) (ha, (hb, h)) =
    let x = a * 2 ^ 16 + b * 2 ^ 8 in
    let (p, p') = sextet_lem (x / 2 ^ 18) in
    let (q, q') = sextet_lem (x / 2 ^ 12) in
    let (r, r') = sextet_lem (x / 2 ^ 6) in
    let whole = quad_lem x (omega arith) in
    let y = x / 2 ^ 18 % 64 * 2 ^ 18 + x / 2 ^ 12 % 64 * 2 ^ 12 + x / 2 ^ 6 % 64 * 2 ^ 6 + 0 in
    let padded : y ≡ a * 2 ^ 16 + b * 2 ^ 8 + 0 = omega (arith, whole) in
    let (first, second, zero) = bytes_lem y a b 0 hb (omega arith) padded in
    (rw (p, q, r, r') (ap₂ (λ v w. v ∷ w ∷ []) first second), omega arith)
decode-base64 (a ∷ b ∷ c ∷ us) (ha, (hb, (hc, h))) =
    let x = a * 2 ^ 16 + b * 2 ^ 8 + c in
    let (p, p') = sextet_lem (x / 2 ^ 18) in
    let (q, q') = sextet_lem (x / 2 ^ 12) in
    let (r, r') = sextet_lem (x / 2 ^ 6) in
    let (s, s') = sextet_lem x in
    let whole = quad_lem x (omega arith) in
    let (more, len) = decode-base64 us h in
    let y = x / 2 ^ 18 % 64 * 2 ^ 18 + x / 2 ^ 12 % 64 * 2 ^ 12 + x / 2 ^ 6 % 64 * 2 ^ 6 + x % 64 in
    let (first, second, third) = bytes_lem y a b c hb hc whole in
    let tail = ap (λ w. w ∷ us) third in
    (
      rw (p, q, r, s, r', s', more) (ap₂ (λ v vs. v ∷ vs) first (ap₂ (λ v vs. v ∷ vs) second tail)),
      omega (arith, len),
    )
