-- ===== src/Flags/Laws.antt =====
-- What `ParseFlags` of FuzzerDriver.cpp makes of arguments.
use pfuzzer.Base.{
  ℕ, zero, suc, ◌+◌, ◌-◌, ◌*◌, ◌/◌, ◌%◌, ◌^◌, ◌<◌, ◌≡◌, ◌≢◌, refl, ltb, ◌==◌, Bool, true, false,
  List, [], ◌∷◌, ◌++◌, none, some, All, arith, ap, ap₂, sym, ◌∙◌, Bool-cases, inl, inr, lt→ltb,
  ltb→lt, ltb_false→le, ==_refl, ==→eq,
}
use mathlib.Core.List.{append_assoc, append-nil}
use pfuzzer.Command.{Text}
use pfuzzer.Streams.{is_digit, print_digits, print_number}
use pfuzzer.Streams.Laws.{StartsDigit, starts, print_digits-StartsDigit}
use pfuzzer.Flags.{
  FlagKind, FlagDescription, Value, Flag, strip_prefix, after_equals, flag_value, plus, minus,
  signed, stol_loop, my_stol, parse_value, set_flag, cons_flag, set_value, parse_dashed,
  parse_one_flag,
}

stol_digit :
    (b : Bool) (n d : ℕ) (rest : Text)
    → d < 10
    → n * 10 + d < 2 ^ 63
    → stol_loop b n ((b'0' + d) ∷ rest) ≡ stol_loop b (n * 10 + d) rest
unfolding stol_loop
stol_digit b n d rest h l =
    let e : is_digit (b'0' + d) ≡ true = ground arith in
    let f : n * 10 + (b'0' + d - b'0') ≡ n * 10 + d = omega arith in rw (e, f, lt→ltb _ _ l) refl

stol-print_digits :
    (b : Bool) (f n : ℕ) (rest : Text)
    → n < f
    → n < 2 ^ 63
    → stol_loop b 0 (print_digits f n ++ rest) ≡ stol_loop b n rest
unfolding print_digits
stol-print_digits b zero n rest h l = absurd (omega arith)
stol-print_digits b (suc f) n rest h l = elim (Bool-cases (ltb n 10)) [
  | inl e ↦ rw e (
      stol_digit b 0 n rest (ltb→lt n 10 e) (omega arith)
      ∙ let z : 0 * 10 + n ≡ n = omega arith in ap (λ v. stol_loop b v rest) z)
  | inr e ↦
      let big = ltb_false→le n 10 e in
      let back : n / 10 * 10 + n % 10 ≡ n = omega arith in
      rw e (
        ap (stol_loop b 0) (append_assoc (print_digits f (n / 10)) ((b'0' + n % 10) ∷ []) rest)
        ∙ stol-print_digits b f (n / 10) ((b'0' + n % 10) ∷ rest) (omega arith) (omega arith)
        ∙ stol_digit b (n / 10) (n % 10) rest (omega arith) (omega arith)
        ∙ ap (λ v. stol_loop b v rest) back)
]

stol_end :
    (b : Bool) (n : ℕ) (rest : Text)
    → stol_loop b n rest ≡ some (signed b n)
    → n < 2 ^ 63
    → stol_loop b 0 (print_number n ++ rest) ≡ some (signed b n)
unfolding print_number
stol_end b n rest e l = stol-print_digits b (suc n) n rest (omega arith) l ∙ e

unsigned_first : (s : Text) → StartsDigit s → my_stol s ≡ stol_loop false 0 s
unfolding my_stol
unsigned_first _ (starts c cs d) = let e : (c == b'-') ≡ false = ground (arith, d) in rw e refl

my_stol-unsigned : (n : ℕ) → n < 2 ^ 63 → my_stol (print_number n ++ []) ≡ some (plus n)
unfolding print_number signed stol_loop
my_stol-unsigned n l =
    unsigned_first _ (print_digits-StartsDigit (suc n) n [] (omega arith))
    ∙ stol_end false n [] refl l

-- `MyStol` reads a number that is written in decimal, with or without a sign; where a character
-- that is no digit follows, the sign is lost.
pub my_stol-print_number :
    (n c : ℕ) (rest : Text)
    → n < 2 ^ 63
    → is_digit c ≡ false
    → (my_stol (print_number n) ≡ some (plus n))
      × (my_stol (b'-' ∷ print_number n) ≡ some (minus n))
      × (my_stol (b'-' ∷ (print_number n ++ (c ∷ rest))) ≡ some (plus n))
unfolding my_stol stol_loop print_number
my_stol-print_number n c rest l h = (
  ap my_stol (sym (append-nil (print_number n))) ∙ my_stol-unsigned n l,
  ap (stol_loop true 0) (sym (append-nil (print_number n))) ∙ stol_end true n [] refl l,
  lost,
)
  where
    lost : stol_loop true 0 (print_number n ++ (c ∷ rest)) ≡ some (plus n)
    lost = stol-print_digits true (suc n) n (c ∷ rest) (omega arith) l ∙ rw h refl

-- A name with no equals sign.
abbrev pub IsName : Text → Type 0
IsName = All (λ c. (c == b'=') ≡ false)

strip_prefix_self : (name rest : Text) → strip_prefix name (name ++ rest) ≡ some rest
unfolding strip_prefix
strip_prefix_self [] rest = refl
strip_prefix_self (c ∷ cs) rest = rw (==_refl c, strip_prefix_self cs rest) refl

strip_prefix_other :
    (other name rest : Text)
    → IsName other
    → IsName name
    → other ≢ name
    → after_equals (strip_prefix other (name ++ (b'=' ∷ rest))) ≡ none
unfolding strip_prefix after_equals
strip_prefix_other [] [] rest h k ne = absurd (ne refl)
strip_prefix_other [] (y ∷ ys) rest h (p, k) ne = rw p refl
strip_prefix_other (x ∷ xs) [] rest (p, h) k ne = rw p refl
strip_prefix_other (x ∷ xs) (y ∷ ys) rest (p, h) (q, k) ne = elim (Bool-cases (x == y)) [
  | inr e ↦ rw e refl
  | inl e ↦
      let tail_ne : xs ≢ ys = λ same. ne (ap₂ (λ v vs. v ∷ vs) (==→eq x y e) same) in
      rw e (strip_prefix_other xs ys rest h k tail_ne)
]

-- The flags before the one that is meant have other names.
abbrev pub Others : Text → List Flag → Type 0
Others name = All (λ f. IsName f.0.name × f.0.name ≢ name)

-- The argument `-name=str`.
abbrev pub flag_argument : Text → Text → Text
flag_argument name str = b'-' ∷ (name ++ (b'=' ∷ str))

set_flag_lem :
    (name str : Text) (before after : List Flag) (d : FlagDescription) (v v' : Value)
    → d.name ≡ name
    → IsName name
    → Others name before
    → parse_value d.kind str v ≡ some v'
    → set_flag (flag_argument name str) (before ++ ((d, v) ∷ after))
      ≡ some (before ++ ((d, v') ∷ after))
unfolding set_flag flag_value
set_flag_lem name str [] after d v v' e h o p =
    let own : after_equals (strip_prefix d.name (name ++ (b'=' ∷ str))) ≡ some str =
      ap (λ n. after_equals (strip_prefix n (name ++ (b'=' ∷ str)))) e
      ∙ ap after_equals (strip_prefix_self name (b'=' ∷ str)) in
    ap
      (λ o'. elim o' [
        | none ↦ cons_flag (d, v) (set_flag (flag_argument name str) after)
        | some s ↦ set_value d after (parse_value d.kind s v)
      ])
      own
    ∙ ap (set_value d after) p
set_flag_lem name str ((g, w) ∷ before) after d v v' e h ((n, ne), o) p =
    let rest = before ++ ((d, v) ∷ after) in
    ap
      (λ o'. elim o' [
        | none ↦ cons_flag (g, w) (set_flag (flag_argument name str) rest)
        | some s ↦ set_value g rest (parse_value g.kind s w)
      ])
      (strip_prefix_other g.name name str n h ne)
    ∙ ap (cons_flag (g, w)) (set_flag_lem name str before after d v v' e h o p)

-- `-name=str` sets the flag with the name, and no other, if the value can be read; the name has
-- no equals sign and does not start with a dash, and the flags before it have other names.
pub parse_one_flag_lem :
    (c : ℕ) (cs str : Text) (before after : List Flag) (kind : FlagKind) (default : ℕ)
    (v v' : Value)
    → (c == b'-') ≡ false
    → IsName (c ∷ cs)
    → Others (c ∷ cs) before
    → parse_value kind str v ≡ some v'
    → let d : FlagDescription = record { name = c ∷ cs; kind = kind; default = default } in
      parse_one_flag (flag_argument (c ∷ cs) str) (before ++ ((d, v) ∷ after))
      ≡ some (true, before ++ ((d, v') ∷ after))
unfolding parse_one_flag parse_dashed
parse_one_flag_lem c cs str before after kind default v v' dash h o p =
    let d : FlagDescription = record { name = c ∷ cs; kind = kind; default = default } in
    rw dash (
      ap (λ r. elim r [ none ↦ none | some gs ↦ some (true, gs) ])
        (set_flag_lem (c ∷ cs) str before after d v v' refl h o p))
