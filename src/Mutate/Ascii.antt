-- ===== src/Mutate/Ascii.antt =====
-- `Mutate_ChangeASCIIInteger` of FuzzerMutate.cpp: a run of decimal digits is read as a 64-bit
-- number, which is changed and written back over the run.
pub mod Laws
use pfuzzer.Base.{
  ℕ, zero, suc, ◌+◌, ◌-◌, ◌*◌, ◌/◌, ◌%◌, ◌^◌, ltb, leb, ◌==◌, ◌&&◌, not, Bool, if◌then◌else◌, List,
  [], ◌∷◌, get_elem?, take, drop,
}
use pfuzzer.Base.Comp.{Comp, pure, lift, assert, minus, ◌>>=◌, ◌>>◌}
use pfuzzer.Base.Memory.{store}
use pfuzzer.Random.{rand}
use pfuzzer.Mutate.Edit.{Edit}

abbrev pub is_digit : ℕ → Bool
is_digit c = leb b'0' c && leb c b'9'

-- `while (B < Size && p(Data[B])) B++;`, where `rounds` is `Size - B`.
unfoldable pub scan : (ℕ → Bool) → List ℕ → ℕ → ℕ → Comp ℕ ℕ
scan p mem zero b = pure b
scan p mem (suc rounds) b = lift (get_elem? mem b) >>= λ c.
    let next = scan p mem rounds (b + 1) in if p c then next else pure b

-- The value of the digits, 64 bits wide.
unfoldable pub read_digits : ℕ → List ℕ → ℕ
read_digits val [] = val
read_digits val (c ∷ cs) = read_digits ((val * 10 + c - b'0') % 2 ^ 64) cs

-- The switch.
unfoldable pub change_value : ℕ → Comp ℕ ℕ
unfolding rand
change_value val = do
  k ← rand 5
  if k == 0
      then pure ((val + 1) % 2 ^ 64)
      else if k == 1
      then pure ((val + 2 ^ 64 - 1) % 2 ^ 64)
      else if k == 2
      then pure (val / 2)
      else if k == 3
      then pure ((val * 2) % 2 ^ 64)
      else rand ((val * val) % 2 ^ 64)

-- The last loop: `n` digits are written from the last to the first.
unfoldable pub write_digits : List ℕ → ℕ → ℕ → ℕ → Comp ℕ (List ℕ)
unfolding store
write_digits mem b zero val = pure mem
write_digits mem b (suc n) val =
    lift (store mem (b + n) (val % 10 + b'0')) >>= λ next. write_digits next b n (val / 10)

unfoldable pub change_ascii_integer : List ℕ → ℕ → ℕ → Comp ℕ Edit
unfolding rand scan read_digits change_value write_digits
change_ascii_integer mem size max_size = if ltb max_size size then pure (mem, 0) else do
  start ← rand size
  b ← scan (λ c. not (is_digit c)) mem (size - start) start
  if b == size then pure (mem, 0) else do
    e ← scan is_digit mem (size - b) b
    assert (ltb b e)
    new ← change_value (read_digits 0 (take (e - b) (drop b mem)))
    out ← write_digits mem b (e - b) new
    pure (out, size)
