-- ===== src/Mutate/Ascii/Laws.antt =====
-- `Mutate_ChangeASCIIInteger` of FuzzerMutate.cpp does not fault, and which digits it writes.
use pfuzzer.Base.{
  ℕ, zero, suc, ◌+◌, ◌-◌, ◌*◌, ◌/◌, ◌%◌, ◌^◌, ◌≤◌, ◌<◌, ◌≡◌, refl, ◌⊎◌, inl, inr, ltb, ◌==◌, not,
  Bool, true, false, some, List, [], ◌∷◌, ◌++◌, length, take, drop, get_elem?, All, arith, lt→ltb,
  ap, ap₂, sym, ◌∙◌, ◌≢◌, All-append, length-append, get_elem?_lt, ==_false→ne,
}
use native.Mathlib.Decide.{dec_le}
use native.Mathlib.Nat.{one-le-pow, pow-succ'}
use pfuzzer.Base.Digits.{mod-base}
use pfuzzer.Base.Comp.{
  Ensures, pure-Ensures, bind-Ensures, assert-Ensures, lift-Ensures, if-Ensures, Ensures-mono,
}
use pfuzzer.Base.Memory.{
  IsByte, overwrite, store_lem, overwrite-nil, overwrite-overwrite_before, length-overwrite,
  take-overwrite,
}
use pfuzzer.Random.Laws.{rand-Ensures}
use pfuzzer.Mutate.Edit.{Edit, IsEdited, IsInput, result}
use pfuzzer.Mutate.Frame.{Failed, failed-IsEdited, overwrite-IsEdited}
use pfuzzer.Mutate.Ascii.{
  is_digit, scan, read_digits, change_value, write_digits, change_ascii_integer,
}

-- Every byte in `[b, e)` passes the test, and `e` is the end of the input or fails it.
pub record IsRun (p : ℕ → Bool) (mem : List ℕ) (b e end : ℕ) : Type 0 where
  pub start : b ≤ e
  pub stop : e ≤ end
  pub pass : (i : ℕ) → b ≤ i → i < e → (c : ℕ) × (get_elem? mem i ≡ some c) × (p c ≡ true)
  pub fail : (e ≡ end) ⊎ ((c : ℕ) × (get_elem? mem e ≡ some c) × (p c ≡ false))

empty-IsRun :
    (p : ℕ → Bool) (mem : List ℕ) (b end : ℕ)
    → b ≤ end
    → (b ≡ end) ⊎ ((c : ℕ) × (get_elem? mem b ≡ some c) × (p c ≡ false))
    → IsRun p mem b b end
empty-IsRun p mem b end h f = record {
  start = omega arith;
  stop = h;
  pass = λ i k l. absurd (omega arith);
  fail = f;
}

longer-IsRun :
    (p : ℕ → Bool) (mem : List ℕ) (b e end c : ℕ)
    → get_elem? mem b ≡ some c
    → p c ≡ true
    → IsRun p mem (b + 1) e end
    → IsRun p mem b e end
longer-IsRun p mem b e end c g t r = record {
  start = omega (arith, r.start);
  stop = r.stop;
  pass = λ i k l. elim (dec_le i b) [
    | yes here ↦ (c, ap (get_elem? mem) (omega arith) ∙ g, t)
    | no later ↦ r.pass i (omega arith) l
  ];
  fail = r.fail;
}

scan-IsRun :
    (p : ℕ → Bool) (mem : List ℕ) (rounds b end s : ℕ)
    → b + rounds ≡ end
    → end ≤ length mem
    → Ensures (scan p mem rounds b) s (λ e t. IsRun p mem b e end)
unfolding scan
scan-IsRun p mem zero b end s h k =
    pure-Ensures b (empty-IsRun p mem b end (omega arith) (inl (omega arith)))
scan-IsRun p mem (suc rounds) b end s h k =
    let (c, g) = get_elem?_lt mem b (omega arith) in
    lift-Ensures _ g (
      if-Ensures (p c)
        (λ t.
          Ensures-mono (λ e u r. longer-IsRun p mem b e end c g t r)
            (scan-IsRun p mem rounds (b + 1) end s (omega arith) k))
        λ f. pure-Ensures b (empty-IsRun p mem b end (omega arith) (inr (c, g, f))))

-- The last `n` decimal digits of a number, as characters.
pub decimal : ℕ → ℕ → List ℕ
decimal zero val = []
decimal (suc n) val = decimal n (val / 10) ++ ((val % 10 + b'0') ∷ [])

length-decimal : (n val : ℕ) → length (decimal n val) ≡ n
unfolding decimal
length-decimal zero val = refl
length-decimal (suc n) val = omega (
  arith,
  length-append (decimal n (val / 10)) ((val % 10 + b'0') ∷ []),
  length-decimal n (val / 10),
)

decimal-IsByte : (n val : ℕ) → All IsByte (decimal n val)
unfolding decimal
decimal-IsByte zero val = tt
decimal-IsByte (suc n) val =
    All-append IsByte (decimal n (val / 10)) _ (decimal-IsByte n (val / 10)) (omega arith)

write_digits-Ensures :
    (mem : List ℕ) (b n val s : ℕ)
    → b + n ≤ length mem
    → Ensures (write_digits mem b n val) s (λ out t. out ≡ overwrite mem b (decimal n val))
unfolding write_digits decimal
write_digits-Ensures mem b zero val s h = pure-Ensures mem (sym (overwrite-nil mem b))
write_digits-Ensures mem b (suc n) val s h =
    let d = val % 10 + b'0' in
    lift-Ensures _ (store_lem mem (b + n) d (omega arith)) (
      Ensures-mono (λ out t e. e ∙ joined d)
        (write_digits-Ensures (overwrite mem (b + n) (d ∷ [])) b n (val / 10) s
          (omega (arith, length-overwrite mem (d ∷ []) (b + n)))))
  where
    joined :
        (d : ℕ)
        → overwrite (overwrite mem (b + n) (d ∷ [])) b (decimal n (val / 10))
          ≡ overwrite mem b (decimal n (val / 10) ++ (d ∷ []))
    joined d =
        ap (λ k. overwrite (overwrite mem (b + k) (d ∷ [])) b (decimal n (val / 10)))
          (sym (length-decimal n (val / 10)))
        ∙ overwrite-overwrite_before mem (d ∷ []) (decimal n (val / 10)) b
            (omega (arith, length-decimal n (val / 10)))

-- One more, one less, half, double (64 bits wide), or any number below the square.
abbrev pub IsChange : ℕ → ℕ → Type 0
IsChange old new =
    (new ≡ (old + 1) % 2 ^ 64)
    ⊎ (new ≡ (old + 2 ^ 64 - 1) % 2 ^ 64)
    ⊎ (new ≡ old / 2)
    ⊎ (new ≡ (old * 2) % 2 ^ 64)
    ⊎ (new ≤ (old * old) % 2 ^ 64 - 1)

change_value-IsChange : (val s : ℕ) → Ensures (change_value val) s (λ new t. IsChange val new)
unfolding change_value
change_value-IsChange val s = bind-Ensures (rand-Ensures 5 s) λ k t _.
    if-Ensures (k == 0) (λ _. pure-Ensures _ (inl refl))
      λ _.
        if-Ensures (k == 1) (λ _. pure-Ensures _ (inr (inl refl)))
          λ _.
            if-Ensures (k == 2) (λ _. pure-Ensures _ (inr (inr (inl refl))))
              λ _.
                if-Ensures (k == 3) (λ _. pure-Ensures _ (inr (inr (inr (inl refl)))))
                  λ _. Ensures-mono (λ r u h. inr (inr (inr (inr h.0)))) (rand-Ensures _ t)

-- A run of what is no digit, then a run of digits: the second is not empty inside the input.
nonempty_run :
    (mem : List ℕ) (start b e size : ℕ)
    → IsRun (λ c. not (is_digit c)) mem start b size
    → IsRun is_digit mem b e size
    → b ≢ size
    → b < e
nonempty_run mem start b e size r q ne = elim (dec_le e b) [
  | no more ↦ omega arith
  | yes same ↦ absurd (clash b e r.fail q.fail ne (omega (arith, q.start)))
]
  where
    clash :
        (b e : ℕ)
        → (b ≡ size) ⊎ ((c : ℕ) × (get_elem? mem b ≡ some c) × (not (is_digit c) ≡ false))
        → (e ≡ size) ⊎ ((c : ℕ) × (get_elem? mem e ≡ some c) × (is_digit c ≡ false))
        → b ≢ size
        → b ≡ e
        → ⊥
    clash b e (inl f) g ne same = ne f
    clash b e (inr f) (inl g) ne same = ne (same ∙ g)
    clash b e (inr (c, f, h)) (inr (d, g, k)) ne same =
        contra c d h k (ground (arith, f, g, ap (get_elem? mem) same))
      where
        contra : (c d : ℕ) → not (is_digit c) ≡ false → is_digit d ≡ false → c ≡ d → ⊥
        contra c d h k e = ground arith

-- A maximal run of digits is read, changed, and written over by as many digits.
pub record IsChangedInteger (mem : List ℕ) (size : ℕ) (r : Edit) : Type 0 where
  pub b : ℕ
  pub e : ℕ
  pub nonempty : b < e
  pub digits : IsRun is_digit mem b e size
  pub value : ℕ
  pub change : IsChange (read_digits 0 (take (e - b) (drop b mem))) value
  pub same_size : r.1 ≡ size
  pub written : result r ≡ overwrite (take size mem) b (decimal (e - b) value)

-- `Mutate_ChangeASCIIInteger` never faults; it fails without a change, or a run of digits of the
-- input, which is read as a 64-bit number, is replaced by the last digits of a number that is one
-- more, one less, half, double, or below the square.
pub change_ascii_integer-Ensures :
    (mem : List ℕ) (size max_size s : ℕ)
    → IsInput mem size max_size
    → Ensures
        (change_ascii_integer mem size max_size)
        s
        (λ r t. IsEdited mem max_size r × (Failed mem r ⊎ IsChangedInteger mem size r))
unfolding change_ascii_integer
change_ascii_integer-Ensures mem size max_size s v =
    if-Ensures (ltb max_size size) (λ _. pure-Ensures _ (failed-IsEdited v, inl (refl, refl)))
      λ _. bind-Ensures (rand-Ensures size s) λ start t h.
        bind-Ensures
          (scan-IsRun (λ c. not (is_digit c)) mem (size - start) start size t (omega arith)
            (omega (arith, v.room, v.sized)))
          λ b u r.
            if-Ensures (b == size) (λ _. pure-Ensures _ (failed-IsEdited v, inl (refl, refl)))
              λ more.
                bind-Ensures
                  (scan-IsRun is_digit mem (size - b) b size u (omega (arith, r.stop))
                    (omega (arith, v.room, v.sized)))
                  λ e w q.
                    assert-Ensures
                      (lt→ltb b e (nonempty_run mem start b e size r q (==_false→ne b size more)))
                      (bind-Ensures (change_value-IsChange _ w) λ new x c.
                        bind-Ensures
                          (write_digits-Ensures mem b (e - b) new x
                            (omega (arith, q.start, q.stop, v.room, v.sized)))
                          λ out y o. pure-Ensures _ (
                            changed b e new out
                              (nonempty_run mem start b e size r q (==_false→ne b size more)) q c
                              o))
  where
    changed :
        (b e new : ℕ) (out : List ℕ)
        → b < e
        → IsRun is_digit mem b e size
        → IsChange (read_digits 0 (take (e - b) (drop b mem))) new
        → out ≡ overwrite mem b (decimal (e - b) new)
        → IsEdited mem max_size (out, size)
          × (Failed mem (out, size) ⊎ IsChangedInteger mem size (out, size))
    changed b e new out p q c o =
        let n = length-decimal (e - b) new in
        rw o (
          overwrite-IsEdited v (decimal (e - b) new) b size
              (omega (arith, n, q.stop, v.room, v.sized)) (decimal-IsByte (e - b) new) v.sized,
          inr (record {
            b = b;
            e = e;
            nonempty = p;
            digits = q;
            value = new;
            change = c;
            same_size = refl;
            written =
                take-overwrite mem (decimal (e - b) new) b size (omega (arith, n, q.stop))
                  (omega (arith, v.room, v.sized));
          }),
        )

-- The number that a list of digits stands for, of any width.
pub value_from : ℕ → List ℕ → ℕ
value_from v [] = v
value_from v (c ∷ cs) = value_from (v * 10 + (c - b'0')) cs

value_from-append :
    (v d : ℕ) (cs : List ℕ) → value_from v (cs ++ (d ∷ [])) ≡ value_from v cs * 10 + (d - b'0')
unfolding value_from
value_from-append v d [] = refl
value_from-append v d (c ∷ cs) = value_from-append (v * 10 + (c - b'0')) d cs

-- The digits that are written stand for the number, less what does not fit.
pub value-decimal : (n val : ℕ) → value_from 0 (decimal n val) ≡ val % 10 ^ n
unfolding decimal value_from
value-decimal zero val = omega arith
value-decimal (suc n) val =
    value_from-append 0 (val % 10 + b'0') (decimal n (val / 10))
    ∙ ap₂ (λ (a b : ℕ). a * 10 + b) (value-decimal n (val / 10)) (omega arith)
    ∙ mod-base val 10 (10 ^ n) (omega arith) (one-le-pow n 10 (omega arith))
    ∙ ap (λ k. val % k) (sym (pow-succ' 10 n))
