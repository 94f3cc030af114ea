-- ===== src/Base/Sets.antt =====
-- `std::set` of numbers: the sorted list of its elements.
use pfuzzer.Base.Tests.{ltb, leb, ◌==◌, if◌then◌else◌, tests}
use pfuzzer.Base.Lists.{length}
use Prim.Native.Nat.{ℕ, zero, suc, ◌+◌, ◌≤◌}
use mathlib.Core.Path.{◌≡◌, refl, ap, ◌∙◌, sym, subst}
use mathlib.Core.Bool.{Bool, true, false, ◌||◌}
use mathlib.Core.List.{List, [], ◌∷◌}
use native.Mathlib.Omega.{arith}

unfoldable pub contains : ℕ → List ℕ → Bool
contains x [] = false
contains x (y ∷ ys) = x == y || contains x ys

-- `insert`.
unfoldable pub set_insert : ℕ → List ℕ → List ℕ
set_insert x [] = x ∷ []
set_insert x (y ∷ ys) =
    let rest = set_insert x ys in
    if ltb x y then x ∷ (y ∷ ys) else if x == y then y ∷ ys else y ∷ rest

-- `insert(first, last)`.
unfoldable pub insert_all : List ℕ → List ℕ → List ℕ
unfolding set_insert
insert_all [] s = s
insert_all (x ∷ xs) s = insert_all xs (set_insert x s)

pub contains-set_insert :
    (z x : ℕ) (xs : List ℕ) → contains z (set_insert x xs) ≡ (z == x || contains z xs)
unfolding contains set_insert
contains-set_insert z x [] = refl
contains-set_insert z x (y ∷ ys) = ground (arith, contains-set_insert z x ys)

pub contains-insert_all :
    (z : ℕ) (xs s : List ℕ) → contains z (insert_all xs s) ≡ (contains z xs || contains z s)
unfolding contains insert_all
contains-insert_all z [] s = refl
contains-insert_all z (x ∷ xs) s =
    ground (arith, contains-insert_all z xs (set_insert x s), contains-set_insert z x s)

-- `std::set_difference` on sorted ranges, where an element of the second takes one copy of it out
-- of the first. The first argument is the length of both together.
unfoldable pub difference_rounds : ℕ → List ℕ → List ℕ → List ℕ
difference_rounds zero xs ys = []
difference_rounds (suc n) [] ys = []
difference_rounds (suc n) (x ∷ xs) [] = x ∷ xs
difference_rounds (suc n) (x ∷ xs) (y ∷ ys) =
    let keep = ltb x y in
    let rest = difference_rounds n (if ltb y x then x ∷ xs else xs) (if keep then y ∷ ys else ys) in
    if keep then x ∷ rest else rest

unfoldable pub set_difference : List ℕ → List ℕ → List ℕ
unfolding difference_rounds
set_difference xs ys = difference_rounds (length xs + length ys) xs ys

difference_rounds-contains :
    (n z : ℕ) (xs ys : List ℕ)
    → length xs + length ys ≤ n
    → contains z ys ≡ false
    → contains z (difference_rounds n xs ys) ≡ contains z xs
unfolding difference_rounds contains
difference_rounds-contains zero z [] ys h e = refl
difference_rounds-contains zero z (x ∷ xs) ys h e = absurd (omega arith)
difference_rounds-contains (suc n) z [] ys h e = refl
difference_rounds-contains (suc n) z (x ∷ xs) [] h e = refl
difference_rounds-contains (suc n) z (x ∷ xs) (y ∷ ys) h e =
    chosen (ltb x y) (ltb y x) refl refl (λ g. difference_rounds-contains n z xs (y ∷ ys) g e)
      (λ g. difference_rounds-contains n z (x ∷ xs) ys g (or-false e).1)
      (λ g. difference_rounds-contains n z xs ys g (or-false e).1)
  where
    or-false : (z == y || contains z ys) ≡ false → ((z == y) ≡ false) × (contains z ys ≡ false)
    or-false e = ground arith

    kept : Bool → Bool → List ℕ
    kept b c = difference_rounds n (if c then x ∷ xs else xs) (if b then y ∷ ys else ys)

    chosen :
        (b c : Bool)
        → ltb x y ≡ b
        → ltb y x ≡ c
        → (length xs + length (y ∷ ys) ≤ n
            → contains z (difference_rounds n xs (y ∷ ys)) ≡ contains z xs)
        → (length (x ∷ xs) + length ys ≤ n
            → contains z (difference_rounds n (x ∷ xs) ys) ≡ contains z (x ∷ xs))
        → (length xs + length ys ≤ n → contains z (difference_rounds n xs ys) ≡ contains z xs)
        → contains z (if b then x ∷ kept b c else kept b c) ≡ contains z (x ∷ xs)
    chosen true true p q f g k = absurd (omega (tests, p, q))
    chosen true false p q f g k = ap (λ b. z == x || b) (f (omega arith))
    chosen false true p q f g k = g (omega arith)
    chosen false false p q f g k =
        let same : x ≡ y = omega (tests, p, q) in
        k (omega arith)
        ∙ ap (λ b. b || contains z xs)
            (sym (subst (λ v. (z == v) ≡ false) (sym same) (or-false e).0))

-- An element that the second set does not have is in the difference as it is in the first.
pub set_difference-contains :
    (z : ℕ) (xs ys : List ℕ)
    → contains z ys ≡ false
    → contains z (set_difference xs ys) ≡ contains z xs
unfolding set_difference
set_difference-contains z xs ys e =
    difference_rounds-contains (length xs + length ys) z xs ys (omega arith) e

-- `std::sort` of numbers.
unfoldable pub insert_sorted : ℕ → List ℕ → List ℕ
insert_sorted x [] = x ∷ []
insert_sorted x (y ∷ ys) = if leb x y then x ∷ (y ∷ ys) else y ∷ insert_sorted x ys

unfoldable pub sort_numbers : List ℕ → List ℕ
unfolding insert_sorted
sort_numbers [] = []
sort_numbers (x ∷ xs) = insert_sorted x (sort_numbers xs)
