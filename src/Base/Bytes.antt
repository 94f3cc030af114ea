-- ===== src/Base/Bytes.antt =====
-- Strings as lists of bytes: equality, prefixes, and the first place where one occurs in another.
use pfuzzer.Base.Tests.{◌==◌, if◌then◌else◌, ==→eq, and-true}
use pfuzzer.Base.Lists.{length, take, drop}
use Prim.Native.Nat.{ℕ, zero, suc, ◌≤◌}
use mathlib.Core.Path.{◌≡◌, refl, ap₂, subst}
use mathlib.Core.Bool.{Bool, true, false, ◌&&◌}
use mathlib.Core.List.{List, [], ◌∷◌, ◌++◌}
use mathlib.Core.Option.{Option, none, some}
use native.Mathlib.Omega.{arith}

unfoldable pub bytes_eq : List ℕ → List ℕ → Bool
bytes_eq [] [] = true
bytes_eq [] (y ∷ ys) = false
bytes_eq (x ∷ xs) [] = false
bytes_eq (x ∷ xs) (y ∷ ys) = x == y && bytes_eq xs ys

pub bytes_eq→eq : (xs ys : List ℕ) → bytes_eq xs ys ≡ true → xs ≡ ys
unfolding bytes_eq
bytes_eq→eq [] [] h = refl
bytes_eq→eq [] (y ∷ ys) h = absurd (cc)
bytes_eq→eq (x ∷ xs) [] h = absurd (cc)
bytes_eq→eq (x ∷ xs) (y ∷ ys) h =
    let (e, t) = and-true (x == y) (bytes_eq xs ys) h in ap₂ ◌∷◌ (==→eq x y e) (bytes_eq→eq xs ys t)

pub bytes_eq_refl : (xs : List ℕ) → bytes_eq xs xs ≡ true
unfolding bytes_eq
bytes_eq_refl [] = refl
bytes_eq_refl (x ∷ xs) = ground (arith, bytes_eq_refl xs)

pub eq→bytes_eq : (xs ys : List ℕ) → xs ≡ ys → bytes_eq xs ys ≡ true
eq→bytes_eq xs ys e = subst (λ l. bytes_eq xs l ≡ true) e (bytes_eq_refl xs)

unfoldable pub starts_with : List ℕ → List ℕ → Bool
starts_with xs [] = true
starts_with [] (p ∷ ps) = false
starts_with (x ∷ xs) (p ∷ ps) = x == p && starts_with xs ps

pub starts_with→take : (xs p : List ℕ) → starts_with xs p ≡ true → take (length p) xs ≡ p
unfolding starts_with
starts_with→take xs [] h = refl
starts_with→take [] (p ∷ ps) h = absurd (cc)
starts_with→take (x ∷ xs) (p ∷ ps) h =
    let (e, t) = and-true (x == p) (starts_with xs ps) h in
    ap₂ ◌∷◌ (==→eq x p e) (starts_with→take xs ps t)

pub starts_with→le : (xs p : List ℕ) → starts_with xs p ≡ true → length p ≤ length xs
unfolding starts_with
starts_with→le xs [] h = omega arith
starts_with→le [] (p ∷ ps) h = absurd (cc)
starts_with→le (x ∷ xs) (p ∷ ps) h =
    omega (arith, starts_with→le xs ps (and-true (x == p) (starts_with xs ps) h).1)

pub starts_with-append : (p xs : List ℕ) → starts_with (p ++ xs) p ≡ true
unfolding starts_with
starts_with-append [] [] = refl
starts_with-append [] (x ∷ xs) = refl
starts_with-append (y ∷ p) xs = ground (arith, starts_with-append p xs)

-- `memmem`: the offset of the first occurrence.
unfoldable pub search_memory : List ℕ → List ℕ → Option ℕ
unfolding starts_with
search_memory [] p = if starts_with [] p then some 0 else none
search_memory (x ∷ xs) p =
    if starts_with (x ∷ xs) p
    then some 0
    else elim (search_memory xs p) [ none ↦ none | some k ↦ some (suc k) ]

pub search_memory-occurs :
    (xs p : List ℕ) (k : ℕ) → search_memory xs p ≡ some k → starts_with (drop k xs) p ≡ true
unfolding search_memory
search_memory-occurs [] p zero h = ground arith
search_memory-occurs [] p (suc k) h = ground arith
search_memory-occurs (x ∷ xs) p zero h = ground arith
search_memory-occurs (x ∷ xs) p (suc k) h = ground (arith, search_memory-occurs xs p k)

pub search_memory-le : (xs p : List ℕ) (k : ℕ) → search_memory xs p ≡ some k → k ≤ length xs
unfolding search_memory
search_memory-le [] p k h = ground arith
search_memory-le (x ∷ xs) p zero h = omega arith
search_memory-le (x ∷ xs) p (suc k) h = ground (arith, search_memory-le xs p k)

-- Where the search finds nothing, the string occurs nowhere.
pub search_memory-none :
    (xs p : List ℕ) (k : ℕ) → search_memory xs p ≡ none → starts_with (drop k xs) p ≡ false
unfolding search_memory
search_memory-none [] p zero h = ground arith
search_memory-none [] p (suc k) h = ground arith
search_memory-none (x ∷ xs) p zero h = ground arith
search_memory-none (x ∷ xs) p (suc k) h = search_memory-none xs p k (ground (arith, h))
