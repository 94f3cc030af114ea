-- ===== src/Base/Sorted.antt =====
-- The lists that stand for a `std::set` are sorted, so that a set has one list only.
use pfuzzer.Base.Tests.{ltb, ◌==◌, Bool-cases, ltb→lt, ltb_false→le, ==→eq, ==_refl, ==_false→ne}
use pfuzzer.Base.Lists.{length, All}
use pfuzzer.Base.Sets.{contains, set_insert, insert_all}
use Prim.Native.Nat.{ℕ, ◌+◌, ◌≤◌, ◌<◌}
use mathlib.Core.Path.{◌≡◌, refl, ap, ap₂, ◌∙◌, sym, subst}
use mathlib.Core.Logic.{inl, inr}
use mathlib.Core.Bool.{true, false}
use mathlib.Core.List.{List, [], ◌∷◌}
use native.Mathlib.Omega.{arith}

abbrev pub IsSorted : List ℕ → Type 0
IsSorted [] = Unit
IsSorted (x ∷ xs) = All (λ y. x < y) xs × IsSorted xs

All-lt_trans : (x y : ℕ) (xs : List ℕ) → x < y → All (λ z. y < z) xs → All (λ z. x < z) xs
All-lt_trans x y [] h a = tt
All-lt_trans x y (z ∷ zs) h (p, a) = (omega arith, All-lt_trans x y zs h a)

All-set_insert :
    (x y : ℕ) (xs : List ℕ) → x < y → All (λ z. x < z) xs → All (λ z. x < z) (set_insert y xs)
unfolding set_insert
All-set_insert x y [] h a = (h, tt)
All-set_insert x y (z ∷ zs) h (p, a) = elim (Bool-cases (ltb y z)) [
  | inl e ↦ rw e (h, (p, a))
  | inr e ↦ elim (Bool-cases (y == z)) [
    | inl f ↦ rw (e, f) (p, a)
    | inr f ↦ rw (e, f) (p, All-set_insert x y zs h a)
  ]
]

pub set_insert-IsSorted : (x : ℕ) (xs : List ℕ) → IsSorted xs → IsSorted (set_insert x xs)
unfolding set_insert
set_insert-IsSorted x [] s = (tt, tt)
set_insert-IsSorted x (y ∷ ys) (a, s) = elim (Bool-cases (ltb x y)) [
  | inl e ↦ rw e ((ltb→lt x y e, All-lt_trans x y ys (ltb→lt x y e) a), (a, s))
  | inr e ↦ elim (Bool-cases (x == y)) [
    | inl f ↦ rw (e, f) (a, s)
    | inr f ↦
        let ne = ==_false→ne x y f in
        rw (e, f)
          (All-set_insert y x ys (omega (arith, ltb_false→le x y e)) a, set_insert-IsSorted x ys s)
  ]
]

pub insert_all-IsSorted : (xs s : List ℕ) → IsSorted s → IsSorted (insert_all xs s)
unfolding insert_all
insert_all-IsSorted [] s h = h
insert_all-IsSorted (x ∷ xs) s h =
    insert_all-IsSorted xs (set_insert x s) (set_insert-IsSorted x s h)

pub length-set_insert :
    (x : ℕ) (xs : List ℕ) → contains x xs ≡ false → length (set_insert x xs) ≡ length xs + 1
unfolding set_insert contains
length-set_insert x [] h = omega arith
length-set_insert x (y ∷ ys) h = ground (arith, length-set_insert x ys)

contains-All : (x z : ℕ) (xs : List ℕ) → All (λ y. x < y) xs → contains z xs ≡ true → x < z
unfolding contains
contains-All x z [] a h = absurd (cc)
contains-All x z (y ∷ ys) (p, a) h = elim (Bool-cases (z == y)) [
  | inl e ↦ subst (λ v. x < v) (sym (==→eq z y e)) p
  | inr e ↦ contains-All x z ys a (rw e at h)
]

contains_head : (x : ℕ) (xs : List ℕ) → contains x (x ∷ xs) ≡ true
unfolding contains
contains_head x xs = rw (==_refl x) refl

contains_tail : (x z : ℕ) (xs : List ℕ) → x < z → contains z (x ∷ xs) ≡ contains z xs
unfolding contains
contains_tail x z xs h = ground arith

contains_smaller : (x z : ℕ) (xs : List ℕ) → All (λ y. x < y) xs → z ≤ x → contains z xs ≡ false
contains_smaller x z xs a h = elim (Bool-cases (contains z xs)) [
  | inl e ↦ absurd (omega (arith, contains-All x z xs a e))
  | inr e ↦ e
]

same_tail :
    (x : ℕ) (xs ys : List ℕ)
    → All (λ y. x < y) xs
    → All (λ y. x < y) ys
    → ((z : ℕ) → contains z (x ∷ xs) ≡ contains z (x ∷ ys))
    → (z : ℕ) → contains z xs ≡ contains z ys
same_tail x xs ys a b h z = elim (Bool-cases (ltb x z)) [
  | inl e ↦ let l = ltb→lt x z e in sym (contains_tail x z xs l) ∙ h z ∙ contains_tail x z ys l
  | inr e ↦
      let l = ltb_false→le x z e in contains_smaller x z xs a l ∙ sym (contains_smaller x z ys b l)
]

head-le : (x y : ℕ) (ys : List ℕ) → IsSorted (y ∷ ys) → contains x (y ∷ ys) ≡ true → y ≤ x
head-le x y ys (b, t) h = elim (Bool-cases (ltb x y)) [
  | inl e ↦
      let l = ltb→lt x y e in
      absurd (omega (arith, contains-All x x (y ∷ ys) (l, All-lt_trans x y ys l b) h))
  | inr e ↦ ltb_false→le x y e
]

-- Sorted lists with the same elements are the same.
pub set_ext :
    (xs ys : List ℕ)
    → IsSorted xs
    → IsSorted ys
    → ((z : ℕ) → contains z xs ≡ contains z ys)
    → xs ≡ ys
unfolding contains
set_ext [] [] s t h = refl
set_ext [] (y ∷ ys) s t h = absurd (cc (h y, contains_head y ys))
set_ext (x ∷ xs) [] s t h = absurd (cc (h x, contains_head x xs))
set_ext (x ∷ xs) (y ∷ ys) (a, s) (b, t) h =
    let e : x ≡ y = omega (
      arith,
      head-le x y ys (b, t) (sym (h x) ∙ contains_head x xs),
      head-le y x xs (a, s) (h y ∙ contains_head y ys),
    ) in
    let rest : xs ≡ ys = set_ext xs ys s t (
      same_tail x xs ys a (subst (λ v. All (λ z. v < z) ys) (sym e) b)
        (λ z. h z ∙ ap (λ v. contains z (v ∷ ys)) (sym e))) in
    ap₂ (λ v vs. v ∷ vs) e rest

-- What a set has a subset has as many of, and the whole set is the only subset of its length.
pub subset_lem :
    (xs ys : List ℕ)
    → IsSorted xs
    → IsSorted ys
    → ((z : ℕ) → contains z xs ≡ true → contains z ys ≡ true)
    → (length xs ≤ length ys) × (length xs ≡ length ys → xs ≡ ys)
unfolding contains
subset_lem [] [] s t h = (omega arith, λ _. refl)
subset_lem [] (y ∷ ys) s t h = (omega arith, λ e. absurd (omega arith))
subset_lem (x ∷ xs) [] s t h = absurd (cc (h x (contains_head x xs)))
subset_lem (x ∷ xs) (y ∷ ys) (a, s) (b, t) h = elim (Bool-cases (ltb y x)) [
  | inl e ↦
      let l = ltb→lt y x e in
      let (n, _) =
        subset_lem (x ∷ xs) ys (a, s) t
          (λ z p.
            let m = head-le z x xs (a, s) p in sym (contains_tail y z ys (omega arith)) ∙ h z p) in
      (omega arith, λ q. absurd (omega arith))
  | inr e ↦
      let same : x ≡ y =
        omega (arith, ltb_false→le y x e, head-le x y ys (b, t) (h x (contains_head x xs))) in
      let (n, whole) = subset_lem xs ys s t (λ z p.
        let m = contains-All x z xs a p in
        sym (contains_tail y z ys (omega arith)) ∙ h z (contains_tail x z xs m ∙ p)) in
      (omega arith, λ q. ap₂ (λ v vs. v ∷ vs) same (whole (omega arith)))
]
