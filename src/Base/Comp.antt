-- ===== src/Base/Comp.antt =====
-- Computations that keep a state and may fault. A fault (`none`) is what C++ leaves undefined or
-- what aborts the program: a failed assertion, an access outside an array, a `size_t` difference
-- below zero, a division by zero.
use Prim.Native.Nat.{ℕ, ◌-◌, ◌≤◌}
use mathlib.Core.Path.{◌≡◌, refl}
use mathlib.Core.Bool.{Bool, true, false}
use mathlib.Core.Option.{Option, none, some}
use pfuzzer.Base.Tests.{leb, le→leb, if◌then◌else◌}

abbrev pub Comp : Type 0 → Type 0 → Type 0
Comp S A = S → Option (A × S)

module _ {S : Type 0} where
  infixl 5 ◌>>=◌ ◌>>◌
  unfoldable pub ◌>>=◌ : {A B : Type 0} → Comp S A → (A → Comp S B) → Comp S B
  ◌>>=◌ m f s = elim (m s) [ none ↦ none | some (a, t) ↦ f a t ]

  unfoldable pub ◌>>◌ : {B : Type 0} → Comp S (Unit {0}) → Comp S B → Comp S B
  ◌>>◌ m k s = elim (m s) [ none ↦ none | some (a, t) ↦ k t ]

  unfoldable pub pure : {A : Type 0} → A → Comp S A
  pure a s = some (a, s)

  unfoldable pub lift : {A : Type 0} → Option A → Comp S A
  lift none s = none
  lift (some a) s = some (a, s)

  -- `assert`.
  unfoldable pub assert : Bool → Comp S (Unit {0})
  assert true s = some (tt, s)
  assert false s = none

  -- `a - b` on `size_t`, where the source relies on `b <= a`.
  unfoldable pub minus : ℕ → ℕ → Comp S ℕ
  minus a b s = if leb b a then some (a - b, s) else none

  -- The computation ends without a fault, and its result and last state satisfy `Q`.
  pub data Ensures {A : Type 0} (m : Comp S A) (s : S) (Q : A → S → Type 0) : Type 0 where
    returns : (a : A) (t : S) → m s ≡ some (a, t) → Q a t → Ensures m s Q

  pub pure-Ensures :
      {A : Type 0} (a : A) {s : S} {Q : A → S → Type 0} → Q a s → Ensures (pure a) s Q
  unfolding pure
  pure-Ensures a {s} q = returns a s refl q

  pub bind-Ensures :
      {A B : Type 0} {m : Comp S A} {f : A → Comp S B} {s : S} {Q : A → S → Type 0}
      {R : B → S → Type 0}
      → Ensures m s Q
      → ((a : A) (t : S) → Q a t → Ensures (f a) t R)
      → Ensures (m >>= f) s R
  unfolding ◌>>=◌
  bind-Ensures {m} {f} {s} {R} (returns a t e q) k = elim (k a t q) [
    | returns b u e' r ↦ returns b u (rw (e, ◌>>=◌) e') r
  ]

  pub then-Ensures :
      {B : Type 0} {m : Comp S (Unit {0})} {k : Comp S B} {s : S} {Q : Unit {0} → S → Type 0}
      {R : B → S → Type 0}
      → Ensures m s Q
      → ((a : Unit {0}) (t : S) → Q a t → Ensures k t R)
      → Ensures (m >> k) s R
  unfolding ◌>>◌
  then-Ensures {m} {k} {s} {R} (returns a t e q) f = elim (f a t q) [
    | returns b u e' r ↦ returns b u (rw (e, ◌>>◌) e') r
  ]

  pub assert-Ensures :
      {B : Type 0} {b : Bool} {k : Comp S B} {s : S} {R : B → S → Type 0}
      → b ≡ true
      → Ensures k s R
      → Ensures (assert b >> k) s R
  unfolding assert ◌>>◌
  assert-Ensures {b = true} h (returns a t e q) = returns a t e q
  assert-Ensures {b = false} h k = absurd (cc)

  pub minus-Ensures :
      {B : Type 0} {a b : ℕ} (f : ℕ → Comp S B) {s : S} {R : B → S → Type 0}
      → b ≤ a
      → Ensures (f (a - b)) s R
      → Ensures (minus a b >>= f) s R
  unfolding minus ◌>>=◌
  minus-Ensures {a} {b} f {s} h (returns x t e q) =
      returns x t (rw (le→leb b a h, minus, ◌>>=◌) e) q

  pub lift-Ensures :
      {A B : Type 0} {o : Option A} (f : A → Comp S B) {s : S} {R : B → S → Type 0} {a : A}
      → o ≡ some a
      → Ensures (f a) s R
      → Ensures (lift o >>= f) s R
  unfolding lift ◌>>=◌
  lift-Ensures f {s} h (returns y t e q) = returns y t (rw (h, lift, ◌>>=◌) e) q

  pub lift_last-Ensures :
      {A : Type 0} {o : Option A} {s : S} {Q : A → S → Type 0} {a : A}
      → o ≡ some a
      → Q a s
      → Ensures (lift o) s Q
  unfolding lift
  lift_last-Ensures {s} {a} h q = returns a s (rw (h, lift)) q

  pub if-Ensures :
      {A : Type 0} (b : Bool) {m k : Comp S A} {s : S} {Q : A → S → Type 0}
      → (b ≡ true → Ensures m s Q)
      → (b ≡ false → Ensures k s Q)
      → Ensures (if b then m else k) s Q
  if-Ensures true f g = f refl
  if-Ensures false f g = g refl

  pub Ensures-mono :
      {A : Type 0} {m : Comp S A} {s : S} {Q R : A → S → Type 0}
      → ((a : A) (t : S) → Q a t → R a t)
      → Ensures m s Q
      → Ensures m s R
  Ensures-mono h (returns a t e q) = returns a t e (h a t q)
