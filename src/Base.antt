-- ===== src/Base.antt =====
-- What the other modules share: names of the libraries, passed on, Boolean tests, lists measured
-- by native numbers, byte strings, and computations that keep a state and may fault.
mod Tests
mod Lists
pub mod Slices
pub mod Memory
pub mod Below
pub mod Bytes
pub mod Digits
pub mod Sets
pub mod Sorted
pub mod Comp
pub use Tests.*
pub use Lists.*
pub use Prim.Native.Nat.{
  ℕ, zero, suc, ◌+◌, ◌-◌, ◌*◌, ◌/◌, ◌%◌, ◌^◌, ◌≤◌, ◌<◌, min, max, bit_and, bit_or, bit_xor,
}
pub use mathlib.Core.Path.{◌≡◌, refl, sym, ap, ap₂, ◌∙◌, subst}
pub use mathlib.Core.Logic.{◌≢◌, ◌↔◌, ◌⊎◌, inl, inr}
pub use mathlib.Core.Bool.{Bool, true, false, not, ◌&&◌, ◌||◌}
pub use mathlib.Core.Option.{Option, none, some}
pub use mathlib.Core.List.{List, [], ◌∷◌, ◌++◌, map}
pub use native.Mathlib.Omega.{arith}
