-- ===== src/Prelude.antt =====
-- What the models share: the libraries' names, passed on, Boolean tests, lists measured by native
-- numbers, the result of code that may panic, and the laws of binary digits.
mod Tests
mod Lists
mod Panics
mod Stores
mod Results
pub mod Bits
pub mod Fields
pub mod BTreeSet
pub use Tests.*
pub use Lists.*
pub use Panics.*
pub use Stores.*
pub use Results.*
pub use Prim.Native.Nat.{ℕ, zero, suc, ◌+◌, ◌-◌, ◌*◌, ◌/◌, ◌%◌, ◌^◌, ◌≤◌, ◌<◌, min, max}
pub use Prim.Native.Nat.{bit_and, bit_or, bit_xor}
pub use mathlib.Core.Path.{◌≡◌, refl, sym, ap, ◌∙◌, subst}
pub use mathlib.Core.Logic.{◌≢◌, ◌↔◌, ◌⊎◌, inl, inr}
pub use mathlib.Core.Bool.{Bool, true, false, not, ◌&&◌, ◌||◌}
pub use mathlib.Core.Option.{Option, none, some}
pub use mathlib.Core.List.{List, [], ◌∷◌, ◌++◌, map}
pub use native.Mathlib.Omega.{arith}
