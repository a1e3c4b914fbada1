-- ===== src/Prelude.antt =====
-- Names that every module of the development shares: the libraries', passed on, the Boolean tests
-- on numbers and byte strings, lists measured by native numbers, and the allocator.
mod Tests
mod Lists
pub mod Bytes
pub mod Alloc
pub mod Outcome
pub mod Run
pub mod Total
pub mod Int
pub mod Fields
pub use Tests.*
pub use Lists.*
pub use Prim.Native.Nat.{ℕ, zero, suc, ◌+◌, ◌-◌, ◌*◌, ◌/◌, ◌%◌, ◌^◌, ◌≤◌, ◌<◌}
pub use mathlib.Core.Path.{◌≡◌, refl, sym, ap, ◌∙◌}
pub use mathlib.Core.Logic.{◌≢◌, ◌⊎◌, inl, inr}
pub use mathlib.Core.Bool.{Bool, true, false, not, ◌&&◌, ◌||◌}
pub use mathlib.Core.Option.{Option, none, some}
pub use mathlib.Core.List.{List, [], ◌∷◌, ◌++◌, map}
pub use native.Mathlib.Omega.{arith}
