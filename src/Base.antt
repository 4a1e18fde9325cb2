-- ===== src/Base.antt =====
-- Names that all parts share: the libraries', passed on, and those of the child modules.
mod Tests
mod Lists
mod Search
mod Sums
mod Loops
mod Failure
pub mod Word
pub mod Bits
pub use Tests.*
pub use Lists.*
unfoldable pub use Search.*
pub use Sums.*
unfoldable pub use Loops.*
pub use Failure.*
pub use Prim.Native.Nat.{ℕ, zero, suc, ◌+◌, ◌-◌, ◌*◌, ◌/◌, ◌%◌, ◌^◌, ◌≤◌, ◌<◌, min}
pub use mathlib.Core.Path.{◌≡◌, refl, sym, ap, ◌∙◌, fun_ext, subst}
pub use mathlib.Core.Logic.{◌≢◌, ◌↔◌, ◌⊎◌, inl, inr}
pub use mathlib.Core.Bool.{Bool, true, false, not, ◌&&◌, ◌||◌}
pub use mathlib.Core.Option.{Option, none, some}
pub use mathlib.Core.List.{List, [], ◌∷◌, ◌++◌, map, append_assoc, append-nil}
pub use native.Mathlib.Omega.{arith}
