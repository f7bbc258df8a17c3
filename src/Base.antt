-- ===== src/Base.antt =====
-- What every module shares: the libraries' names, passed on, and four children: Boolean tests,
-- lists and byte strings, association lists, and the result of a Go call.
mod Tests
mod Lists
pub mod Assoc
pub mod Bits
pub mod Keeps
pub mod Steady
pub mod Decimal
pub mod Distinct
pub mod Follows
pub mod Gives
mod Outcome
pub use Tests.*
unfoldable pub use Lists.*
unfoldable pub use Outcome.*
pub use Prim.Native.Nat.{ℕ, zero, suc, ◌+◌, ◌-◌, ◌*◌, ◌/◌, ◌%◌, ◌^◌, ◌≤◌, ◌<◌, bit_and, bit_or}
pub use mathlib.Core.Path.{◌≡◌, refl, sym, ap, ◌∙◌}
pub use mathlib.Core.Logic.{◌≢◌, ◌↔◌, ◌⊎◌, inl, inr}
pub use mathlib.Core.Bool.{Bool, true, false, not, ◌&&◌, ◌||◌}
pub use mathlib.Core.Option.{Option, none, some}
pub use mathlib.Core.List.{List, [], ◌∷◌, ◌++◌, map, append_assoc, append-nil}
pub use native.Mathlib.Omega.{arith}
