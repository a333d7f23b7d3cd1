-- ===== src/Prelude.antt =====
-- The names that the other modules share: the libraries' passed on, lists and Boolean tests over
-- the native numbers, and the bytes, bits and texts of the wire formats.
mod Tests
mod Lists
mod Text
pub mod Bits
pub mod Masks
pub mod Int
pub mod Count
pub mod Deck
pub use Tests.*
pub use Lists.*
pub use Text.*
unfoldable pub use Text.{equal}
pub use Prim.Native.Nat.{
  ℕ, zero, suc, ◌+◌, ◌-◌, ◌*◌, ◌/◌, ◌%◌, ◌^◌, ◌≤◌, ◌<◌, bit_and, bit_or, bit_xor,
}
pub use mathlib.Core.Path.{◌≡◌, refl, sym, ap, ap₂, ◌∙◌}
pub use mathlib.Core.Logic.{◌≢◌, ◌↔◌, ◌⊎◌, inl, inr}
pub use mathlib.Core.Bool.{Bool, true, false, not, ◌&&◌, ◌||◌}
pub use mathlib.Core.Option.{Option, none, some}
pub use mathlib.Core.List.{List, [], ◌∷◌, ◌++◌, map}
pub use native.Mathlib.Omega.{arith}
unfoldable pub use native.Mathlib.Decide.{ℕ_discrete, dec_lt}
