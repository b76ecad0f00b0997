-- ===== src/Prelude.antt =====
-- The names that the other modules share: the libraries' names passed on, and those of the
-- children, which hold the tests on numbers, the lists measured by native numbers, the laws of the
-- bit operations, and the text of numbers.
pub mod Dict
pub mod SeqMap
mod Tests
mod Lists
mod Bits
mod Texts
pub use Tests.*
pub use Lists.*
unfoldable pub use Lists.{chunks}
pub use Bits.*
pub use Texts.{format, join, hex_digit}
unfoldable pub use Texts.{decimal, hex, hex4, strip_suffix}
pub use Prim.Native.Nat.{
  ℕ, zero, suc, ◌+◌, ◌-◌, ◌*◌, ◌/◌, ◌%◌, ◌^◌, ◌≤◌, ◌<◌, min, max, bit_and, bit_or,
}
pub use Prim.Native.String.{String}
pub use mathlib.Core.Path.{◌≡◌, refl, sym, ap, ◌∙◌}
pub use mathlib.Core.Logic.{◌≢◌, ◌↔◌, ◌⊎◌, inl, inr}
pub use mathlib.Core.Bool.{Bool, true, false, ◌&&◌, ◌||◌, not}
pub use mathlib.Core.Option.{Option, none, some}
pub use mathlib.Core.List.{List, [], ◌∷◌, ◌++◌, map}
pub use native.Mathlib.Omega.{arith}
