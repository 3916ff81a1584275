-- ===== src/Prelude.antt =====
-- The names that the modules share: the libraries' names passed on, Boolean tests on numbers,
-- lists measured by native numbers, and the laws of the bit operations.
mod Tests
mod Lists
mod Cuts
mod Bytes
pub mod Utf8
pub mod Checked
pub mod Assoc
pub mod Bits
pub use Tests.*
unfoldable pub use Lists.*
pub use Cuts.*
unfoldable pub use Bytes.*
pub use Prim.Native.Nat.{
  ℕ, zero, suc, ◌+◌, ◌-◌, ◌*◌, ◌/◌, ◌%◌, ◌^◌, ◌≤◌, ◌<◌, min, max, bit_and, bit_or, bit_xor,
}
pub use mathlib.Core.Path.{◌≡◌, refl, sym, ap, ◌∙◌}
pub use mathlib.Core.Logic.{◌≢◌, ◌↔◌, ◌⊎◌, inl, inr}
pub use mathlib.Core.Bool.{Bool, true, false, not, ◌&&◌, ◌||◌}
pub use mathlib.Core.Option.{Option, none, some}
pub use mathlib.Core.List.{List, [], ◌∷◌, ◌++◌, map, append-nil, append_assoc}
pub use native.Mathlib.Omega.{arith}
