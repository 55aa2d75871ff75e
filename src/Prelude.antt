-- ===== src/Prelude.antt =====
-- The names that all modules share: the libraries' names, passed on, the Boolean tests on numbers
-- (`Tests`), lists over the native numbers (`Lists`), the equality interface (`Equality`), and the
-- insertion-ordered `Set` and `Map` of ECMAScript (`Sets`, `Maps`), its
-- stable sort (`Sorting`) and text methods (`Text`), and membership as evidence (`Members`).
mod Tests
mod Lists
mod Equality
mod Sets
mod Maps
mod Sorting
mod Text
mod Members
mod Attempts
unfoldable pub use Tests.*
pub use Lists.*
unfoldable pub use Equality.*
unfoldable pub use Sets.*
unfoldable pub use Maps.*
unfoldable pub use Sorting.*
unfoldable pub use Text.*
pub use Members.*
pub use Attempts.*
pub use Prim.Native.Nat.{ℕ, zero, suc, ◌+◌, ◌-◌, ◌*◌, ◌/◌, ◌%◌, ◌^◌, ◌≤◌, ◌<◌, min, max}
pub use Prim.Native.String.{String}
pub use mathlib.Core.Path.{◌≡◌, refl, sym, ap, ◌∙◌}
pub use mathlib.Core.Logic.{◌≢◌, ◌↔◌, ◌⊎◌, inl, inr}
pub use mathlib.Core.Bool.{Bool, true, false, not, ◌&&◌, ◌||◌}
pub use mathlib.Core.Option.{Option, none, some}
pub use mathlib.Core.List.{List, [], ◌∷◌, ◌++◌, map, Memᴰ}
pub use native.Mathlib.Omega.{arith}
