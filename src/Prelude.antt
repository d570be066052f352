-- ===== src/Prelude.antt =====
-- The names that the other modules share: the libraries', passed on, and the helpers on tests,
-- lists, integers and event listeners. It models no file of the repository by itself.
mod Tests
mod Lists
pub mod Int
pub mod Swap
pub mod Slices
pub mod Sort
pub mod Sets
pub mod Text
pub mod TextOrder
pub mod Channel
pub use Tests.*
pub use Lists.*
pub use Prim.Native.Nat.{ℕ, zero, suc, ◌+◌, ◌-◌, ◌*◌, ◌/◌, ◌%◌, ◌^◌, ◌≤◌, ◌<◌, min, max}
pub use mathlib.Core.Path.{◌≡◌, refl, sym, ap, ◌∙◌, ◌≡⟨◌⟩◌, ◌∎}
pub use mathlib.Core.Logic.{◌≢◌, ◌↔◌, ◌⊎◌, inl, inr}
pub use mathlib.Core.Bool.{Bool, true, false, ◌&&◌, ◌||◌, not}
pub use mathlib.Core.Option.{Option, none, some}
pub use mathlib.Core.List.{List, [], ◌∷◌, ◌++◌, map, Perm}
pub use native.Mathlib.Omega.{arith}
