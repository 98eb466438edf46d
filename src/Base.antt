-- ===== src/Base.antt =====
-- The names that all modules share: the libraries', passed on, Boolean tests on native numbers,
-- lists over native numbers, and tables of rows.
mod Tests
mod Lists
mod Table
mod Bytes
mod Sort
pub mod Map
pub mod Int
pub use Tests.*
pub use Lists.*
pub use Table.*
unfoldable pub use Bytes.*
pub use Sort.*
pub use Prim.Native.Nat.{ℕ, zero, suc, ◌+◌, ◌-◌, ◌*◌, ◌/◌, ◌%◌, ◌^◌, ◌≤◌, ◌<◌}
pub use mathlib.Core.Path.{◌≡◌, refl, sym, ap, ◌∙◌, subst}
pub use mathlib.Core.Logic.{◌≢◌, ◌↔◌, ◌⊎◌, inl, inr}
pub use mathlib.Core.Bool.{Bool, true, false, not, ◌&&◌, ◌||◌}
pub use mathlib.Core.Option.{Option, none, some}
pub use mathlib.Core.List.{List, [], ◌∷◌, ◌++◌, map, append-nil, append_assoc}
pub use native.Mathlib.Omega.{arith}
