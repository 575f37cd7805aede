-- ===== src/Base.antt =====
-- Shared helpers: the library names the other modules use, passed on, and those of the children.
mod Tests
mod Lists
mod Int
mod Decimal
mod Bytes
mod Strcmp
mod Strtok
mod Maps
mod Options
pub use Tests.*
pub use Lists.*
unfoldable pub use Int.*
unfoldable pub use Decimal.*
unfoldable pub use Bytes.*
pub use Strcmp.*
unfoldable pub use Strtok.*
unfoldable pub use Maps.*
pub use Options.*
pub use Prim.Native.Nat.{compare, Ordering}
pub use Prim.Native.Nat.{ℕ, zero, suc, ◌+◌, ◌-◌, ◌*◌, ◌/◌, ◌%◌, ◌^◌, ◌≤◌, ◌<◌, min}
pub use mathlib.Core.Path.{◌≡◌, refl, sym, ap, ◌∙◌}
pub use mathlib.Core.Logic.{◌≢◌, ◌↔◌, ◌⊎◌, inl, inr}
pub use mathlib.Core.Bool.{Bool, true, false, not, ◌&&◌, ◌||◌}
pub use mathlib.Core.Option.{Option, none, some}
pub use mathlib.Core.List.{List, [], ◌∷◌, ◌++◌, map, append_assoc, append-nil}
pub use native.Mathlib.Omega.{arith}
