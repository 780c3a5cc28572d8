-- ===== src/Common.antt =====
-- The names that the other modules share: those of the libraries, passed on, and those of the
-- children: Boolean tests, text as code points, maps, tables.
mod Tests
mod Lists
mod Strings
mod Maps
mod Tables
mod TableLaws
mod Results
mod Database
mod Keeping
mod Reading
mod EveryRow
mod Selections
mod Rollback
pub use Tests.*
pub use Lists.*
unfoldable pub use Strings.*
pub use Maps.*
unfoldable pub use Tables.*
pub use TableLaws.*
pub use Results.*
unfoldable pub use Database.*
pub use Keeping.*
pub use Reading.*
pub use EveryRow.*
pub use Selections.*
unfoldable pub use Rollback.*
pub use Prim.Native.Nat.{
  ℕ, zero, suc, ◌+◌, ◌-◌, ◌*◌, ◌/◌, ◌%◌, ◌^◌, ◌≤◌, ◌<◌, min, max, compare, Ordering,
}
pub use mathlib.Core.Path.{◌≡◌, refl, sym, ap, ap₂, subst, ◌∙◌, fun_ext}
pub use mathlib.Core.Logic.{◌≢◌, ◌↔◌, ◌⊎◌, inl, inr}
pub use mathlib.Core.Bool.{Bool, true, false, not, ◌&&◌, ◌||◌}
pub use mathlib.Core.Option.{Option, none, some}
pub use mathlib.Core.List.{List, [], ◌∷◌, ◌++◌, map}
pub use native.Mathlib.Omega.{arith}
unfoldable pub use native.Mathlib.Decide.{dec_lt}
