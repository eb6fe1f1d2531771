-- ===== src/Prelude.antt =====
-- Names shared by every module: the libraries' data types, Go's strings, slices and maps.
mod Tests
mod Lists
mod Strings
mod Maps
mod Containers
mod Outcomes
mod Numbers
pub use Tests.{
  if◌then◌else◌, ltb, leb, not, Bool-cases, Option-cases, Comparable, ◌==◌, ==_iff, ==_refl,
  ==_comm, nat_eq, is_some, ltb→lt, ltb_false→le, leb→le, leb_false→lt, ite_same, if_cases,
  if_split,
}
unfoldable pub use Lists.*
unfoldable pub use Strings.*
unfoldable pub use Maps.*
unfoldable pub use Containers.*
unfoldable pub use Outcomes.*
unfoldable pub use Numbers.*
pub use Prim.Native.Nat.{ℕ, zero, suc, ◌+◌, ◌-◌, ◌*◌, ◌/◌, ◌%◌, ◌^◌, ◌≤◌, ◌<◌}
pub use Prim.Native.String.{String}
pub use mathlib.Core.Path.{◌≡◌, refl, sym, ap, subst, ◌∙◌}
pub use mathlib.Core.Logic.{◌≢◌, ◌↔◌, ◌⊎◌, inl, inr}
pub use mathlib.Core.Bool.{Bool, true, false, ◌&&◌, ◌||◌}
pub use mathlib.Core.Option.{Option, none, some}
pub use mathlib.Core.List.{List, [], ◌∷◌, ◌++◌, map, reverse, append_assoc, append-nil}
pub use native.Mathlib.Omega.{arith}
