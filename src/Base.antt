-- ===== src/Base.antt =====
-- The names that the whole development shares: the libraries', passed on, and those of five children.
mod Tests
mod Lists
mod Results
mod TextOrder
pub mod Dict
pub mod Sort
pub mod Json
pub mod Counts
pub mod Maps
pub use Tests.{
  ltb, leb, ◌==◌, if◌then◌else◌, Bool-cases, Option-cases, is_some, or_else, or_text, str_eq_iff,
  str_eq_self, str_eq_ne, str_eq_cases, opt_str_eq, opt_str_eq_iff,
}
unfoldable pub use Tests.{str_eq}
unfoldable pub use TextOrder.{text_le, text_length}
pub use TextOrder.{points}
pub use Lists.*
unfoldable pub use Lists.{contains}
pub use Results.*
pub use Prim.Native.Nat.{ℕ, zero, suc, ◌+◌, ◌-◌, ◌*◌, ◌/◌, ◌%◌, ◌^◌, ◌≤◌, ◌<◌, min}
pub use Prim.Native.String.{String}
pub use mathlib.Core.Path.{◌≡◌, refl, sym, ap, subst, ◌∙◌, ◌≡⟨◌⟩◌, ◌∎}
pub use mathlib.Core.Logic.{◌≢◌, ◌↔◌, ◌⊎◌, inl, inr}
pub use mathlib.Core.Bool.{Bool, true, false, ◌&&◌, ◌||◌, not}
pub use mathlib.Core.Option.{Option, none, some}
pub use mathlib.Core.List.{List, [], ◌∷◌, ◌++◌, map, append-nil, append_assoc, map-append, reverse}
pub use native.Mathlib.Omega.{arith}
