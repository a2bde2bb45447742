-- ===== src/Common.antt =====
-- The names that the other modules share: the libraries', passed on, and those of the children.
pub mod Tests
pub mod Equality
pub mod Int
pub mod Maps
pub mod Lists
pub mod Sort
pub mod Text
pub mod TextRead
pub use Tests.*
pub use Equality.*
pub use Int.*
unfoldable pub use Int.{inc64, dec64}
pub use Maps.*
pub use Lists.*
pub use Sort.*
pub use Text.*
unfoldable pub use Text.{
  upper, to_upper, is_space, trim_left, trim_right, trim_space, split_comma, digits_from, digits,
  signed, atoi, decimal_from, decimal, itoa,
}
unfoldable pub use Sort.{sort, insert_sorted, string_leb}
unfoldable pub use Maps.{get, delete, put}
pub use Prim.Native.Nat.{ℕ, zero, suc, ◌+◌, ◌-◌, ◌*◌, ◌/◌, ◌^◌, ◌≤◌, ◌<◌}
pub use Prim.Native.String.{String}
pub use mathlib.Core.Path.{◌≡◌, refl, sym, ap, ◌∙◌, subst}
pub use mathlib.Core.Logic.{◌≢◌, ◌↔◌, ◌⊎◌, inl, inr}
pub use mathlib.Core.Bool.{Bool, true, false, not, ◌&&◌, ◌||◌, false≢true}
pub use mathlib.Core.Option.{Option, none, some, some-injective}
pub use mathlib.Core.List.{List, [], ◌∷◌, ◌++◌, map}
pub use native.Mathlib.Omega.{arith}
