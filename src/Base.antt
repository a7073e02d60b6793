-- ===== src/Base.antt =====
-- Names that the other modules share: the libraries', passed on, and those of the children below.
mod Tests
mod Lists
mod Mapping
mod Text
mod Values
mod Numbered
mod Exceptions
mod Sorting
mod Whitespace
mod Integers
pub mod Order
pub mod Membership
pub use Tests.*
pub use Lists.*
pub use Mapping.{
  Dict, contains, values, lookup-insert, lookup-insert_self, contains-insert, contains-insert_self,
  Every, Every-insert, Every-lookup,
}
unfoldable pub use Mapping.{lookup, insert, erase}
unfoldable pub use Text.{decimal, replace_all}
pub use Text.{decimal-injective, append_inj_left, is_empty}
pub use Values.{Value, null, number, flag, string, document, truthy}
unfoldable pub use Values.{to_text}
pub use Numbered.*
pub use Exceptions.*
pub use Integers.{ℤ, pos, negsuc, natural}
pub use Sorting.{IsDescending, newest_first-IsDescending, All-newest_first}
unfoldable pub use Sorting.{newest_first}
unfoldable pub use Whitespace.{stripped_length, strip, split, char_count}
pub use Prim.Native.Nat.{ℕ, zero, suc, ◌+◌, ◌-◌, ◌*◌, ◌/◌, ◌%◌, ◌^◌, ◌≤◌, ◌<◌, min, max}
pub use Prim.Native.String.{String}
pub use mathlib.Core.Path.{◌≡◌, refl, sym, ap, ◌∙◌, subst}
pub use mathlib.Core.Logic.{◌≢◌, ◌↔◌, ◌⊎◌, inl, inr}
pub use mathlib.Core.Bool.{Bool, true, false, not, ◌&&◌, ◌||◌}
pub use mathlib.Core.Option.{Option, none, some}
pub use mathlib.Core.List.{List, [], ◌∷◌, ◌++◌, map}
pub use native.Mathlib.Omega.{arith}
