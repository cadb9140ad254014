-- ===== src/Base.antt =====
-- The names that the modules share: the libraries', passed on, and those of the children.
mod Tests
mod Lists
mod Classes
mod Assoc
mod Bytes
mod Int
mod Errors
mod Sorting
mod Spaces
mod Keys
mod Ordering
mod Paths
mod Decimals
pub use Tests.*
pub use Lists.*
unfoldable pub use Classes.{str_eq}
pub use Classes.*
unfoldable pub use Assoc.{lookup, insert, delete}
pub use Assoc.*
unfoldable pub use Bytes.{has_prefix, index_byte, trim_right, trim_left, split_on}
pub use Bytes.*
unfoldable pub use Int.{◌+ℤ◌, ◌-ℤ◌, ◌*ℤ◌}
pub use Int.*
pub use Errors.*
unfoldable pub use Sorting.{str_le, insert_sorted, sort_strings}
pub use Sorting.*
unfoldable pub use Spaces.{trim_space, fields}
pub use Spaces.*
pub use Keys.*
unfoldable pub use Ordering.{insert_by, sort_by, filter_by, join}
pub use Ordering.*
unfoldable pub use Paths.{elements, clean_path, join_path, base_name, ext_name, rel}
pub use Paths.*
pub use Paths.Inside.{Inside, within, is_abs-clean_path}
unfoldable pub use Decimals.{parse_uint, decimal, parse_digits}
pub use Decimals.*
pub use Prim.Native.Nat.{ℕ, zero, suc, ◌+◌, ◌-◌, ◌*◌, ◌/◌, ◌%◌, ◌^◌, ◌≤◌, ◌<◌}
pub use Prim.Native.String.{String}
pub use mathlib.Core.Path.{◌≡◌, refl, sym, ap, ◌∙◌, subst}
pub use mathlib.Core.Logic.{◌≢◌, ◌↔◌, ◌⊎◌, inl, inr}
pub use mathlib.Core.Bool.{Bool, true, false, not, ◌&&◌, ◌||◌}
pub use mathlib.Core.Option.{Option, none, some}
pub use mathlib.Core.List.{List, [], ◌∷◌, ◌++◌, map, append_assoc, append-nil}
pub use native.Mathlib.Omega.{arith}
