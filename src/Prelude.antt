-- ===== src/Prelude.antt =====
-- Names that every module of the development shares: the libraries', passed on, and the children's.
mod Tests
mod Lists
mod Text
pub mod Int
pub mod Dict
pub mod Errors
pub mod Effects
pub use Tests.*
pub use Lists.*
pub use Int.{ℤ, pos, negsuc, pos_part, neg_part, sub_ℕ, ◌≤ℤ◌, leb_ℤ, abs}
pub use Errors.{Error, key_error, index_error, value_error, other, Result, ok, raise, ◌>>=◌, first}
unfoldable pub use Text.{text, join, digit, repr_loop, repr, show_money}
pub use Prim.Native.Nat.{ℕ, zero, suc, ◌+◌, ◌-◌, ◌*◌, ◌/◌, ◌%◌, ◌^◌, ◌≤◌, ◌<◌}
pub use Prim.Native.String.{String}
pub use mathlib.Core.Bool.{Bool, true, false, not, ◌&&◌, ◌||◌}
pub use mathlib.Core.List.{List, [], ◌∷◌, ◌++◌, map, Mem, Nodup, Perm}
pub use mathlib.Core.Logic.{◌≢◌, ◌↔◌, ◌⊎◌, inl, inr}
pub use mathlib.Core.Option.{Option, none, some}
pub use mathlib.Core.Path.{◌≡◌, refl, sym, ap, ◌∙◌}
pub use native.Mathlib.Omega.{arith}
