-- ===== src/Prelude.antt =====
-- The names that the other modules share: the libraries', passed on, and those of the children.
pub mod Tests
pub mod Lists
pub mod Text
pub mod Int
pub use Tests.*
pub use Lists.*
unfoldable pub use Text.{bytes_eq, strlcpy}
pub use Text.{
  Bytes, codes, bytes_eq_refl, bytes_eq_sound, bytes_eq_iff, is_empty, strlcpy_fits, take-all,
}
pub use Prim.Native.Nat.{ℕ, zero, suc, ◌+◌, ◌-◌, ◌*◌, ◌/◌, ◌%◌, ◌^◌, ◌≤◌, ◌<◌}
pub use mathlib.Core.Path.{◌≡◌, refl, sym, ap, ◌∙◌}
pub use mathlib.Core.Logic.{◌≢◌, ◌↔◌, ◌⊎◌, inl, inr}
pub use mathlib.Core.Bool.{Bool, true, false, not, ◌&&◌, ◌||◌}
pub use mathlib.Core.Option.{Option, none, some}
pub use mathlib.Core.List.{List, [], ◌∷◌, ◌++◌, map, append-nil, append_assoc}
pub use native.Mathlib.Omega.{arith}
pub use Int.{ℤ, pos, negsuc, pos_part, neg_part, sub_ℕ, ltb_ℤ, leb_ℤ, eq_ℤ, eq_ℤ_sound, eq_ℤ_refl}
