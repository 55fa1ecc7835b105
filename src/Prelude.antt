-- ===== src/Prelude.antt =====
-- Names that every module uses: the libraries', passed on, Boolean tests and case lemmas.
mod Tests
mod Lists
pub mod Int
pub mod Str
pub mod Value
pub mod Table
pub mod Sort
pub mod Strip
pub use Tests.*
pub use Lists.*
pub use Int.{ℤ, pos, negsuc, ◌≤ℤ◌, ltb_ℤ, leb_ℤ}
unfoldable pub use Str.{text_eq, strip, lower, starts_with}
pub use Str.{Text, codes, nonempty, text_eq_iff, text_eq_refl}
pub use Prim.Native.Nat.{ℕ, zero, suc, ◌+◌, ◌-◌, ◌*◌, ◌/◌, ◌%◌, ◌^◌, ◌≤◌, ◌<◌, min, max}
pub use mathlib.Core.Path.{◌≡◌, refl, sym, ap, subst, ◌∙◌, fun_ext}
pub use mathlib.Core.Logic.{◌≢◌, ◌↔◌, ◌⊎◌, inl, inr}
pub use mathlib.Core.Bool.{Bool, true, false, not, ◌&&◌, ◌||◌, false≢true}
pub use mathlib.Core.Option.{Option, none, some}
pub use mathlib.Core.List.{List, [], ◌∷◌, ◌++◌, map, reverse, append_assoc, append-nil}
pub use native.Mathlib.Omega.{arith}
