-- ===== src/Prelude.antt =====
-- Names that every module shares: the libraries', passed on, and those of the children.
mod Tests
mod Table
pub mod Int
pub mod Text
pub mod Lists
pub mod Growth
pub mod Unique
pub mod TextOrder
pub use Tests.*
pub use Table.*
pub use Prim.Native.Nat.{ℕ, zero, suc, ◌+◌, ◌-◌, ◌*◌, ◌≤◌, ◌<◌}
pub use Prim.Native.String.{String}
pub use mathlib.Core.Path.{◌≡◌, refl, sym, ap, ◌∙◌}
pub use mathlib.Core.Logic.{◌≢◌, ◌⊎◌, inl, inr}
pub use mathlib.Core.Bool.{Bool, true, false, not, ◌&&◌, ◌||◌}
pub use mathlib.Core.Option.{Option, none, some}
pub use mathlib.Core.List.{List, [], ◌∷◌, ◌++◌, map}
pub use native.Mathlib.Omega.{arith}
pub use text.Mathlib.Text.{◌==◌ as str_eq}
pub use text.Mathlib.TextEquality.{eq_iff}
pub use text.Mathlib.TextPositions.{eq_refl}

pub str_eq-true : {a b : String} → a ≡ b → str_eq a b ≡ true
str_eq-true {a} {b} e = (eq_iff a b).1 e

pub str_eq-false : {a b : String} → a ≢ b → str_eq a b ≡ false
str_eq-false {a} {b} ne = elim (Bool-cases (str_eq a b)) [
  | inl same ↦ absurd (ne ((eq_iff a b).0 same))
  | inr other ↦ other
]
