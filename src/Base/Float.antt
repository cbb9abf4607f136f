-- ===== src/Base/Float.antt =====
-- `f64` arithmetic as an interface: there is no float type here, so code that computes with them takes
-- the type and its operations as an argument. `ratio a b` is the literal a / b, `to_u64` the cast `as
-- u64`, `of_u64` the cast from an integer.
use Prim.Native.Nat.{ℕ}
use mathlib.Core.Bool.{Bool}

pub record Float : Type 1 where
  pub F : Type 0
  pub of_u64 : ℕ → F
  pub ratio : ℕ → ℕ → F
  pub fadd : F → F → F
  pub fsub : F → F → F
  pub fmul : F → F → F
  pub fdiv : F → F → F
  pub fmin : F → F → F
  pub fmax : F → F → F
  pub fle : F → F → Bool
  pub to_u64 : F → ℕ
