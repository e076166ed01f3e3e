-- ===== src/Common/Floats.antt =====
-- What the program uses of `f32` and `f64`. No law is assumed of them.
use Prim.Native.Nat.{ℕ, Ordering, compare, min, ◌+◌, ◌*◌, ◌/◌}
use mathlib.Core.Bool.{Bool, true}

pub record Floats : Type 1 where
  pub F32 : Type 0
  pub F64 : Type 0
  pub is_finite : F32 → Bool
  pub from_f32 : F32 → F64  -- `f64::from`
  pub to_f32 : F64 → F32  -- `as f32`
  pub from_int : ℕ → F64  -- `as f64`
  pub f64_zero : F64
  pub f32_zero : F32
  pub f64_add : F64 → F64 → F64
  pub f64_mul : F64 → F64 → F64
  pub f64_div : F64 → F64 → F64
  pub clamp_unit : F64 → F64  -- `clamp(-1.0, 1.0)`
  pub clamp_unit_f32 : F32 → F32
  pub total_cmp : F64 → F64 → Ordering

-- Whole numbers in place of floats: an instance for tests.
abbrev pub whole_floats : Floats
whole_floats = record {
  F32 = ℕ;
  F64 = ℕ;
  is_finite = λ _. true;
  from_f32 = λ x. x;
  to_f32 = λ x. x;
  from_int = λ x. x;
  f64_zero = 0;
  f32_zero = 0;
  f64_add = λ x y. x + y;
  f64_mul = λ x y. x * y;
  f64_div = λ x y. x / y;
  clamp_unit = λ x. min x 1;
  clamp_unit_f32 = λ x. min x 1;
  total_cmp = compare;
}
