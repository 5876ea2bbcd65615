-- ===== src/Pricing/Float.antt =====
-- Floating-point arithmetic as the calculator uses it. antt has no floats, so `f64` is a type
-- with the operations that the code calls, and nothing is assumed of them.
use burnly.Prelude.{ℕ, Bool}

pub record FloatOps : Type 1 where
  pub F64 : Type 0
  -- The literals 0.0, 0.5 and 1_000_000.0.
  pub zero_f : F64
  pub half_f : F64
  pub million_f : F64
  -- `n as f64` for a `u64`, and `x as u64`.
  pub of_u64 : ℕ → F64
  pub as_u64 : F64 → ℕ
  pub add_f : F64 → F64 → F64
  pub mul_f : F64 → F64 → F64
  pub floor : F64 → F64
  pub is_finite : F64 → Bool
  pub lt_f : F64 → F64 → Bool
