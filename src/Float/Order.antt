-- ===== src/Float/Order.antt =====
-- Consequences of the laws: `min` and `max`, and the sign of sums, products, quotients and roundings.
use pmm_simple.Prelude.{ℕ, ◌≡◌, false, arith}
use pmm_simple.Float.Defs.{Float, FloatLaws, ◌≼◌, ◌≺◌, ◌+◌, ◌-◌, ◌*◌, ◌/◌, nought, le, lt, min, max}

module _ {F : Type 0} ⦃f : Float F⦄ ⦃laws : FloatLaws F⦄ where
  open laws use {
    le_refl, le_trans, le_total, add_le, add_comm, add_zero, sub_le, sub_zero, sub_nonneg, mul_le,
    mul_zero, div_le, zero_div, round_le, round_zero,
  }

  pub le_of_not_le : (x y : F) → le x y ≡ false → y ≼ x
  le_of_not_le x y h = ground (arith, le_total x y)

  pub le_of_lt : (x y : F) → x ≺ y → x ≼ y
  le_of_lt x y h = ground (arith, le_total x y)

  pub le_of_not_lt : (x y : F) → lt x y ≡ false → y ≼ x
  le_of_not_lt x y h = ground arith

  pub lt-le_trans : (x y z : F) → x ≺ y → y ≼ z → x ≺ z
  lt-le_trans x y z h k = ground (arith, le_trans y z x k)

  pub le-lt_trans : (x y z : F) → x ≼ y → y ≺ z → x ≺ z
  le-lt_trans x y z h k = ground (arith, le_trans z x y)

  pub le-max_left : (x y : F) → x ≼ max x y
  le-max_left x y = ground (arith, le_refl x, le_of_lt x y)

  pub le-max_right : (x y : F) → y ≼ max x y
  le-max_right x y = ground (arith, le_refl y, le_of_not_lt x y)

  pub max-le : (x y z : F) → x ≼ z → y ≼ z → max x y ≼ z
  max-le x y z h k = ground arith

  pub min-le_left : (x y : F) → min x y ≼ x
  min-le_left x y = ground (arith, le_refl x, le_of_lt y x)

  pub min-le_right : (x y : F) → min x y ≼ y
  min-le_right x y = ground (arith, le_refl y, le_of_not_lt y x)

  pub le-min : (x y z : F) → z ≼ x → z ≼ y → z ≼ min x y
  le-min x y z h k = ground arith

  pub le-add_right : (x y : F) → nought ≼ y → x ≼ x + y
  le-add_right x y h = ground (arith, add_le x x nought y (le_refl x) h, add_zero x)

  pub le-add_left : (x y : F) → nought ≼ x → y ≼ x + y
  le-add_left x y h = ground (arith, le-add_right y x h, add_comm x y)

  pub add_nonneg : (x y : F) → nought ≼ x → nought ≼ y → nought ≼ x + y
  add_nonneg x y h k = le_trans nought x (x + y) h (le-add_right x y k)

  pub sub-le_self : (x y : F) → nought ≼ y → x - y ≼ x
  sub-le_self x y h = ground (arith, sub_le x x y nought (le_refl x) h, sub_zero x)

  pub mul_nonneg : (x y : F) → nought ≼ x → nought ≼ y → nought ≼ x * y
  mul_nonneg x y h k =
      ground (arith, mul_le x x nought y h (le_refl x) (le_refl nought) k, mul_zero x)

  pub div_nonneg : (x y : F) → nought ≼ x → nought ≺ y → nought ≼ x / y
  div_nonneg x y h k = ground (arith, div_le nought x y h k, zero_div y k)

  pub round_nonneg : (x : F) (k : ℕ) → nought ≼ x → nought ≼ f.round x k
  round_nonneg x k h = ground (arith, round_le nought x k h, round_zero k)

  pub round_nonpos : (x : F) (k : ℕ) → x ≼ nought → f.round x k ≼ nought
  round_nonpos x k h = ground (arith, round_le x nought k h, round_zero k)
