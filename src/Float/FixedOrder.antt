-- ===== src/Float/FixedOrder.antt =====
-- The order of the numbers with nine decimals, and the operations that keep it.
use native.Mathlib.Nat
use native.Mathlib.Nat.{
  mul-le-mul, le-div_iff_mul-le, div-mul-le_self, div-eq_of_lt, mul-le-mul_left, mul-le-mul_right,
  le_of_mul-le-mul_right, one-le-pow, mul-div_cancel,
}
use pmm_simple.Prelude.{ℕ, zero, suc, ◌+◌, ◌*◌, ◌/◌, ◌≤◌, ◌≡◌, refl, ap, true, false, arith}
use pmm_simple.Prelude.Int.{ℤ, pos, negsuc, ◌+ℤ◌, ◌-ℤ◌, leb_ℤ}
use pmm_simple.Float.Fixed.{fixed_float, mul, div, fmod, floor, ceil, trunc, round, lit, grain}

div-le-div : (a b c : ℕ) → a ≤ b → a / c ≤ b / c
div-le-div a b c h = grind arith

down-le : (u a b : ℕ) → a ≤ b → a / u * u ≤ b / u * u
down-le u a b h = mul-le-mul (div-le-div a b u h) (omega arith)

-- Half a grain rounds down to nothing.
half_grain : (u : ℕ) → (0 + u / 2) / u * u ≡ 0
half_grain zero = refl
half_grain (suc u) =
    let e : (0 + suc u / 2) / suc u ≡ 0 = div-eq_of_lt (omega arith) in rw e (omega arith)

pub add_le : (a b c d : ℤ) → leb_ℤ a b ≡ true → leb_ℤ c d ≡ true → leb_ℤ (a +ℤ c) (b +ℤ d) ≡ true
unfolding ◌+ℤ◌
add_le a b c d h k = ground arith

pub sub_le : (a b c d : ℤ) → leb_ℤ a b ≡ true → leb_ℤ d c ≡ true → leb_ℤ (a -ℤ c) (b -ℤ d) ≡ true
unfolding ◌-ℤ◌
sub_le a b c d h k = ground arith

pub add_comm : (x y : ℤ) → x +ℤ y ≡ y +ℤ x
unfolding ◌+ℤ◌
add_comm x y = ground arith

pub mul_comm : (x y : ℤ) → mul x y ≡ mul y x
unfolding mul
mul_comm (pos a) (pos b) = ground (arith, Nat.mul_comm a b)
mul_comm (pos a) (negsuc b) = ground (arith, Nat.mul_comm a (suc b))
mul_comm (negsuc a) (pos b) = ground (arith, Nat.mul_comm (suc a) b)
mul_comm (negsuc a) (negsuc b) = ground (arith, Nat.mul_comm (suc a) (suc b))

pub add_zero : (x : ℤ) → x +ℤ lit 0 0 ≡ x
unfolding ◌+ℤ◌ lit
add_zero x = ground arith

pub sub_zero : (x : ℤ) → x -ℤ lit 0 0 ≡ x
unfolding ◌-ℤ◌ lit
sub_zero x = ground arith

pub sub_nonneg : (x y : ℤ) → leb_ℤ (lit 0 0) (x -ℤ y) ≡ leb_ℤ y x
unfolding ◌-ℤ◌ lit
sub_nonneg x y = ground arith

pub sub_nonpos : (x y : ℤ) → leb_ℤ (x -ℤ y) (lit 0 0) ≡ leb_ℤ x y
unfolding ◌-ℤ◌ lit
sub_nonpos x y = ground arith

pub mul_le :
    (a b c d : ℤ)
    → leb_ℤ (lit 0 0) a ≡ true
    → leb_ℤ a b ≡ true
    → leb_ℤ (lit 0 0) c ≡ true
    → leb_ℤ c d ≡ true
    → leb_ℤ (mul a c) (mul b d) ≡ true
unfolding mul lit
mul_le (pos a) (pos b) (pos c) (pos d) h k p q = ground (
  arith,
  div-le-div (a * c) (b * d) 1_000_000_000
      (mul-le-mul {n₁ = a} {m₁ = c} {n₂ = b} {m₂ = d} (ground arith) (ground arith)),
)
mul_le a b c d h k p q = ground arith

pub mul_right_le :
    (a b c : ℤ) → leb_ℤ a b ≡ true → leb_ℤ (lit 0 0) c ≡ true → leb_ℤ (mul a c) (mul b c) ≡ true
unfolding mul lit
mul_right_le (pos a) (pos b) (pos c) h k = ground (
  arith,
  div-le-div (a * c) (b * c) 1_000_000_000 (mul-le-mul_right {m = a} {n = b} c (ground arith)),
)
mul_right_le (negsuc a) (negsuc b) (pos c) h k = ground (
  arith,
  div-le-div (suc b * c) (suc a * c) 1_000_000_000
      (mul-le-mul_right {m = suc b} {n = suc a} c (ground arith)),
)
mul_right_le (negsuc a) (pos b) (pos c) h k = ground arith
mul_right_le (pos a) (negsuc b) (pos c) h k = ground arith
mul_right_le a b (negsuc c) h k = ground arith

a_zero : (a : ℕ) → leb_ℤ (pos a) (lit 0 0) ≡ true → a ≡ 0
unfolding lit
a_zero a h = ground arith

pub mul_nonpos :
    (x y : ℤ)
    → leb_ℤ x (lit 0 0) ≡ true
    → leb_ℤ (lit 0 0) y ≡ true
    → leb_ℤ (mul x y) (lit 0 0) ≡ true
unfolding mul lit
mul_nonpos (pos a) (pos b) h k = ground (arith, ap (λ (t : ℕ). t * b) (a_zero a h))
mul_nonpos (pos a) (negsuc b) h k = ground arith
mul_nonpos (negsuc a) y h k = ground arith

pub mul_zero : (x : ℤ) → mul x (lit 0 0) ≡ lit 0 0
unfolding mul lit
mul_zero (pos a) = ground arith
mul_zero (negsuc a) = ground arith

pub mul_one : (x : ℤ) → mul x (lit 1 0) ≡ x
unfolding mul lit
mul_one (pos a) = ground arith
mul_one (negsuc a) = ground arith

pub div_le :
    (a b c : ℤ) → leb_ℤ a b ≡ true → leb_ℤ c (lit 0 0) ≡ false → leb_ℤ (div a c) (div b c) ≡ true
unfolding div lit
div_le (pos a) (pos b) (pos c) h k =
    ground (arith, div-le-div (a * 1_000_000_000) (b * 1_000_000_000) c)
div_le (negsuc a) (negsuc b) (pos c) h k =
    ground (arith, div-le-div (suc b * 1_000_000_000) (suc a * 1_000_000_000) c)
div_le (negsuc a) (pos b) (pos c) h k = ground arith
div_le (pos a) (negsuc b) (pos c) h k = ground arith
div_le a b (negsuc c) h k = ground arith

pub fmod_nonneg : (x m : ℤ) → leb_ℤ m (lit 0 0) ≡ false → leb_ℤ (lit 0 0) (fmod x m) ≡ true
unfolding fmod lit
fmod_nonneg (pos a) (pos b) h = ground arith
fmod_nonneg (negsuc a) (pos b) h = ground arith
fmod_nonneg x (negsuc b) h = ground arith

pub floor_le : (x y : ℤ) → leb_ℤ x y ≡ true → leb_ℤ (floor x) (floor y) ≡ true
unfolding floor
floor_le x y h = ground arith

pub ceil_le : (x y : ℤ) → leb_ℤ x y ≡ true → leb_ℤ (ceil x) (ceil y) ≡ true
unfolding ceil
ceil_le x y h = ground arith

pub trunc_le : (x y : ℤ) → leb_ℤ x y ≡ true → leb_ℤ (trunc x) (trunc y) ≡ true
unfolding trunc
trunc_le x y h = ground arith

pub floor_zero : floor (lit 0 0) ≡ lit 0 0
unfolding floor lit
floor_zero = refl

pub round_le : (x y : ℤ) (k : ℕ) → leb_ℤ x y ≡ true → leb_ℤ (round x k) (round y k) ≡ true
unfolding round grain
round_le (pos a) (pos b) k h = ground (arith, down-le (grain k) (a + grain k / 2) (b + grain k / 2))
round_le (negsuc a) (negsuc b) k h =
    ground (arith, down-le (grain k) (suc b + grain k / 2) (suc a + grain k / 2))
round_le (negsuc a) (pos b) k h = ground arith
round_le (pos a) (negsuc b) k h = ground arith

pub round_zero : (k : ℕ) → round (lit 0 0) k ≡ lit 0 0
unfolding round lit
round_zero k = ap pos (half_grain (grain k))
