-- ===== src/Float/FixedLaws.antt =====
-- The fixed-point instance has the laws of `FloatLaws`.
use native.Mathlib.Nat.{
  le-div_iff_mul-le, div-mul-le_self, mul-le-mul_left, mul-le-mul_right, le_of_mul-le-mul_right,
  one-le-pow, mul-div_cancel,
}
use native.Mathlib.Decide.{dec_lt}
use pmm_simple.Prelude.{
  ℕ, zero, suc, ◌-◌, ◌*◌, ◌/◌, ◌^◌, ◌≤◌, ◌<◌, ◌≡◌, refl, ap, sym, ◌∙◌, ◌⊎◌, Bool, true, false, not,
  arith,
}
use pmm_simple.Prelude.Int.{ℤ, pos, negsuc, leb_ℤ}
use pmm_simple.Float.Defs.{FloatLaws}
use pmm_simple.Float.Fixed.{Fixed, fixed_float, mul, div, pow, lit}
use pmm_simple.Float.FixedOrder.{
  add_comm, add_le, add_zero, ceil_le, div_le, floor_le, floor_zero, fmod_nonneg, mul_comm, mul_le,
  mul_nonpos, mul_one, mul_right_le, mul_zero, round_le, round_zero, sub_le, sub_nonneg, sub_nonpos,
  sub_zero, trunc_le,
}

pow_pos : (b n : ℕ) → (p : ℕ) × (pow (pos b) n ≡ pos p)
unfolding pow
pow_pos b zero = (1_000_000_000, refl)
pow_pos b (suc n) = let (p, e) = pow_pos b n in (p * b / 1_000_000_000, ap (λ t. mul t (pos b)) e)

le-mul-div : (p b : ℕ) → 1_000_000_000 ≤ b → p ≤ p * b / 1_000_000_000
le-mul-div p b h = (le-div_iff_mul-le (omega arith)).1 (mul-le-mul_left p h)

pow_zero : (x : ℤ) → pow x 0 ≡ lit 1 0
unfolding pow lit
pow_zero x = refl

pow_le_suc : (x : ℤ) (n : ℕ) → leb_ℤ (lit 1 0) x ≡ true → leb_ℤ (pow x n) (pow x (suc n)) ≡ true
unfolding pow lit mul
pow_le_suc (negsuc b) n h = ground arith
pow_le_suc (pos b) n h = let (p, e) = pow_pos b n in rw e (ground (arith, le-mul-div p b))

-- Fractions compared crosswise.
div-le-div_cross : (a b c d : ℕ) → 0 < c → 0 < d → a * d ≤ b * c → a / c ≤ b / d
div-le-div_cross a b c d pc pd h =
    (le-div_iff_mul-le pd).1
      (le_of_mul-le-mul_right {k = c} (omega (arith, mul-le-mul_right d (div-mul-le_self a c))) pc)

lit_le : (n k m j : ℕ) → n * 10 ^ j ≤ m * 10 ^ k → leb_ℤ (lit n k) (lit m j) ≡ true
unfolding lit
lit_le n k m j h = ground (
  arith,
  div-le-div_cross (n * 1_000_000_000) (m * 1_000_000_000) (10 ^ k) (10 ^ j)
      (one-le-pow k 10 (omega arith)) (one-le-pow j 10 (omega arith)) (omega arith),
)

lt_cross :
    (n m a a' b b' : ℕ)
    → a * a' ≡ 1_000_000_000
    → b * b' ≡ 1_000_000_000
    → n * b < m * a
    → n * a' < m * b'
lt_cross n m a a' b b' ea eb h = elim (dec_lt (n * a') (m * b')) [
  | yes p ↦ p
  | no q ↦
      let r : m * b' ≤ n * a' = omega arith in
      absurd (
        omega (
          arith,
          mul-le-mul_right (a * b) r,
          ap (λ (t : ℕ). n * b * t) ea,
          ap (λ (t : ℕ). m * a * t) eb,
        ))
]

ten_split : (k : ℕ) → k ≤ 9 → 10 ^ k * 10 ^ (9 - k) ≡ 1_000_000_000
ten_split zero h = refl
ten_split (suc zero) h = refl
ten_split (suc (suc zero)) h = refl
ten_split (suc (suc (suc zero))) h = refl
ten_split (suc (suc (suc (suc zero)))) h = refl
ten_split (suc (suc (suc (suc (suc zero))))) h = refl
ten_split (suc (suc (suc (suc (suc (suc zero)))))) h = refl
ten_split (suc (suc (suc (suc (suc (suc (suc zero))))))) h = refl
ten_split (suc (suc (suc (suc (suc (suc (suc (suc zero)))))))) h = refl
ten_split (suc (suc (suc (suc (suc (suc (suc (suc (suc zero))))))))) h = refl
ten_split (suc (suc (suc (suc (suc (suc (suc (suc (suc (suc k)))))))))) h = absurd (omega arith)

lit_exact : (n k : ℕ) → k ≤ 9 → lit n k ≡ pos (n * 10 ^ (9 - k))
unfolding lit
lit_exact n k h = ap pos (
    ap (λ (t : ℕ). n * t / 10 ^ k) (sym (ten_split k h))
    ∙ ap (λ (t : ℕ). t / 10 ^ k) (omega arith)
    ∙ mul-div_cancel (n * 10 ^ (9 - k)) (one-le-pow k 10 (omega arith)))

le_refl : (x : ℤ) → leb_ℤ x x ≡ true
le_refl x = ground arith

le_trans : (x y z : ℤ) → leb_ℤ x y ≡ true → leb_ℤ y z ≡ true → leb_ℤ x z ≡ true
le_trans x y z p q = ground arith

le_total : (x y : ℤ) → (leb_ℤ x y ≡ true) ⊎ (leb_ℤ y x ≡ true)
le_total x y = ground arith

zero_div : (c : ℤ) → leb_ℤ c (lit 0 0) ≡ false → div (lit 0 0) c ≡ lit 0 0
unfolding div lit
zero_div (pos c) h = ground arith
zero_div (negsuc c) h = ground arith

not-false : (b : Bool) → not b ≡ true → b ≡ false
not-false b h = ground arith

not-true : (b : Bool) → b ≡ false → not b ≡ true
not-true b h = ground arith

instance pub fixed_laws : FloatLaws Fixed
fixed_laws = record {
  le_refl = le_refl;
  le_trans = le_trans;
  le_total = le_total;
  add_le = add_le;
  add_comm = add_comm;
  add_zero = add_zero;
  sub_le = sub_le;
  sub_zero = sub_zero;
  sub_nonneg = sub_nonneg;
  sub_nonpos = sub_nonpos;
  mul_le = mul_le;
  mul_right_le = mul_right_le;
  mul_nonpos = mul_nonpos;
  mul_comm = mul_comm;
  mul_zero = mul_zero;
  mul_one = mul_one;
  div_le = λ a b c h k. div_le a b c h (not-false _ k);
  zero_div = λ c h. zero_div c (not-false _ h);
  fmod_nonneg = λ x m h. fmod_nonneg x m (not-false _ h);
  pow_zero = pow_zero;
  pow_le_suc = pow_le_suc;
  lit_le = lit_le;
  floor_le = floor_le;
  ceil_le = ceil_le;
  trunc_le = trunc_le;
  round_le = round_le;
  floor_zero = floor_zero;
  round_zero = round_zero;
}
