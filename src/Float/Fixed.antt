-- ===== src/Float/Fixed.antt =====
-- An instance that computes: numbers with nine decimals, as integer multiples of 10^-9. Products and
-- quotients are cut toward zero. The laws hold of it, so they can be met.
use pmm_simple.Prelude.{ℕ, zero, suc, ◌+◌, ◌-◌, ◌*◌, ◌/◌, ◌^◌, leb, if◌then◌else◌}
use Prim.Native.Nat.{◌%◌}
use pmm_simple.Prelude.Int.{ℤ, pos, negsuc, sub_ℕ, ◌+ℤ◌, ◌-ℤ◌, leb_ℤ}
use pmm_simple.Float.Defs.{Float}

abbrev pub Fixed : Type 0
Fixed = ℤ

abbrev scale : ℕ
scale = 1_000_000_000

abbrev neg : ℕ → ℤ
neg n = sub_ℕ 0 n

unfoldable pub mul : ℤ → ℤ → ℤ
mul (pos a) (pos b) = pos (a * b / scale)
mul (pos a) (negsuc b) = neg (a * suc b / scale)
mul (negsuc a) (pos b) = neg (suc a * b / scale)
mul (negsuc a) (negsuc b) = pos (suc a * suc b / scale)

unfoldable pub div : ℤ → ℤ → ℤ
div (pos a) (pos b) = pos (a * scale / b)
div (pos a) (negsuc b) = neg (a * scale / suc b)
div (negsuc a) (pos b) = neg (suc a * scale / b)
div (negsuc a) (negsuc b) = pos (suc a * scale / suc b)

unfoldable pub fmod : ℤ → ℤ → ℤ
fmod (pos a) (pos b) = pos (a % b)
fmod (negsuc a) (pos b) = pos (b - 1 - a % b)
fmod _ (negsuc b) = pos 0

unfoldable pub pow : ℤ → ℕ → ℤ
unfolding mul
pow x zero = pos scale
pow x (suc n) = mul (pow x n) x

-- Multiples of `u`, below and above.
abbrev down : ℕ → ℕ → ℕ
down u n = n / u * u

abbrev up : ℕ → ℕ → ℕ
up u n = down u (n + (u - 1))

unfoldable pub floor : ℤ → ℤ
floor (pos n) = pos (down scale n)
floor (negsuc n) = neg (up scale (suc n))

unfoldable pub ceil : ℤ → ℤ
ceil (pos n) = pos (up scale n)
ceil (negsuc n) = neg (down scale (suc n))

unfoldable pub trunc : ℤ → ℤ
trunc (pos n) = pos (down scale n)
trunc (negsuc n) = neg (down scale (suc n))

unfoldable pub grain : ℕ → ℕ
grain k = if leb k 9 then 10 ^ (9 - k) else 1

unfoldable pub round : ℤ → ℕ → ℤ
unfolding grain
round (pos n) k = pos (down (grain k) (n + grain k / 2))
round (negsuc n) k = neg (down (grain k) (suc n + grain k / 2))

unfoldable pub lit : ℕ → ℕ → ℤ
lit n k = pos (n * scale / 10 ^ k)

instance abbrev pub fixed_float : Float Fixed
fixed_float = record {
  add = ◌+ℤ◌;
  sub = ◌-ℤ◌;
  mul = mul;
  div = div;
  fmod = fmod;
  pow = pow;
  le = leb_ℤ;
  lit = lit;
  floor = floor;
  ceil = ceil;
  trunc = trunc;
  round = round;
}
