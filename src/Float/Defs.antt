-- ===== src/Float/Defs.antt =====
-- The interface of Python's `float`, the derived tests, and its laws.
use pmm_simple.Prelude.{ℕ, suc, ◌^◌, ◌≤◌, ◌≡◌, ◌⊎◌, Bool, true, not, ◌&&◌, if◌then◌else◌}
use Prim.Native.Nat.{◌*◌ as mul_ℕ}

pub record Float (F : Type 0) : Type 0 where
  pub add : F → F → F
  pub sub : F → F → F
  pub mul : F → F → F
  pub div : F → F → F
  -- `x % y`
  pub fmod : F → F → F
  pub pow : F → ℕ → F
  pub le : F → F → Bool
  -- The literal n / 10^k.
  pub lit : ℕ → ℕ → F
  -- `math.floor`, `math.ceil`, `int(x)` and `round(x, k)`.
  pub floor : F → F
  pub ceil : F → F
  pub trunc : F → F
  pub round : F → ℕ → F

module _ {F : Type 0} ⦃f : Float F⦄ where
  infixl 65 ◌+◌ ◌-◌
  infixl 70 ◌*◌ ◌/◌
  infix 50 ◌≼◌ ◌≺◌
  abbrev pub ◌+◌ : F → F → F
  ◌+◌ = f.add

  abbrev pub ◌-◌ : F → F → F
  ◌-◌ = f.sub

  abbrev pub ◌*◌ : F → F → F
  ◌*◌ = f.mul

  abbrev pub ◌/◌ : F → F → F
  ◌/◌ = f.div

  abbrev pub lit : ℕ → ℕ → F
  lit = f.lit

  abbrev pub nought : F
  nought = f.lit 0 0

  abbrev pub one : F
  one = f.lit 1 0

  abbrev pub le : F → F → Bool
  le = f.le

  abbrev pub lt : F → F → Bool
  lt x y = not (f.le y x)

  -- `x == y`
  abbrev pub eq : F → F → Bool
  eq x y = f.le x y && f.le y x

  abbrev pub min : F → F → F
  min x y = if lt y x then y else x

  abbrev pub max : F → F → F
  max x y = if lt x y then y else x

  abbrev pub abs : F → F
  abs x = if lt x nought then nought - x else x

  abbrev pub ◌≼◌ : F → F → Type 0
  x ≼ y = f.le x y ≡ true

  abbrev pub ◌≺◌ : F → F → Type 0
  x ≺ y = lt x y ≡ true

pub record FloatLaws (F : Type 0) ⦃f : Float F⦄ : Type 0 where
  pub le_refl : (x : F) → x ≼ x
  pub le_trans : (x y z : F) → x ≼ y → y ≼ z → x ≼ z
  pub le_total : (x y : F) → (x ≼ y) ⊎ (y ≼ x)
  pub add_le : (a b c d : F) → a ≼ b → c ≼ d → a + c ≼ b + d
  pub add_comm : (x y : F) → x + y ≡ y + x
  pub add_zero : (x : F) → x + nought ≡ x
  pub sub_le : (a b c d : F) → a ≼ b → d ≼ c → a - c ≼ b - d
  pub sub_zero : (x : F) → x - nought ≡ x
  -- Subtraction is exact about the order of its arguments (gradual underflow).
  pub sub_nonneg : (x y : F) → le nought (x - y) ≡ le y x
  pub sub_nonpos : (x y : F) → le (x - y) nought ≡ le x y
  pub mul_le : (a b c d : F) → nought ≼ a → a ≼ b → nought ≼ c → c ≼ d → a * c ≼ b * d
  pub mul_right_le : (a b c : F) → a ≼ b → nought ≼ c → a * c ≼ b * c
  pub mul_nonpos : (x y : F) → x ≼ nought → nought ≼ y → x * y ≼ nought
  pub mul_comm : (x y : F) → x * y ≡ y * x
  pub mul_zero : (x : F) → x * nought ≡ nought
  pub mul_one : (x : F) → x * one ≡ x
  pub div_le : (a b c : F) → a ≼ b → nought ≺ c → a / c ≼ b / c
  pub zero_div : (c : F) → nought ≺ c → nought / c ≡ nought
  pub fmod_nonneg : (x m : F) → nought ≺ m → nought ≼ f.fmod x m
  pub pow_zero : (x : F) → f.pow x 0 ≡ one
  pub pow_le_suc : (x : F) (n : ℕ) → one ≼ x → f.pow x n ≼ f.pow x (suc n)
  -- Decimal literals compare by their values.
  pub lit_le :
      (n k m j : ℕ) → mul_ℕ n (10 ^ j) ≤ mul_ℕ m (10 ^ k) → f.le (f.lit n k) (f.lit m j) ≡ true
  pub floor_le : (x y : F) → x ≼ y → f.floor x ≼ f.floor y
  pub ceil_le : (x y : F) → x ≼ y → f.ceil x ≼ f.ceil y
  pub trunc_le : (x y : F) → x ≼ y → f.trunc x ≼ f.trunc y
  pub round_le : (x y : F) (k : ℕ) → x ≼ y → f.round x k ≼ f.round y k
  pub floor_zero : f.floor nought ≡ nought
  pub round_zero : (k : ℕ) → f.round nought k ≡ nought
