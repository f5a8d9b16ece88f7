-- ===== src/Vamm/Tests.antt =====
-- Runs of the VAMM calculator, and its theorems at sample inputs.
use pmm_simple.Prelude.{◌≡◌, refl, [], ◌∷◌}
use pmm_simple.Prelude.Int.{◌+ℤ◌, ◌-ℤ◌}
use pmm_simple.Float.Fixed.{Fixed, fixed_float, lit, mul, div, round}
use pmm_simple.Float.FixedLaws.{fixed_laws}
use pmm_simple.Models.Samples.{units, mills}
use pmm_simple.Vamm.{compute_dynamic_vamm, VammParams}
use pmm_simple.Vamm.Regime.{compute_dynamic_vamm_volatile}

-- NATR 1.20%, Hurst 0.30, 20 USDT at 5x.
abbrev calm : VammParams Fixed
calm = compute_dynamic_vamm (mills 1200) (mills 300) (units 20) 5 (mills 0) (mills 0)

calm_sizes : calm.level_notionals ≡ units 50 ∷ units 30 ∷ units 20 ∷ []
unfolding compute_dynamic_vamm lit mul div round ◌+ℤ◌ ◌-ℤ◌
calm_sizes = refl

-- NATR 6%.
compute_dynamic_vamm_volatile_example :
    (compute_dynamic_vamm (units 6) (mills 300) (units 20) 5 (mills 0) (mills 0)).order_levels ≡ 3
unfolding lit div
compute_dynamic_vamm_volatile_example =
    compute_dynamic_vamm_volatile (units 6) (mills 300) (units 20) 5 (mills 0) (mills 0) refl refl
      refl
