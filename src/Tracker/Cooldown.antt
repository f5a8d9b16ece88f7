-- ===== src/Tracker/Cooldown.antt =====
-- The progressive cooldown after stop losses (app/core/position_tracker.py).
use pmm_simple.Prelude.{ℕ, zero, suc, ◌≡◌, refl, true, false, some, arith}
use pmm_simple.Float.{Float, FloatLaws, ◌+◌, ◌*◌, nought, one, lt, min, ◌≼◌}
use pmm_simple.Float.Order
use pmm_simple.Models.Config.{PairConfig, IsChecked}
use pmm_simple.Models.State.{PositionSide, long, SidePositionState}
use pmm_simple.Tracker.{
  PositionTracker, get_state, put_state, is_in_cooldown, cooldown_duration, set_sl_cooldown,
  reset_sl_cooldown,
}

-- The slot that a call for `side` does not name.
abbrev pub other_state : {F : Type 0} → PositionTracker F → PositionSide → SidePositionState F
other_state t long = t.short_pos
other_state t _ = t.long_pos

module _ {F : Type 0} where
  pub get_state-put_state :
      (t : PositionTracker F) (side : PositionSide) (s : SidePositionState F)
      → get_state (put_state t side s) side ≡ s
  get_state-put_state t long s = refl
  get_state-put_state t _ s = refl

  pub other_state-put_state :
      (t : PositionTracker F) (side : PositionSide) (s : SidePositionState F)
      → other_state (put_state t side s) side ≡ other_state t side
  other_state-put_state t long s = refl
  other_state-put_state t _ s = refl

module _ {F : Type 0} ⦃f : Float F⦄ where
  pub set_sl_cooldown_starts :
      (now : F) (side : PositionSide) (t : PositionTracker F)
      → (get_state (set_sl_cooldown now side t) side).in_cooldown ≡ true
  unfolding set_sl_cooldown
  set_sl_cooldown_starts now long t = refl
  set_sl_cooldown_starts now _ t = refl

module _ {F : Type 0} ⦃f : Float F⦄ ⦃laws : FloatLaws F⦄ where
  open laws use {le_refl, le_trans, mul_le, pow_le_suc, pow_zero, add_le, lit_le}

  pow-ge_one : (x : F) (n : ℕ) → one ≼ x → one ≼ f.pow x n
  pow-ge_one x zero h = ground (arith, pow_zero x, le_refl one)
  pow-ge_one x (suc n) h = le_trans _ _ _ (pow-ge_one x n h) (pow_le_suc x n h)

  pow_nonneg : (x : F) (n : ℕ) → one ≼ x → nought ≼ f.pow x n
  pow_nonneg x n h = le_trans _ _ _ (lit_le 0 0 1 0 (omega arith)) (pow-ge_one x n h)

  -- With the bounds that pydantic checks, the cooldown after each further stop loss in a row is at
  -- least as long as the one before, and no cooldown is negative or longer than `max_cooldown_sec`.
  pub cooldown_duration_progressive :
      (c : PairConfig F) (n : ℕ)
      → IsChecked c
      → (cooldown_duration c n ≼ cooldown_duration c (suc n))
        × (nought ≼ cooldown_duration c n)
        × (cooldown_duration c n ≼ c.max_cooldown_sec)
  unfolding cooldown_duration
  cooldown_duration_progressive c n v =
      let low : F = c.base_cooldown_sec * f.pow c.cooldown_multiplier n in
      let high : F = c.base_cooldown_sec * f.pow c.cooldown_multiplier (suc n) in
      let p = pow_nonneg c.cooldown_multiplier n v.multiplier_ge in
      let step : low ≼ high =
        mul_le _ _ _ _ v.base_cooldown_ge (le_refl _) p (pow_le_suc _ n v.multiplier_ge) in
      (
        Order.le-min high c.max_cooldown_sec (min low c.max_cooldown_sec)
            (le_trans _ _ _ (Order.min-le_left low c.max_cooldown_sec) step)
            (Order.min-le_right low c.max_cooldown_sec),
        Order.le-min low c.max_cooldown_sec nought
            (Order.mul_nonneg c.base_cooldown_sec (f.pow c.cooldown_multiplier n) v.base_cooldown_ge
              p)
            v.max_cooldown_ge,
        Order.min-le_right low c.max_cooldown_sec,
      )

  -- A stop loss at `now` counts one more in its slot, the slot is in cooldown at exactly the times
  -- before `now` plus the duration for that count, and the other slot is untouched.
  pub set_sl_cooldown_effect :
      (now later : F) (side : PositionSide) (t : PositionTracker F)
      → let n = (get_state t side).consecutive_sl_count in
        let t' = set_sl_cooldown now side t in
        ((get_state t' side).consecutive_sl_count ≡ suc n)
        × ((is_in_cooldown later side t').0 ≡ lt later (now + cooldown_duration t.config n))
        × (other_state t' side ≡ other_state t side)
        × (t'.config ≡ t.config)
  unfolding set_sl_cooldown is_in_cooldown
  set_sl_cooldown_effect now later long t = (refl, refl, refl, refl)
  set_sl_cooldown_effect now later _ t = (refl, refl, refl, refl)

  -- After a reset for a side the slot counts no stop loss and is out of cooldown at every time from
  -- the epoch on, and the other slot is untouched.
  pub reset_sl_cooldown_effect :
      (later : F) (side : PositionSide) (t : PositionTracker F)
      → nought ≼ later
      → let t' = reset_sl_cooldown (some side) t in
        ((get_state t' side).consecutive_sl_count ≡ 0)
        × ((is_in_cooldown later side t').0 ≡ false)
        × (other_state t' side ≡ other_state t side)
  unfolding reset_sl_cooldown is_in_cooldown
  reset_sl_cooldown_effect later long t h =
      ground (arith, le_trans t.long_pos.cooldown_until nought later)
  reset_sl_cooldown_effect later _ t h =
      ground (arith, le_trans t.short_pos.cooldown_until nought later)
