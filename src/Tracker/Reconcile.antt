-- ===== src/Tracker/Reconcile.antt =====
-- Reconciliation with the exchange (app/core/position_tracker.py, `reconcile_with_exchange`).
use pmm_simple.Prelude.{◌≡◌, refl, Bool, true, false, Option, none, some, arith}
use pmm_simple.Float.{Float, FloatLaws, ◌-◌, nought, lit, abs, ◌≼◌}
use pmm_simple.Models.State.{SidePositionState}
use pmm_simple.Tracker.{PositionTracker, update_notional_and_upnl}
use pmm_simple.Tracker.Sync.{sync_slot, reprice_slot, reconcile_with_exchange}

module _ {F : Type 0} ⦃f : Float F⦄ ⦃laws : FloatLaws F⦄ where
  open laws use {le_refl, le_trans, lit_le, sub_nonneg, sub_nonpos}

  reprice-amount : (real s : SidePositionState F) → (reprice_slot real s).amount ≡ s.amount
  unfolding reprice_slot update_notional_and_upnl
  reprice-amount real s = ground arith

  sync_slot-near :
      (real s : SidePositionState F) → abs ((sync_slot real s).amount - real.amount) ≼ lit 1 5
  unfolding sync_slot
  sync_slot-near real s = ground (
    arith,
    sub_nonneg real.amount real.amount,
    sub_nonpos real.amount real.amount,
    le_refl real.amount,
    le_trans (real.amount - real.amount) nought (lit 1 5),
    lit_le 0 0 1 5 (omega arith),
  )

  abbrev pub IsNear : SidePositionState F → SidePositionState F → Type 0
  IsNear real s = abs (s.amount - real.amount) ≼ lit 1 5

  -- What a reconciliation from `t` came to, by what the exchange returned.
  abbrev pub Agrees :
      PositionTracker F
      → Option (SidePositionState F) × Option (SidePositionState F)
      → PositionTracker F × Bool
      → Type 0
  Agrees t (some real_long, some real_short) (t', done) =
      (done ≡ true) × IsNear real_long t'.long_pos × IsNear real_short t'.short_pos
  Agrees t _ (t', done) = (done ≡ false) × (t' ≡ t)

  -- After a reconciliation that got both positions, each slot's amount is within 1e-5 of the
  -- exchange's; one that failed to get either position changes nothing and returns False.
  pub reconcile_with_exchange-Agrees :
      (now : F) (fetched : Option (SidePositionState F) × Option (SidePositionState F))
      (t : PositionTracker F)
      → Agrees t fetched (reconcile_with_exchange now fetched t)
  unfolding reconcile_with_exchange
  reconcile_with_exchange-Agrees now (some l, some s) t = (
    refl,
    rw (reprice-amount l (sync_slot l t.long_pos)) (sync_slot-near l t.long_pos),
    rw (reprice-amount s (sync_slot s t.short_pos)) (sync_slot-near s t.short_pos),
  )
  reconcile_with_exchange-Agrees now (none, s) t = (refl, refl)
  reconcile_with_exchange-Agrees now (some l, none) t = (refl, refl)
