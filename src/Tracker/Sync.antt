-- ===== src/Tracker/Sync.antt =====
-- The reconciliation of the tracker with the positions on the exchange (app/core/position_tracker.py). What
-- `gateway.fetch_positions_hedge` returns is an argument.
use pmm_simple.Prelude.{Bool, true, false, Option, some, ◌==◌, if◌then◌else◌}
use pmm_simple.Float.{Float, ◌-◌, nought, lit, le, lt, abs}
use pmm_simple.Models.State.{SidePositionState}
use pmm_simple.Tracker.{PositionTracker, update_notional_and_upnl}

module _ {F : Type 0} ⦃f : Float F⦄ where
  -- One side of `reconcile_with_exchange`: a slot that is off by more than 1e-5 takes the exchange's.
  unfoldable pub sync_slot : SidePositionState F → SidePositionState F → SidePositionState F
  sync_slot real s =
      if lt (lit 1 5) (abs (s.amount - real.amount))
      then if le real.amount (lit 1 5)
        then record s {
          amount = real.amount;
          entry_price = real.entry_price;
          filled_levels_count = 0;
          last_level_fill_time = nought;
          next_allowed_level_time = nought;
        }
        else record s {
          amount = real.amount;
          entry_price = real.entry_price;
          filled_levels_count = if s.filled_levels_count == 0 then 1 else s.filled_levels_count;
        }
      else s

  unfoldable pub reprice_slot : SidePositionState F → SidePositionState F → SidePositionState F
  unfolding update_notional_and_upnl
  reprice_slot real s =
      if lt nought real.current_price
      then update_notional_and_upnl real.current_price
          (record s { current_price = real.current_price })
      else s

  -- `fetched` is what `fetch_positions_hedge` returned.
  unfoldable pub reconcile_with_exchange :
      F
      → Option (SidePositionState F) × Option (SidePositionState F)
      → PositionTracker F
      → PositionTracker F × Bool
  unfolding sync_slot reprice_slot
  reconcile_with_exchange now (some real_long, some real_short) t = (
    record t {
      long_pos = reprice_slot real_long (sync_slot real_long t.long_pos);
      short_pos = reprice_slot real_short (sync_slot real_short t.short_pos);
      last_reconcile_time = now;
    },
    true,
  )
  reconcile_with_exchange now _ t = (t, false)
