-- ===== src/Tracker.antt =====
-- app/core/position_tracker.py: the two slots of a pair, fills and cooldowns.
-- The clock is an argument `now`.
pub mod Sync
mod Ids
pub mod Cooldown
pub mod Fills
pub mod Dedupe
pub mod Reconcile
mod Tests
use Ids.{mem_id, remember_id}
use pmm_simple.Prelude.{
  ℕ, suc, Bool, true, false, ◌&&◌, ◌||◌, Option, none, some, List, [], String, ltb, codes, lower,
  contains, is_nonempty, if◌then◌else◌,
}
use pmm_simple.Float.{Float, ◌+◌, ◌-◌, ◌*◌, ◌/◌, nought, lit, le, lt, eq, min, max, abs}
use pmm_simple.Models.Config.{PairConfig}
use pmm_simple.Models.State.{
  PositionSide, long, short, OrderSide, buy, sell, FillRecord, SidePositionState, is_long,
}

-- LONG and BUY, or SHORT and SELL.
pub is_entry : PositionSide → OrderSide → Bool
is_entry long buy = true
is_entry short sell = true
is_entry _ _ = false

pub record PositionTracker (F : Type 0) : Type 0 where
  pub config : PairConfig F
  pub long_pos : SidePositionState F
  pub short_pos : SidePositionState F
  pub last_reconcile_time : F
  pub processed_fill_ids : List String
  pub processed_fill_order : List String

module _ {F : Type 0} where
  abbrev pub get_state : PositionTracker F → PositionSide → SidePositionState F
  get_state t long = t.long_pos
  get_state t _ = t.short_pos

  abbrev pub put_state : PositionTracker F → PositionSide → SidePositionState F → PositionTracker F
  put_state t long s = record t { long_pos = s }
  put_state t _ s = record t { short_pos = s }

module _ {F : Type 0} ⦃f : Float F⦄ where
  abbrev pub new_slot : String → ℕ → PositionSide → SidePositionState F
  new_slot symbol leverage side = record {
    symbol = symbol;
    position_side = side;
    amount = nought;
    entry_price = nought;
    current_price = nought;
    notional = nought;
    unrealized_pnl = nought;
    leverage = leverage;
    initial_margin = nought;
    last_fill_time = nought;
    last_sl_time = nought;
    in_cooldown = false;
    consecutive_sl_count = 0;
    cooldown_until = nought;
    filled_levels_count = 0;
    last_level_fill_time = nought;
    next_allowed_level_time = nought;
    is_trend_blocked = false;
    pyramid_filled_count = 0;
    is_guaranteed_sl_locked = false;
    trend_bias_regime = "NEUTRAL";
  }

  -- `__init__`
  pub new_tracker : PairConfig F → PositionTracker F
  new_tracker c = record {
    config = c;
    long_pos = new_slot c.symbol c.leverage long;
    short_pos = new_slot c.symbol c.leverage short;
    last_reconcile_time = nought;
    processed_fill_ids = [];
    processed_fill_order = [];
  }

  pub gross_exposure_usdt : PositionTracker F → F
  gross_exposure_usdt t = t.long_pos.notional + t.short_pos.notional

  -- `now < cooldown_until`, which is also written to `in_cooldown`.
  pub is_in_cooldown : F → PositionSide → PositionTracker F → Bool × PositionTracker F
  is_in_cooldown now side t =
      let s = get_state t side in
      let in_cd = lt now s.cooldown_until in
      (in_cd, put_state t side (record s { in_cooldown = in_cd }))

  pub get_cooldown_info : F → PositionSide → PositionTracker F → (Bool × ℕ × F) × PositionTracker F
  get_cooldown_info now side t =
      let s = get_state t side in
      let remaining =
        if lt now s.cooldown_until then max nought (f.trunc (s.cooldown_until - now)) else nought in
      let is_cd = lt nought remaining in
      (
        (is_cd, s.consecutive_sl_count, remaining),
        put_state t side (record s { in_cooldown = is_cd }),
      )

  -- The cooldown after the `count`-th stop loss in a row, `count` from 1 (`suc n`).
  pub cooldown_duration : PairConfig F → ℕ → F
  cooldown_duration c n =
      min (c.base_cooldown_sec * f.pow c.cooldown_multiplier n) c.max_cooldown_sec

  pub set_sl_cooldown : F → PositionSide → PositionTracker F → PositionTracker F
  set_sl_cooldown now side t =
      let s = get_state t side in
      let duration = cooldown_duration t.config s.consecutive_sl_count in
      put_state t side (record s {
        consecutive_sl_count = suc s.consecutive_sl_count;
        last_sl_time = now;
        cooldown_until = now + duration;
        in_cooldown = true;
      })

  abbrev pub clear_cooldown : SidePositionState F → SidePositionState F
  clear_cooldown s =
      if ltb 0 s.consecutive_sl_count || lt nought s.cooldown_until
      then record s { consecutive_sl_count = 0; cooldown_until = nought; in_cooldown = false }
      else s

  pub reset_sl_cooldown : Option PositionSide → PositionTracker F → PositionTracker F
  reset_sl_cooldown (some side) t = put_state t side (clear_cooldown (get_state t side))
  reset_sl_cooldown none t = record t {
    long_pos = clear_cooldown t.long_pos;
    short_pos = clear_cooldown t.short_pos;
  }

  -- `_update_notional_and_upnl`
  pub update_notional_and_upnl : F → SidePositionState F → SidePositionState F
  update_notional_and_upnl price s =
      let notional = s.amount * price in
      record s {
        notional = notional;
        unrealized_pnl =
            if lt nought s.amount && lt nought s.entry_price && lt nought price
            then if is_long s.position_side
              then (price - s.entry_price) * s.amount
              else (s.entry_price - price) * s.amount
            else nought;
        initial_margin = if ltb 0 s.leverage then notional / lit s.leverage 0 else nought;
      }

  pub update_mark_price : F → PositionTracker F → PositionTracker F
  update_mark_price mark t = if le mark nought then t else record t {
    long_pos = update_notional_and_upnl mark (record (t.long_pos) { current_price = mark });
    short_pos = update_notional_and_upnl mark (record (t.short_pos) { current_price = mark });
  }

  -- The idempotency block of `on_fill`, past the test for a duplicate.
  pub remember : String → PositionTracker F → PositionTracker F
  unfolding remember_id
  remember i t =
      let (ids, order) = remember_id i t.processed_fill_ids t.processed_fill_order in
      record t { processed_fill_ids = ids; processed_fill_order = order }

  abbrev pub cid_of : FillRecord F → List ℕ
  cid_of fill = elim fill.client_order_id [ none ↦ lower "" | some cid ↦ lower cid ]

  -- The side that the client order id names, or else the fill's own.
  unfoldable pub normalized_side : FillRecord F → PositionSide
  unfolding lower contains
  normalized_side fill =
      if contains (codes "short") (cid_of fill) || contains (codes "q_sell") (cid_of fill)
      then short
      else if contains (codes "long") (cid_of fill) || contains (codes "q_buy") (cid_of fill)
      then long
      else fill.position_side

  -- An entry fill adds to the slot.
  pub apply_entry : PairConfig F → FillRecord F → SidePositionState F → SidePositionState F
  apply_entry c fill s =
      let new_total_qty = s.amount + fill.amount in
      let grows = lt nought new_total_qty in
      record s {
        entry_price =
            if grows
            then (s.amount * s.entry_price + fill.amount * fill.price) / new_total_qty
            else s.entry_price;
        amount = if grows then new_total_qty else s.amount;
        last_fill_time = fill.timestamp;
        filled_levels_count = suc s.filled_levels_count;
        last_level_fill_time = fill.timestamp;
        next_allowed_level_time = fill.timestamp + c.level_cooldown_sec;
      }

  -- The PnL of an exit fill: the exchange's, or computed from the entry price where that is missing.
  pub exit_pnl : PositionSide → FillRecord F → SidePositionState F → F
  exit_pnl side fill s =
      let closed = if lt nought s.amount then min s.amount fill.amount else fill.amount in
      if lt (abs fill.realized_pnl) (lit 1 8) && lt nought s.entry_price
      then f.round
          (if is_long side
            then (fill.price - s.entry_price) * closed
            else (s.entry_price - fill.price) * closed)
          4
      else fill.realized_pnl

  -- An exit fill reduces the slot, and clears it at (almost) nothing.
  pub apply_exit : FillRecord F → SidePositionState F → SidePositionState F
  apply_exit fill s =
      let left = max nought (s.amount - fill.amount) in
      if le left (lit 1 7)
      then record s {
        amount = nought;
        entry_price = nought;
        filled_levels_count = 0;
        last_level_fill_time = nought;
        next_allowed_level_time = nought;
        last_fill_time = fill.timestamp;
      }
      else record s { amount = left; last_fill_time = fill.timestamp }

  -- The tracker, the fill as the call leaves it, and the result.
  pub process_fill : FillRecord F → PositionTracker F → PositionTracker F × FillRecord F × Bool
  unfolding normalized_side is_entry apply_entry apply_exit exit_pnl update_notional_and_upnl
  process_fill fill t =
      let side = normalized_side fill in
      let s = get_state t side in
      let entering = is_entry side fill.side in
      let s' = if entering then apply_entry t.config fill s else apply_exit fill s in
      let price = if eq s'.current_price nought then fill.price else s'.current_price in
      (
        put_state t side (update_notional_and_upnl price s'),
        record fill {
          position_side = side;
          realized_pnl = if entering then fill.realized_pnl else exit_pnl side fill s;
        },
        true,
      )

  pub on_fill : FillRecord F → PositionTracker F → PositionTracker F × FillRecord F × Bool
  unfolding mem_id remember process_fill
  on_fill fill t =
      if is_nonempty fill.id
      then if mem_id fill.id t.processed_fill_ids
        then (t, fill, false)
        else process_fill fill (remember fill.id t)
      else process_fill fill t
