-- ===== src/Backtest/Exits.antt =====
-- The exits of a backtest (backtest/pmm_simulator.py, part 2 of the loop of `run`, and `_close_position`). LONG and
-- SHORT share one definition: `worse` and `better` are the two directions of a price for a side.
use pmm_simple.Prelude.{
  ◌+◌ as plus, ◌&&◌, ◌||◌, ◌++◌, Bool, true, false, not, Option, none, some, [], ◌∷◌, if◌then◌else◌,
}
use pmm_simple.Float.{Float, ◌+◌, ◌-◌, ◌*◌, ◌/◌, nought, one, lit, le, lt, min, max}
use pmm_simple.Models.State.{PositionSide, is_long}
use pmm_simple.Backtest.Types.{
  Bar, Settings, PositionSlot, ExitReason, Exit, Trade, Simulation, Grid, put_slot, or_default,
  toxic_volume, time_limit, time_decay_sl, stop_loss, take_profit, trailing_tp,
}

module _ {F : Type 0} ⦃f : Float F⦄ where
  unfoldable pub tick_price : Settings F → Bool → F → F
  tick_price x is_bid price =
      let n = price / x.tick_size in
      let ticks = if is_bid then f.floor (n + lit 1 9) else f.ceil (n - lit 1 9) in
      if le x.tick_size nought then price else f.round (ticks * x.tick_size) 8

  unfoldable pub quantize_qty : Settings F → F → F
  quantize_qty x qty =
      if le x.qty_step nought
      then qty
      else f.round (f.floor (qty / x.qty_step + lit 1 9) * x.qty_step) 8

  -- A price moved by a share, against the side and in its favour.
  abbrev pub worse : PositionSide → F → F → F
  worse side p r = if is_long side then p * (one - r) else p * (one + r)

  abbrev pub better : PositionSide → F → F → F
  better side p r = if is_long side then p * (one + r) else p * (one - r)

  -- What the side gains per unit from the first price to the second.
  abbrev pub gain : PositionSide → F → F → F
  gain side a b = if is_long side then b - a else a - b

  -- The first price is at least as good for the side as the second, and better.
  abbrev pub as_good : PositionSide → F → F → Bool
  as_good side a b = if is_long side then le b a else le a b

  abbrev pub is_better : PositionSide → F → F → Bool
  is_better side a b = if is_long side then lt b a else lt a b

  unfoldable pub grid_of : Settings F → Option F → Grid F
  grid_of x none = record {
    s_base = x.base_spread_pct;
    tp_base = x.take_profit_pct;
    sl_base = x.stop_loss_pct;
  }
  grid_of x (some natr) =
      let spread = max (lit 25 4) (x.k_spread * natr) in
      if x.use_vamm && lt nought natr
      then record {
        s_base = spread;
        tp_base = max (lit 50 4) (x.k_tp * natr);
        sl_base = spread + x.k_sl_mult * natr;
      }
      else record {
        s_base = x.base_spread_pct;
        tp_base = x.take_profit_pct;
        sl_base = x.stop_loss_pct;
      }

  -- The slot with its peak or trough, and its trailing switched on where that is far enough.
  unfoldable pub follow : Settings F → Bar F → PositionSlot F → PositionSlot F
  follow x b p =
      let reached = if is_long p.side then max p.extreme b.high else min p.extreme b.low in
      let act = or_default p.initial_tp_pct x.trailing_activation_pct in
      record p {
        extreme = reached;
        trailing_active =
            p.trailing_active || as_good p.side reached (better p.side p.entry_price act);
      }

  abbrev pub minutes_held : Bar F → PositionSlot F → F
  minutes_held b p = (b.time - p.opened_at) / lit 600 1

  abbrev pub is_decayed : Settings F → Bar F → PositionSlot F → Bool
  is_decayed x b p = x.use_time_decay_sl && lt x.time_decay_mins (minutes_held b p)

  abbrev pub held_long_enough : Settings F → Bar F → PositionSlot F → Bool
  held_long_enough x b p = elim x.max_holding_mins [
    | none ↦ false
    | some limit ↦ le limit (minutes_held b p)
  ]

  -- A taker exit from a price, with the slippage, and what it saves against the hard stop.
  unfoldable pub taker_exit :
      Settings F → Bar F → PositionSlot F → ExitReason → Bool → F → F → Exit F
  taker_exit x b p reason is_fast price hard =
      let exec = worse p.side price x.slippage_pct in
      let hard_exec = worse p.side hard x.slippage_pct in
      record {
        price = exec;
        time = b.time;
        reason = reason;
        is_taker = true;
        slippage_cost = gain p.side exec price * p.qty;
        saved = if is_fast then some (max nought (gain p.side hard_exec exec * p.qty)) else none;
      }

  abbrev pub maker_exit : Settings F → Bar F → PositionSlot F → ExitReason → F → Exit F
  maker_exit x b p reason price = record {
    price = tick_price x (not (is_long p.side)) price;
    time = b.time;
    reason = reason;
    is_taker = false;
    slippage_cost = nought;
    saved = none;
  }

  -- The exit of a slot on a candle, in the order of priority.
  unfoldable pub exit_of : Settings F → Bar F → PositionSlot F → Option (Exit F)
  unfolding taker_exit tick_price
  exit_of x b p =
      let bad = if is_long p.side then b.low else b.high in
      let good = if is_long p.side then b.high else b.low in
      let decayed = is_decayed x b p in
      let eff = if decayed then lit 5 1 * p.initial_sl_pct else p.initial_sl_pct in
      let sl = worse p.side p.entry_price eff in
      let hard = worse p.side p.entry_price p.initial_sl_pct in
      let tp = better p.side p.entry_price p.initial_tp_pct in
      let trigger = worse p.side p.extreme x.trailing_callback_pct in
      let upnl =
        if lt nought p.entry_price
        then gain p.side p.entry_price b.close / p.entry_price
        else nought in
      let fast = decayed && is_better p.side sl hard in
      if x.use_toxic_exit && (le upnl (nought - lit 8 3) && le x.vol_spike_threshold b.vol_ratio)
      then some (taker_exit x b p toxic_volume true b.close hard)
      else if held_long_enough x b p
      then some (maker_exit x b p time_limit b.close)
      else if as_good p.side sl bad
      then some (taker_exit x b p (if fast then time_decay_sl else stop_loss) fast sl hard)
      else if as_good p.side good tp
      then some (maker_exit x b p take_profit tp)
      else if p.trailing_active
          && (as_good p.side trigger bad && is_better p.side trigger p.entry_price)
      then some (maker_exit x b p trailing_tp trigger)
      else none

  unfoldable pub trade_of : Settings F → PositionSlot F → Exit F → Trade F
  trade_of x p e =
      let exit_fee = (e.price * p.qty) * (if e.is_taker then x.taker_fee else x.maker_fee) in
      let gross = gain p.side p.entry_price e.price * p.qty in
      record {
        symbol = x.symbol;
        side = p.side;
        entry_price = p.entry_price;
        entry_time = p.opened_at;
        qty = p.qty;
        notional_entry = p.entry_price * p.qty;
        notional_exit = e.price * p.qty;
        entry_fee = p.entry_fee;
        exit = e;
        exit_fee = exit_fee;
        total_fee = p.entry_fee + exit_fee;
        gross_pnl = gross;
        net_pnl = (gross - (p.entry_fee + exit_fee)) - e.slippage_cost;
      }

  abbrev pub count_fast : Option F → Simulation F → Simulation F
  count_fast none s = s
  count_fast (some saved) s = record s {
    fast_exit_count = plus s.fast_exit_count 1;
    fast_exit_saved_usdt = s.fast_exit_saved_usdt + saved;
  }

  -- `_close_position`, and the slot emptied.
  unfoldable pub close_position : Settings F → PositionSlot F → Exit F → Simulation F → Simulation F
  unfolding trade_of
  close_position x p e s =
      let t = trade_of x p e in
      put_slot p.side none (record s {
        balance = s.balance + ((t.gross_pnl - t.exit_fee) - e.slippage_cost);
        trades = s.trades ++ (t ∷ []);
      })

  abbrev pub settle_slot :
      Settings F → PositionSlot F → Option (Exit F) → Simulation F → Simulation F
  settle_slot x p none s = put_slot p.side (some p) s
  settle_slot x p (some e) s = close_position x p e (count_fast e.saved s)

  -- The exits of one side.
  unfoldable pub manage : Settings F → Bar F → Option (PositionSlot F) → Simulation F → Simulation F
  unfolding follow exit_of
  manage x b none s = s
  manage x b (some p) s = settle_slot x (follow x b p) (exit_of x b (follow x b p)) s
