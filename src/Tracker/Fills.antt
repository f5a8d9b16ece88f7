-- ===== src/Tracker/Fills.antt =====
-- Entry and exit fills of a slot (app/core/position_tracker.py).
use pmm_simple.Prelude.{
  suc, ◌≡◌, refl, Bool, true, false, arith, Bool-cases, inl, inr, if◌then◌else◌,
}
use pmm_simple.Float.{Float, FloatLaws, ◌+◌, ◌-◌, ◌*◌, nought, lit, le, max, ◌≼◌, ◌≺◌}
use pmm_simple.Float.Order
use pmm_simple.Models.Config.{PairConfig}
use pmm_simple.Models.State.{PositionSide, FillRecord, SidePositionState}
use pmm_simple.Tracker.{
  put_state, PositionTracker, get_state, normalized_side, is_entry, apply_entry, apply_exit,
  update_notional_and_upnl, process_fill,
}
use pmm_simple.Tracker.Cooldown.{other_state, get_state-put_state, other_state-put_state}

module _ {F : Type 0} ⦃f : Float F⦄ where
  -- Amount and entry price are not negative, and a flat slot has no entry price and no filled level.
  pub record IsSound (s : SidePositionState F) : Type 0 where
    pub amount_nonneg : nought ≼ s.amount
    pub entry_nonneg : nought ≼ s.entry_price
    pub flat_entry : s.amount ≼ nought → s.entry_price ≡ nought
    pub flat_levels : s.amount ≼ nought → s.filled_levels_count ≡ 0

  -- What the exchange sends: a positive amount at a price that is not negative.
  pub record IsProper (fill : FillRecord F) : Type 0 where
    pub amount_pos : nought ≺ fill.amount
    pub price_nonneg : nought ≼ fill.price

  module _ ⦃laws : FloatLaws F⦄ where
    open laws use {le_refl, le_trans, le_total, add_le, add_zero, lit_le}

    total_pos :
        (s : SidePositionState F) (fill : FillRecord F)
        → IsSound s
        → IsProper fill
        → nought ≺ s.amount + fill.amount
    total_pos s fill v p =
        Order.lt-le_trans nought fill.amount (s.amount + fill.amount) p.amount_pos
          (Order.le-add_left s.amount fill.amount v.amount_nonneg)

    -- An entry fill grows a sound slot by its amount, and counts one more filled level.
    apply_entry-IsSound :
        (c : PairConfig F) (fill : FillRecord F) (s : SidePositionState F)
        → IsSound s
        → IsProper fill
        → IsSound (apply_entry c fill s)
    unfolding apply_entry
    apply_entry-IsSound c fill s v p =
        let grow = total_pos s fill v p in
        let worth : nought ≼ s.amount * s.entry_price + fill.amount * fill.price =
          Order.add_nonneg (s.amount * s.entry_price) (fill.amount * fill.price)
            (Order.mul_nonneg s.amount s.entry_price v.amount_nonneg v.entry_nonneg)
            (Order.mul_nonneg fill.amount fill.price
              (Order.le_of_lt nought fill.amount p.amount_pos) p.price_nonneg) in
        record {
          amount_nonneg = ground (arith, Order.le_of_lt nought (s.amount + fill.amount));
          entry_nonneg = ground (
            arith,
            Order.div_nonneg (s.amount * s.entry_price + fill.amount * fill.price)
                (s.amount + fill.amount) worth grow,
          );
          flat_entry = λ h. ground arith;
          flat_levels = λ h. ground arith;
        }

    apply_exit-IsSound :
        (fill : FillRecord F) (s : SidePositionState F) → IsSound s → IsSound (apply_exit fill s)
    unfolding apply_exit
    apply_exit-IsSound fill s v =
        elim (Bool-cases (le (max nought (s.amount - fill.amount)) (lit 1 7))) [
          | inl flat ↦ rw flat (record {
            amount_nonneg = le_refl nought;
            entry_nonneg = le_refl nought;
            flat_entry = λ h. refl;
            flat_levels = λ h. refl;
          })
          | inr open_still ↦
              let left_open : ¬ (max nought (s.amount - fill.amount) ≼ nought) = λ h. ground (
                arith,
                le_trans (max nought (s.amount - fill.amount)) nought (lit 1 7) h
                    (lit_le 0 0 1 7 (omega arith)),
              ) in
              rw open_still (record {
                amount_nonneg = Order.le-max_left nought (s.amount - fill.amount);
                entry_nonneg = v.entry_nonneg;
                flat_entry = λ h. absurd (left_open h);
                flat_levels = λ h. absurd (left_open h);
              })
        ]

    update-IsSound :
        (price : F) (s : SidePositionState F)
        → IsSound s
        → IsSound (update_notional_and_upnl price s)
    unfolding update_notional_and_upnl
    update-IsSound price s v = record {
      amount_nonneg = v.amount_nonneg;
      entry_nonneg = v.entry_nonneg;
      flat_entry = v.flat_entry;
      flat_levels = v.flat_levels;
    }

    update-amount :
        (price : F) (s : SidePositionState F)
        → ((update_notional_and_upnl price s).amount ≡ s.amount)
          × ((update_notional_and_upnl price s).filled_levels_count ≡ s.filled_levels_count)
    unfolding update_notional_and_upnl
    update-amount price s = (refl, refl)

    if-IsSound :
        (b : Bool) (s u : SidePositionState F)
        → IsSound s
        → IsSound u
        → IsSound (if b then s else u)
    if-IsSound true s u v w = v
    if-IsSound false s u v w = w

    put_state-config :
        (t : PositionTracker F) (side : PositionSide) (s : SidePositionState F)
        → (put_state t side s).config ≡ t.config
    put_state-config t PositionSide.long s = refl
    put_state-config t PositionSide.short s = refl
    put_state-config t PositionSide.both s = refl

    -- Any fill the exchange sends keeps the slot that it names sound, and leaves the other slot and the
    -- configuration as they were.
    pub process_fill-IsSound :
        (fill : FillRecord F) (t : PositionTracker F)
        → IsProper fill
        → IsSound (get_state t (normalized_side fill))
        → let side = normalized_side fill in
          let t' = (process_fill fill t).0 in
          IsSound (get_state t' side)
          × (other_state t' side ≡ other_state t side)
          × (t'.config ≡ t.config)
    unfolding process_fill
    process_fill-IsSound fill t p v =
        let side = normalized_side fill in
        (
          rw (get_state-put_state t side _) (
              update-IsSound _ _ (
                if-IsSound (is_entry side fill.side) _ _
                  (apply_entry-IsSound t.config fill (get_state t side) v p)
                  (apply_exit-IsSound fill (get_state t side) v))),
          other_state-put_state t side _,
          put_state-config t side _,
        )

    -- An entry fill adds exactly its amount to the slot, which is then open, counts one more filled
    -- level and starts the level cooldown at the time of the fill; the fill's PnL is left alone.
    pub process_fill_entry :
        (fill : FillRecord F) (t : PositionTracker F)
        → IsProper fill
        → IsSound (get_state t (normalized_side fill))
        → is_entry (normalized_side fill) fill.side ≡ true
        → let side = normalized_side fill in
          let (t', fill', processed) = process_fill fill t in
          let old = get_state t side in
          let new = get_state t' side in
          (new.amount ≡ old.amount + fill.amount)
          × (nought ≺ new.amount)
          × (new.filled_levels_count ≡ suc old.filled_levels_count)
          × (new.next_allowed_level_time ≡ fill.timestamp + t.config.level_cooldown_sec)
          × (fill'.realized_pnl ≡ fill.realized_pnl)
    unfolding process_fill update_notional_and_upnl apply_entry
    process_fill_entry fill t p v e =
        let side = normalized_side fill in
        let grow = total_pos (get_state t side) fill v p in
        rw (e, get_state-put_state t side _) (ground arith, ground arith, refl, refl, refl)

    exit_amount :
        (fill : FillRecord F) (s : SidePositionState F)
        → IsSound s
        → IsProper fill
        → (nought ≼ (apply_exit fill s).amount) × ((apply_exit fill s).amount ≼ s.amount)
    unfolding apply_exit
    exit_amount fill s v p =
        let less =
          Order.sub-le_self s.amount fill.amount (Order.le_of_lt nought fill.amount p.amount_pos) in
        (
          ground (
            arith,
            le_refl nought,
            Order.le-max_left nought (s.amount - fill.amount),
            v.amount_nonneg,
          ),
          ground (
            arith,
            Order.max-le nought (s.amount - fill.amount) s.amount v.amount_nonneg less,
            v.amount_nonneg,
          ),
        )

    -- An exit fill never grows the slot and never turns it negative: closing cannot flip a position.
    pub process_fill_exit :
        (fill : FillRecord F) (t : PositionTracker F)
        → IsProper fill
        → IsSound (get_state t (normalized_side fill))
        → is_entry (normalized_side fill) fill.side ≡ false
        → let side = normalized_side fill in
          let new = get_state (process_fill fill t).0 side in
          (nought ≼ new.amount) × (new.amount ≼ (get_state t side).amount)
    unfolding process_fill update_notional_and_upnl
    process_fill_exit fill t p v e =
        let side = normalized_side fill in
        rw (e, get_state-put_state t side _) (exit_amount fill (get_state t side) v p)

    -- An exit fill of at least the slot's whole amount leaves the slot flat: no amount, no entry price,
    -- no filled level, no level cooldown and no unrealized PnL.
    pub process_fill_full_exit :
        (fill : FillRecord F) (t : PositionTracker F)
        → is_entry (normalized_side fill) fill.side ≡ false
        → (get_state t (normalized_side fill)).amount ≼ fill.amount
        → let new = get_state (process_fill fill t).0 (normalized_side fill) in
          (new.amount ≡ nought)
          × (new.entry_price ≡ nought)
          × (new.filled_levels_count ≡ 0)
          × (new.next_allowed_level_time ≡ nought)
          × (new.unrealized_pnl ≡ nought)
    unfolding process_fill update_notional_and_upnl apply_exit
    process_fill_full_exit fill t e h =
        let side = normalized_side fill in
        let s = get_state t side in
        let gone : le (max nought (s.amount - fill.amount)) (lit 1 7) ≡ true =
          ground (arith, laws.sub_nonpos s.amount fill.amount, lit_le 0 0 1 7 (omega arith)) in
        rw (e, get_state-put_state t side _, gone)
          (refl, refl, refl, refl, ground (arith, le_refl nought))
