-- ===== src/Funding/Policies.antt =====
-- app/core/fr_execution/engine.py: the handlers of the actions of a policy.
use pmm_simple.Prelude.{
  ℕ, Bool, true, not, ◌&&◌, ◌||◌, Option, none, some, [], ◌∷◌, ltb, if◌then◌else◌,
}
use pmm_simple.Float.{Float, ◌-◌, ◌*◌, ◌/◌, nought, lit, le, lt, eq, min, max, abs}
use pmm_simple.Models.State.{long, short}
use pmm_simple.Funding.Names.{Name, name_eq, lower_name, tidy}
use pmm_simple.Funding.Legs.{FrPolicy, FrRiskConfig, flat, opening, opened, recalculate}
use pmm_simple.Funding.KillSwitch.{pause_symbol}
use pmm_simple.Funding.PairTracker.{update_leg}
use pmm_simple.Funding.Orders.{set_status, close_order, open_order}
use pmm_simple.Funding.Gateway.{MultiExchangeGateway, HedgeOrder, OrderInfo}
use pmm_simple.Funding.Engine.{
  EngineState, Answer, already_open, invalid_price, zero_quantity, insufficient_margin, success,
  holding, no_position_to_reduce, already_reduced, zero_reduce_qty, reduced, reduce_partial,
  already_flat, exit_completed, exit_partial, paused, dual_pos, change_pos, one_leg_open,
  no_leg_open,
}
use pmm_simple.Funding.Sizes.{exit_legs, is_open, is_some, mark_legs, price_or, reduce_legs}

-- `max(1, leverage)`
abbrev pub at_least_one : ℕ → ℕ
at_least_one n = if ltb 1 n then n else 1

module _ {W F : Type 0} ⦃f : Float F⦄ where
  -- Both orders were acknowledged.
  unfoldable pub both_legs_open :
      F → FrPolicy F → F → F → F → F → EngineState W F → EngineState W F × Answer F
  unfolding change_pos update_leg tidy lower_name
  both_legs_open now policy target p_long p_short ref s =
      let sym = tidy policy.symbol in
      let s1 =
        change_pos now policy
          (λ p. record p { status = opened; created_at = now; updated_at = now }) s in
      let (t1, q1) =
        update_leg now sym (lower_name policy.exchange_long) long target (price_or p_long ref)
          (price_or p_long ref) nought nought policy.max_leverage s1.tracker in
      let (t2, q2) =
        update_leg now sym (lower_name policy.exchange_short) short target (price_or p_short ref)
          (price_or p_short ref) nought nought policy.max_leverage t1 in
      (record s1 { tracker = t2 }, success target)

  -- `_handle_open` from the results of the two orders on.
  unfoldable pub settle_open :
      MultiExchangeGateway W F
      → F
      → FrPolicy F
      → F
      → F
      → F
      → F
      → Option (OrderInfo F)
      → Option (OrderInfo F)
      → EngineState W F
      → EngineState W F × Answer F
  unfolding lower_name one_leg_open no_leg_open both_legs_open
  settle_open g now policy target p_long p_short ref (some a) (some b) s =
      both_legs_open now policy target p_long p_short ref s
  settle_open g now policy target p_long p_short ref (some a) none s =
      one_leg_open g now policy (lower_name policy.exchange_long) long target a s
  settle_open g now policy target p_long p_short ref none (some b) s =
      one_leg_open g now policy (lower_name policy.exchange_short) short target b s
  settle_open g now policy target p_long p_short ref none none s = no_leg_open g now policy s

  -- `_handle_open` from the two orders on.
  unfoldable pub open_legs :
      MultiExchangeGateway W F
      → F
      → FrPolicy F
      → F
      → F
      → F
      → F
      → EngineState W F
      → EngineState W F × Answer F
  unfolding change_pos tidy lower_name settle_open
  open_legs g now policy target p_long p_short ref s =
      let sym = tidy policy.symbol in
      let s1 = change_pos now policy (set_status opening) s in
      let (w, res_long, res_short) =
        g.create_together (some (open_order (lower_name policy.exchange_long) sym long target))
          (some (open_order (lower_name policy.exchange_short) sym short target)) s1.world in
      settle_open g now policy target p_long p_short ref res_long res_short
        (record s1 { world = w })

  unfoldable pub handle_open :
      MultiExchangeGateway W F → F → FrPolicy F → EngineState W F → EngineState W F × Answer F
  unfolding dual_pos is_open tidy lower_name open_legs
  handle_open g now policy s =
      let sym = tidy policy.symbol in
      let ex_long = lower_name policy.exchange_long in
      let ex_short = lower_name policy.exchange_short in
      let required = policy.target_notional_usdt / lit (at_least_one policy.max_leverage) 0 in
      let (w1, long_free) = g.get_free_margin ex_long s.world in
      let (w2, short_free) = g.get_free_margin ex_short w1 in
      let (w3, p_long) = g.fetch_ticker_price ex_long sym w2 in
      let (w4, p_short) = g.fetch_ticker_price ex_short sym w3 in
      let ref = max p_long p_short in
      let raw = policy.target_notional_usdt / ref in
      let target =
        min (g.amount_to_precision ex_long sym raw) (g.amount_to_precision ex_short sym raw) in
      if is_open (dual_pos now policy s)
      then (s, already_open)
      else if lt long_free required
      then (record s { world = w2 }, insufficient_margin ex_long)
      else if lt short_free required
      then (record s { world = w2 }, insufficient_margin ex_short)
      else if le ref nought
      then (record s { world = w4 }, invalid_price)
      else if le target nought
      then (record s { world = w4 }, zero_quantity)
      else open_legs g now policy target p_long p_short ref (record s { world = w4 })

  -- `_handle_exit` from the two results on.
  unfoldable pub settle_exit :
      F → FrPolicy F → Bool → Bool → EngineState W F → EngineState W F × Answer F
  unfolding change_pos exit_legs
  settle_exit now policy long_closed short_closed s = (
    change_pos now policy (exit_legs now long_closed short_closed) s,
    if long_closed && short_closed then exit_completed else exit_partial long_closed short_closed,
  )

  unfoldable pub handle_exit :
      MultiExchangeGateway W F → F → FrPolicy F → EngineState W F → EngineState W F × Answer F
  unfolding dual_pos change_pos settle_exit tidy
  handle_exit g now policy s =
      let sym = tidy policy.symbol in
      let p = dual_pos now policy s in
      let long_order : Option (HedgeOrder F) =
        if lt nought p.long_leg.size
        then some (close_order p.long_leg.exchange sym long p.long_leg.size)
        else none in
      let short_order : Option (HedgeOrder F) =
        if lt nought p.short_leg.size
        then some (close_order p.short_leg.exchange sym short p.short_leg.size)
        else none in
      let (w, res_long, res_short) = g.create_together long_order short_order s.world in
      let long_closed = not (is_some long_order) || is_some res_long in
      let short_closed = not (is_some short_order) || is_some res_short in
      if le p.long_leg.size nought && le p.short_leg.size nought
      then (change_pos now policy (set_status flat) s, already_flat)
      else settle_exit now policy long_closed short_closed (record s { world = w })

  unfoldable pub handle_hold :
      MultiExchangeGateway W F
      → FrRiskConfig F
      → F
      → FrPolicy F
      → EngineState W F
      → EngineState W F × Answer F
  unfolding dual_pos change_pos mark_legs recalculate handle_exit tidy
  handle_hold g risk now policy s =
      let sym = tidy policy.symbol in
      let p = dual_pos now policy s in
      let (w1, p_long) = g.fetch_ticker_price p.long_leg.exchange sym s.world in
      let (w2, p_short) = g.fetch_ticker_price p.short_leg.exchange sym w1 in
      let s1 =
        change_pos now policy (λ x. recalculate now (mark_legs p_long p_short x))
          (record s { world = w2 }) in
      let pnl = (recalculate now (mark_legs p_long p_short p)).net_pnl in
      if lt pnl (nought - abs risk.max_loss_usd)
      then handle_exit g now policy s1
      else (s1, holding pnl)

  -- `_handle_reduce` from the two results on.
  unfoldable pub settle_reduce :
      F → FrPolicy F → F → Bool → Bool → EngineState W F → EngineState W F × Answer F
  unfolding change_pos reduce_legs
  settle_reduce now policy qty long_reduced short_reduced s = (
    change_pos now policy (reduce_legs now qty long_reduced short_reduced) s,
    if long_reduced && short_reduced
        then reduced qty
        else reduce_partial qty long_reduced short_reduced,
  )

  -- The early returns of `_handle_reduce`, before `done`.
  unfoldable pub guard_reduce :
      F → F → F → F → EngineState W F → EngineState W F × Answer F → EngineState W F × Answer F
  guard_reduce ref current reduce_qty qty s done =
      if le ref nought || le current nought
      then (s, no_position_to_reduce)
      else if le reduce_qty nought
      then (s, already_reduced)
      else if le qty nought
      then (s, zero_reduce_qty)
      else done

  unfoldable pub handle_reduce :
      MultiExchangeGateway W F → F → FrPolicy F → EngineState W F → EngineState W F × Answer F
  unfolding dual_pos settle_reduce guard_reduce tidy
  handle_reduce g now policy s =
      let sym = tidy policy.symbol in
      let p = dual_pos now policy s in
      let half = policy.target_notional_usdt * lit 5 1 in
      let notional : F = elim policy.reduce_to_notional_usdt [
        | none ↦ half
        | some n ↦ if eq n nought then half else n
      ] in
      let current = min p.long_leg.size p.short_leg.size in
      let ref = max p.long_leg.mark_price p.short_leg.mark_price in
      let reduce_qty = max nought (current - notional / ref) in
      let qty =
        min (g.amount_to_precision p.long_leg.exchange sym reduce_qty)
          (g.amount_to_precision p.short_leg.exchange sym reduce_qty) in
      let (w, res_long, res_short) =
        g.create_together (some (close_order p.long_leg.exchange sym long qty))
          (some (close_order p.short_leg.exchange sym short qty)) s.world in
      guard_reduce ref current reduce_qty qty s (
        settle_reduce now policy qty (is_some res_long) (is_some res_short)
          (record s { world = w }))

  -- The two exchanges, as a set: one that has both legs is asked once. An empty name is skipped.
  unfoldable pub cancel_at : MultiExchangeGateway W F → Name → Name → W → W
  cancel_at g [] symbol w = w
  cancel_at g (c ∷ exchange) symbol w = (g.cancel_all_orders (c ∷ exchange) symbol w).0

  unfoldable pub handle_pause :
      MultiExchangeGateway W F → F → FrPolicy F → EngineState W F → EngineState W F × Answer F
  unfolding dual_pos change_pos cancel_at pause_symbol name_eq lower_name tidy
  handle_pause g now policy s =
      let sym = tidy policy.symbol in
      let p = dual_pos now policy s in
      let ex_long = lower_name p.long_leg.exchange in
      let ex_short = lower_name p.short_leg.exchange in
      let w1 = cancel_at g ex_long sym s.world in
      let w2 = if name_eq ex_long ex_short then w1 else cancel_at g ex_short sym w1 in
      let s1 = change_pos now policy (λ x. record x { is_paused = true }) s in
      (record s1 { world = w2; kill_switch = pause_symbol sym s.kill_switch }, paused)
