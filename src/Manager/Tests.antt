-- ===== src/Manager/Tests.antt =====
-- Runs of the manager, and its theorems at sample inputs. The world is what the exchange holds long and short.
use text.Mathlib.Text.{◌==◌ as str_eq}
use text.Mathlib.TextEquality.{eq_iff}
use pmm_simple.Prelude.{
  ℕ, suc, ◌≡◌, ◌∙◌, refl, ap, sym, Bool, true, false, none, [], inl, inr, String, All, Bool-cases,
  and_true, if◌then◌else◌, if_cases, arith,
}
use pmm_simple.Prelude.Int.{pos, leb_ℤ, ◌-ℤ◌, -ℤ_parts}
use pmm_simple.Float.{lt}
use pmm_simple.Float.Fixed.{Fixed, fixed_float, lit}
use pmm_simple.Models.State.{PositionSide, long, short}
use pmm_simple.Models.Samples.{units}
use pmm_simple.CircuitBreaker.Latch.{check_tripped}
use pmm_simple.Executor.State.{ExitOrder, OrderType}
use pmm_simple.Manager.Pairs.{keys}
use pmm_simple.Manager.{stop_all, start_pair}
use pmm_simple.Manager.KillAll.{completed, cancel_all, emergency_kill_all}
use pmm_simple.Manager.KillAll.Outcome.{KillOutcome, emergency_kill_all-KillOutcome}
use pmm_simple.Manager.KillAll.Holdings.{IsFlat, IsClosed}
use pmm_simple.Manager.KillAll.Closing.{
  closing_side, is_same_side, FillsMarketOrders, emergency_kill_all_closes,
}
use pmm_simple.Manager.KillAll.Blind.{asked, emergency_kill_all_blind}
use pmm_simple.Manager.Health.{figures, health_step, health_loop, check_account}
use pmm_simple.Manager.Health.Halt.{IsHalted, health_step-IsHalted, step_tripped}
use pmm_simple.Manager.Commands.{IsUp, start_pair-IsUp}
use pmm_simple.Manager.Samples.{
  World, amount, fill, rest_of, is_sol, is_hit, slot, gateway, blind_gateway, venue,
  tripped_breaker, holding, tripped, feed,
}

-- A held amount is closed by an order of the whole, and a closed one stays closed under any order.
rest_all : (hit : Bool) (held x : Fixed) → hit ≡ true → x ≡ held → rest_of hit held x ≡ units 0
rest_all hit held x h e = ground arith

less_small :
    (held x : Fixed)
    → leb_ℤ held (pos 1000) ≡ true
    → leb_ℤ x (units 0) ≡ false
    → leb_ℤ (held -ℤ x) (pos 1000) ≡ true
less_small held x h k = ground (arith, -ℤ_parts held x)

rest_closed :
    (hit : Bool) (held x : Fixed)
    → leb_ℤ held (pos 1000) ≡ true
    → leb_ℤ (rest_of hit held x) (pos 1000) ≡ true
rest_closed hit held x h =
    let IsSmall : Fixed → Type 0 = λ y. leb_ℤ y (pos 1000) ≡ true in
    let less = held -ℤ x in
    let partial : Fixed = if leb_ℤ x (units 0) then held else less in
    if_cases IsSmall hit (if leb_ℤ held x then units 0 else partial) held
      (λ _.
        if_cases IsSmall (leb_ℤ held x) (units 0) partial (λ _. refl)
          (λ _.
            if_cases IsSmall (leb_ℤ x (units 0)) held less (λ _. h) (λ k. less_small held x h k)))
      (λ _. h)

closed_if : (held : Fixed) → leb_ℤ held (pos 1000) ≡ true → lt (lit 1 6) held ≡ false
unfolding lit
closed_if held h = ground arith

if_closed : (held : Fixed) → lt (lit 1 6) held ≡ false → leb_ℤ held (pos 1000) ≡ true
unfolding lit
if_closed held h = ground arith

whole_closed :
    (hit : Bool) (held x : Fixed)
    → hit ≡ true
    → x ≡ held
    → lt (lit 1 6) (rest_of hit held x) ≡ false
whole_closed hit held x h e = rw (rest_all hit held x h e) (closed_if (units 0) refl)

stays_closed :
    (hit : Bool) (held x : Fixed)
    → lt (lit 1 6) held ≡ false
    → lt (lit 1 6) (rest_of hit held x) ≡ false
stays_closed hit held x h =
    closed_if (rest_of hit held x) (rest_closed hit held x (if_closed held h))

closes :
    (order : ExitOrder Fixed) (w : World) (side : PositionSide)
    → order.position_side ≡ side
    → order.order_type ≡ OrderType.market
    → order.side ≡ closing_side side
    → order.amount ≡ amount w order.symbol side
    → IsClosed (amount (fill order w)) order.symbol side
closes order w PositionSide.long p t d a = elim (Bool-cases (is_sol order.symbol)) [
  | inl s ↦ rw s (whole_closed _ (w.0) order.amount (rw (p, t, d) refl) (rw s at a))
  | inr s ↦ rw s (closed_if (units 0) refl)
]
closes order w PositionSide.short p t d a = elim (Bool-cases (is_sol order.symbol)) [
  | inl s ↦ rw s (whole_closed _ (w.1) order.amount (rw (p, t, d) refl) (rw s at a))
  | inr s ↦ rw s (closed_if (units 0) refl)
]
closes order w PositionSide.both p t d a = closed_if (units 0) refl

opens_none :
    (order : ExitOrder Fixed) (w : World) (side : PositionSide)
    → IsClosed (amount w) order.symbol side
    → IsClosed (amount (fill order w)) order.symbol side
opens_none order w PositionSide.long h = elim (Bool-cases (is_sol order.symbol)) [
  | inl s ↦ rw s (stays_closed _ (w.0) order.amount (rw s at h))
  | inr s ↦ rw s (closed_if (units 0) refl)
]
opens_none order w PositionSide.short h = elim (Bool-cases (is_sol order.symbol)) [
  | inl s ↦ rw s (stays_closed _ (w.1) order.amount (rw s at h))
  | inr s ↦ rw s (closed_if (units 0) refl)
]
opens_none order w PositionSide.both h = closed_if (units 0) refl

missed :
    (order : ExitOrder Fixed) (symbol : String) (side : PositionSide)
    → is_same_side order.symbol order.position_side symbol side ≡ false
    → is_sol symbol ≡ true
    → is_hit side order ≡ false
missed order symbol side other s = elim (Bool-cases (is_hit side order)) [
  | inr h ↦ h
  | inl h ↦
      let (own, _) = and_true _ _ h in
      let (sol, same) = and_true _ _ own in
      let e = (eq_iff order.symbol "SOL/USDT:USDT").0 sol in
      let e' = (eq_iff symbol "SOL/USDT:USDT").0 s in
      let equal : str_eq order.symbol symbol ≡ true = (eq_iff order.symbol symbol).1 (e ∙ sym e') in
      let both_same : is_same_side order.symbol order.position_side symbol side ≡ true =
        rw equal same in
      absurd (cc)
]

leaves_others :
    (order : ExitOrder Fixed) (w : World) (symbol : String) (side : PositionSide)
    → is_same_side order.symbol order.position_side symbol side ≡ false
    → amount (fill order w) symbol side ≡ amount w symbol side
leaves_others order w symbol PositionSide.long other = elim (Bool-cases (is_sol symbol)) [
  | inl s ↦ rw s (rw (missed order symbol PositionSide.long other s) refl)
  | inr s ↦ rw s refl
]
leaves_others order w symbol PositionSide.short other = elim (Bool-cases (is_sol symbol)) [
  | inl s ↦ rw s (rw (missed order symbol PositionSide.short other s) refl)
  | inr s ↦ rw s refl
]
leaves_others order w symbol PositionSide.both other = refl

fills : FillsMarketOrders amount gateway
fills = record {
  sees_long = λ symbol w. record {
    position = slot long (amount w symbol PositionSide.long);
    found = refl;
    same = refl;
  };
  sees_short = λ symbol w. record {
    position = slot short (amount w symbol PositionSide.short);
    found = refl;
    same = refl;
  };
  fetch_keeps = λ symbol w. refl;
  sleep_keeps = λ w. refl;
  exit_closes = λ order w t d a. closes order w order.position_side refl t d a;
  exit_opens_none = λ order w d h. opens_none order w order.position_side h;
  exit_others = leaves_others;
}

emergency_kill_all_closes_example :
    let r = emergency_kill_all venue gateway holding in
    (r.1.status ≡ completed)
    × (r.1.unclosed_count ≡ 0)
    × All (IsFlat (amount r.0.world)) (keys holding.workers)
emergency_kill_all_closes_example = emergency_kill_all_closes amount fills venue holding refl

emergency_kill_all_blind_example :
    let r = emergency_kill_all venue blind_gateway holding in
    let symbols = keys (stop_all venue holding).workers in
    let fetched = asked blind_gateway symbols in
    (r.1.status ≡ completed)
    × (r.1.unclosed_count ≡ 0)
    × (r.1.market_exits_placed ≡ [])
    × (r.0.world
        ≡ fetched (
            fetched (
              blind_gateway.sleep_half
                (fetched (cancel_all blind_gateway symbols (stop_all venue holding).world)))))
emergency_kill_all_blind_example =
    emergency_kill_all_blind blind_gateway venue holding (λ symbol w. refl) refl

emergency_kill_all-KillOutcome_example :
    KillOutcome venue holding (emergency_kill_all venue gateway holding)
emergency_kill_all-KillOutcome_example = emergency_kill_all-KillOutcome venue gateway holding

account_trips : (check_account venue feed tripped).1 ≡ true
unfolding check_account figures
account_trips =
    ap (λ r. r.1)
      (check_tripped (units 9000) (record { connected = true; fills = [] }) none none
        tripped_breaker refl)

step_ends : (health_step venue gateway feed tripped).1 ≡ false
step_ends = ap (λ r. r.1) (step_tripped venue gateway feed tripped account_trips)

health_step-IsHalted_example :
    IsHalted venue (health_step venue gateway feed tripped).0
    × ((rounds : ℕ)
        → health_loop (suc rounds) venue gateway feed tripped
          ≡ (health_step venue gateway feed tripped).0)
health_step-IsHalted_example = health_step-IsHalted venue gateway feed tripped step_ends

start_pair-IsUp_example :
    let r = start_pair venue "SOL/USDT:USDT" holding in
    (r.1 ≡ true
      → (holding.breaker.tripped ≡ false)
        × (venue.is_connected holding.world ≡ true)
        × IsUp "SOL/USDT:USDT" r.0)
    × (r.1 ≡ false → r.0 ≡ holding)
start_pair-IsUp_example = start_pair-IsUp venue "SOL/USDT:USDT" holding
