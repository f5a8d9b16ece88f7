-- ===== src/Funding/PairTracker.antt =====
-- app/core/fr_execution/position_tracker.py: the positions with two legs, by canonical symbol, and the funding
-- payments. Log messages are left out.
use pmm_simple.Prelude.{
  ℕ, zero, suc, Bool, true, false, not, ◌&&◌, ◌||◌, Option, none, some, List, [], ◌∷◌, ltb, length,
  codes, if◌then◌else◌,
}
use Prim.Native.Nat.{◌-◌ as sub_ℕ}
use pmm_simple.Float.{Float, ◌+◌, ◌*◌, nought, lt, eq, abs}
use pmm_simple.Models.State.{PositionSide, long, short, is_long, is_short}
use pmm_simple.Funding.Names.{Name, name_eq, mem_name, add_name, lower_name, canon}
use pmm_simple.Funding.Legs.{
  LegPositionState, DualLegPosition, PairStatus, flat, opening, opened, recalculate,
}

pub record FrPositionTracker (F : Type 0) : Type 0 where
  pub positions : List (Name × DualLegPosition F)
  pub realized_funding_pnl : F
  pub last_reconciled_at : F
  pub processed_funding_ids : List Name

-- `xs[n:]`
abbrev pub skip : ℕ → List Name → List Name
skip zero xs = xs
skip (suc n) [] = []
skip (suc n) (x ∷ xs) = skip n xs

-- The memory of payment ids: above 2000 ids, the last 1000 in the order in which the set lists them,
-- which is `listed`.
unfoldable pub remember_payment : (List Name → List Name) → Name → List Name → List Name
unfolding add_name
remember_payment listed fid ids =
    let all = add_name fid ids in
    if ltb 2000 (length all) then skip (sub_ℕ (length (listed all)) 1000) (listed all) else all

module _ {F : Type 0} ⦃f : Float F⦄ where
  abbrev pub new_leg : F → Name → Name → PositionSide → LegPositionState F
  new_leg now exchange symbol side = record {
    exchange = exchange;
    symbol = symbol;
    position_side = side;
    entry_price = nought;
    mark_price = nought;
    size = nought;
    notional = nought;
    unrealized_pnl = nought;
    funding_accrued = nought;
    leverage = 1;
    entry_time = now;
    last_updated = now;
  }

  abbrev pub new_position : F → Name → Name → Name → DualLegPosition F
  new_position now symbol ex_long ex_short = record {
    symbol = symbol;
    long_leg = new_leg now (lower_name ex_long) symbol long;
    short_leg = new_leg now (lower_name ex_short) symbol short;
    net_upnl = nought;
    total_funding_accrued = nought;
    net_pnl = nought;
    holding_duration_hours = nought;
    is_paused = false;
    status = flat;
    last_policy_action = none;
    created_at = now;
    updated_at = now;
  }

  -- `positions.get(key)` and `positions[key] = p`.
  unfoldable pub lookup : Name → List (Name × DualLegPosition F) → Option (DualLegPosition F)
  unfolding name_eq
  lookup key [] = none
  lookup key ((k, p) ∷ ps) = if name_eq k key then some p else lookup key ps

  unfoldable pub store :
      Name → DualLegPosition F → List (Name × DualLegPosition F) → List (Name × DualLegPosition F)
  unfolding name_eq
  store key p [] = (key, p) ∷ []
  store key p ((k, q) ∷ ps) = if name_eq k key then (k, p) ∷ ps else (k, q) ∷ store key p ps

  abbrev pub put_position : Name → DualLegPosition F → FrPositionTracker F → FrPositionTracker F
  put_position key p t = record t { positions = store key p t.positions }

  unfoldable pub get_or_create_position :
      F → Name → Name → Name → FrPositionTracker F → FrPositionTracker F × DualLegPosition F
  unfolding lookup store canon
  get_or_create_position now symbol ex_long ex_short t =
      let key = canon symbol in
      let fresh = new_position now key ex_long ex_short in
      elim (lookup key t.positions) [ some p ↦ (t, p) | none ↦ (put_position key fresh t, fresh) ]

  unfoldable pub get_position : Name → FrPositionTracker F → Option (DualLegPosition F)
  unfolding lookup canon
  get_position symbol t = lookup (canon symbol) t.positions

  unfoldable pub update_leg_state :
      F → Name → F → F → F → F → F → ℕ → LegPositionState F → LegPositionState F
  unfolding lower_name
  update_leg_state now exchange size entry mark upnl funding leverage leg = record leg {
    exchange = lower_name exchange;
    size = abs size;
    entry_price = entry;
    mark_price = mark;
    notional = if lt nought mark then f.round (abs size * mark) 2 else nought;
    unrealized_pnl = upnl;
    funding_accrued =
        if eq funding nought then leg.funding_accrued else leg.funding_accrued + funding;
    leverage = leverage;
    last_updated = now;
  }

  -- The status that the sizes of the legs say.
  unfoldable pub leg_status : DualLegPosition F → PairStatus
  leg_status p =
      if lt nought p.long_leg.size && lt nought p.short_leg.size
      then opened
      else if eq p.long_leg.size nought && eq p.short_leg.size nought
      then flat
      else opening

  -- The change of the position in `update_leg`.
  unfoldable pub updated :
      F → Name → PositionSide → F → F → F → F → F → ℕ → DualLegPosition F → DualLegPosition F
  unfolding update_leg_state leg_status recalculate
  updated now exchange side size entry mark upnl funding leverage p =
      let leg = update_leg_state now exchange size entry mark upnl funding leverage in
      let p' : DualLegPosition F =
        if is_long side
        then record p { long_leg = leg p.long_leg }
        else record p { short_leg = leg p.short_leg } in
      recalculate now (record p' { status = leg_status p'; updated_at = now })

  unfoldable pub update_leg :
      F
      → Name
      → Name
      → PositionSide
      → F
      → F
      → F
      → F
      → F
      → ℕ
      → FrPositionTracker F
      → FrPositionTracker F × DualLegPosition F
  unfolding get_or_create_position updated canon
  update_leg now symbol exchange side size entry mark upnl funding leverage t =
      let (t', p) = get_or_create_position now (canon symbol) (codes "binance") (codes "bybit") t in
      let p' = updated now exchange side size entry mark upnl funding leverage p in
      (put_position (canon (canon symbol)) p' t', p')

  -- Where a payment goes: to the leg on that exchange, by its side where both legs are there, or else to
  -- the total alone.
  unfoldable pub credit : F → Name → PositionSide → F → DualLegPosition F → DualLegPosition F
  unfolding name_eq lower_name
  credit ts exchange side amount p =
      let on_long = name_eq p.long_leg.exchange (lower_name exchange) in
      let on_short = name_eq p.short_leg.exchange (lower_name exchange) in
      if on_long && (is_long side || not on_short)
      then record p {
        long_leg = record (p.long_leg) {
          funding_accrued = p.long_leg.funding_accrued + amount;
          last_updated = ts;
        };
      }
      else if on_short && (is_short side || not on_long)
      then record p {
        short_leg = record (p.short_leg) {
          funding_accrued = p.short_leg.funding_accrued + amount;
          last_updated = ts;
        };
      }
      else record p { total_funding_accrued = p.total_funding_accrued + amount }

  -- `fid` is `funding_id`, or the text that the code builds from the other arguments where it has none.
  unfoldable pub record_funding_payment :
      F
      → (List Name → List Name)
      → Name
      → Name
      → PositionSide
      → F
      → Name
      → F
      → FrPositionTracker F
      → FrPositionTracker F × Bool
  unfolding mem_name remember_payment credit recalculate lookup store canon
  record_funding_payment now listed symbol exchange side amount fid ts t =
      let key = canon symbol in
      let positions : List (Name × DualLegPosition F) = elim (lookup key t.positions) [
        | none ↦ t.positions
        | some p ↦ store key (recalculate now (credit ts exchange side amount p)) t.positions
      ] in
      if mem_name fid t.processed_funding_ids then (t, false) else (
        record t {
          positions = positions;
          processed_funding_ids = remember_payment listed fid t.processed_funding_ids;
          realized_funding_pnl = t.realized_funding_pnl + amount;
        },
        true,
      )
