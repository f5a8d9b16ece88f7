-- ===== src/Funding/KillAll/Exits.antt =====
-- What the closing phases of the emergency kill send (app/core/fr_execution/kill_switch.py).
use pmm_simple.Prelude.{
  ◌≡◌, refl, ap, sym, codes, arith, Bool, true, false, not, ◌&&◌, Option, none, some, List, [], ◌∷◌,
  map, Bool-cases, inl, inr, if◌then◌else◌,
}
use pmm_simple.Float.{Float, abs}
use pmm_simple.Models.State.{PositionSide, long, short, OrderSide, buy, sell}
use pmm_simple.Funding.Names.{Name, name_eq, upper}
use pmm_simple.Funding.Gateway.{ExchangePosition, MultiExchangeGateway, HedgeOrder}
use pmm_simple.Funding.Orders.{close_order}
use pmm_simple.Funding.Sizes.{is_some}
use pmm_simple.Funding.KillAll.{
  ExitRow, ClosePhase, close_results, close_error, add_row, has_size, exit_symbol, named_leg,
  fetch_listed, emergency_market_close, close_listed, close_out_exchange,
}

module _ {F : Type 0} ⦃f : Float F⦄ where
  -- A position to exit: one that holds something, with a symbol.
  abbrev pub is_exit : ExchangePosition F → Bool
  is_exit raw = has_size raw && not (name_eq (exit_symbol raw.symbol) [])

  abbrev pub exits_of : List (ExchangePosition F) → List (ExchangePosition F)
  exits_of [] = []
  exits_of (raw ∷ raws) = if is_exit raw then raw ∷ exits_of raws else exits_of raws

module _ {F : Type 0} ⦃f : Float F⦄ (exchange : Name) (side_of : ExchangePosition F → Name) where
  abbrev pub exit_key : ExchangePosition F → Name × Name × F
  exit_key raw = (exit_symbol raw.symbol, side_of raw, abs raw.contracts)

  abbrev pub row_key : ExitRow F → Name × Name × F
  row_key r = (r.symbol, r.side, r.size)

  abbrev pub are_named : List (ExchangePosition F) → Bool
  are_named [] = true
  are_named (raw ∷ raws) = is_some (named_leg (side_of raw)) && are_named raws

  -- The order that closes a leg: SELL for LONG and BUY for SHORT, the whole size.
  abbrev pub exit_order : ExchangePosition F → OrderSide → PositionSide → HedgeOrder F
  exit_order raw side leg = record {
    exchange = exchange;
    symbol = exit_symbol raw.symbol;
    side = side;
    position_side = leg;
    amount = abs raw.contracts;
  }

  -- The orders for the positions in turn, up to one whose side is neither LONG nor SHORT.
  abbrev pub orders_of : List (ExchangePosition F) → List (HedgeOrder F)
  orders_of [] = []
  orders_of (raw ∷ raws) =
      let rest = orders_of raws in
      if name_eq (upper (side_of raw)) (codes "LONG")
      then exit_order raw sell long ∷ rest
      else if name_eq (upper (side_of raw)) (codes "SHORT")
      then exit_order raw buy short ∷ rest
      else []

  -- The orders of the first position, by the leg that its side names.
  orders_none :
      (raw : ExchangePosition F) (raws : List (ExchangePosition F))
      → named_leg (side_of raw) ≡ none
      → orders_of (raw ∷ raws) ≡ []
  unfolding named_leg
  orders_none raw raws e = ground arith

  orders_some :
      (raw : ExchangePosition F) (raws : List (ExchangePosition F)) (leg : PositionSide)
      → named_leg (side_of raw) ≡ some leg
      → orders_of (raw ∷ raws)
        ≡ close_order exchange (exit_symbol raw.symbol) leg (abs raw.contracts) ∷ orders_of raws
  unfolding named_leg
  orders_some raw raws leg e = elim (Bool-cases (name_eq (upper (side_of raw)) (codes "LONG"))) [
    | inl h ↦
        let l : some long ≡ some leg = rw h at e in
        let l' : long ≡ leg = cc in rw h (rw (sym l') refl)
    | inr h ↦ elim (Bool-cases (name_eq (upper (side_of raw)) (codes "SHORT"))) [
      | inl k ↦
          let l : some short ≡ some leg = rw k at (rw h at e) in
          let l' : short ≡ leg = cc in rw h (rw k (rw (sym l') refl))
      | inr k ↦ let l : none ≡ some leg = rw k at (rw h at e) in absurd (cc)
    ]
  ]

  -- A phase has an exit of the report for each position, or ended with an error at a side without a name.
  abbrev pub CloseOutcome : List (ExchangePosition F) → ClosePhase F → Type 0
  CloseOutcome raws (close_results rows) =
      (map row_key rows ≡ map exit_key raws) × (are_named raws ≡ true)
  CloseOutcome raws close_error = are_named raws ≡ false

  add_row-CloseOutcome :
      (raw : ExchangePosition F) (raws : List (ExchangePosition F)) (ok : Bool)
      (phase : ClosePhase F)
      → is_some (named_leg (side_of raw)) ≡ true
      → CloseOutcome raws phase
      → CloseOutcome (raw ∷ raws) (
          add_row
            (record {
              symbol = exit_symbol raw.symbol;
              side = side_of raw;
              size = abs raw.contracts;
              res = ok;
            })
            phase)
  add_row-CloseOutcome raw raws ok (close_results rows) n h =
      (ap (λ ks. exit_key raw ∷ ks) h.0, rw n h.1)
  add_row-CloseOutcome raw raws ok close_error n h = rw n h

module _ {W F : Type 0} ⦃f : Float F⦄ (g : MultiExchangeGateway W F) where
  abbrev pub send_all : List (HedgeOrder F) → W → W
  send_all [] w = w
  send_all (o ∷ os) w = send_all os (g.create_hedge_order o w).0

  abbrev pub Closes :
      Name → (ExchangePosition F → Name) → List (ExchangePosition F) → W → W × ClosePhase F → Type 0
  Closes exchange side_of raws w r =
      (r.0 ≡ send_all (orders_of exchange side_of raws) w) × CloseOutcome exchange side_of raws r.1

  market_none :
      (exchange symbol side : Name) (amount : F) (w : W)
      → named_leg side ≡ none
      → emergency_market_close g exchange symbol side amount w ≡ (w, none)
  unfolding emergency_market_close
  market_none exchange symbol side amount w e = rw (e, emergency_market_close) refl

  market_some :
      (exchange symbol side : Name) (amount : F) (w : W) (leg : PositionSide)
      → named_leg side ≡ some leg
      → let r = g.create_hedge_order (close_order exchange symbol leg amount) w in
        emergency_market_close g exchange symbol side amount w ≡ (r.0, some (is_some r.1))
  unfolding emergency_market_close
  market_some exchange symbol side amount w leg e = rw (e, emergency_market_close) refl

  exited :
      (exchange : Name) (side_of : ExchangePosition F → Name) (raw : ExchangePosition F)
      (raws : List (ExchangePosition F)) (w : W) (o : Option PositionSide)
      → named_leg (side_of raw) ≡ o
      → has_size raw ≡ true
      → name_eq (exit_symbol raw.symbol) [] ≡ false
      → ((v : W)
          → Closes exchange side_of (exits_of raws) v (close_listed g exchange side_of raws v))
      → Closes exchange side_of
          (exits_of (raw ∷ raws))
          w
          (close_listed g exchange side_of (raw ∷ raws) w)
  unfolding close_listed
  exited exchange side_of raw raws w none e h n rest =
      let m = market_none exchange (exit_symbol raw.symbol) (side_of raw) (abs raw.contracts) w e in
      rw (h, n, m, close_listed)
        (rw m (rw (orders_none exchange side_of raw (exits_of raws) e) (refl, rw e refl)))
  exited exchange side_of raw raws w (some leg) e h n rest =
      let symbol = exit_symbol raw.symbol in
      let m = market_some exchange symbol (side_of raw) (abs raw.contracts) w leg e in
      let r = g.create_hedge_order (close_order exchange symbol leg (abs raw.contracts)) w in
      let phase = (close_listed g exchange side_of raws r.0).1 in
      rw (h, n, m, close_listed)
        (rw m (
          rw (orders_some exchange side_of raw (exits_of raws) leg e) (
            (rest r.0).0,
            add_row-CloseOutcome exchange side_of raw (exits_of raws) (is_some r.1) phase
                (rw e refl) (rest r.0).1,
          )))

  close_listed-Closes :
      (exchange : Name) (side_of : ExchangePosition F → Name) (raws : List (ExchangePosition F))
      (w : W)
      → Closes exchange side_of (exits_of raws) w (close_listed g exchange side_of raws w)
  unfolding close_listed
  close_listed-Closes exchange side_of [] w = (refl, (refl, refl))
  close_listed-Closes exchange side_of (raw ∷ raws) w = elim (Bool-cases (has_size raw)) [
    | inr h ↦ rw (h, close_listed) (close_listed-Closes exchange side_of raws w)
    | inl h ↦ elim (Bool-cases (name_eq (exit_symbol raw.symbol) [])) [
      | inl n ↦ rw (h, n, close_listed) (close_listed-Closes exchange side_of raws w)
      | inr n ↦
          exited exchange side_of raw raws w (named_leg (side_of raw)) refl h n
            (λ v. close_listed-Closes exchange side_of raws v)
    ]
  ]

  -- A closing phase sends one market order for each listed position that holds something and has a symbol, in the
  -- listed order and against its side, and nothing else, up to a position whose side names no leg. Such a
  -- position ends the phase with an error, and every position behind it stays open; without one the report has an
  -- exit for each.
  pub close_out_exchange-Closes :
      (exchange : Name) (side_of : ExchangePosition F → Name) (w : W)
      → let (w', raws) = fetch_listed g exchange w in
        Closes exchange side_of (exits_of raws) w' (close_out_exchange g exchange side_of w)
  unfolding close_out_exchange
  close_out_exchange-Closes exchange side_of w =
      let (w', raws) = fetch_listed g exchange w in close_listed-Closes exchange side_of raws w'
