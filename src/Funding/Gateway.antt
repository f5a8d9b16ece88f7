-- ===== src/Funding/Gateway.antt =====
-- What app/core/fr_execution/engine.py asks of the exchanges (app/core/fr_execution/gateway.py, over a library):
-- an interface. `W` is the state of the exchanges, which every call reads and may change; `none` is an exception,
-- a timeout or a result that is no dict.
use pmm_simple.Prelude.{ℕ, Bool, Option, List}
use pmm_simple.Models.State.{PositionSide, OrderSide}
use pmm_simple.Funding.Names.{Name}

-- The arguments of `create_hedge_order`; every order of the engine is a market order.
pub record HedgeOrder (F : Type 0) : Type 0 where
  pub exchange : Name
  pub symbol : Name
  pub side : OrderSide
  pub position_side : PositionSide
  pub amount : F

-- The keys "filled" and "amount" of an order's result: absent, None or a number.
pub record OrderInfo (F : Type 0) : Type 0 where
  pub filled : Option (Option F)
  pub amount : Option (Option F)

-- A position as `fetch_positions` lists it: the side's text, "positionIdx", and the number under "contracts",
-- "positionAmt" or "size", 0 without any.
pub record RawPosition (F : Type 0) : Type 0 where
  pub side : Name
  pub position_idx : Option ℕ
  pub contracts : F

-- A position as `fetch_positions` lists it without a symbol. `side` is the text under "side", or for Binance under
-- "positionSide"; `position_idx` is 0 and `leverage` 1 where they are missing, and a missing number is 0.
pub record ExchangePosition (F : Type 0) : Type 0 where
  pub symbol : Name
  pub side : Option Name
  pub position_idx : ℕ
  pub contracts : F
  pub entry_price : F
  pub mark_price : F
  pub unrealized_pnl : F
  pub leverage : ℕ

pub record MultiExchangeGateway (W F : Type 0) : Type 0 where
  pub get_free_margin : Name → W → W × F
  pub fetch_ticker_price : Name → Name → W → W × F
  pub amount_to_precision : Name → Name → F → F
  pub fetch_positions : Name → Name → W → W × Option (List (RawPosition F))
  pub create_hedge_order : HedgeOrder F → W → W × Option (OrderInfo F)
  -- The orders that are given, as concurrent tasks, each with its result.
  pub create_together :
      Option (HedgeOrder F)
      → Option (HedgeOrder F)
      → W
      → W × Option (OrderInfo F) × Option (OrderInfo F)
  pub cancel_all_orders : Name → Name → W → W × Bool
  -- The same two calls without a symbol. `none` is an exchange that is not connected, or an error.
  pub fetch_all_positions : Name → W → W × Option (List (ExchangePosition F))
  pub cancel_everything : Name → W → W × Bool
