-- ===== src/Worker/Orders.antt =====
-- The worker's view of its open quotes (app/core/worker.py, `on_order_update` and `reconcile_open_orders`).
use pmm_simple.Prelude.{
  ◌≡◌, ◌||◌, Bool, true, false, Option, none, some, List, [], ◌∷◌, String, codes, starts_with,
  same_text, All, Bool-cases, inl, inr, if◌then◌else◌,
}
use text.Mathlib.Text.{◌==◌ as str_eq}
use pmm_simple.Models.State.{OrderSide, PositionSide}
use pmm_simple.Executor.Ids.{Text}
use pmm_simple.Worker.State.{Worker, WorkerState}
use pmm_simple.Worker.Quoting.{ActiveQuote, put_quote}

pub data OrderStatus : Type 0 where
  new partially_filled filled canceled rejected expired : OrderStatus

-- What the worker reads of an `OrderRecord`.
pub record OrderRecord (F : Type 0) : Type 0 where
  pub id : Text
  pub client_order_id : Text
  pub exchange_order_id : Option Text
  pub symbol : String
  pub side : OrderSide
  pub position_side : PositionSide
  pub price : F
  pub amount : F
  pub status : OrderStatus

-- `save_order`, whose error is swallowed, and `fetch_open_orders`, which answers `none` where it raises.
pub record OrderBook (W F : Type 0) : Type 0 where
  pub save_order : OrderRecord F → W → W
  pub fetch_open_orders : String → W → W × Option (List (OrderRecord F))

abbrev pub is_final : OrderStatus → Bool
is_final OrderStatus.new = false
is_final OrderStatus.partially_filled = false
is_final _ = true

module _ {F : Type 0} where
  -- `_active_quote_orders.pop(id, None)`
  unfoldable pub pop_quote : Text → List (ActiveQuote F) → List (ActiveQuote F)
  unfolding same_text
  pop_quote id [] = []
  pop_quote id (o ∷ os) = let rest = pop_quote id os in if same_text o.id id then rest else o ∷ rest

  abbrev pub is_own_quote : OrderRecord F → Bool
  is_own_quote o =
      starts_with (codes "q_buy_") o.client_order_id
      || starts_with (codes "q_sell_") o.client_order_id

  -- `o.exchange_order_id or o.id`
  abbrev pub quote_key : OrderRecord F → Text
  quote_key o = elim o.exchange_order_id [ none ↦ o.id | some [] ↦ o.id | some (c ∷ cs) ↦ c ∷ cs ]

  abbrev pub quote_of : OrderRecord F → ActiveQuote F
  quote_of o = record {
    id = quote_key o;
    side = o.side;
    position_side = o.position_side;
    price = o.price;
    amount = o.amount;
  }

  unfoldable pub own_quotes : List (OrderRecord F) → List (ActiveQuote F) → List (ActiveQuote F)
  unfolding put_quote starts_with
  own_quotes [] kept = kept
  own_quotes (o ∷ os) kept =
      own_quotes os (if is_own_quote o then put_quote (quote_of o) kept else kept)

  -- No entry has this key.
  abbrev pub Lacks : Text → List (ActiveQuote F) → Type 0
  Lacks id = All (λ o. same_text o.id id ≡ false)

  pop_quote-Lacks : (id : Text) (os : List (ActiveQuote F)) → Lacks id (pop_quote id os)
  unfolding pop_quote
  pop_quote-Lacks id [] = tt
  pop_quote-Lacks id (o ∷ os) = elim (Bool-cases (same_text o.id id)) [
    | inl same ↦ rw same (pop_quote-Lacks id os)
    | inr other ↦ rw other (other, pop_quote-Lacks id os)
  ]

  pop_quote_keeps :
      (P : ActiveQuote F → Type 0) (id : Text) (os : List (ActiveQuote F))
      → All P os
      → All P (pop_quote id os)
  unfolding pop_quote
  pop_quote_keeps P id [] h = tt
  pop_quote_keeps P id (o ∷ os) h = elim (Bool-cases (same_text o.id id)) [
    | inl same ↦ rw same (pop_quote_keeps P id os h.1)
    | inr other ↦ rw other (h.0, pop_quote_keeps P id os h.1)
  ]

module _ {W F : Type 0} where
  unfoldable pub on_order_update :
      Worker W F → OrderBook W F → OrderRecord F → WorkerState W F → WorkerState W F
  unfolding pop_quote
  on_order_update x b o s =
      let saved = record s { world = b.save_order o s.world } in
      if str_eq o.symbol x.symbol
      then if is_final o.status
        then record saved {
          active_quotes = pop_quote o.client_order_id (pop_quote o.id s.active_quotes);
        }
        else saved
      else s

  unfoldable pub reconcile_open_orders :
      Worker W F → OrderBook W F → WorkerState W F → WorkerState W F
  unfolding own_quotes
  reconcile_open_orders x b s =
      let (w, fetched) = b.fetch_open_orders x.symbol s.world in
      let synced : WorkerState W F = elim fetched [
        | none ↦ record s { world = w }
        | some orders ↦ record s { world = w; active_quotes = own_quotes orders [] }
      ] in
      synced
