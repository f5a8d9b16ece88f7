-- ===== src/Manager/KillAll/Closing.antt =====
-- The emergency kill against an exchange that fills market orders (app/core/manager.py, `emergency_kill_all`).
use mathlib.Core.Path.{subst}
use text.Mathlib.Text.{◌==◌ as str_eq}
use text.Mathlib.TextEquality.{eq_iff}
use pmm_simple.Prelude.{
  ◌≡◌, refl, sym, ◌∙◌, inl, inr, Bool, true, false, ◌&&◌, Bool-cases, and_true, List, [], ◌∷◌, ◌++◌,
  String, All, All-append, arith,
}
use pmm_simple.Float.{Float}
use pmm_simple.Models.State.{PositionSide, long, short, OrderSide, buy, sell}
use pmm_simple.Executor.Ids.{Text}
use pmm_simple.Executor.State.{ExitOrder, OrderType, exit_side}
use pmm_simple.Worker.Quoting.{same_position_side}
use pmm_simple.Manager.Pairs.{keys}
use pmm_simple.Manager.{Venue, Manager, stop_all}
use pmm_simple.Manager.KillAll.{
  KillGateway, OpenPosition, completed, market_exit, kill_prefix, place_exits, fetch_open,
  count_residual, second_pass, open_slot, cancel_all, close_everything, emergency_kill_all,
}
use pmm_simple.Manager.KillAll.Outcome.{keys-stop_all}
use pmm_simple.Manager.KillAll.Holdings.{
  Sees, Holdings, IsClosed, IsFlat, Keeps, Handled, IsCurrent, Keeps-AreCurrent, Handled-tail,
  Handled-append, BothHandled, BothHandled-append, open_slot_closed, is_open_slot_closed,
  open_slot-Handled, open_slot-IsCurrent,
}

-- The side of the order that closes a position.
abbrev pub closing_side : PositionSide → OrderSide
closing_side PositionSide.long = sell
closing_side PositionSide.short = buy
closing_side PositionSide.both = buy

abbrev pub is_same_side : String → PositionSide → String → PositionSide → Bool
is_same_side s a t b = str_eq s t && same_position_side a b

same_side-eq : (a b : PositionSide) → same_position_side a b ≡ true → a ≡ b
same_side-eq PositionSide.long PositionSide.long h = refl
same_side-eq PositionSide.short PositionSide.short h = refl
same_side-eq PositionSide.both PositionSide.both h = refl
same_side-eq PositionSide.long PositionSide.short h = cc
same_side-eq PositionSide.long PositionSide.both h = cc
same_side-eq PositionSide.short PositionSide.long h = cc
same_side-eq PositionSide.short PositionSide.both h = cc
same_side-eq PositionSide.both PositionSide.long h = cc
same_side-eq PositionSide.both PositionSide.short h = cc

exit_side-closing : (side : PositionSide) → exit_side side ≡ closing_side side
exit_side-closing PositionSide.long = refl
exit_side-closing PositionSide.short = refl
exit_side-closing PositionSide.both = refl

module _ {W F : Type 0} ⦃f : Float F⦄ (amount : W → Holdings F) where
  -- The exchange answers with its positions. A market order against a side, SELL for LONG and BUY for SHORT, of the
  -- whole amount that it holds closes the side; such an order, of any amount, opens no closed side; and no order
  -- changes another symbol or side than its own.
  pub record FillsMarketOrders (g : KillGateway W F) : Type 0 where
    pub sees_long :
        (symbol : String) (w : W)
        → Sees (g.fetch_positions_hedge symbol w).1.0 (amount w symbol long)
    pub sees_short :
        (symbol : String) (w : W)
        → Sees (g.fetch_positions_hedge symbol w).1.1 (amount w symbol short)
    pub fetch_keeps :
        (symbol : String) (w : W) → amount (g.fetch_positions_hedge symbol w).0 ≡ amount w
    pub sleep_keeps : (w : W) → amount (g.sleep_half w) ≡ amount w
    pub exit_closes :
        (order : ExitOrder F) (w : W)
        → order.order_type ≡ OrderType.market
        → order.side ≡ closing_side order.position_side
        → order.amount ≡ amount w order.symbol order.position_side
        → IsClosed (amount (g.create_exit_order order w).0) order.symbol order.position_side
    pub exit_opens_none :
        (order : ExitOrder F) (w : W)
        → order.side ≡ closing_side order.position_side
        → IsClosed (amount w) order.symbol order.position_side
        → IsClosed (amount (g.create_exit_order order w).0) order.symbol order.position_side
    pub exit_others :
        (order : ExitOrder F) (w : W) (symbol : String) (side : PositionSide)
        → is_same_side order.symbol order.position_side symbol side ≡ false
        → amount (g.create_exit_order order w).0 symbol side ≡ amount w symbol side

  module _ {g : KillGateway W F} (fills : FillsMarketOrders g) where
    amount-fetch_open :
        (symbols : List String) (w : W) → amount (fetch_open g symbols w).0 ≡ amount w
    unfolding fetch_open
    amount-fetch_open [] w = refl
    amount-fetch_open (s ∷ ss) w =
        amount-fetch_open ss (g.fetch_positions_hedge s w).0 ∙ fills.fetch_keeps s w

    amount-count_residual :
        (symbols : List String) (w : W) → amount (count_residual g symbols w).0 ≡ amount w
    unfolding count_residual
    amount-count_residual [] w = refl
    amount-count_residual (s ∷ ss) w =
        amount-count_residual ss (g.fetch_positions_hedge s w).0 ∙ fills.fetch_keeps s w

    -- The list of open positions is current.
    fetch_open-IsCurrent :
        (symbols : List String) (w : W) → All (IsCurrent (amount w)) (fetch_open g symbols w).1
    unfolding fetch_open
    fetch_open-IsCurrent [] w = tt
    fetch_open-IsCurrent (s ∷ ss) w =
        let w' = (g.fetch_positions_hedge s w).0 in
        let slots = (g.fetch_positions_hedge s w).1 in
        let rest = (fetch_open g ss w').1 in
        All-append (IsCurrent (amount w)) (open_slot s long slots.0)
          (open_slot s short slots.1 ++ rest)
          (open_slot-IsCurrent (amount w) s long (fills.sees_long s w))
          (All-append (IsCurrent (amount w)) (open_slot s short slots.1) rest
            (open_slot-IsCurrent (amount w) s short (fills.sees_short s w))
            (subst (λ a. All (IsCurrent a) rest) (fills.fetch_keeps s w)
              (fetch_open-IsCurrent ss w')))

    fetch_open_handled :
        (symbols : List String) (w : W)
        → All (BothHandled (amount w) (fetch_open g symbols w).1) symbols
    unfolding fetch_open
    fetch_open_handled [] w = tt
    fetch_open_handled (s ∷ ss) w =
        let a = amount w in
        let w' = (g.fetch_positions_hedge s w).0 in
        let slots = (g.fetch_positions_hedge s w).1 in
        let rest = (fetch_open g ss w').1 in
        let ls = open_slot s long slots.0 in
        let ss' = open_slot s short slots.1 in
        let long_done = open_slot-Handled a s long (fills.sees_long s w) in
        let short_done = open_slot-Handled a s short (fills.sees_short s w) in
        let later =
          subst (λ b. All (BothHandled b rest) ss) (fills.fetch_keeps s w)
            (fetch_open_handled ss w') in
        (
          (
            Handled-append a s long ls (ss' ++ rest) (inl long_done),
            Handled-append a s short ls (ss' ++ rest)
                (inr (Handled-append a s short ss' rest (inl short_done))),
          ),
          BothHandled-append a ls (ss' ++ rest) ss (BothHandled-append a ss' rest ss later),
        )

    -- Where nothing is open, the lists are empty and nothing is counted.
    fetch_open_flat :
        (symbols : List String) (w : W)
        → All (IsFlat (amount w)) symbols
        → (fetch_open g symbols w).1 ≡ []
    unfolding fetch_open
    fetch_open_flat [] w h = refl
    fetch_open_flat (s ∷ ss) w h =
        let w' = (g.fetch_positions_hedge s w).0 in
        let kept = subst (λ a. All (IsFlat a) ss) (sym (fills.fetch_keeps s w)) (h.1) in
        rw
          (
            open_slot_closed (amount w) s long (fills.sees_long s w) h.0.0,
            open_slot_closed (amount w) s short (fills.sees_short s w) h.0.1,
            fetch_open_flat ss w' kept,
          )
          refl

    count_residual_flat :
        (symbols : List String) (w : W)
        → All (IsFlat (amount w)) symbols
        → (count_residual g symbols w).1 ≡ 0
    unfolding count_residual
    count_residual_flat [] w h = refl
    count_residual_flat (s ∷ ss) w h =
        let w' = (g.fetch_positions_hedge s w).0 in
        let kept = subst (λ a. All (IsFlat a) ss) (sym (fills.fetch_keeps s w)) (h.1) in
        rw
          (
            is_open_slot_closed (amount w) s long (fills.sees_long s w) h.0.0,
            is_open_slot_closed (amount w) s short (fills.sees_short s w) h.0.1,
            count_residual_flat ss w' kept,
          )
          (omega arith)

    exit_of_current :
        (client_id : Text) (p : OpenPosition F) (w : W)
        → IsCurrent (amount w) p
        → IsClosed (amount (g.create_exit_order (market_exit client_id p) w).0) p.symbol p.side
    exit_of_current id p w (inl e) =
        fills.exit_closes (market_exit id p) w refl (exit_side-closing p.side) e
    exit_of_current id p w (inr h) =
        fills.exit_opens_none (market_exit id p) w (exit_side-closing p.side) h

    -- An exit of the list closes its own side and changes no other.
    exit-Keeps :
        (client_id : Text) (p : OpenPosition F) (w : W) (symbol : String) (side : PositionSide)
        → IsCurrent (amount w) p
        → Keeps (amount w) (amount (g.create_exit_order (market_exit client_id p) w).0) symbol side
    exit-Keeps id p w symbol side current =
        let after = amount (g.create_exit_order (market_exit id p) w).0 in
        elim (Bool-cases (is_same_side p.symbol p.side symbol side)) [
          | inr other ↦ inl (fills.exit_others (market_exit id p) w symbol side other)
          | inl same ↦
              let both_same = and_true _ _ same in
              let e = (eq_iff p.symbol symbol).0 both_same.0 in
              let e' = same_side-eq p.side side both_same.1 in
              inr (
                subst (λ t. IsClosed after symbol t) e'
                  (subst (λ t. IsClosed after t p.side) e (exit_of_current id p w current)))
        ]

    -- The exits close what is listed and leave closed what is closed.
    place_exits_close :
        (ps : List (OpenPosition F)) (w : W) (symbol : String) (side : PositionSide)
        → All (IsCurrent (amount w)) ps
        → Handled (amount w) ps symbol side
        → IsClosed (amount (place_exits g ps w).0) symbol side
    unfolding place_exits
    place_exits_close [] w symbol side current (inl h) = h
    place_exits_close [] w symbol side current (inr h) = absurd h
    place_exits_close (p ∷ ps) w symbol side current handled =
        let order = market_exit (kill_prefix p.side ++ g.millis w) p in
        let w' = (g.create_exit_order order w).0 in
        let keep = λ (symbol : String) (side : PositionSide).
          exit-Keeps (kill_prefix p.side ++ g.millis w) p w symbol side current.0 in
        let done = exit_of_current (kill_prefix p.side ++ g.millis w) p w current.0 in
        place_exits_close ps w' symbol side
          (Keeps-AreCurrent (amount w) (amount w') keep ps current.1)
          (Handled-tail (amount w) (amount w') p ps symbol side (keep symbol side) done handled)

    place_exits-IsFlat :
        (symbols : List String) (ps : List (OpenPosition F)) (w : W)
        → All (IsCurrent (amount w)) ps
        → All (BothHandled (amount w) ps) symbols
        → All (IsFlat (amount (place_exits g ps w).0)) symbols
    place_exits-IsFlat [] ps w current h = tt
    place_exits-IsFlat (s ∷ ss) ps w current h = (
      (place_exits_close ps w s long current h.0.0, place_exits_close ps w s short current h.0.1),
      place_exits-IsFlat ss ps w current h.1,
    )

    -- A world with the same amounts is as flat.
    move-IsFlat :
        (symbols : List String) (w w' : W)
        → amount w' ≡ amount w
        → All (IsFlat (amount w)) symbols
        → All (IsFlat (amount w')) symbols
    move-IsFlat symbols w w' e = subst (λ a. All (IsFlat a) symbols) (sym e)

    -- The exits of what a fetch found leave every side of the symbols closed.
    exits_of_fetch-IsFlat :
        (symbols : List String) (w : W)
        → let r = fetch_open g symbols w in All (IsFlat (amount (place_exits g r.1 r.0).0)) symbols
    exits_of_fetch-IsFlat symbols w =
        let (w1, found) = fetch_open g symbols w in
        let same = sym (amount-fetch_open symbols w) in
        place_exits-IsFlat symbols found w1
          (subst (λ a. All (IsCurrent a) found) same (fetch_open-IsCurrent symbols w))
          (subst (λ a. All (BothHandled a found) symbols) same (fetch_open_handled symbols w))

    second_pass_idle : (ps : List (OpenPosition F)) (w : W) → ps ≡ [] → second_pass g ps w ≡ w
    unfolding second_pass
    second_pass_idle ps w h = rw h refl

    -- On flat symbols the confirmation changes no amount and counts nothing.
    confirm-IsFlat :
        (symbols : List String) (w : W)
        → All (IsFlat (amount w)) symbols
        → let r = fetch_open g symbols w in
          let c = count_residual g symbols (second_pass g r.1 r.0) in
          (c.1 ≡ 0) × All (IsFlat (amount c.0)) symbols
    confirm-IsFlat symbols w flat =
        let (w1, found) = fetch_open g symbols w in
        let flat1 = move-IsFlat symbols w w1 (amount-fetch_open symbols w) flat in
        rw (second_pass_idle found w1 (fetch_open_flat symbols w flat)) (
          count_residual_flat symbols w1 flat1,
          move-IsFlat symbols w1 (count_residual g symbols w1).0 (amount-count_residual symbols w1)
              flat1,
        )

    -- The phases on the symbols leave every side closed, and count nothing unclosed.
    pub close_everything-IsFlat :
        (symbols : List String) (w : W)
        → let r = close_everything g symbols w in
          (r.1.unclosed_count ≡ 0) × (r.1.status ≡ completed) × All (IsFlat (amount r.0)) symbols
    unfolding close_everything
    close_everything-IsFlat symbols w =
        let (w1, found) = fetch_open g symbols w in
        let w2 = (place_exits g found w1).0 in
        let flat =
          move-IsFlat symbols w2 (g.sleep_half w2) (fills.sleep_keeps w2)
            (exits_of_fetch-IsFlat symbols w) in
        let confirmed = confirm-IsFlat symbols (g.sleep_half w2) flat in
        (confirmed.0, rw confirmed.0 refl, confirmed.1)

    -- Against an exchange that answers its positions, on which a market order of the right side for the whole of a
    -- position closes it, an order against a side opens none and no order touches another side, a kill with a connected gateway is completed, and
    -- the exchange then holds no open side of any managed symbol.
    pub emergency_kill_all_closes :
        (v : Venue W F) (m : Manager W F)
        → v.is_connected (stop_all v m).world ≡ true
        → let r = emergency_kill_all v g m in
          (r.1.status ≡ completed)
          × (r.1.unclosed_count ≡ 0)
          × All (IsFlat (amount r.0.world)) (keys m.workers)
    unfolding emergency_kill_all
    emergency_kill_all_closes v m up =
        let stopped = stop_all v m in
        let symbols = keys stopped.workers in
        let flat = close_everything-IsFlat symbols (cancel_all g symbols stopped.world) in
        let same = keys-stop_all v m in
        let w = (close_everything g symbols (cancel_all g symbols stopped.world)).0 in
        rw up (flat.1, flat.0, subst (λ ks. All (IsFlat (amount w)) ks) same (flat.2))
