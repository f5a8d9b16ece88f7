-- ===== src/Funding/KillAll/Blind.antt =====
-- The emergency kill while no fetch of positions is answered (app/core/fr_execution/kill_switch.py, gateway.py).
use pmm_simple.Prelude.{◌≡◌, refl, Bool, true, none, [], codes}
use pmm_simple.Float.{Float}
use pmm_simple.Funding.Names.{Name}
use pmm_simple.Funding.Gateway.{ExchangePosition, MultiExchangeGateway}
use pmm_simple.Funding.KillSwitch.{trip_global}
use pmm_simple.Funding.Engine.{EngineState}
use pmm_simple.Funding.Reconcile.{recalculate_all, reconcile_with_exchange_positions}
use pmm_simple.Funding.KillAll.{
  ClosePhase, close_results, close_out_exchange, count_held, reconcile_and_report,
  emergency_kill_exchanges, binance_exit_side, bybit_exit_side,
}

module _ {W F : Type 0} ⦃f : Float F⦄ (g : MultiExchangeGateway W F) where
  abbrev pub IsBlind : Type 0
  IsBlind = (exchange : Name) (w : W) → (g.fetch_all_positions exchange w).1 ≡ none

  -- The exchanges after a fetch, and after a cancellation.
  abbrev pub asked : Name → W → W
  asked exchange w = (g.fetch_all_positions exchange w).0

  abbrev pub cancelled : Name → W → W
  cancelled exchange w = (g.cancel_everything exchange w).0

  module _ (blind : IsBlind) where
    close_out_exchange_blind :
        (exchange : Name) (side_of : ExchangePosition F → Name) (w : W)
        → close_out_exchange g exchange side_of w ≡ (asked exchange w, close_results [])
    unfolding close_out_exchange
    close_out_exchange_blind exchange side_of w = rw (blind exchange w, close_out_exchange) refl

    -- The last phase: nothing is counted, and the tracker hears of no position.
    report_blind :
        (now : F) (a b : Bool) (closed_a closed_b : ClosePhase F) (s : EngineState W F)
        → let r = reconcile_and_report g now a b closed_a closed_b s in
          (r.1.is_completed ≡ true)
          × (r.1.is_flat ≡ true)
          × (r.1.binance_remaining_positions ≡ 0)
          × (r.1.bybit_remaining_positions ≡ 0)
          × (r.1.close_binance_positions ≡ closed_a)
          × (r.1.close_bybit_positions ≡ closed_b)
          × (r.0.tracker.positions ≡ recalculate_all now s.tracker.positions)
          × (r.0.world ≡ asked (codes "bybit") (asked (codes "binance") s.world))
    unfolding reconcile_and_report reconcile_with_exchange_positions count_held
    report_blind now a b closed_a closed_b s =
        let first = blind (codes "binance") s.world in
        let second = blind (codes "bybit") (asked (codes "binance") s.world) in
        rw (first, second) (refl, refl, refl, refl, refl, refl, refl, refl)

    -- Where no fetch of positions is answered, the kill sends no order, only the two cancellations and the four
    -- fetches, and keeps every position of the tracker with its totals computed again; it still reports that it is
    -- completed, with nothing left open on either exchange.
    pub emergency_kill_exchanges_blind :
        (now : F) (s : EngineState W F)
        → let r = emergency_kill_exchanges g now s in
          let fetched = λ (w : W). asked (codes "bybit") (asked (codes "binance") w) in
          (r.1.is_completed ≡ true)
          × (r.1.is_flat ≡ true)
          × (r.1.binance_remaining_positions ≡ 0)
          × (r.1.bybit_remaining_positions ≡ 0)
          × (r.1.close_binance_positions ≡ close_results [])
          × (r.1.close_bybit_positions ≡ close_results [])
          × (r.0.tracker.positions ≡ recalculate_all now s.tracker.positions)
          × (r.0.world
              ≡ fetched (fetched (cancelled (codes "bybit") (cancelled (codes "binance") s.world))))
    unfolding emergency_kill_exchanges
    emergency_kill_exchanges_blind now s =
        let w = cancelled (codes "bybit") (cancelled (codes "binance") s.world) in
        let w' = asked (codes "binance") w in
        rw
          (
            close_out_exchange_blind (codes "binance") binance_exit_side w,
            close_out_exchange_blind (codes "bybit") bybit_exit_side w',
          )
          (report_blind now (g.cancel_everything (codes "binance") s.world).1
            (g.cancel_everything (codes "bybit") (cancelled (codes "binance") s.world)).1
            (close_results []) (close_results [])
            (record s {
              world = asked (codes "bybit") w';
              kill_switch = trip_global s.kill_switch;
            }))
