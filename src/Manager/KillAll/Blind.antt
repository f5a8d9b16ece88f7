-- ===== src/Manager/KillAll/Blind.antt =====
-- The emergency kill against an exchange that answers no query (app/core/manager.py, `emergency_kill_all`).
use pmm_simple.Prelude.{◌≡◌, refl, true, none, List, [], ◌∷◌, String, arith}
use pmm_simple.Float.{Float}
use pmm_simple.Manager.Pairs.{keys}
use pmm_simple.Manager.{Venue, Manager, stop_all}
use pmm_simple.Manager.KillAll.{
  KillGateway, completed, place_exits, fetch_open, count_residual, second_pass, is_open_slot,
  open_slot, cancel_all, close_everything, emergency_kill_all,
}

module _ {W F : Type 0} ⦃f : Float F⦄ (g : KillGateway W F) where
  -- No fetch is answered.
  abbrev pub IsBlind : Type 0
  IsBlind = (symbol : String) (w : W) → (g.fetch_positions_hedge symbol w).1 ≡ (none, none)

  -- The exchange after the fetches for the symbols, and nothing else.
  abbrev pub asked : List String → W → W
  asked [] w = w
  asked (s ∷ ss) w = asked ss (g.fetch_positions_hedge s w).0

  fetch_open-asked : (symbols : List String) (w : W) → (fetch_open g symbols w).0 ≡ asked symbols w
  unfolding fetch_open
  fetch_open-asked [] w = refl
  fetch_open-asked (s ∷ ss) w = fetch_open-asked ss (g.fetch_positions_hedge s w).0

  count_residual-asked :
      (symbols : List String) (w : W) → (count_residual g symbols w).0 ≡ asked symbols w
  unfolding count_residual
  count_residual-asked [] w = refl
  count_residual-asked (s ∷ ss) w = count_residual-asked ss (g.fetch_positions_hedge s w).0

  fetch_open_blind : IsBlind → (symbols : List String) (w : W) → (fetch_open g symbols w).1 ≡ []
  unfolding fetch_open open_slot
  fetch_open_blind blind [] w = refl
  fetch_open_blind blind (s ∷ ss) w =
      rw (blind s w, fetch_open_blind blind ss (g.fetch_positions_hedge s w).0) refl

  count_residual_blind :
      IsBlind → (symbols : List String) (w : W) → (count_residual g symbols w).1 ≡ 0
  unfolding count_residual is_open_slot
  count_residual_blind blind [] w = refl
  count_residual_blind blind (s ∷ ss) w =
      rw (blind s w, count_residual_blind blind ss (g.fetch_positions_hedge s w).0) (omega arith)

  close_everything_blind :
      IsBlind
      → (symbols : List String) (w : W)
      → let r = close_everything g symbols w in
        (r.1.status ≡ completed)
        × (r.1.unclosed_count ≡ 0)
        × (r.1.market_exits_placed ≡ [])
        × (r.0 ≡ asked symbols (asked symbols (g.sleep_half (asked symbols w))))
  unfolding close_everything place_exits second_pass
  close_everything_blind blind symbols w =
      let w2 = (place_exits g (fetch_open g symbols w).1 (fetch_open g symbols w).0).0 in
      let (w3, residual) = fetch_open g symbols (g.sleep_half w2) in
      let none_left = count_residual_blind blind symbols (second_pass g residual w3) in
      let rested = g.sleep_half (asked symbols w) in
      (
        rw none_left refl,
        none_left,
        rw (fetch_open_blind blind symbols w) refl,
        rw
            (
              fetch_open_blind blind symbols w,
              fetch_open-asked symbols w,
              fetch_open_blind blind symbols rested,
              fetch_open-asked symbols rested,
            )
            (count_residual-asked symbols (asked symbols rested)),
      )

  -- Where no fetch of positions is answered, the kill sends no exit in either pass: after the workers are stopped
  -- and the symbols' orders cancelled, it only fetches the positions of every symbol three times, with a pause
  -- after the first. It still reports that it is completed with nothing unclosed, whatever the exchange holds.
  pub emergency_kill_all_blind :
      (v : Venue W F) (m : Manager W F)
      → IsBlind
      → v.is_connected (stop_all v m).world ≡ true
      → let r = emergency_kill_all v g m in
        let symbols = keys (stop_all v m).workers in
        let w = cancel_all g symbols (stop_all v m).world in
        (r.1.status ≡ completed)
        × (r.1.unclosed_count ≡ 0)
        × (r.1.market_exits_placed ≡ [])
        × (r.0.world ≡ asked symbols (asked symbols (g.sleep_half (asked symbols w))))
  unfolding emergency_kill_all
  emergency_kill_all_blind v m blind up =
      let symbols = keys (stop_all v m).workers in
      rw up (close_everything_blind blind symbols (cancel_all g symbols (stop_all v m).world))
