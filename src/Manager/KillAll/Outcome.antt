-- ===== src/Manager/KillAll/Outcome.antt =====
-- What the emergency kill leaves and reports, on every path (app/core/manager.py, `emergency_kill_all`).
use pmm_simple.Prelude.{
  ◌≡◌, refl, ap, ◌∙◌, false, List, [], ◌∷◌, ◌++◌, String, All, map, length, if_cases,
}
use pmm_simple.Float.{Float}
use pmm_simple.Worker.Start.{stop_stops}
use pmm_simple.Worker.Lifecycle.{stop}
use pmm_simple.Manager.Pairs.{keys, each-All, keys-each}
use pmm_simple.Manager.{Venue, Manager, for_each, stop_all}
use pmm_simple.Manager.KillAll.{
  KillGateway, OpenPosition, KillReport, market_exit, kill_prefix, stopped_only, place_exits,
  fetch_open, cancel_all, close_everything, emergency_kill_all,
}

module _ {W F : Type 0} where
  -- No worker runs.
  abbrev pub AreStopped : Manager W F → Type 0
  AreStopped m = All (λ p. p.state.running ≡ false) m.workers

  -- One exit was placed for each position, in their order.
  pub positions-place_exits :
      (g : KillGateway W F) (ps : List (OpenPosition F)) (w : W)
      → map (λ e. e.position) (place_exits g ps w).1 ≡ ps
  unfolding place_exits
  positions-place_exits g [] w = refl
  positions-place_exits g (p ∷ ps) w =
      ap (λ qs. p ∷ qs)
        (positions-place_exits g ps
          (g.create_exit_order (market_exit (kill_prefix p.side ++ g.millis w) p) w).0)

module _ {W F : Type 0} ⦃f : Float F⦄ where
  pub stop_all-AreStopped : (v : Venue W F) (m : Manager W F) → AreStopped (stop_all v m)
  unfolding stop_all for_each
  stop_all-AreStopped v m =
      each-All (λ s. s.running ≡ false) (λ x. stop x v.startup) (λ x s. stop_stops x v.startup s)
        m.workers m.world

  pub keys-stop_all :
      (v : Venue W F) (m : Manager W F) → keys (stop_all v m).workers ≡ keys m.workers
  unfolding stop_all for_each
  keys-stop_all v m = keys-each (λ x. stop x v.startup) m.workers m.world

  pub breaker-stop_all : (v : Venue W F) (m : Manager W F) → (stop_all v m).breaker ≡ m.breaker
  unfolding stop_all for_each
  breaker-stop_all v m = refl

  close_everything_placed :
      (g : KillGateway W F) (symbols : List String) (w : W)
      → let report = (close_everything g symbols w).1 in
        (map (λ e. e.position) report.market_exits_placed ≡ report.positions_found)
        × (report.stopped_workers ≡ length symbols)
  unfolding close_everything
  close_everything_placed g symbols w =
      let (w1, found) = fetch_open g symbols w in (positions-place_exits g found w1, refl)

  -- What a kill leaves of the manager, and reports, whether there is a gateway or not.
  pub record KillOutcome (v : Venue W F) (m : Manager W F) (r : Manager W F × KillReport F)
      : Type 0 where
    pub none_runs : AreStopped r.0
    pub same_pairs : keys r.0.workers ≡ keys m.workers
    pub same_breaker : r.0.breaker ≡ m.breaker
    pub all_counted : r.1.stopped_workers ≡ length (keys m.workers)
    pub exit_for_each : map (λ e. e.position) r.1.market_exits_placed ≡ r.1.positions_found
    pub no_gateway :
        v.is_connected (stop_all v m).world ≡ false
        → r ≡ (stop_all v m, stopped_only (length (keys m.workers)))

  -- After the emergency kill no worker runs, the pairs and the breaker are as before, every worker is counted as
  -- stopped, and the report lists one exit for each position found, in order. With no connected gateway only
  -- the workers were stopped, and the report says so.
  pub emergency_kill_all-KillOutcome :
      (v : Venue W F) (g : KillGateway W F) (m : Manager W F)
      → KillOutcome v m (emergency_kill_all v g m)
  unfolding emergency_kill_all
  emergency_kill_all-KillOutcome v g m =
      let stopped = stop_all v m in
      let symbols = keys stopped.workers in
      let closed = close_everything g symbols (cancel_all g symbols stopped.world) in
      let placed = close_everything_placed g symbols (cancel_all g symbols stopped.world) in
      let done : Manager W F × KillReport F = (record stopped { world = closed.0 }, closed.1) in
      let refused : Manager W F × KillReport F = (stopped, stopped_only (length symbols)) in
      let same = keys-stop_all v m in
      if_cases (KillOutcome v m) (v.is_connected stopped.world) done refused
        (λ up. record {
          none_runs = stop_all-AreStopped v m;
          same_pairs = same;
          same_breaker = breaker-stop_all v m;
          all_counted = placed.1 ∙ ap length same;
          exit_for_each = placed.0;
          no_gateway = λ down. cc;
        })
        λ down. record {
          none_runs = stop_all-AreStopped v m;
          same_pairs = same;
          same_breaker = breaker-stop_all v m;
          all_counted = ap length same;
          exit_for_each = refl;
          no_gateway = λ _. ap (λ ks. (stopped, stopped_only (length ks))) same;
        }
