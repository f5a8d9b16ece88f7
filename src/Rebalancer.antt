-- ===== src/Rebalancer.antt =====
-- app/core/pair_rebalancer.py: which pairs trade. A cycle retires the drained pairs, drains those that fell in the
-- ranking, and promotes candidates of the screener into the free slots.
pub mod Ranking
pub mod Parameters
pub mod Counting
pub mod Slots
pub mod Portfolio
mod Tests
use pmm_simple.Prelude.{
  ℕ, zero, suc, ◌+◌, ◌&&◌, ◌||◌, ◌++◌, Bool, true, false, not, Option, none, some, List, [], ◌∷◌,
  String, length, if◌then◌else◌,
}
use Prim.Native.Nat.{◌-◌ as sub_ℕ}
use pmm_simple.Float.{Float, ◌-◌, nought, one, lit, lt}
use pmm_simple.Models.Config.{PairConfig}
use pmm_simple.Worker.State.{WorkerState}
use pmm_simple.Worker.Lifecycle.{is_flat, set_drain_mode}
use pmm_simple.Manager.Pairs.{Pair, find_pair, keys}
use pmm_simple.Manager.{Venue, Manager, for_pair, stop_pair, register_dynamic_pair}
use pmm_simple.Rebalancer.Parameters.{compute_vamm_parameters, promoted_config}
use pmm_simple.Rebalancer.Ranking.{
  Cycle, MarketMetric, RebalanceEvent, RebalancerConfig, Scanner, add, add_event, drain, event,
  find_metric, incumbents, is_demoted, is_incumbent, per_pair_margin, retain, retire,
}

module _ {W F : Type 0} ⦃f : Float F⦄ where
  -- A slot is taken until a draining pair is flat.
  abbrev pub is_occupying : WorkerState W F → Bool
  is_occupying s = s.config.enabled && (not s.is_draining || not (is_flat s))

  unfoldable pub count_occupied : List (Pair W F) → ℕ
  count_occupied [] = 0
  count_occupied (p ∷ ps) = (if is_occupying p.state then 1 else 0) + count_occupied ps

  -- The pair is stopped, and the retirement logged.
  unfoldable pub retire_pair : Venue W F → String → Cycle W F → Cycle W F
  retire_pair v symbol s =
      let stopped = (stop_pair v symbol s.manager).0 in
      record {
        manager = stopped;
        events =
            add_event (record (event (v.time stopped.world) retire symbol none) { rank = 0 })
              s.events;
        summary = record (s.summary) { retired_pairs = s.summary.retired_pairs ++ (symbol ∷ []) };
      }

  -- Step 1 for one symbol.
  unfoldable pub retire_if_flat : Venue W F → String → Option (Pair W F) → Cycle W F → Cycle W F
  retire_if_flat v symbol none s = s
  retire_if_flat v symbol (some p) s =
      if p.state.is_draining && is_flat p.state then retire_pair v symbol s else s

  unfoldable pub retire_flat : Venue W F → List String → Cycle W F → Cycle W F
  retire_flat v [] s = s
  retire_flat v (symbol ∷ rest) s =
      retire_flat v rest (retire_if_flat v symbol (find_pair symbol s.manager.workers) s)

  unfoldable pub drain_pair : Venue W F → String → Option (MarketMetric F) → Cycle W F → Cycle W F
  drain_pair v symbol metric s = record {
    manager = for_pair symbol (λ x. set_drain_mode v.startup true) s.manager;
    events = add_event (event (v.time s.manager.world) drain symbol metric) s.events;
    summary = record (s.summary) { draining_pairs = s.summary.draining_pairs ++ (symbol ∷ []) };
  }

  unfoldable pub retain_pair : Venue W F → String → Option (MarketMetric F) → Cycle W F → Cycle W F
  retain_pair v symbol metric s = record s {
    events = add_event (event (v.time s.manager.world) retain symbol metric) s.events;
    summary = record (s.summary) { retained_pairs = s.summary.retained_pairs ++ (symbol ∷ []) };
  }

  -- Step 3 for one incumbent.
  unfoldable pub drain_or_retain :
      Venue W F → RebalancerConfig F → List (MarketMetric F) → String → Cycle W F → Cycle W F
  drain_or_retain v c candidates symbol s =
      if is_demoted c candidates symbol
      then drain_pair v symbol (find_metric symbol candidates) s
      else retain_pair v symbol (find_metric symbol candidates) s

  unfoldable pub evaluate :
      Venue W F → RebalancerConfig F → List (MarketMetric F) → List String → Cycle W F → Cycle W F
  evaluate v c candidates [] s = s
  evaluate v c candidates (symbol ∷ rest) s =
      evaluate v c candidates rest (drain_or_retain v c candidates symbol s)

  abbrev pub is_taken : Option (Pair W F) → Bool
  is_taken none = false
  is_taken (some p) = is_incumbent p

  abbrev pub settle_promotion :
      Venue W F → MarketMetric F → ℕ → Manager W F × Bool → Cycle W F → Cycle W F × ℕ
  settle_promotion v cand left (m, false) s = (record s { manager = m }, suc left)
  settle_promotion v cand left (m, true) s = (
    record {
      manager = m;
      events = add_event (event (v.time m.world) add cand.symbol (some cand)) s.events;
      summary = record (s.summary) { added_pairs = s.summary.added_pairs ++ (cand.symbol ∷ []) };
    },
    left,
  )

  -- The configuration that a promotion gives the candidate.
  unfoldable pub chosen_config : Venue W F → RebalancerConfig F → MarketMetric F → W → PairConfig F
  chosen_config v c cand w =
      let natr = if lt nought cand.natr_14 then cand.natr_14 else lit 12 1 in
      let params = compute_vamm_parameters natr (per_pair_margin c) 5 3 in
      promoted_config cand.symbol params (v.load_pair_config cand.symbol w)

  -- Step 4 for one candidate and the slots left.
  unfoldable pub promote_one :
      Venue W F → RebalancerConfig F → MarketMetric F → Cycle W F → ℕ → Cycle W F × ℕ
  promote_one v c cand s zero = (s, zero)
  promote_one v c cand s (suc left) =
      let chosen = chosen_config v c cand s.manager.world in
      if is_taken (find_pair cand.symbol s.manager.workers)
      then (s, suc left)
      else settle_promotion v cand left (register_dynamic_pair v chosen s.manager) s

  unfoldable pub promote :
      Venue W F → RebalancerConfig F → List (MarketMetric F) → Cycle W F → ℕ → Cycle W F
  promote v c [] s left = s
  promote v c (cand ∷ rest) s left =
      let (s', left') = promote_one v c cand s left in promote v c rest s' left'

  -- Steps 3 and 4 on the candidates of the screener.
  unfoldable pub reshuffle :
      Venue W F → RebalancerConfig F → List (MarketMetric F) → Cycle W F → Cycle W F
  reshuffle v c [] s = s
  reshuffle v c (cand ∷ rest) s =
      let candidates = cand ∷ rest in
      let judged = evaluate v c candidates (incumbents s.manager.workers) s in
      promote v c candidates judged
        (sub_ℕ c.max_active_pairs (count_occupied judged.manager.workers))

  abbrev pub new_cycle : Manager W F → List (RebalanceEvent F) → Cycle W F
  new_cycle m events = record {
    manager = m;
    events = events;
    summary = record {
      retired_pairs = [];
      draining_pairs = [];
      retained_pairs = [];
      added_pairs = [];
      total_candidates = 0;
    };
  }

  -- The scan, after the retirements.
  abbrev pub scanned : Scanner W F → Cycle W F → Cycle W F × List (MarketMetric F)
  scanned scanner s =
      let (w, candidates) = scanner.scan_and_rank_all_pairs s.manager.world in
      (
        record s {
          manager = record (s.manager) { world = w };
          summary = record (s.summary) { total_candidates = length candidates };
        },
        candidates,
      )

  unfoldable pub execute_rebalance_cycle :
      Venue W F
      → RebalancerConfig F
      → Scanner W F
      → List (RebalanceEvent F)
      → Manager W F
      → Cycle W F
  execute_rebalance_cycle v c scanner events m =
      let retired = retire_flat v (keys m.workers) (new_cycle m events) in
      let (s, candidates) = scanned scanner retired in
      if v.is_connected m.world then reshuffle v c candidates s else new_cycle m events
