-- ===== src/Rebalancer/Tests.antt =====
-- The rebalancer's decisions and theorems at sample inputs.
use pmm_simple.Prelude.{ℕ, ◌≤◌, ◌≡◌, refl, true, false, [], ◌∷◌, String, arith}
use pmm_simple.Float.Fixed.{Fixed, fixed_float}
use pmm_simple.Models.Samples.{units, mills}
use pmm_simple.Worker.Lifecycle.{new_worker_state}
use pmm_simple.Manager.Samples.{World, venue, holding}
use pmm_simple.Rebalancer.{count_occupied, execute_rebalance_cycle}
use pmm_simple.Rebalancer.Ranking.{MarketMetric, RebalancerConfig, Scanner, should_drain}
use pmm_simple.Rebalancer.Slots.{taken, execute_rebalance_cycle_slots}

abbrev config : RebalancerConfig Fixed
config = record {
  max_active_pairs = 5;
  rank_threshold = 7;
  score_delta_threshold_pct = mills 100;
  total_margin_budget_usdt = units 400;
}

abbrev metric : String → ℕ → ℕ → MarketMetric Fixed
metric symbol score rank = record {
  symbol = symbol;
  pmm_score = units score;
  natr_14 = units 1;
  rank = rank;
}

-- The pair of the sample has fallen to the eighth place.
abbrev scanner : Scanner World Fixed
scanner = record {
  scan_and_rank_all_pairs =
      λ w. (w, metric "BTC/USDT:USDT" 90 1 ∷ metric "SOL/USDT:USDT" 40 8 ∷ []);
}

beyond_buffer : should_drain config [] 8 (units 90) ≡ true
unfolding should_drain
beyond_buffer = refl

in_buffer : should_drain config [] 7 (units 90) ≡ false
unfolding should_drain
in_buffer = refl

one_taken : count_occupied holding.workers ≤ config.max_active_pairs
unfolding count_occupied new_worker_state
one_taken = omega arith

execute_rebalance_cycle_slots_example :
    taken (execute_rebalance_cycle venue config scanner [] holding) ≤ 5
execute_rebalance_cycle_slots_example =
    execute_rebalance_cycle_slots venue config scanner [] holding one_taken
