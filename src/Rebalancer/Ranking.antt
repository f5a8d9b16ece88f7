-- ===== src/Rebalancer/Ranking.antt =====
-- The state of a rebalancing cycle (app/core/pair_rebalancer.py), its log of events, and its tests on ranks and
-- scores.
use pmm_simple.Prelude.{
  ℕ, ◌&&◌, ◌++◌, Bool, true, false, not, Option, none, some, List, [], ◌∷◌, String, ltb, leb,
  length, get_elem?, if◌then◌else◌,
}
use Prim.Native.Nat.{◌-◌ as sub_ℕ}
use text.Mathlib.Text.{◌==◌ as str_eq}
use pmm_simple.Float.{Float, ◌-◌, ◌/◌, nought, one, lit, le, max}
use pmm_simple.Manager.Pairs.{Pair}
use pmm_simple.Manager.{Manager}

-- What the cycle reads of a `MarketMetric`.
pub record MarketMetric (F : Type 0) : Type 0 where
  pub symbol : String
  pub pmm_score : F
  pub natr_14 : F
  pub rank : ℕ

pub record RebalancerConfig (F : Type 0) : Type 0 where
  pub max_active_pairs : ℕ
  pub rank_threshold : ℕ
  pub score_delta_threshold_pct : F
  pub total_margin_budget_usdt : F

pub data Action : Type 0 where
  add drain retire retain : Action

pub record RebalanceEvent (F : Type 0) : Type 0 where
  pub timestamp : F
  pub action : Action
  pub symbol : String
  pub score : F
  pub rank : ℕ

pub record Summary : Type 0 where
  pub retired_pairs : List String
  pub draining_pairs : List String
  pub retained_pairs : List String
  pub added_pairs : List String
  pub total_candidates : ℕ

-- The manager, the log of events, and the summary of the cycle so far.
pub record Cycle (W F : Type 0) : Type 0 where
  pub manager : Manager W F
  pub events : List (RebalanceEvent F)
  pub summary : Summary

-- The screener's scan of the market: all pairs with their scores, the best first.
pub record Scanner (W F : Type 0) : Type 0 where
  pub scan_and_rank_all_pairs : W → W × List (MarketMetric F)

abbrev pub max_events : ℕ
max_events = 200

abbrev pub without_first {ℓ} : {A : Type ℓ} → List A → List A
without_first [] = []
without_first (x ∷ xs) = xs

module _ {F : Type 0} where
  -- `add_event`: the log keeps the last 200.
  unfoldable pub add_event : RebalanceEvent F → List (RebalanceEvent F) → List (RebalanceEvent F)
  add_event e events =
      let grown = events ++ (e ∷ []) in
      if ltb max_events (length grown) then without_first grown else grown

  -- The dict of the candidates by symbol, in which the last of a symbol stays.
  unfoldable pub find_metric : String → List (MarketMetric F) → Option (MarketMetric F)
  find_metric symbol [] = none
  find_metric symbol (c ∷ cs) = elim (find_metric symbol cs) [
    | some d ↦ some d
    | none ↦ if str_eq c.symbol symbol then some c else none
  ]

  abbrev pub rank_of : Option (MarketMetric F) → ℕ
  rank_of none = 999
  rank_of (some c) = c.rank

module _ {F : Type 0} ⦃f : Float F⦄ where
  abbrev pub score_of : Option (MarketMetric F) → F
  score_of none = nought
  score_of (some c) = c.pmm_score

  -- The candidate of the last slot beats the score by the threshold.
  unfoldable pub is_outscored : RebalancerConfig F → F → Option (MarketMetric F) → Bool
  is_outscored c score none = false
  is_outscored c score (some cutoff) =
      le c.score_delta_threshold_pct ((cutoff.pmm_score - score) / max one score)

  -- `candidates[max_active_pairs - 1]`: an index of -1 is the last.
  abbrev cutoff_index : RebalancerConfig F → List (MarketMetric F) → ℕ
  cutoff_index c candidates =
      sub_ℕ (if ltb 0 c.max_active_pairs then c.max_active_pairs else length candidates) 1

  -- Beyond the rank buffer, or inside it and outscored.
  unfoldable pub should_drain : RebalancerConfig F → List (MarketMetric F) → ℕ → F → Bool
  unfolding is_outscored
  should_drain c candidates rank score =
      if ltb c.rank_threshold rank
      then true
      else if ltb c.max_active_pairs rank
      then leb c.max_active_pairs (length candidates)
        && is_outscored c score (get_elem? candidates (cutoff_index c candidates))
      else false

  abbrev pub is_demoted : RebalancerConfig F → List (MarketMetric F) → String → Bool
  is_demoted c candidates symbol =
      let metric = find_metric symbol candidates in
      should_drain c candidates (rank_of metric) (score_of metric)

  abbrev pub event : F → Action → String → Option (MarketMetric F) → RebalanceEvent F
  event now action symbol metric = record {
    timestamp = now;
    action = action;
    symbol = symbol;
    score = score_of metric;
    rank = rank_of metric;
  }

  -- `total_margin_budget_usdt / max(1, max_active_pairs)`
  abbrev pub per_pair_margin : RebalancerConfig F → F
  per_pair_margin c =
      c.total_margin_budget_usdt
      / lit (if ltb 1 c.max_active_pairs then c.max_active_pairs else 1) 0

module _ {W F : Type 0} where
  -- A pair that is on and not on its way out.
  abbrev pub is_incumbent : Pair W F → Bool
  is_incumbent p = p.state.config.enabled && not p.state.is_draining

  unfoldable pub incumbents : List (Pair W F) → List String
  incumbents [] = []
  incumbents (p ∷ ps) = let rest = incumbents ps in if is_incumbent p then p.key ∷ rest else rest
