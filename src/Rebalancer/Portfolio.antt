-- ===== src/Rebalancer/Portfolio.antt =====
-- Which incumbents a cycle drains, and which it retains (app/core/pair_rebalancer.py, step 3 of
-- `execute_rebalance_cycle`).
use pmm_simple.Prelude.{
  ℕ, ◌≤◌, ◌<◌, ◌≡◌, refl, sym, ◌∙◌, ◌++◌, Bool, true, false, not, List, [], ◌∷◌, String, if_cases,
  if◌then◌else◌, arith,
}
use mathlib.Core.List.{append_assoc, append-nil}
use pmm_simple.Float.{Float}
use pmm_simple.Manager.{Venue}
use pmm_simple.Rebalancer.{drain_pair, retain_pair, drain_or_retain, evaluate}
use pmm_simple.Rebalancer.Ranking.{
  MarketMetric, RebalancerConfig, Cycle, Summary, find_metric, is_demoted, should_drain,
}

module _ {ℓ} {A : Type ℓ} where
  -- The elements that pass a test, in their order.
  abbrev pub pick : (A → Bool) → List A → List A
  pick test [] = []
  pick test (x ∷ xs) = let rest = pick test xs in if test x then x ∷ rest else rest

module _ {W F : Type 0} ⦃f : Float F⦄ (v : Venue W F) (c : RebalancerConfig F) where
  module _ (candidates : List (MarketMetric F)) where
    abbrev test : String → Bool
    test = is_demoted c candidates

    abbrev other : String → Bool
    other k = not (is_demoted c candidates k)

    -- The lists of a summary after the symbols, from a summary before them.
    abbrev pub IsSplit : List String → Summary → Summary → Type 0
    IsSplit symbols s r =
        (r.draining_pairs ≡ s.draining_pairs ++ pick test symbols)
        × (r.retained_pairs ≡ s.retained_pairs ++ pick other symbols)
        × (r.retired_pairs ≡ s.retired_pairs)
        × (r.added_pairs ≡ s.added_pairs)

    -- The incumbents are split by one test: those that fell in the ranking are drained, all others are
    -- retained, each list in the order of the incumbents and after what it held.
    pub evaluate_splits :
        (symbols : List String) (s : Cycle W F)
        → IsSplit symbols s.summary (evaluate v c candidates symbols s).summary
    unfolding evaluate drain_or_retain drain_pair retain_pair
    evaluate_splits [] s = (
      sym (append-nil s.summary.draining_pairs),
      sym (append-nil s.summary.retained_pairs),
      refl,
      refl,
    )
    evaluate_splits (symbol ∷ rest) s =
        let metric = find_metric symbol candidates in
        let gone = drain_pair v symbol metric s in
        let stays = retain_pair v symbol metric s in
        if_cases (λ t. IsSplit (symbol ∷ rest) s.summary (evaluate v c candidates rest t).summary)
          (is_demoted c candidates symbol) gone stays
          (λ fell.
            let ih = evaluate_splits rest gone in
            rw fell (
              ih.0 ∙ append_assoc s.summary.draining_pairs (symbol ∷ []) (pick test rest),
              ih.1,
              ih.2,
              ih.3,
            ))
          λ kept.
            let ih = evaluate_splits rest stays in
            rw kept (
              ih.0,
              ih.1 ∙ append_assoc s.summary.retained_pairs (symbol ∷ []) (pick other rest),
              ih.2,
              ih.3,
            )

module _ {F : Type 0} ⦃f : Float F⦄ (c : RebalancerConfig F) where
  -- Inside the slots an incumbent is safe; beyond the rank buffer it is drained.
  pub should_drain_buffer :
      (candidates : List (MarketMetric F)) (rank : ℕ) (score : F)
      → (rank ≤ c.max_active_pairs
          → rank ≤ c.rank_threshold
          → should_drain c candidates rank score ≡ false)
        × (c.rank_threshold < rank → should_drain c candidates rank score ≡ true)
  unfolding should_drain
  should_drain_buffer candidates rank score = (λ h k. ground arith, λ h. ground arith)
