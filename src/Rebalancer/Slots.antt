-- ===== src/Rebalancer/Slots.antt =====
-- A rebalance cycle does not take more slots than there are (app/core/pair_rebalancer.py,
-- `execute_rebalance_cycle`).
use pmm_simple.Prelude.{
  ℕ, zero, suc, ◌+◌, ◌≤◌, ◌≡◌, refl, ◌&&◌, ◌||◌, Bool, true, false, not, Option, none, some, List,
  [], ◌∷◌, String, if◌then◌else◌, if_cases, arith,
}
use Prim.Native.Nat.{◌-◌ as sub_ℕ}
use pmm_simple.Float.{Float}
use pmm_simple.Worker.State.{Worker, WorkerState, cancel_active_quotes}
use pmm_simple.Worker.Lifecycle.{Startup, is_flat, set_drain_mode, stop}
use pmm_simple.Manager.Pairs.{Pair, find_pair, keys}
use pmm_simple.Manager.{
  Venue, Manager, for_pair, command, set_enabled, disable_and_stop, stop_pair,
  register_dynamic_pair,
}
use pmm_simple.Rebalancer.{
  count_occupied, retire_pair, retire_if_flat, retire_flat, drain_pair, retain_pair,
  drain_or_retain, evaluate, is_taken, settle_promotion, chosen_config, promote_one, promote,
  reshuffle, new_cycle, scanned, execute_rebalance_cycle,
}
use pmm_simple.Rebalancer.Ranking.{
  MarketMetric, RebalancerConfig, Cycle, Scanner, RebalanceEvent, find_metric, incumbents,
  is_demoted,
}
use pmm_simple.Rebalancer.Counting.{slots_of, count-with_pair_le, count-register}

drained_bools :
    (on draining flat : Bool)
    → let after : ℕ = if on && (not true || not flat) then 1 else 0 in
      let before : ℕ = if on && (not draining || not flat) then 1 else 0 in after ≤ before
drained_bools false draining flat = omega arith
drained_bools true false false = omega arith
drained_bools true false true = omega arith
drained_bools true true flat = omega arith

module _ {W F : Type 0} ⦃f : Float F⦄ where
  -- The slots that a cycle's manager has taken.
  abbrev pub taken : Cycle W F → ℕ
  taken s = count_occupied s.manager.workers

  -- A worker that is stopped and off takes no slot.
  slots-disable_and_stop :
      (v : Venue W F) (x : Worker W F) (s : WorkerState W F)
      → slots_of (disable_and_stop v x s) ≤ slots_of s
  unfolding disable_and_stop stop set_enabled cancel_active_quotes
  slots-disable_and_stop v x s = omega arith

  slots-set_drain_mode :
      (y : Startup W F) (s : WorkerState W F) → slots_of (set_drain_mode y true s) ≤ slots_of s
  unfolding set_drain_mode is_flat
  slots-set_drain_mode y s = drained_bools s.config.enabled s.is_draining (is_flat s)

  taken-retire_if_flat :
      (v : Venue W F) (symbol : String) (known : Option (Pair W F)) (s : Cycle W F)
      → taken (retire_if_flat v symbol known s) ≤ taken s
  unfolding retire_if_flat retire_pair stop_pair command for_pair
  taken-retire_if_flat v symbol none s = omega arith
  taken-retire_if_flat v symbol (some p) s =
      let fewer =
        count-with_pair_le symbol (disable_and_stop v) (slots-disable_and_stop v) s.manager.workers
          s.manager.world in
      if_cases (λ r. taken r ≤ taken s) (p.state.is_draining && is_flat p.state)
        (retire_pair v symbol s) s (λ h. fewer) (λ h. omega arith)

  taken-retire_flat :
      (v : Venue W F) (symbols : List String) (s : Cycle W F)
      → taken (retire_flat v symbols s) ≤ taken s
  unfolding retire_flat
  taken-retire_flat v [] s = omega arith
  taken-retire_flat v (symbol ∷ rest) s =
      let known = find_pair symbol s.manager.workers in
      omega (
        arith,
        taken-retire_if_flat v symbol known s,
        taken-retire_flat v rest (retire_if_flat v symbol known s),
      )

  module _ (v : Venue W F) (c : RebalancerConfig F) where
    taken-drain_or_retain :
        (candidates : List (MarketMetric F)) (symbol : String) (s : Cycle W F)
        → taken (drain_or_retain v c candidates symbol s) ≤ taken s
    unfolding drain_or_retain drain_pair retain_pair for_pair
    taken-drain_or_retain candidates symbol s =
        let fewer =
          count-with_pair_le symbol (λ x. set_drain_mode v.startup true)
            (λ x. slots-set_drain_mode v.startup) s.manager.workers s.manager.world in
        let metric = find_metric symbol candidates in
        if_cases (λ r. taken r ≤ taken s) (is_demoted c candidates symbol)
          (drain_pair v symbol metric s) (retain_pair v symbol metric s) (λ h. fewer)
          (λ h. omega arith)

    taken-evaluate :
        (candidates : List (MarketMetric F)) (symbols : List String) (s : Cycle W F)
        → taken (evaluate v c candidates symbols s) ≤ taken s
    unfolding evaluate
    taken-evaluate candidates [] s = omega arith
    taken-evaluate candidates (symbol ∷ rest) s = omega (
      arith,
      taken-drain_or_retain candidates symbol s,
      taken-evaluate candidates rest (drain_or_retain v c candidates symbol s),
    )

    -- What the promotions take comes from the slots left.
    IsPaid : Cycle W F → ℕ → Cycle W F × ℕ → Type 0
    IsPaid s left r = taken (r.0) + r.1 ≤ taken s + left

    settle_promotion-IsPaid :
        (cand : MarketMetric F) (left : ℕ) (r : Manager W F × Bool) (s : Cycle W F)
        → count_occupied r.0.workers ≤ taken s + 1
        → (r.1 ≡ false → count_occupied r.0.workers ≤ taken s)
        → IsPaid s (suc left) (settle_promotion v cand left r s)
    unfolding IsPaid
    settle_promotion-IsPaid cand left (m, false) s h k = let same = k refl in omega arith
    settle_promotion-IsPaid cand left (m, true) s h k = omega arith

    promote_one-IsPaid :
        (cand : MarketMetric F) (s : Cycle W F) (left : ℕ)
        → IsPaid s left (promote_one v c cand s left)
    unfolding promote_one IsPaid
    promote_one-IsPaid cand s zero = omega arith
    promote_one-IsPaid cand s (suc left) =
        let chosen = chosen_config v c cand s.manager.world in
        let r = register_dynamic_pair v chosen s.manager in
        let counted = count-register v chosen s.manager in
        if_cases (IsPaid s (suc left)) (is_taken (find_pair cand.symbol s.manager.workers))
          (s, suc left) (settle_promotion v cand left r s) (λ h. omega arith)
          (λ h. settle_promotion-IsPaid cand left r s counted.0 counted.1)

    taken-promote :
        (candidates : List (MarketMetric F)) (s : Cycle W F) (left : ℕ)
        → taken (promote v c candidates s left) ≤ taken s + left
    unfolding promote IsPaid
    taken-promote [] s left = omega arith
    taken-promote (cand ∷ rest) s left =
        let next = promote_one v c cand s left in
        let paid = promote_one-IsPaid cand s left in
        omega (arith, taken-promote rest (next.0) (next.1))

    taken-reshuffle :
        (candidates : List (MarketMetric F)) (s : Cycle W F)
        → taken s ≤ c.max_active_pairs
        → taken (reshuffle v c candidates s) ≤ c.max_active_pairs
    unfolding reshuffle
    taken-reshuffle [] s h = h
    taken-reshuffle (cand ∷ rest) s h =
        let judged = evaluate v c (cand ∷ rest) (incumbents s.manager.workers) s in
        let left = sub_ℕ c.max_active_pairs (taken judged) in
        omega (
          arith,
          taken-evaluate (cand ∷ rest) (incumbents s.manager.workers) s,
          taken-promote (cand ∷ rest) judged left,
        )

    -- If the pairs take no more slots than `max_active_pairs` before a cycle, they take no more after it,
    -- whatever the screener answers: the promotions take only slots that are free after the retirements and the
    -- drains, and a pair counts until it is retired or drained and flat.
    pub execute_rebalance_cycle_slots :
        (scanner : Scanner W F) (events : List (RebalanceEvent F)) (m : Manager W F)
        → count_occupied m.workers ≤ c.max_active_pairs
        → taken (execute_rebalance_cycle v c scanner events m) ≤ c.max_active_pairs
    unfolding execute_rebalance_cycle
    execute_rebalance_cycle_slots scanner events m h =
        let retired = retire_flat v (keys m.workers) (new_cycle m events) in
        let fewer = taken-retire_flat v (keys m.workers) (new_cycle m events) in
        let (s, candidates) = scanned scanner retired in
        if_cases (λ r. taken r ≤ c.max_active_pairs) (v.is_connected m.world)
          (reshuffle v c candidates s) (new_cycle m events)
          (λ up. taken-reshuffle candidates s (omega arith)) (λ down. h)
