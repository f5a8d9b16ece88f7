-- ===== src/Rebalancer/Counting.antt =====
-- How the steps of the manager change the number of taken slots (app/core/pair_rebalancer.py, step 4 of
-- `execute_rebalance_cycle`).
use pmm_simple.Prelude.{
  ℕ, ◌+◌, ◌≤◌, ◌≡◌, refl, ap, Bool, true, false, not, Option, none, some, List, [], ◌∷◌, String,
  Bool-cases, inl, inr, if◌then◌else◌, if_cases, arith,
}
use text.Mathlib.Text.{◌==◌ as str_eq}
use text.Mathlib.TextEquality.{eq_iff}
use pmm_simple.Float.{Float}
use pmm_simple.Models.Config.{PairConfig}
use pmm_simple.Worker.State.{Worker, WorkerState}
use pmm_simple.Worker.Lifecycle.{is_flat, set_drain_mode, start}
use pmm_simple.Manager.Pairs.{Pair, find_pair, put_pair, in_world, step_pair, with_pair}
use pmm_simple.Manager.{Venue, Manager, for_pair, adopt, new_pair, register_dynamic_pair}
use pmm_simple.Rebalancer.{is_occupying, count_occupied}

module _ {W F : Type 0} where
  -- Two steps of the same pair, one after the other, are one.
  with_pair_twice :
      (symbol : String) (g h : Worker W F → WorkerState W F → WorkerState W F)
      → (ps : List (Pair W F)) (w : W)
      → let r = with_pair symbol h ps w in
        with_pair symbol g r.1 r.0 ≡ with_pair symbol (λ x s. g x (h x s)) ps w
  unfolding with_pair
  with_pair_twice symbol g h [] w = refl
  with_pair_twice symbol g h (p ∷ ps) w = elim (Bool-cases (str_eq p.key symbol)) [
    | inl same ↦ rw (same, same) refl
    | inr other ↦
        rw (other, other)
          (ap (λ (r : W × List (Pair W F)). (r.0, p ∷ r.1)) (with_pair_twice symbol g h ps w))
  ]

  absent_head :
      (symbol : String) (p : Pair W F) (ps : List (Pair W F))
      → find_pair symbol (p ∷ ps) ≡ none
      → (str_eq p.key symbol ≡ false) × (find_pair symbol ps ≡ none)
  unfolding find_pair
  absent_head symbol p ps h = elim (Bool-cases (str_eq p.key symbol)) [
    | inl same ↦ let found : some p ≡ none = rw same at h in cc
    | inr other ↦ (other, rw other at h)
  ]

  -- A step of a pair that was put under a new key.
  with_pair-put_pair :
      (step : Worker W F → WorkerState W F → WorkerState W F)
      → (q : Pair W F) (ps : List (Pair W F)) (w : W) → find_pair q.key ps ≡ none
      → (with_pair q.key step (put_pair q ps) w).1 ≡ put_pair (step_pair step w q).1 ps
  unfolding with_pair put_pair step_pair
  with_pair-put_pair step q [] w h = rw ((eq_iff q.key q.key).1 refl) refl
  with_pair-put_pair step q (p ∷ ps) w h =
      let (other, rest) = absent_head q.key p ps h in
      rw (other, other) (ap (λ qs. p ∷ qs) (with_pair-put_pair step q ps w rest))

module _ {W F : Type 0} ⦃f : Float F⦄ where
  abbrev pub slots_of : WorkerState W F → ℕ
  slots_of s = if is_occupying s then 1 else 0

  slots_of_bounds : (s : WorkerState W F) → slots_of s ≤ 1
  slots_of_bounds s =
      if_cases (λ n. n ≤ 1) (is_occupying s) 1 0 (λ h. omega arith) (λ h. omega arith)

  -- A step that takes no slot lets the count not grow.
  pub count-with_pair_le :
      (symbol : String) (step : Worker W F → WorkerState W F → WorkerState W F)
      → ((x : Worker W F) (s : WorkerState W F) → slots_of (step x s) ≤ slots_of s)
      → (ps : List (Pair W F)) (w : W)
      → count_occupied (with_pair symbol step ps w).1 ≤ count_occupied ps
  unfolding count_occupied with_pair is_flat
  count-with_pair_le symbol step h [] w = omega arith
  count-with_pair_le symbol step h (p ∷ ps) w = elim (Bool-cases (str_eq p.key symbol)) [
    | inl same ↦ rw same (let one = h p.worker (in_world w p.state) in omega arith)
    | inr other ↦ rw other (omega (arith, count-with_pair_le symbol step h ps w))
  ]

  -- Any step of one pair takes at most one slot more.
  count-with_pair :
      (symbol : String) (step : Worker W F → WorkerState W F → WorkerState W F)
      → (ps : List (Pair W F)) (w : W)
      → count_occupied (with_pair symbol step ps w).1 ≤ count_occupied ps + 1
  unfolding count_occupied with_pair step_pair
  count-with_pair symbol step [] w = omega arith
  count-with_pair symbol step (p ∷ ps) w = elim (Bool-cases (str_eq p.key symbol)) [
    | inl same ↦
        rw same (let one = slots_of_bounds (step p.worker (in_world w p.state)) in omega arith)
    | inr other ↦ rw other (omega (arith, count-with_pair symbol step ps w))
  ]

  count-put_pair :
      (q : Pair W F) (ps : List (Pair W F))
      → find_pair q.key ps ≡ none
      → count_occupied (put_pair q ps) ≤ count_occupied ps + 1
  unfolding count_occupied put_pair
  count-put_pair q [] h = let one = slots_of_bounds q.state in omega arith
  count-put_pair q (p ∷ ps) h =
      let (other, rest) = absent_head q.key p ps h in
      rw other (omega (arith, count-put_pair q ps rest))

  module _ (v : Venue W F) (c : PairConfig F) where
    count-adopt :
        (known : Option (Pair W F)) (m : Manager W F)
        → find_pair c.symbol m.workers ≡ known
        → count_occupied (adopt v c known m).workers ≤ count_occupied m.workers + 1
    unfolding adopt for_pair
    count-adopt none m h = count-put_pair (new_pair v c.symbol c m.world) m.workers h
    count-adopt (some p) m h =
        count-with_pair c.symbol (λ x s. set_drain_mode v.startup false (record s { config = c }))
          m.workers m.world

    count-adopt_step :
        (step : Worker W F → WorkerState W F → WorkerState W F)
        → (known : Option (Pair W F)) (m : Manager W F) → find_pair c.symbol m.workers ≡ known
        → count_occupied (for_pair c.symbol step (adopt v c known m)).workers
          ≤ count_occupied m.workers + 1
    unfolding adopt for_pair
    count-adopt_step step none m h =
        let q = new_pair v c.symbol c m.world in
        rw (with_pair-put_pair step q m.workers m.world h)
          (count-put_pair (step_pair step m.world q).1 m.workers h)
    count-adopt_step step (some p) m h =
        let drain = λ (x : Worker W F) (s : WorkerState W F).
          set_drain_mode v.startup false (record s { config = c }) in
        rw (with_pair_twice c.symbol step drain m.workers m.world)
          (count-with_pair c.symbol (λ x s. step x (drain x s)) m.workers m.world)

    -- A registration takes at most one slot more, and none where it is refused.
    pub count-register :
        (m : Manager W F)
        → let r = register_dynamic_pair v c m in
          (count_occupied r.0.workers ≤ count_occupied m.workers + 1)
          × (r.1 ≡ false → count_occupied r.0.workers ≤ count_occupied m.workers)
    unfolding register_dynamic_pair
    count-register m =
        let saved : Manager W F = record m { world = v.save_pair_config c m.world } in
        let known = find_pair c.symbol saved.workers in
        let adopted = adopt v c known saved in
        let up : Worker W F → WorkerState W F → WorkerState W F = λ x. start x v.startup in
        let refused : Manager W F × Bool = (saved, false) in
        let started : Manager W F × Bool = (for_pair c.symbol up adopted, true) in
        let kept : Manager W F × Bool = (adopted, true) in
        if_cases IsCounted (not (v.is_connected saved.world)) refused
          (if c.enabled then started else kept) (λ h. (omega arith, λ e. omega arith))
          λ h.
            if_cases IsCounted c.enabled started kept
              (λ h'. (count-adopt_step up known saved refl, λ e. cc))
              (λ h'. (count-adopt known saved refl, λ e. cc))
      where
        IsCounted : Manager W F × Bool → Type 0
        IsCounted r =
            (count_occupied r.0.workers ≤ count_occupied m.workers + 1)
            × (r.1 ≡ false → count_occupied r.0.workers ≤ count_occupied m.workers)
