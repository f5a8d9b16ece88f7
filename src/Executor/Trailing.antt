-- ===== src/Executor/Trailing.antt =====
-- The dynamic trailing take profit (app/core/executor.py, section 4 of `check_runtime_barriers`) against its
-- description by the highest price since the activation.
use pmm_simple.Prelude.{
  ◌≡◌, refl, ap, sym, Bool, true, false, ◌↔◌, List, [], ◌∷◌, ◌++◌, arith, Bool-cases, inl, inr,
}
use pmm_simple.Float.{Float, ◌-◌, ◌*◌, one, le, max, ◌≼◌}
use pmm_simple.Models.State.{long}
use pmm_simple.Executor.State.{Executor, ExecutorState}
use pmm_simple.Executor.Runtime.{follow_trailing_tp, and_then}
use pmm_simple.Executor.Triggers.{callback_pct, follow_price, is_trailing_tp_hit}

module _ {F : Type 0} ⦃f : Float F⦄ where
  -- The highest of the prices and a first one.
  abbrev pub highest : F → List F → F
  highest m [] = m
  highest m (p ∷ ps) = highest (max m p) ps

  -- Some price is the callback below the highest price up to it.
  abbrev pub HasPullback : F → F → List F → Type 0
  HasPullback cb m ps =
      (before : List F) × (p : F) × (after : List F) × (ps ≡ before ++ (p ∷ after))
      × (p ≼ highest m (before ++ (p ∷ [])) * (one - cb))

  pullback_tail :
      (cb m p : F) (ps : List F)
      → le p (max m p * (one - cb)) ≡ false
      → HasPullback cb m (p ∷ ps)
      → HasPullback cb (max m p) ps
  pullback_tail cb m p ps miss ([], q, after, split, below) =
      absurd (ground (arith, miss, split, below))
  pullback_tail cb m p ps miss (b ∷ before, q, after, split, below) =
      let same : b ≡ p = cc in (before, q, after, cc, rw (sym same) below)

module _ {W F : Type 0} ⦃f : Float F⦄ where
  -- The trailing take profit over a run of prices, until it exits.
  abbrev pub follow_run : Executor W F → List F → ExecutorState W F → ExecutorState W F × Bool
  follow_run x [] s = (s, false)
  follow_run x (p ∷ ps) s = and_then (follow_trailing_tp x p s) (follow_run x ps)

  step_hit :
      (x : Executor W F) (p : F) (s : ExecutorState W F)
      → x.position_side ≡ long
      → s.barrier.trailing_tp_active ≡ true
      → p ≼ max s.barrier.peak_price p * (one - callback_pct x.config s.trailing_cb_override)
      → (follow_trailing_tp x p s).1 ≡ true
  unfolding follow_trailing_tp follow_price is_trailing_tp_hit
  step_hit x p s e a h = rw e (rw a (rw h refl))

  step_miss :
      (x : Executor W F) (p : F) (s : ExecutorState W F)
      → x.position_side ≡ long
      → s.barrier.trailing_tp_active ≡ true
      → le p (max s.barrier.peak_price p * (one - callback_pct x.config s.trailing_cb_override))
        ≡ false
      → follow_trailing_tp x p s ≡ (
        record s { barrier = record (s.barrier) { peak_price = max s.barrier.peak_price p } },
        false,
      )
  unfolding follow_trailing_tp follow_price is_trailing_tp_hit
  step_miss x p s e a h = rw e (rw a (rw h refl))

  and_then-true :
      (a : ExecutorState W F × Bool) (next : ExecutorState W F → ExecutorState W F × Bool)
      → a.1 ≡ true
      → (and_then a next).1 ≡ true
  unfolding and_then
  and_then-true (s, true) next h = refl
  and_then-true (s, false) next h = absurd (ground arith)

  -- Whether the price is far enough below the highest one, itself included.
  abbrev is_pulled_back : Executor W F → F → ExecutorState W F → Bool
  is_pulled_back x p s =
      le p (max s.barrier.peak_price p * (one - callback_pct x.config s.trailing_cb_override))

  pullback_of_run :
      (x : Executor W F) (ps : List F) (s : ExecutorState W F)
      → x.position_side ≡ long
      → s.barrier.trailing_tp_active ≡ true
      → (follow_run x ps s).1 ≡ true
      → HasPullback (callback_pct x.config s.trailing_cb_override) s.barrier.peak_price ps
  unfolding and_then
  pullback_of_run x [] s e a h = absurd (ground arith)
  pullback_of_run x (p ∷ ps) s e a h = elim (Bool-cases (is_pulled_back x p s)) [
    | inl hit ↦ ([], p, ps, refl, hit)
    | inr miss ↦
        let s' : ExecutorState W F = record s {
          barrier = record (s.barrier) { peak_price = max s.barrier.peak_price p };
        } in
        let h' : (follow_run x ps s').1 ≡ true =
          rw (sym (ap (λ z. (and_then z (follow_run x ps)).1) (step_miss x p s e a miss))) h in
        let (before, q, after, split, le_q) = pullback_of_run x ps s' e a h' in
        (p ∷ before, q, after, ap (λ z. p ∷ z) split, le_q)
  ]

  run_of_pullback :
      (x : Executor W F) (ps : List F) (s : ExecutorState W F)
      → x.position_side ≡ long
      → s.barrier.trailing_tp_active ≡ true
      → HasPullback (callback_pct x.config s.trailing_cb_override) s.barrier.peak_price ps
      → (follow_run x ps s).1 ≡ true
  unfolding and_then
  run_of_pullback x [] s e a ([], q, after, split, below) = absurd (cc)
  run_of_pullback x [] s e a (b ∷ before, q, after, split, below) = absurd (cc)
  run_of_pullback x (p ∷ ps) s e a pulled = elim (Bool-cases (is_pulled_back x p s)) [
    | inl hit ↦ and_then-true (follow_trailing_tp x p s) (follow_run x ps) (step_hit x p s e a hit)
    | inr miss ↦
        let cb = callback_pct x.config s.trailing_cb_override in
        let s' : ExecutorState W F = record s {
          barrier = record (s.barrier) { peak_price = max s.barrier.peak_price p };
        } in
        let tail = pullback_tail cb s.barrier.peak_price p ps miss pulled in
        rw (step_miss x p s e a miss) (run_of_pullback x ps s' e a tail)
  ]

  -- For a LONG position whose trailing take profit is on, and over any sequence of prices, it exits exactly
  -- when some price is at or below the highest price so far, the recorded peak and itself included, less the
  -- callback.
  pub follow_run_pullback :
      (x : Executor W F) (ps : List F) (s : ExecutorState W F)
      → x.position_side ≡ long
      → s.barrier.trailing_tp_active ≡ true
      → ((follow_run x ps s).1 ≡ true)
        ↔ HasPullback (callback_pct x.config s.trailing_cb_override) s.barrier.peak_price ps
  follow_run_pullback x ps s e a = (pullback_of_run x ps s e a, run_of_pullback x ps s e a)
