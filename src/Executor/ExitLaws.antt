-- ===== src/Executor/ExitLaws.antt =====
-- What an exit leaves of an executor (app/core/executor.py): its frame, its outcome, and silence after it.
use pmm_simple.Prelude.{
  ◌≡◌, ◌∙◌, refl, ◌⊎◌, inl, inr, Bool, true, false, Option, none, some, List, [], Bool-cases,
  if_cases, arith,
}
use pmm_simple.Float.{Float, nought, le, ◌≼◌, ◌≺◌}
use pmm_simple.Tracker.{get_state}
use pmm_simple.Tracker.Cooldown.{set_sl_cooldown_starts}
use pmm_simple.Quoter.Pricing.{quantize_amount}
use pmm_simple.Executor.Ids.{Text}
use pmm_simple.Executor.State.{
  OrderPurpose, TpOrder, ExitOrder, OrderAnswer, Executor, ExecutorState,
}
use pmm_simple.Executor.Exits.{
  is_held, is_stop_loss, clear_tps, drop_passive, drop_stop, cleanup_all_barrier_orders,
  reconcile_tracker, retry_exit, after_rejection, settle_exit_order, safe_create_exit_order,
  settle_market_exit, disarm, market_exit_order, execute_market_exit,
}
use pmm_simple.Executor.Triggers.{is_present}

module _ {W F : Type 0} where
  -- An exit order changes of the barrier at most these three fields.
  pub record IsFramed (s s' : ExecutorState W F) : Type 0 where
    pub qty : F
    pub act : Bool
    pub orders : List (TpOrder F)
    pub barrier_eq :
        s'.barrier ≡ record (s.barrier) { remaining_qty = qty; active = act; tp_orders = orders }
    pub exiting_eq : s'.is_exiting ≡ s.is_exiting
    pub override_eq : s'.trailing_cb_override ≡ s.trailing_cb_override

  pub IsFramed-refl : (s : ExecutorState W F) → IsFramed s s
  IsFramed-refl s = record {
    qty = s.barrier.remaining_qty;
    act = s.barrier.active;
    orders = s.barrier.tp_orders;
    barrier_eq = refl;
    exiting_eq = refl;
    override_eq = refl;
  }

  pub IsFramed-trans : (s t u : ExecutorState W F) → IsFramed s t → IsFramed t u → IsFramed s u
  IsFramed-trans s t u m n = record {
    qty = n.qty;
    act = n.act;
    orders = n.orders;
    barrier_eq = rw n.barrier_eq (rw m.barrier_eq refl);
    exiting_eq = n.exiting_eq ∙ m.exiting_eq;
    override_eq = n.override_eq ∙ m.override_eq;
  }

  -- An exit order and its answer: where it is accepted, the barrier is as active as before.
  abbrev pub IsSent : ExecutorState W F → ExecutorState W F × Option (OrderAnswer F) → Type 0
  IsSent s a =
      (q : F) × (act : Bool) × (a.0.barrier
        ≡ record (s.barrier) { remaining_qty = q; active = act })
      × (a.0.is_exiting ≡ s.is_exiting)
      × (a.0.trailing_cb_override ≡ s.trailing_cb_override)
      × (is_present a.1 ≡ true → act ≡ s.barrier.active)

module _ {W F : Type 0} ⦃f : Float F⦄ where
  retry_exit-IsSent :
      (x : Executor W F) (order : ExitOrder F) (s : ExecutorState W F)
      → IsSent s (retry_exit x order s)
  unfolding retry_exit
  retry_exit-IsSent x order s =
      let q = (get_state s.tracker x.position_side).amount in
      if_cases (IsSent s) (le q nought) _ _
        (λ h. (q, false, refl, refl, refl, λ k. absurd (ground (arith, k))))
        (λ h.
          if_cases (IsSent s) _ _ _ (λ k. (q, s.barrier.active, refl, refl, refl, λ _. refl))
            (λ k. (q, s.barrier.active, refl, refl, refl, λ _. refl)))

  settle_exit_order-IsSent :
      (x : Executor W F) (order : ExitOrder F) (s : ExecutorState W F)
      (answer : W × Option (OrderAnswer F))
      → IsSent s (settle_exit_order x order s answer)
  unfolding settle_exit_order after_rejection reconcile_tracker
  settle_exit_order-IsSent x order s (w, some r) =
      (s.barrier.remaining_qty, s.barrier.active, refl, refl, refl, λ _. refl)
  settle_exit_order-IsSent x order s (w, none) =
      if_cases (IsSent s) _ _ _
        (λ _. retry_exit-IsSent x order (reconcile_tracker x (record s { world = w })))
        (λ _. (s.barrier.remaining_qty, s.barrier.active, refl, refl, refl, λ _. refl))

  pub safe_create_exit_order-IsSent :
      (x : Executor W F) (order : ExitOrder F) (s : ExecutorState W F)
      → IsSent s (safe_create_exit_order x order s)
  unfolding safe_create_exit_order
  safe_create_exit_order-IsSent x order s = settle_exit_order-IsSent x order s _

  -- No order of the barrier is left at the exchange's book in the records.
  abbrev pub IsCleared : ExecutorState W F → Type 0
  IsCleared s =
      (s.barrier.tp_orders ≡ [])
      × (is_held s.barrier.passive_exit_order_id ≡ false)
      × (is_held s.barrier.sl_order_id ≡ false)

  -- What a cancellation changes of the barrier.
  abbrev pub IsTrimmed : ExecutorState W F → ExecutorState W F → Type 0
  IsTrimmed s s' =
      (os : List (TpOrder F)) × (p : Option Text) × (a : Bool) × (l : Option Text) × (s'.barrier
        ≡ record (s.barrier) {
          tp_orders = os;
          passive_exit_order_id = p;
          passive_exit_active = a;
          sl_order_id = l;
        })
      × (s'.is_exiting ≡ s.is_exiting)
      × (s'.tracker ≡ s.tracker)

  drop_stop_lem :
      (x : Executor W F) (s : ExecutorState W F)
      → (is_held (drop_stop x s).barrier.sl_order_id ≡ false)
        × ((drop_stop x s).barrier.tp_orders ≡ s.barrier.tp_orders)
        × ((drop_stop x s).barrier.passive_exit_order_id ≡ s.barrier.passive_exit_order_id)
        × IsTrimmed s (drop_stop x s)
  unfolding drop_stop
  drop_stop_lem x s =
      let b = s.barrier in
      let p = b.passive_exit_order_id in
      let a = b.passive_exit_active in
      elim (Bool-cases (is_held b.sl_order_id)) [
        | inl h ↦ rw h (refl, refl, refl, (b.tp_orders, p, a, none, refl, refl, refl))
        | inr h ↦ rw h (h, refl, refl, (b.tp_orders, p, a, b.sl_order_id, refl, refl, refl))
      ]

  drop_passive_lem :
      (x : Executor W F) (s : ExecutorState W F)
      → (is_held (drop_passive x s).barrier.passive_exit_order_id ≡ false)
        × ((drop_passive x s).barrier.tp_orders ≡ s.barrier.tp_orders)
        × IsTrimmed s (drop_passive x s)
  unfolding drop_passive
  drop_passive_lem x s =
      let b = s.barrier in
      elim (Bool-cases (is_held b.passive_exit_order_id)) [
        | inl h ↦ rw h (refl, refl, (b.tp_orders, none, false, b.sl_order_id, refl, refl, refl))
        | inr h ↦ rw h (
          h,
          refl,
          (
            b.tp_orders, b.passive_exit_order_id, b.passive_exit_active, b.sl_order_id, refl, refl,
            refl,
          ),
        )
      ]

  IsTrimmed-trans : (s t u : ExecutorState W F) → IsTrimmed s t → IsTrimmed t u → IsTrimmed s u
  IsTrimmed-trans s t u (os, p, a, l, e, i, k) (os', p', a', l', e', i', k') =
      (os', p', a', l', rw e' (rw e refl), rw i' i, rw k' k)

  pub cleanup_all_barrier_orders-IsCleared :
      (x : Executor W F) (s : ExecutorState W F)
      → IsCleared (cleanup_all_barrier_orders x s) × IsTrimmed s (cleanup_all_barrier_orders x s)
  unfolding cleanup_all_barrier_orders clear_tps
  cleanup_all_barrier_orders-IsCleared x s =
      let t = clear_tps x s in
      let u = drop_passive x t in
      let (p_held, p_tps, p_trim) = drop_passive_lem x t in
      let (l_held, l_tps, l_passive, l_trim) = drop_stop_lem x u in
      let b = s.barrier in
      let first : IsTrimmed s t =
        ([], b.passive_exit_order_id, b.passive_exit_active, b.sl_order_id, refl, refl, refl) in
      (
        (rw l_tps p_tps, rw l_passive p_held, l_held),
        IsTrimmed-trans s u (drop_stop x u) (IsTrimmed-trans s t u first p_trim) l_trim,
      )

  -- A market exit from `s`: nothing, where there is nothing to close; or else no order of the barrier is
  -- left and either it waits for the fill, with a cooldown after a stop loss, or it is armed again.
  abbrev pub MarketExitOutcome :
      Executor W F → OrderPurpose → ExecutorState W F → ExecutorState W F → Type 0
  MarketExitOutcome x purpose s s' =
      ((quantize_amount x.quoter s.barrier.remaining_qty ≼ nought) × (s' ≡ s))
      ⊎ ((nought ≺ quantize_amount x.quoter s.barrier.remaining_qty)
          × IsCleared s'
          × (((s'.is_exiting ≡ true)
                × (s'.barrier.active ≡ false)
                × (is_stop_loss purpose ≡ true
                    → (get_state s'.tracker x.position_side).in_cooldown ≡ true))
              ⊎ ((s'.is_exiting ≡ false) × (s'.barrier.active ≡ true))))

  settle_lem :
      (x : Executor W F) (purpose : OrderPurpose) (s : ExecutorState W F)
      (a : ExecutorState W F × Option (OrderAnswer F))
      → s.is_exiting ≡ true
      → s.barrier.active ≡ false
      → IsCleared s
      → IsSent s a
      → let s' = settle_market_exit x purpose a in
        IsCleared s'
        × (((s'.is_exiting ≡ true)
              × (s'.barrier.active ≡ false)
              × (is_stop_loss purpose ≡ true
                  → (get_state s'.tracker x.position_side).in_cooldown ≡ true))
            ⊎ ((s'.is_exiting ≡ false) × (s'.barrier.active ≡ true)))
  unfolding settle_market_exit
  settle_lem x purpose s (t, none) i k c (q, act, e, j, o, g) = (rw e c, inr (refl, refl))
  settle_lem x purpose s (t, some r) i k c (q, act, e, j, o, g) =
      let o' : t.is_exiting ≡ true = j ∙ i in
      let stays : t.barrier.active ≡ false = rw e (g refl ∙ k) in
      let c' : IsCleared t = rw e c in
      elim (Bool-cases (is_stop_loss purpose)) [
        | inl h ↦
            rw h (c', inl (o', stays, λ _. set_sl_cooldown_starts _ x.position_side t.tracker))
        | inr h ↦ rw h (c', inl (o', stays, λ l. absurd (ground arith)))
      ]

  pub execute_market_exit_outcome :
      (x : Executor W F) (purpose : OrderPurpose) (s : ExecutorState W F)
      → MarketExitOutcome x purpose s (execute_market_exit x purpose s)
  unfolding execute_market_exit disarm
  execute_market_exit_outcome x purpose s =
      let qty = quantize_amount x.quoter s.barrier.remaining_qty in
      let positive : le qty nought ≡ false → nought ≺ qty = λ h. ground arith in
      let armed : ExecutorState W F = record s {
        is_exiting = true;
        barrier = record (s.barrier) { active = false };
      } in
      let (clear, (os, p, a, l, e, i, k)) = cleanup_all_barrier_orders-IsCleared x armed in
      if_cases (MarketExitOutcome x purpose s) _ _ _ (λ h. inl (h, refl))
        (λ h.
          let (cleared, outcome) =
            settle_lem x purpose (disarm x s)
              (safe_create_exit_order x (market_exit_order x purpose qty (disarm x s)) (disarm x s))
              i (rw e refl) clear
              (safe_create_exit_order-IsSent x (market_exit_order x purpose qty (disarm x s))
                (disarm x s)) in
          inr (positive h, cleared, outcome))
