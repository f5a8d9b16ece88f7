-- ===== src/Funding/Opening.antt =====
-- OPEN with both legs filled (app/core/fr_execution/engine.py, position_tracker.py).
use mathlib.Core.Path.{subst}
use pmm_simple.Prelude.{ℕ, ◌≡◌, refl, sym, ap, ◌∙◌, some, arith, codes}
use pmm_simple.Float.{Float, FloatLaws, nought, abs, ◌≺◌}
use pmm_simple.Models.State.{PositionSide, long, short}
use pmm_simple.Funding.Names.{Name, canon, tidy, lower_name}
use pmm_simple.Funding.Canonical.{canon_idempotent}
use pmm_simple.Funding.Legs.{DualLegPosition, FrPolicy, opened, recalculate}
use pmm_simple.Funding.PairTracker.{
  FrPositionTracker, update_leg, updated, update_leg_state, leg_status, lookup, put_position,
  get_or_create_position,
}
use pmm_simple.Funding.Gateway.{MultiExchangeGateway, OrderInfo}
use pmm_simple.Funding.Engine.{EngineState, change_pos, dual_pos}
use pmm_simple.Funding.Policies.{both_legs_open, settle_open}
use pmm_simple.Funding.Sizes.{price_or}
use pmm_simple.Funding.Legging.{lookup-store}

module _ {F : Type 0} ⦃f : Float F⦄ ⦃laws : FloatLaws F⦄ where
  abs_of_pos : (x : F) → nought ≺ x → abs x ≡ x
  abs_of_pos x h = ground (arith, laws.le_total nought x)

  found :
      (now : F) (symbol ex_long ex_short : Name) (t : FrPositionTracker F) (p : DualLegPosition F)
      → lookup (canon symbol) t.positions ≡ some p
      → get_or_create_position now symbol ex_long ex_short t ≡ (t, p)
  unfolding get_or_create_position
  found now symbol ex_long ex_short t p h = rw (h, get_or_create_position) refl

  -- A position stored under the canonical symbol is the one that `update_leg` finds.
  stored :
      (now : F) (symbol ex_long ex_short : Name) (p : DualLegPosition F) (t : FrPositionTracker F)
      → get_or_create_position now (canon symbol) ex_long ex_short (put_position (canon symbol) p t)
        ≡ (put_position (canon symbol) p t, p)
  stored now symbol ex_long ex_short p t =
      found now (canon symbol) ex_long ex_short (put_position (canon symbol) p t) p
        (rw (canon_idempotent symbol) (lookup-store (canon symbol) p t.positions))

  update_leg_stored :
      (now : F) (symbol exchange : Name) (side : PositionSide) (size entry mark upnl funding : F)
      (leverage : ℕ) (p : DualLegPosition F) (t : FrPositionTracker F)
      → let q = updated now exchange side size entry mark upnl funding leverage p in
        let u = put_position (canon symbol) p t in
        update_leg now symbol exchange side size entry mark upnl funding leverage u
        ≡ (put_position (canon symbol) q u, q)
  unfolding update_leg
  update_leg_stored now symbol exchange side size entry mark upnl funding leverage p t =
      rw (stored now symbol (codes "binance") (codes "bybit") p t, canon_idempotent symbol) refl

  both_updated :
      (now : F) (ex_long ex_short : Name) (target a b c d : F) (leverage : ℕ)
      (p : DualLegPosition F)
      → nought ≺ target
      → let q =
          updated now ex_short short target c d nought nought leverage
            (updated now ex_long long target a b nought nought leverage p) in
        (q.long_leg.size ≡ target) × (q.short_leg.size ≡ target) × (q.status ≡ opened)
  unfolding updated update_leg_state leg_status recalculate
  both_updated now ex_long ex_short target a b c d leverage p h =
      rw (abs_of_pos target h) (refl, refl, rw h refl)

module _ {W F : Type 0} ⦃f : Float F⦄ ⦃laws : FloatLaws F⦄ where
  -- Both legs at the ordered quantity, and OPEN.
  pub IsHedged : F → FrPolicy F → F → EngineState W F → Type 0
  IsHedged now policy target s =
      let p = dual_pos now policy s in
      (p.long_leg.size ≡ target) × (p.short_leg.size ≡ target) × (p.status ≡ opened)

  put_position-IsHedged :
      (now : F) (policy : FrPolicy F) (target : F) (v : DualLegPosition F) (t : FrPositionTracker F)
      (s : EngineState W F)
      → (v.long_leg.size ≡ target) × (v.short_leg.size ≡ target) × (v.status ≡ opened)
      → IsHedged now policy target
          (record s { tracker = put_position (canon (tidy policy.symbol)) v t })
  unfolding IsHedged dual_pos
  put_position-IsHedged now policy target v t s h =
      rw (lookup-store (canon (tidy policy.symbol)) v t.positions, dual_pos) h

  -- Both orders acknowledged: the tracker holds both legs at the ordered quantity, and the pair is OPEN.
  pub settle_open-IsHedged :
      (g : MultiExchangeGateway W F) (now : F) (policy : FrPolicy F) (target p_long p_short ref : F)
      (a b : OrderInfo F) (s : EngineState W F)
      → nought ≺ target
      → IsHedged now policy target
          (settle_open g now policy target p_long p_short ref (some a) (some b) s).0
  unfolding settle_open both_legs_open change_pos
  settle_open-IsHedged g now policy target p_long p_short ref a b s h =
      let sym_name = tidy policy.symbol in
      let fresh : DualLegPosition F = record (dual_pos now policy s) {
        status = opened;
        created_at = now;
        updated_at = now;
      } in
      let long_name = lower_name policy.exchange_long in
      let short_name = lower_name policy.exchange_short in
      let l = price_or p_long ref in
      let m = price_or p_short ref in
      let u = updated now long_name long target l l nought nought policy.max_leverage fresh in
      let v = updated now short_name short target m m nought nought policy.max_leverage u in
      let t0 = put_position (canon sym_name) fresh s.tracker in
      let t1 = put_position (canon sym_name) u t0 in
      let leg1 =
        update_leg_stored now sym_name long_name long target l l nought nought policy.max_leverage
          fresh s.tracker in
      let leg2 =
        update_leg_stored now sym_name short_name short target m m nought nought policy.max_leverage
          u t0 in
      let both : (update_leg now sym_name short_name short target m m nought nought
            policy.max_leverage
            (update_leg now sym_name long_name long target l l nought nought policy.max_leverage
              t0).0).0
          ≡ put_position (canon sym_name) v t1 =
        ap
          (λ (r : FrPositionTracker F × DualLegPosition F).
            (update_leg now sym_name short_name short target m m nought nought policy.max_leverage
              r.0).0)
          leg1
        ∙ ap (λ (r : FrPositionTracker F × DualLegPosition F). r.0) leg2 in
      subst (λ (t : FrPositionTracker F). IsHedged now policy target (record s { tracker = t }))
        (sym both)
        (put_position-IsHedged now policy target v t1 s
          (both_updated now long_name short_name target l l m m policy.max_leverage fresh h))
