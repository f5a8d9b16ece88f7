-- ===== src/Funding/KillAll/Latch.antt =====
-- The emergency kill and the policies that come after it (app/core/fr_execution/kill_switch.py, engine.py).
use pmm_simple.Prelude.{◌≡◌, refl, ap, true, none, some, List, [], ◌∷◌}
use pmm_simple.Float.{Float}
use pmm_simple.Funding.Names.{Name, tidy}
use pmm_simple.Funding.Legs.{FrPolicy, FrRiskConfig}
use pmm_simple.Funding.KillSwitch.{
  ThreeTierKillSwitch, is_execution_allowed, global_active, trip_global,
}
use pmm_simple.Funding.Gateway.{MultiExchangeGateway}
use pmm_simple.Funding.Engine.{EngineState, blocked}
use pmm_simple.Funding.Dispatch.{execute_policy}
use pmm_simple.Funding.Halt.{run_policies, refused}
use pmm_simple.Funding.KillAll.{emergency_kill_exchanges, reconcile_and_report}

global_verdict :
    (sym : Name) (k : ThreeTierKillSwitch)
    → k.is_global_tripped ≡ true
    → is_execution_allowed (some sym) none k ≡ global_active
unfolding is_execution_allowed
global_verdict sym k h = rw h refl

module _ {W F : Type 0} ⦃f : Float F⦄ where
  -- A policy under a tripped global switch.
  refused_globally :
      (g : MultiExchangeGateway W F) (risk : FrRiskConfig F) (now : F) (policy : FrPolicy F)
      (s : EngineState W F)
      → s.kill_switch.is_global_tripped ≡ true
      → execute_policy g risk now policy s ≡ (s, blocked global_active)
  refused_globally g risk now policy s h =
      refused g risk now policy s global_active
        (global_verdict (tidy policy.symbol) s.kill_switch h) refl

  run_policies_refused :
      (g : MultiExchangeGateway W F) (risk : FrRiskConfig F) (ps : List (F × FrPolicy F))
      (s : EngineState W F)
      → s.kill_switch.is_global_tripped ≡ true
      → run_policies g risk ps s ≡ s
  unfolding run_policies
  run_policies_refused g risk [] s h = refl
  run_policies_refused g risk ((now, policy) ∷ ps) s h =
      rw (refused_globally g risk now policy s h) (run_policies_refused g risk ps s h)

  emergency_kill_exchanges-tripped :
      (g : MultiExchangeGateway W F) (now : F) (s : EngineState W F)
      → (emergency_kill_exchanges g now s).0.kill_switch ≡ trip_global s.kill_switch
  unfolding emergency_kill_exchanges reconcile_and_report
  emergency_kill_exchanges-tripped g now s = refl

  -- The emergency kill is a latch: whatever the exchanges answer to it, every policy that comes after it, over any
  -- gateway and with any risk configuration, is answered as blocked by the global switch, and no series of
  -- policies changes anything or reaches an exchange.
  pub emergency_kill_exchanges_latch :
      (g h : MultiExchangeGateway W F) (risk : FrRiskConfig F) (now : F)
      (ps : List (F × FrPolicy F)) (s : EngineState W F)
      → let s' = (emergency_kill_exchanges g now s).0 in
        (run_policies h risk ps s' ≡ s')
        × ((later : F) (policy : FrPolicy F)
            → execute_policy h risk later policy s' ≡ (s', blocked global_active))
  unfolding trip_global
  emergency_kill_exchanges_latch g h risk now ps s =
      let s' = (emergency_kill_exchanges g now s).0 in
      let e : s'.kill_switch.is_global_tripped ≡ true =
        ap (λ (k : ThreeTierKillSwitch). k.is_global_tripped)
          (emergency_kill_exchanges-tripped g now s) in
      (
        run_policies_refused h risk ps s' e,
        λ later policy. refused_globally h risk later policy s' e,
      )
