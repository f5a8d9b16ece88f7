-- ===== src/Funding/Dispatch.antt =====
-- The entry of the funding-rate engine (app/core/fr_execution/engine.py): the dispatch of a policy to its handler,
-- and `execute_policy`.
use pmm_simple.Prelude.{none, some}
use pmm_simple.Float.{Float}
use pmm_simple.Funding.Names.{tidy}
use pmm_simple.Funding.Legs.{
  act_open, act_hold, act_reduce, act_exit, act_pause, FrPolicy, FrRiskConfig,
}
use pmm_simple.Funding.KillSwitch.{is_execution_allowed, allowed}
use pmm_simple.Funding.PairTracker.{get_or_create_position}
use pmm_simple.Funding.Gateway.{MultiExchangeGateway}
use pmm_simple.Funding.Engine.{EngineState, Answer, blocked, change_pos}
use pmm_simple.Funding.Policies.{handle_exit, handle_hold, handle_open, handle_pause, handle_reduce}

module _ {W F : Type 0} ⦃f : Float F⦄ where
  -- The handler of the policy's action.
  unfoldable pub dispatch :
      MultiExchangeGateway W F
      → FrRiskConfig F
      → F
      → FrPolicy F
      → EngineState W F
      → EngineState W F × Answer F
  unfolding handle_open handle_hold handle_reduce handle_exit handle_pause
  dispatch g risk now policy s = elim policy.action [
    | act_open ↦ handle_open g now policy s
    | act_hold ↦ handle_hold g risk now policy s
    | act_reduce ↦ handle_reduce g now policy s
    | act_exit ↦ handle_exit g now policy s
    | act_pause ↦ handle_pause g now policy s
  ]

  -- The position is there and notes the action.
  unfoldable pub register : F → FrPolicy F → EngineState W F → EngineState W F
  unfolding get_or_create_position change_pos tidy
  register now policy s =
      let (t, p) =
        get_or_create_position now (tidy policy.symbol) policy.exchange_long policy.exchange_short
          s.tracker in
      change_pos now policy (λ x. record x { last_policy_action = some policy.action })
        (record s { tracker = t })

  unfoldable pub execute_policy :
      MultiExchangeGateway W F
      → FrRiskConfig F
      → F
      → FrPolicy F
      → EngineState W F
      → EngineState W F × Answer F
  unfolding is_execution_allowed register dispatch tidy
  execute_policy g risk now policy s =
      elim (is_execution_allowed (some (tidy policy.symbol)) none s.kill_switch) [
        | allowed ↦ dispatch g risk now policy (register now policy s)
        | verdict ↦ (s, blocked verdict)
      ]
