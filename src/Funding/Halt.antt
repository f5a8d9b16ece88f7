-- ===== src/Funding/Halt.antt =====
-- What stops the engine, and what does not (app/core/fr_execution/kill_switch.py and engine.py).
use pmm_simple.Prelude.{
  ◌≡◌, refl, ap, ◌∙◌, Bool, true, false, none, some, List, [], ◌∷◌, All, arith, Bool-cases, inl,
  inr,
}
use pmm_simple.Float.{Float}
use pmm_simple.Funding.Names.{Name, tidy, lower_name}
use pmm_simple.Funding.NameSets.{mem_name-add}
use pmm_simple.Funding.Legs.{act_pause, FrPolicy, FrRiskConfig}
use pmm_simple.Funding.KillSwitch.{
  ThreeTierKillSwitch, is_execution_allowed, is_symbol_paused, allowed, global_active,
  symbol_active, exchange_active, Verdict, pause_symbol, trip_exchange, is_exchange_tripped,
}
use pmm_simple.Funding.Gateway.{MultiExchangeGateway}
use pmm_simple.Funding.Engine.{EngineState, Answer, blocked, trip}
use pmm_simple.Funding.Policies.{handle_pause}
use pmm_simple.Funding.Dispatch.{execute_policy, dispatch, register}

abbrev is_allowed : Verdict → Bool
is_allowed allowed = true
is_allowed _ = false

abbrev is_nonempty_name : Name → Bool
is_nonempty_name [] = false
is_nonempty_name (c ∷ s) = true

paused_verdict :
    (sym : Name) (k : ThreeTierKillSwitch)
    → is_nonempty_name sym ≡ true
    → is_symbol_paused sym k ≡ true
    → is_allowed (is_execution_allowed (some sym) none k) ≡ false
unfolding is_execution_allowed
paused_verdict [] k n h = ground arith
paused_verdict (c ∷ s) k n h = elim (Bool-cases k.is_global_tripped) [
  | inl t ↦ rw t refl
  | inr t ↦ rw (t, h) refl
]

-- Only the other two tiers are asked.
same_verdict :
    (sym exchange : Name) (k : ThreeTierKillSwitch)
    → is_execution_allowed (some sym) none (trip_exchange exchange k)
      ≡ is_execution_allowed (some sym) none k
unfolding is_execution_allowed trip_exchange is_symbol_paused
same_verdict [] exchange k = refl
same_verdict (c ∷ s) exchange k = refl

pub tripped_lem :
    (exchange : Name) (k : ThreeTierKillSwitch)
    → is_exchange_tripped exchange (trip_exchange exchange k) ≡ true
unfolding trip_exchange is_exchange_tripped
tripped_lem exchange k = mem_name-add (lower_name exchange) k.tripped_exchanges

module _ {W F : Type 0} ⦃f : Float F⦄ where
  -- A series of policies, each with its time.
  unfoldable pub run_policies :
      MultiExchangeGateway W F
      → FrRiskConfig F
      → List (F × FrPolicy F)
      → EngineState W F
      → EngineState W F
  run_policies g risk [] s = s
  run_policies g risk ((now, policy) ∷ ps) s =
      run_policies g risk ps (execute_policy g risk now policy s).0

  pause_effect :
      (g : MultiExchangeGateway W F) (risk : FrRiskConfig F) (now : F) (policy : FrPolicy F)
      (s : EngineState W F)
      → policy.action ≡ act_pause
      → is_execution_allowed (some (tidy policy.symbol)) none s.kill_switch ≡ allowed
      → is_symbol_paused (tidy policy.symbol) (execute_policy g risk now policy s).0.kill_switch
        ≡ true
  unfolding execute_policy dispatch handle_pause pause_symbol is_symbol_paused
  pause_effect g risk now policy s e v =
      rw (v, e, execute_policy, dispatch)
        (mem_name-add (tidy (tidy policy.symbol))
          (register now policy s).kill_switch.paused_symbols)

  -- A policy that a tier refuses changes nothing and sends nothing.
  pub refused :
      (g : MultiExchangeGateway W F) (risk : FrRiskConfig F) (now : F) (policy : FrPolicy F)
      (s : EngineState W F) (v : Verdict)
      → is_execution_allowed (some (tidy policy.symbol)) none s.kill_switch ≡ v
      → is_allowed v ≡ false
      → execute_policy g risk now policy s ≡ (s, blocked v)
  unfolding execute_policy
  refused g risk now policy s global_active e h = rw (e, execute_policy) refl
  refused g risk now policy s exchange_active e h = rw (e, execute_policy) refl
  refused g risk now policy s symbol_active e h = rw (e, execute_policy) refl
  refused g risk now policy s allowed e h = ground arith

  run_policies_paused :
      (g : MultiExchangeGateway W F) (risk : FrRiskConfig F) (sym : Name)
      (ps : List (F × FrPolicy F)) (s : EngineState W F)
      → is_nonempty_name sym ≡ true
      → is_symbol_paused sym s.kill_switch ≡ true
      → All (λ (p : F × FrPolicy F). tidy p.1.symbol ≡ sym) ps
      → run_policies g risk ps s ≡ s
  unfolding run_policies
  run_policies_paused g risk sym [] s n h a = refl
  run_policies_paused g risk sym ((now, policy) ∷ ps) s n h a =
      let same : (execute_policy g risk now policy s).0 ≡ s =
        ap (λ (r : EngineState W F × Answer F). r.0)
          (refused g risk now policy s
            (is_execution_allowed (some (tidy policy.symbol)) none s.kill_switch) refl
            (rw a.0 (paused_verdict sym s.kill_switch n h))) in
      rw same (run_policies_paused g risk sym ps s n h a.1)

  -- A PAUSE is a latch: once the engine has carried out a PAUSE for a symbol, no series of policies for that
  -- symbol, in any spelling that `strip` and `upper` make the same, changes anything or reaches an exchange.
  pub execute_policy_pauses :
      (g : MultiExchangeGateway W F) (risk : FrRiskConfig F) (now : F) (policy : FrPolicy F)
      (ps : List (F × FrPolicy F)) (s : EngineState W F)
      → policy.action ≡ act_pause
      → is_nonempty_name (tidy policy.symbol) ≡ true
      → is_execution_allowed (some (tidy policy.symbol)) none s.kill_switch ≡ allowed
      → All (λ (p : F × FrPolicy F). tidy p.1.symbol ≡ tidy policy.symbol) ps
      → let s' = (execute_policy g risk now policy s).0 in run_policies g risk ps s' ≡ s'
  execute_policy_pauses g risk now policy ps s e n v a =
      run_policies_paused g risk (tidy policy.symbol) ps (execute_policy g risk now policy s).0 n
        (pause_effect g risk now policy s e v) a

  -- A tripped exchange does not stop a policy: where the engine would carry out a policy, it still does once
  -- any exchange, also one of the policy's own, is tripped.
  pub execute_policy_ignores_exchange :
      (g : MultiExchangeGateway W F) (risk : FrRiskConfig F) (now : F) (policy : FrPolicy F)
      (exchange : Name) (s : EngineState W F)
      → is_execution_allowed (some (tidy policy.symbol)) none s.kill_switch ≡ allowed
      → (is_exchange_tripped exchange (trip exchange s).kill_switch ≡ true)
        × (execute_policy g risk now policy (trip exchange s)
            ≡ dispatch g risk now policy (register now policy (trip exchange s)))
  unfolding execute_policy trip
  execute_policy_ignores_exchange g risk now policy exchange s v = (
    tripped_lem exchange s.kill_switch,
    rw (same_verdict (tidy policy.symbol) exchange s.kill_switch ∙ v, execute_policy) refl,
  )
