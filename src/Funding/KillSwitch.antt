-- ===== src/Funding/KillSwitch.antt =====
-- app/core/fr_execution/kill_switch.py: the three tiers. The reasons, which only the messages show, are left out.
use pmm_simple.Prelude.{Bool, true, false, Option, none, some, List, [], ◌∷◌, if◌then◌else◌}
use pmm_simple.Funding.Names.{Name, mem_name, add_name, discard_name, tidy, lower_name}

-- `tripped_exchanges` is the keys of the dict.
pub record ThreeTierKillSwitch : Type 0 where
  pub paused_symbols : List Name
  pub tripped_exchanges : List Name
  pub is_global_tripped : Bool

abbrev pub new_kill_switch : ThreeTierKillSwitch
new_kill_switch = record { paused_symbols = []; tripped_exchanges = []; is_global_tripped = false }

unfoldable pub pause_symbol : Name → ThreeTierKillSwitch → ThreeTierKillSwitch
unfolding add_name tidy
pause_symbol symbol k = record k { paused_symbols = add_name (tidy symbol) k.paused_symbols }

unfoldable pub resume_symbol : Name → ThreeTierKillSwitch → ThreeTierKillSwitch
unfolding discard_name tidy
resume_symbol symbol k = record k { paused_symbols = discard_name (tidy symbol) k.paused_symbols }

unfoldable pub is_symbol_paused : Name → ThreeTierKillSwitch → Bool
unfolding mem_name tidy
is_symbol_paused symbol k = mem_name (tidy symbol) k.paused_symbols

unfoldable pub trip_exchange : Name → ThreeTierKillSwitch → ThreeTierKillSwitch
unfolding add_name lower_name
trip_exchange exchange k = record k {
  tripped_exchanges = add_name (lower_name exchange) k.tripped_exchanges;
}

unfoldable pub reset_exchange : Name → ThreeTierKillSwitch → ThreeTierKillSwitch
unfolding discard_name lower_name
reset_exchange exchange k = record k {
  tripped_exchanges = discard_name (lower_name exchange) k.tripped_exchanges;
}

unfoldable pub is_exchange_tripped : Name → ThreeTierKillSwitch → Bool
unfolding mem_name lower_name
is_exchange_tripped exchange k = mem_name (lower_name exchange) k.tripped_exchanges

unfoldable pub trip_global : ThreeTierKillSwitch → ThreeTierKillSwitch
trip_global k = record k { is_global_tripped = true }

unfoldable pub reset_global : ThreeTierKillSwitch → ThreeTierKillSwitch
reset_global k = record k { is_global_tripped = false }

-- Which tier refuses, if one does.
pub data Verdict : Type 0 where
  allowed global_active exchange_active symbol_active : Verdict

-- `x and test x`, of an optional text.
abbrev pub given : (Name → Bool) → Option Name → Bool
given test none = false
given test (some []) = false
given test (some (c ∷ s)) = test (c ∷ s)

unfoldable pub is_execution_allowed : Option Name → Option Name → ThreeTierKillSwitch → Verdict
unfolding is_symbol_paused is_exchange_tripped
is_execution_allowed symbol exchange k =
    if k.is_global_tripped
    then global_active
    else if given (λ e. is_exchange_tripped e k) exchange
    then exchange_active
    else if given (λ s. is_symbol_paused s k) symbol
    then symbol_active
    else allowed
