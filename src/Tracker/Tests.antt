-- ===== src/Tracker/Tests.antt =====
-- Runs of the position tracker, and its theorems at sample inputs.
use pmm_simple.Prelude.{◌≡◌, refl, false, some, [], ◌∷◌, arith}
use pmm_simple.Prelude.Int.{◌+ℤ◌, ◌-ℤ◌}
use pmm_simple.Float.Fixed.{Fixed, fixed_float, lit, mul, div}
use pmm_simple.Float.FixedLaws.{fixed_laws}
use pmm_simple.Models.State.{long, buy, sell, FillRecord}
use pmm_simple.Models.Config.{IsChecked}
use pmm_simple.Models.Samples.{sample_config, sample_fill, units}
use pmm_simple.Tracker.{
  PositionTracker, new_tracker, on_fill, process_fill, normalized_side, get_state,
}
use pmm_simple.Tracker.Sync.{reconcile_with_exchange}
use pmm_simple.Tracker.Ids.{mem_id}
use pmm_simple.Tracker.Cooldown.{other_state}
use pmm_simple.Tracker.Dedupe.{IsConsistentTracker, on_fill-IsConsistent, on_fill_once, on_fills}
use pmm_simple.Tracker.Fills.{IsSound, IsProper, process_fill-IsSound}
use pmm_simple.Tracker.Reconcile.{Agrees, reconcile_with_exchange-Agrees}

abbrev blank : PositionTracker Fixed
blank = new_tracker sample_config

abbrev entry : FillRecord Fixed
entry = sample_fill "a" buy long (units 2)

abbrev exit : FillRecord Fixed
exit = sample_fill "b" sell long (units 1)

abbrev full_exit : FillRecord Fixed
full_exit = sample_fill "c" sell long (units 2)

abbrev opened : PositionTracker Fixed
opened = (on_fill entry blank).0

-- Two units are bought at 100, one is sold, and the rest; a repeated id is ignored.
fills_run :
    (opened.long_pos.amount ≡ units 2)
    × (opened.long_pos.entry_price ≡ units 100)
    × ((on_fill exit opened).0.long_pos.amount ≡ units 1)
    × ((on_fill full_exit opened).0.long_pos.entry_price ≡ units 0)
    × ((on_fill (sample_fill "a" buy long (units 9)) opened).2 ≡ false)
unfolding on_fill new_tracker lit div mul ◌+ℤ◌ ◌-ℤ◌
fills_run = (refl, refl, refl, refl, refl)

entry-IsProper : IsProper entry
unfolding lit
entry-IsProper = record { amount_pos = refl; price_nonneg = refl }

exit-IsProper : IsProper exit
unfolding lit
exit-IsProper = record { amount_pos = refl; price_nonneg = refl }

blank-IsSound : IsSound (get_state blank (normalized_side entry))
unfolding new_tracker lit normalized_side
blank-IsSound = record {
  amount_nonneg = refl;
  entry_nonneg = refl;
  flat_entry = λ h. refl;
  flat_levels = λ h. refl;
}

opened-IsSound : IsSound (get_state opened (normalized_side exit))
unfolding on_fill new_tracker lit div mul ◌+ℤ◌ ◌-ℤ◌
opened-IsSound = record {
  amount_nonneg = refl;
  entry_nonneg = refl;
  flat_entry = λ h. cc;
  flat_levels = λ h. cc;
}

sample-IsChecked : IsChecked sample_config
unfolding lit
sample-IsChecked = record {
  leverage_ge = omega arith;
  order_levels_ge = omega arith;
  order_level_spread_ge = refl;
  level_cooldown_ge = refl;
  base_cooldown_ge = refl;
  multiplier_ge = refl;
  max_cooldown_ge = refl;
  bid_spread_gt = refl;
  ask_spread_gt = refl;
  minimum_spread_ge = refl;
}

blank-IsConsistent : IsConsistentTracker blank
unfolding new_tracker
blank-IsConsistent = record { bounded = omega arith; nodup = tt; agrees = λ i. refl }

process_fill-IsSound_example :
    IsSound (get_state (process_fill entry blank).0 (normalized_side entry))
    × (other_state (process_fill entry blank).0 (normalized_side entry)
        ≡ other_state blank (normalized_side entry))
    × ((process_fill entry blank).0.config ≡ blank.config)
process_fill-IsSound_example = process_fill-IsSound entry blank entry-IsProper blank-IsSound

on_fill-IsConsistent_example : IsConsistentTracker (on_fill entry blank).0
on_fill-IsConsistent_example = on_fill-IsConsistent entry blank blank-IsConsistent

on_fill_once_example :
    let t' = on_fills (exit ∷ full_exit ∷ []) (on_fill entry blank).0 in
    on_fill entry t' ≡ (t', entry, false)
unfolding new_tracker mem_id
on_fill_once_example =
    on_fill_once entry entry (exit ∷ full_exit ∷ []) blank blank-IsConsistent refl refl refl
      (omega arith)

reconcile_with_exchange-Agrees_example :
    Agrees blank
      (some opened.long_pos, some blank.short_pos)
      (reconcile_with_exchange (units 9000) (some opened.long_pos, some blank.short_pos) blank)
reconcile_with_exchange-Agrees_example =
    reconcile_with_exchange-Agrees (units 9000) (some opened.long_pos, some blank.short_pos) blank
