-- ===== src/Backtest/Ledger.antt =====
-- The books of a backtest (backtest/pmm_simulator.py), in the exact arithmetic of `Fixed`: rounding aside, the
-- balance is what the trades and the open slots account for.
use mathlib.Core.Path.{subst}
use pmm_simple.Prelude.{
  ◌≡◌, refl, true, false, Option, none, some, List, [], ◌∷◌, if◌then◌else◌, if_cases,
}
use pmm_simple.Prelude.Int.{pos, ◌+ℤ◌, ◌-ℤ◌}
use pmm_simple.Float.Fixed.{Fixed, fixed_float}
use pmm_simple.Models.State.{PositionSide, long, short, is_long}
use pmm_simple.Backtest.Types.{Bar, Settings, PositionSlot, Simulation, slot_of, is_none}
use pmm_simple.Backtest.Exits.{grid_of, manage}
use pmm_simple.Backtest.{
  new_simulation, is_frozen, reference, opened_slot, is_filled, entry_of, settle_entry, is_blocked,
  enter, count_blocked, enter_both, is_surge, armed_breaker, arm_breaker, record_equity, step_bar,
  close_last, finish, run_bars, run,
}
use pmm_simple.Backtest.Books.{
  total, fee_of, IsSided, IsBalanced, books_open, books_start, books_swap, none_of,
  manage-IsBalanced, close_last-IsBalanced,
}

module _ (x : Settings Fixed) where
  abbrev Balanced : Simulation Fixed → Type 0
  Balanced = IsBalanced x.initial_balance

  -- A new slot lies on the side that it was asked for.
  entry_of-IsSided :
      (b : Bar Fixed) (spread ref : Fixed) (side : PositionSide)
      → IsSided (is_long side) (entry_of x b spread side ref)
  unfolding entry_of opened_slot
  entry_of-IsSided b spread ref side =
      let p = opened_slot x b spread side ref in
      if_cases (IsSided (is_long side)) (is_filled x b ref p) (some p) none (λ h. refl) (λ h. tt)

  short_entry :
      (p : PositionSlot Fixed) (s : Simulation Fixed)
      → is_long p.side ≡ false
      → s.short_pos ≡ none
      → Balanced s
      → Balanced (record s { balance = s.balance -ℤ p.entry_fee; short_pos = some p })
  short_entry p s k free h =
      let before = total x.initial_balance s.trades in
      let swapped =
        books_swap s.balance (pos 0) (fee_of s.long_pos) before
          (subst (λ o. s.balance +ℤ (fee_of s.long_pos +ℤ fee_of o) ≡ before) free h.books) in
      record {
        long_side = h.long_side;
        short_side = k;
        books =
            books_swap (s.balance -ℤ p.entry_fee) (fee_of s.long_pos) p.entry_fee before
              (books_open s.balance p.entry_fee (fee_of s.long_pos) before swapped);
      }

  -- An entry pays its fee into the open slots.
  settle_entry-IsBalanced :
      (side : PositionSide) (p : Option (PositionSlot Fixed)) (s : Simulation Fixed)
      → IsSided (is_long side) p
      → slot_of side s ≡ none
      → Balanced s
      → Balanced (settle_entry side p s)
  settle_entry-IsBalanced side none s k free h = h
  settle_entry-IsBalanced PositionSide.long (some p) s k free h = record {
    long_side = k;
    short_side = h.short_side;
    books =
        books_open s.balance p.entry_fee (fee_of s.short_pos) (total x.initial_balance s.trades) (
          subst
            (λ o. s.balance +ℤ (fee_of o +ℤ fee_of s.short_pos) ≡ total x.initial_balance s.trades)
            free h.books);
  }
  settle_entry-IsBalanced PositionSide.short (some p) s k free h = short_entry p s k free h
  settle_entry-IsBalanced PositionSide.both (some p) s k free h = short_entry p s k free h

  enter-IsBalanced :
      (b : Bar Fixed) (ref : Fixed) (side : PositionSide) (s : Simulation Fixed)
      → Balanced s
      → Balanced (enter x b ref side s)
  unfolding enter
  enter-IsBalanced b ref side s h =
      let opened = settle_entry side (entry_of x b (grid_of x b.natr).s_base side ref) s in
      if_cases Balanced (is_blocked x b side) s (if is_none (slot_of side s) then opened else s)
        (λ k. h)
        λ k.
          if_cases Balanced (is_none (slot_of side s)) opened s
            (λ free.
              settle_entry-IsBalanced side (entry_of x b (grid_of x b.natr).s_base side ref) s
                (entry_of-IsSided b (grid_of x b.natr).s_base ref side)
                (none_of (slot_of side s) free) h)
            (λ taken. h)

  enter_both-IsBalanced :
      (b : Bar Fixed) (prev : Option (Bar Fixed)) (s : Simulation Fixed)
      → Balanced s
      → Balanced (enter_both x b prev s)
  unfolding enter_both count_blocked
  enter_both-IsBalanced b prev s h =
      let ref = reference x.entry_ref prev b in
      let counted : Balanced (count_blocked x b s) = record {
        long_side = h.long_side;
        short_side = h.short_side;
        books = h.books;
      } in
      if_cases Balanced (is_frozen x b s.cb_pause_until) s
        (enter x b ref short (enter x b ref long (count_blocked x b s))) (λ k. h)
        (λ k.
          enter-IsBalanced b ref short (enter x b ref long (count_blocked x b s))
            (enter-IsBalanced b ref long (count_blocked x b s) counted))

  -- The rest of a candle writes no book.
  arm_breaker-IsBalanced :
      (b : Bar Fixed) (s : Simulation Fixed) → Balanced s → Balanced (arm_breaker x b s)
  unfolding arm_breaker
  arm_breaker-IsBalanced b s h =
      if_cases Balanced (is_surge x b) (armed_breaker b s) s
        (λ k. record { long_side = h.long_side; short_side = h.short_side; books = h.books })
        (λ k. h)

  step_bar-IsBalanced :
      (prev : Option (Bar Fixed)) (b : Bar Fixed) (s : Simulation Fixed)
      → Balanced s
      → Balanced (step_bar x prev b s)
  unfolding step_bar record_equity
  step_bar-IsBalanced prev b s h =
      let longs = manage x b s.long_pos s in
      let shorts = manage x b longs.short_pos longs in
      let kept = manage-IsBalanced x b true s.long_pos s refl h in
      let kept' = manage-IsBalanced x b false longs.short_pos longs refl kept in
      let entered = enter_both-IsBalanced b prev shorts kept' in
      let done = arm_breaker-IsBalanced b (enter_both x b prev shorts) entered in
      record { long_side = done.long_side; short_side = done.short_side; books = done.books }

  finish-IsBalanced :
      (prev : Option (Bar Fixed)) (s : Simulation Fixed) → Balanced s → Balanced (finish x prev s)
  unfolding finish
  finish-IsBalanced none s h = h
  finish-IsBalanced (some last) s h =
      let longs = close_last x last s.long_pos s in
      let kept = close_last-IsBalanced x last true s.long_pos s refl h in
      if_cases Balanced x.close_positions_at_end (close_last x last longs.short_pos longs) s
        (λ k. close_last-IsBalanced x last false longs.short_pos longs refl kept) (λ k. h)

  run_bars-IsBalanced :
      (prev : Option (Bar Fixed)) (bs : List (Bar Fixed)) (s : Simulation Fixed)
      → Balanced s
      → Balanced (run_bars x prev bs s)
  unfolding run_bars
  run_bars-IsBalanced prev [] s h = finish-IsBalanced prev s h
  run_bars-IsBalanced prev (b ∷ bs) s h =
      run_bars-IsBalanced (some b) bs (step_bar x prev b s) (step_bar-IsBalanced prev b s h)

  -- The books of every run in the arithmetic of `Fixed`, whose sums are exact, over any candles and with any
  -- settings: the final balance, with the entry fees of the slots left open, is the initial balance with the net
  -- results of all trades, and a slot lies on its own side.
  pub run-IsBalanced : (bs : List (Bar Fixed)) → IsBalanced x.initial_balance (run x bs)
  unfolding run new_simulation
  run-IsBalanced bs =
      run_bars-IsBalanced none bs (new_simulation x)
        (record { long_side = tt; short_side = tt; books = books_start x.initial_balance })
