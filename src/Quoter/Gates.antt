-- ===== src/Quoter/Gates.antt =====
-- What keeps `calculate_quotes` from quoting (app/core/quoter.py): caps, pauses, the trend bias and the margin.
use pmm_simple.Prelude.{◌≡◌, refl, Bool, true, ◌||◌, some, [], arith, inl, inr, ◌==◌}
use Prim.Native.Nat.{◌+◌ as add_ℕ}
use pmm_simple.Float.{Float, ◌+◌, nought, le, ◌≼◌}
use pmm_simple.Quoter.Pricing.{PmmQuoter}
use pmm_simple.Quoter.{
  QuoteInputs, effective_regime, long_paused, short_paused, count_open, plan, bid_quotes,
  ask_quotes, calculate_quotes, margin_exhausted,
}
use pmm_simple.Quoter.Levels.{calculate_quotes_cases}

or_middle : (a b c : Bool) → b ≡ true → (a || (b || c)) ≡ true
or_middle a b c h = ground arith

or_last : (a b c : Bool) → c ≡ true → (a || (b || c)) ≡ true
or_last a b c h = ground arith

module _ {F : Type 0} ⦃f : Float F⦄ where
  -- Why no LONG entry may be quoted.
  pub data BlocksLong (q : PmmQuoter F) (i : QuoteInputs F) : Type 0 where
    long_at_cap : q.config.max_long_usdt ≼ i.long_value_usdt → BlocksLong q i
    long_pause : i.pause_long_entry ≡ true → BlocksLong q i
    bearish : q.config.trend_bias_enabled ≡ true → effective_regime i ≡ "BEARISH" → BlocksLong q i

  -- Why no SHORT entry may be quoted.
  pub data BlocksShort (q : PmmQuoter F) (i : QuoteInputs F) : Type 0 where
    short_at_cap : q.config.max_short_usdt ≼ i.short_value_usdt → BlocksShort q i
    short_pause : i.pause_short_entry ≡ true → BlocksShort q i
    bullish : q.config.trend_bias_enabled ≡ true → effective_regime i ≡ "BULLISH" → BlocksShort q i

  -- Why nothing may be quoted.
  pub data BlocksAll (q : PmmQuoter F) (i : QuoteInputs F) : Type 0 where
    no_mid : i.smoothed_mid ≼ nought → BlocksAll q i
    gross_cap :
        q.config.gross_exposure_cap_usdt ≼ i.long_value_usdt + i.short_value_usdt → BlocksAll q i
    no_margin : (m : F) → i.available_margin ≡ some m → m ≼ nought → BlocksAll q i
    both_blocked : BlocksLong q i → BlocksShort q i → BlocksAll q i

  cap-long :
      (q : PmmQuoter F) (i : QuoteInputs F) → BlocksLong q i → (plan q i).long_cap_reached ≡ true
  unfolding plan long_paused
  cap-long q i (long_at_cap h) = ground arith
  cap-long q i (long_pause h) = ground arith
  cap-long q i (bearish h k) = rw (h, k) (ground arith)

  cap-short :
      (q : PmmQuoter F) (i : QuoteInputs F) → BlocksShort q i → (plan q i).short_cap_reached ≡ true
  unfolding plan short_paused
  cap-short q i (short_at_cap h) = ground arith
  cap-short q i (short_pause h) = ground arith
  cap-short q i (bullish h k) = rw (h, k) (ground arith)

  gross-long :
      (q : PmmQuoter F) (i : QuoteInputs F)
      → q.config.gross_exposure_cap_usdt ≼ i.long_value_usdt + i.short_value_usdt
      → (plan q i).long_cap_reached ≡ true
  unfolding plan
  gross-long q i h = ground arith

  gross-short :
      (q : PmmQuoter F) (i : QuoteInputs F)
      → q.config.gross_exposure_cap_usdt ≼ i.long_value_usdt + i.short_value_usdt
      → (plan q i).short_cap_reached ≡ true
  unfolding plan
  gross-short q i h = ground arith

  active_lem :
      (q : PmmQuoter F) (i : QuoteInputs F)
      → (plan q i).active_sides
        ≡ add_ℕ (count_open (plan q i).long_cap_reached) (count_open (plan q i).short_cap_reached)
  unfolding plan
  active_lem q i = refl

  -- A LONG entry is never quoted at the LONG cap, while LONG entries are paused, or against a bearish trend.
  pub calculate_quotes_blocked_long :
      (q : PmmQuoter F) (i : QuoteInputs F) → BlocksLong q i → (calculate_quotes q i).0 ≡ []
  unfolding bid_quotes
  calculate_quotes_blocked_long q i b = elim (calculate_quotes_cases q i) [
    | inl h ↦ rw h refl
    | inr h ↦ rw h (rw (cap-long q i b) refl)
  ]

  -- A SHORT entry is never quoted at the SHORT cap, while SHORT entries are paused, or against a bullish trend.
  pub calculate_quotes_blocked_short :
      (q : PmmQuoter F) (i : QuoteInputs F) → BlocksShort q i → (calculate_quotes q i).1 ≡ []
  unfolding ask_quotes
  calculate_quotes_blocked_short q i b = elim (calculate_quotes_cases q i) [
    | inl h ↦ rw h refl
    | inr h ↦ rw h (rw (cap-short q i b) refl)
  ]

  idle :
      (q : PmmQuoter F) (i : QuoteInputs F)
      → (le i.smoothed_mid nought
          || ((plan q i).active_sides == 0 || margin_exhausted i.available_margin))
        ≡ true
      → calculate_quotes q i ≡ ([], [])
  unfolding calculate_quotes
  idle q i h = rw h refl

  idle_sides :
      (q : PmmQuoter F) (i : QuoteInputs F)
      → (plan q i).active_sides ≡ 0
      → calculate_quotes q i ≡ ([], [])
  idle_sides q i h = idle q i (
      or_middle (le i.smoothed_mid nought) ((plan q i).active_sides == 0)
        (margin_exhausted i.available_margin) (rw h refl))

  no_active :
      (q : PmmQuoter F) (i : QuoteInputs F)
      → (plan q i).long_cap_reached ≡ true
      → (plan q i).short_cap_reached ≡ true
      → calculate_quotes q i ≡ ([], [])
  no_active q i h k = idle_sides q i (rw (active_lem q i, h, k) refl)

  -- Nothing is quoted without a mid price, at the gross exposure cap, with no margin left, or where both sides
  -- are blocked.
  pub calculate_quotes_blocked :
      (q : PmmQuoter F) (i : QuoteInputs F) → BlocksAll q i → calculate_quotes q i ≡ ([], [])
  calculate_quotes_blocked q i (no_mid h) = idle q i (rw h refl)
  calculate_quotes_blocked q i (gross_cap h) = no_active q i (gross-long q i h) (gross-short q i h)
  calculate_quotes_blocked q i (no_margin m e h) = idle q i (
      or_last (le i.smoothed_mid nought) ((plan q i).active_sides == 0)
        (margin_exhausted i.available_margin) (rw (e, h) refl))
  calculate_quotes_blocked q i (both_blocked b c) = no_active q i (cap-long q i b) (cap-short q i c)
