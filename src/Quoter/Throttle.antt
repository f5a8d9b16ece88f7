-- ===== src/Quoter/Throttle.antt =====
-- Sequential quoting (app/core/quoter.py): the next level of an open slot, its cooldown and its price threshold.
use pmm_simple.Prelude.{
  ℕ, ◌≤◌, ◌≡◌, refl, Bool, true, false, ◌&&◌, ◌||◌, some, List, [], ◌∷◌, arith, inl, inr,
  if◌then◌else◌, leb, ◌==◌, length, All, and_true,
}
use pmm_simple.Float.{Float, ◌+◌, ◌*◌, nought, one, lit, le, lt, ◌≼◌}
use pmm_simple.Models.Config.{PairConfig}
use pmm_simple.Models.State.{sell, short, SidePositionState}
use pmm_simple.Quoter.Pricing.{PmmQuoter}
use pmm_simple.Quoter.Ladder.{check_price, levels_to_quote, levels_to_quote_ask}
use pmm_simple.Quoter.{QuoteInputs, plan, calculate_quotes}
use pmm_simple.Quoter.Levels.{
  ask_quotes-IsPlaceable, weaken, ask_quotes_bounded, calculate_quotes_cases,
}

or_false : (a b : Bool) → (a || b) ≡ false → (a ≡ false) × (b ≡ false)
or_false true b h = (h, ground arith)
or_false false b h = (refl, h)

-- The levels that the three tests of an open slot leave.
guarded :
    (P : List ℕ → Type 0) (flat blocked due : Bool) (l : ℕ)
    → flat ≡ false
    → P []
    → (blocked ≡ false → due ≡ true → P (l ∷ []))
    → P (if flat then 0 ∷ [] else if blocked then [] else if due then l ∷ [] else [])
guarded P true blocked due l h e g = ground arith
guarded P false true due l h e g = e
guarded P false false true l h e g = g refl refl
guarded P false false false l h e g = e

module _ {F : Type 0} ⦃f : Float F⦄ where
  -- An open slot: an amount above the dust limit and at least one filled level.
  pub record IsOpen (s : SidePositionState F) : Type 0 where
    pub amount_open : le s.amount (lit 1 7) ≡ false
    pub levels_open : (s.filled_levels_count == 0) ≡ false

  -- The level is the slot's next one, it exists, and its cooldown is over.
  pub record IsNext (c : PairConfig F) (s : SidePositionState F) (now : F) (level : ℕ)
      : Type 0 where
    pub at : level ≡ s.filled_levels_count
    pub exists : leb c.order_levels level ≡ false
    pub cooled : lt now s.next_allowed_level_time ≡ false

  levels_to_quote-open :
      (c : PairConfig F) (factor : F) (reached : F → F → Bool) (s : SidePositionState F)
      (now price : F)
      → IsOpen s
      → let ls = levels_to_quote c factor reached (some s) now price in
        (length ls ≤ 1)
        × All (λ l. IsNext c s now l × (reached price (s.entry_price * factor) ≡ true)) ls
  unfolding levels_to_quote
  levels_to_quote-open c factor reached s now price o =
      guarded
        (λ ls.
          (length ls ≤ 1)
          × All (λ l. IsNext c s now l × (reached price (s.entry_price * factor) ≡ true)) ls)
        (le s.amount (lit 1 7) || s.filled_levels_count == 0)
        (leb c.order_levels s.filled_levels_count || lt now s.next_allowed_level_time)
        (reached price (s.entry_price * factor) && lt nought (s.entry_price * factor))
        s.filled_levels_count (rw (o.amount_open, o.levels_open) refl) (omega arith, tt)
        (λ h d.
          let hs = or_false _ _ h in
          (
            omega arith,
            ((record { at = refl; exists = hs.0; cooled = hs.1 }, (and_true _ _ d).0), tt),
          ))

  -- A SHORT slot that is open: at most one ask, at the level that the fills have reached, never before the
  -- level cooldown is over, and only at or above the entry price plus the level spread.
  pub calculate_quotes_throttled_asks :
      (q : PmmQuoter F) (i : QuoteInputs F) (s : SidePositionState F)
      → i.short_state ≡ some s
      → IsOpen s
      → let asks = (calculate_quotes q i).1 in
        (length asks ≤ 1)
        × All
            (λ x.
              IsNext q.config s i.now x.level
              × (s.entry_price * (one + q.config.order_level_spread)
                  ≼ check_price i.mark_price i.smoothed_mid))
            asks
  unfolding levels_to_quote_ask
  calculate_quotes_throttled_asks q i s e o =
      let due =
        levels_to_quote-open q.config (one + q.config.order_level_spread) (λ p t. le t p) s i.now
          (check_price i.mark_price i.smoothed_mid) o in
      elim (calculate_quotes_cases q i) [
        | inl h ↦ rw h (omega arith, tt)
        | inr h ↦ rw h (
          ground (arith, due.0, e, ask_quotes_bounded q i (plan q i)),
          (weaken q sell short _ _ (
              ask_quotes-IsPlaceable q i (plan q i)
                (λ l.
                  IsNext q.config s i.now l
                  × (s.entry_price * (one + q.config.order_level_spread)
                      ≼ check_price i.mark_price i.smoothed_mid))
                (rw e due.1))).1,
        )
      ]
