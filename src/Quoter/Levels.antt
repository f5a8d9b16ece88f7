-- ===== src/Quoter/Levels.antt =====
-- What `calculate_quotes` puts on the book (app/core/quoter.py): each quote, and the levels they stand at.
use pmm_simple.Prelude.{
  ℕ, suc, ◌≤◌, ◌≡◌, refl, sym, ap, Bool, true, false, not, ◌&&◌, ◌||◌, Option, none, some, List, [],
  ◌∷◌, arith, Bool-cases, ◌⊎◌, inl, inr, if◌then◌else◌, ◌==◌, length, All,
}
use mathlib.Core.Path.{subst}
use pmm_simple.Float.{Float, nought, le, ◌≼◌, ◌≺◌}
use pmm_simple.Models.State.{PositionSide, long, short, OrderSide, buy, sell}
use pmm_simple.Quoter.Pricing.{PmmQuoter}
use pmm_simple.Quoter.Ladder.{levels_to_quote_bid, levels_to_quote_ask}
use pmm_simple.Quoter.{
  QuoteLevel, QuoteInputs, QuotePlan, Outcome, quoted, break_loop, continue_loop, plan, quote_at,
  quote_step, quote_loop, bid_quotes, ask_quotes, calculate_quotes, margin_exhausted,
}

IsAnyLevel : ℕ → Type 0
IsAnyLevel l = Unit {0}

module _ {F : Type 0} ⦃f : Float F⦄ where
  -- A quote that the exchange accepts as an entry of the named slot.
  pub record IsPlaceable (q : PmmQuoter F) (side : OrderSide) (position_side : PositionSide)
      (quote : QuoteLevel F) : Type 0 where
    pub has_side : quote.side ≡ side
    pub has_position_side : quote.position_side ≡ position_side
    pub price_pos : nought ≺ quote.price
    pub amount_pos : nought ≺ quote.amount
    pub worth : q.min_notional ≼ quote.notional

  -- What a turn says of the quote it gives, if it gives one.
  pub Gives : (QuoteLevel F → Type 0) → Outcome F → Type 0
  Gives P break_loop = Unit
  Gives P continue_loop = Unit
  Gives P (quoted quote left) = P quote

  -- A quote that a turn gives is given under the test that its quantity and its worth pass.
  tested :
      (P : QuoteLevel F → Type 0) (stop : Bool) (a b : Bool) (quote : QuoteLevel F)
      (left : Option F)
      → (a ≡ true → b ≡ true → P quote)
      → Gives P (if stop then break_loop else if a && b then quoted quote left else continue_loop)
  unfolding Gives
  tested P true a b quote left h = tt
  tested P false true true quote left h = h refl refl
  tested P false true false quote left h = tt
  tested P false false b quote left h = tt

  quote_at-IsPlaceable :
      (q : PmmQuoter F) (side : OrderSide) (ps : PositionSide) (value limit : F) (l : ℕ)
      (planned price : F) (budget : Option F)
      → nought ≺ price
      → Gives
          (λ x. IsPlaceable q side ps x × (x.level ≡ l))
          (quote_at q side ps value limit l planned price budget)
  unfolding quote_at
  quote_at-IsPlaceable q side ps value limit l planned price budget h =
      tested (λ x. IsPlaceable q side ps x × (x.level ≡ l)) _ _ _ _ _
        (λ a b. (
          record {
            has_side = refl;
            has_position_side = refl;
            price_pos = h;
            amount_pos = a;
            worth = b;
          },
          refl,
        ))

  stopped :
      (P : QuoteLevel F → Type 0) (stop : Bool) (o : Outcome F)
      → Gives P o
      → Gives P (if stop then break_loop else o)
  unfolding Gives
  stopped P true o h = tt
  stopped P false o h = h

  quote_step-IsPlaceable :
      (q : PmmQuoter F) (side : OrderSide) (ps : PositionSide) (value limit : F) (l : ℕ)
      (planned : F) (price budget : Option F)
      → Gives
          (λ x. IsPlaceable q side ps x × (x.level ≡ l))
          (quote_step q side ps value limit l planned price budget)
  unfolding quote_step Gives
  quote_step-IsPlaceable q side ps value limit l planned none budget = stopped _ _ continue_loop tt
  quote_step-IsPlaceable q side ps value limit l planned (some price) budget =
      stopped (λ x. IsPlaceable q side ps x × (x.level ≡ l)) _
        (if le price nought
          then continue_loop
          else quote_at q side ps value limit l planned price budget)
        (elim (Bool-cases (le price nought)) [
          | inl h ↦ rw h tt
          | inr h ↦
              rw h (quote_at-IsPlaceable q side ps value limit l planned price budget (ap not h))
        ])

  -- The quotes after a turn.
  abbrev resume : Outcome F → Option F → (Option F → List (QuoteLevel F)) → List (QuoteLevel F)
  resume o budget rest = elim o [
    | break_loop ↦ []
    | continue_loop ↦ rest budget
    | quoted quote left ↦ quote ∷ rest left
  ]

  resume-All :
      (P Q : QuoteLevel F → Type 0) (o : Outcome F) (budget : Option F)
      (rest : Option F → List (QuoteLevel F))
      → ((x : QuoteLevel F) → P x → Q x)
      → Gives P o
      → ((b : Option F) → All Q (rest b))
      → All Q (resume o budget rest)
  unfolding Gives
  resume-All P Q break_loop budget rest f h r = tt
  resume-All P Q continue_loop budget rest f h r = r budget
  resume-All P Q (quoted quote left) budget rest f h r = (f quote h, r left)

  length-resume :
      (o : Outcome F) (budget : Option F) (rest : Option F → List (QuoteLevel F)) (n : ℕ)
      → ((b : Option F) → length (rest b) ≤ n)
      → length (resume o budget rest) ≤ suc n
  length-resume break_loop budget rest n h = omega arith
  length-resume continue_loop budget rest n h = omega (arith, h budget)
  length-resume (quoted quote left) budget rest n h = omega (arith, h left)

  -- The loop quotes what it is asked to quote: what holds of the levels given holds of the quotes' levels.
  quote_loop-IsPlaceable :
      (q : PmmQuoter F) (side : OrderSide) (ps : PositionSide) (value limit : F) (planned : ℕ → F)
      (price : ℕ → Option F) (R : ℕ → Type 0) (ls : List ℕ) (budget : Option F)
      → All R ls
      → All
          (λ x. IsPlaceable q side ps x × R x.level)
          (quote_loop q side ps value limit planned price ls budget)
  unfolding quote_loop
  quote_loop-IsPlaceable q side ps value limit planned price R [] budget r = tt
  quote_loop-IsPlaceable q side ps value limit planned price R (l ∷ ls) budget r =
      resume-All (λ x. IsPlaceable q side ps x × (x.level ≡ l)) _
        (quote_step q side ps value limit l (planned l) (price l) budget) budget
        (quote_loop q side ps value limit planned price ls) (λ x h. (h.0, subst R (sym h.1) r.0))
        (quote_step-IsPlaceable q side ps value limit l (planned l) (price l) budget)
        (λ b. quote_loop-IsPlaceable q side ps value limit planned price R ls b r.1)

  -- No more quotes than levels.
  pub quote_loop_bounded :
      (q : PmmQuoter F) (side : OrderSide) (ps : PositionSide) (value limit : F) (planned : ℕ → F)
      (price : ℕ → Option F) (ls : List ℕ) (budget : Option F)
      → length (quote_loop q side ps value limit planned price ls budget) ≤ length ls
  unfolding quote_loop
  quote_loop_bounded q side ps value limit planned price [] budget = omega arith
  quote_loop_bounded q side ps value limit planned price (l ∷ ls) budget =
      length-resume (quote_step q side ps value limit l (planned l) (price l) budget) budget
        (quote_loop q side ps value limit planned price ls) _
        (quote_loop_bounded q side ps value limit planned price ls)

  pub weaken :
      (q : PmmQuoter F) (side : OrderSide) (ps : PositionSide) (R : ℕ → Type 0)
      (xs : List (QuoteLevel F))
      → All (λ x. IsPlaceable q side ps x × R x.level) xs
      → All (IsPlaceable q side ps) xs × All (λ x. R x.level) xs
  weaken q side ps R [] h = (tt, tt)
  weaken q side ps R (x ∷ xs) h =
      let rest = weaken q side ps R xs h.1 in ((h.0.0, rest.0), (h.0.1, rest.1))

  pub bid_quotes-IsPlaceable :
      (q : PmmQuoter F) (i : QuoteInputs F) (p : QuotePlan F) (R : ℕ → Type 0)
      → All R (levels_to_quote_bid q.config i.long_state i.now i.mark_price i.smoothed_mid)
      → All (λ x. IsPlaceable q buy long x × R x.level) (bid_quotes q i p)
  unfolding bid_quotes
  bid_quotes-IsPlaceable q i p R r = elim (Bool-cases p.long_cap_reached) [
    | inl h ↦ rw h tt
    | inr h ↦ rw h (quote_loop-IsPlaceable q buy long _ _ _ _ R _ _ r)
  ]

  pub ask_quotes-IsPlaceable :
      (q : PmmQuoter F) (i : QuoteInputs F) (p : QuotePlan F) (R : ℕ → Type 0)
      → All R (levels_to_quote_ask q.config i.short_state i.now i.mark_price i.smoothed_mid)
      → All (λ x. IsPlaceable q sell short x × R x.level) (ask_quotes q i p)
  unfolding ask_quotes
  ask_quotes-IsPlaceable q i p R r = elim (Bool-cases p.short_cap_reached) [
    | inl h ↦ rw h tt
    | inr h ↦ rw h (quote_loop-IsPlaceable q sell short _ _ _ _ R _ _ r)
  ]

  pub bid_quotes_bounded :
      (q : PmmQuoter F) (i : QuoteInputs F) (p : QuotePlan F)
      → length (bid_quotes q i p)
        ≤ length (levels_to_quote_bid q.config i.long_state i.now i.mark_price i.smoothed_mid)
  unfolding bid_quotes
  bid_quotes_bounded q i p = elim (Bool-cases p.long_cap_reached) [
    | inl h ↦ rw h (omega arith)
    | inr h ↦ rw h (quote_loop_bounded q buy long _ _ _ _ _ _)
  ]

  pub ask_quotes_bounded :
      (q : PmmQuoter F) (i : QuoteInputs F) (p : QuotePlan F)
      → length (ask_quotes q i p)
        ≤ length (levels_to_quote_ask q.config i.short_state i.now i.mark_price i.smoothed_mid)
  unfolding ask_quotes
  ask_quotes_bounded q i p = elim (Bool-cases p.short_cap_reached) [
    | inl h ↦ rw h (omega arith)
    | inr h ↦ rw h (quote_loop_bounded q sell short _ _ _ _ _ _)
  ]

  -- A call answers two empty lists, or both loops' quotes.
  pub calculate_quotes_cases :
      (q : PmmQuoter F) (i : QuoteInputs F)
      → (calculate_quotes q i ≡ ([], []))
        ⊎ (calculate_quotes q i ≡ (bid_quotes q i (plan q i), ask_quotes q i (plan q i)))
  unfolding calculate_quotes
  calculate_quotes_cases q i =
      elim (Bool-cases (
        le i.smoothed_mid nought
        || ((plan q i).active_sides == 0 || margin_exhausted i.available_margin))) [
          | inl h ↦ inl (rw h refl)
          | inr h ↦ inr (rw h refl)
        ]
