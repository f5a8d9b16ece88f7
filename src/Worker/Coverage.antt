-- ===== src/Worker/Coverage.antt =====
-- The active quotes after a refresh (app/core/worker.py, `_requote`): each stands for a target.
use pmm_simple.Prelude.{
  ◌≡◌, ◌∙◌, refl, ap, ◌⊎◌, inl, inr, ◌||◌, Bool, true, false, Option, none, some, List, [], ◌∷◌,
  map, All, All-append, same_text, and_true, if◌then◌else◌, if_cases,
}
use mathlib.Core.Path.{subst}
use pmm_simple.Float.{Float, ◌-◌, ◌*◌, ◌/◌, nought, lit, lt, max, abs, ◌≼◌, ◌≺◌}
use pmm_simple.Models.State.{OrderSide, PositionSide}
use pmm_simple.Quoter.{QuoteLevel}
use pmm_simple.Quoter.Pricing.{PmmQuoter}
use pmm_simple.Executor.Ids.{Text}
use pmm_simple.Worker.Quoting.{
  ActiveQuote, QuoteGateway, same_order_side, same_position_side, is_match, take_target,
  cons_target, free, drop_quote, retain_one, retain, quote_id, put_quote, accepted, place, refresh,
}

same_order-eq : (a b : OrderSide) → same_order_side a b ≡ true → a ≡ b
same_order-eq OrderSide.buy OrderSide.buy h = refl
same_order-eq OrderSide.sell OrderSide.sell h = refl
same_order-eq OrderSide.buy OrderSide.sell h = cc
same_order-eq OrderSide.sell OrderSide.buy h = cc

same_position-eq : (a b : PositionSide) → same_position_side a b ≡ true → a ≡ b
same_position-eq PositionSide.long PositionSide.long h = refl
same_position-eq PositionSide.short PositionSide.short h = refl
same_position-eq PositionSide.both PositionSide.both h = refl
same_position-eq PositionSide.long PositionSide.short h = cc
same_position-eq PositionSide.long PositionSide.both h = cc
same_position-eq PositionSide.short PositionSide.long h = cc
same_position-eq PositionSide.short PositionSide.both h = cc
same_position-eq PositionSide.both PositionSide.long h = cc
same_position-eq PositionSide.both PositionSide.short h = cc

or_split : (a b : Bool) → (a || b) ≡ true → (a ≡ true) ⊎ (b ≡ true)
or_split true b h = inl refl
or_split false b h = inr h

module _ {F : Type 0} ⦃f : Float F⦄ (q : PmmQuoter F) where
  -- The tick and the step, with the values that stand for a missing one.
  abbrev pub tick : F
  tick = if lt nought q.tick_size then q.tick_size else lit 1 2

  abbrev pub step : F
  step = if lt nought q.step_size then q.step_size else lit 1 3

  -- The price within 1.01 ticks of the target's, and the amount within a step of it or by less than 5%.
  abbrev pub IsClose : ActiveQuote F → QuoteLevel F → Type 0
  IsClose o t =
      (abs (o.price - t.price) ≼ tick * lit 101 2)
      × ((abs (o.amount - t.amount) ≼ step)
          ⊎ (abs (o.amount - t.amount) / max (lit 1 5) t.amount ≺ lit 5 2))

  -- The quote has the target's sides, and its price and amount or ones close to them.
  abbrev pub Stands : ActiveQuote F → QuoteLevel F → Type 0
  Stands o t =
      (o.side ≡ t.side)
      × (o.position_side ≡ t.position_side)
      × (((o.price ≡ t.price) × (o.amount ≡ t.amount)) ⊎ IsClose o t)

  abbrev pub StandsForOne : List (QuoteLevel F) → ActiveQuote F → Type 0
  StandsForOne [] o = ⊥
  StandsForOne (t ∷ ts) o = Stands o t ⊎ StandsForOne ts o

  abbrev targets_of : List (QuoteLevel F × Bool) → List (QuoteLevel F)
  targets_of ts = map (λ (p : QuoteLevel F × Bool). p.0) ts

  match-Stands : (o : ActiveQuote F) (t : QuoteLevel F) → is_match q o t ≡ true → Stands o t
  unfolding is_match
  match-Stands o t h =
      let (side, rest) = and_true _ _ h in
      let (position, near) = and_true _ _ rest in
      let (price, amount) = and_true _ _ near in
      (
        same_order-eq o.side t.side side,
        same_position-eq o.position_side t.position_side position,
        inr (price, or_split _ _ amount),
      )

  -- What `take_target` finds: a target of the list, whose targets stay the same.
  abbrev Found :
      ActiveQuote F → List (QuoteLevel F × Bool) → Option (List (QuoteLevel F × Bool)) → Type 0
  Found o ts none = Unit
  Found o ts (some us) = StandsForOne (targets_of ts) o × (targets_of us ≡ targets_of ts)

  cons_target-Found :
      (o : ActiveQuote F) (p : QuoteLevel F × Bool) (ts : List (QuoteLevel F × Bool))
      (found : Option (List (QuoteLevel F × Bool)))
      → Found o ts found
      → Found o (p ∷ ts) (cons_target p found)
  cons_target-Found o p ts none h = tt
  cons_target-Found o p ts (some us) (s, e) = (inr s, ap (λ z. p.0 ∷ z) e)

  take_target-Found :
      (o : ActiveQuote F) (ts : List (QuoteLevel F × Bool)) → Found o ts (take_target q o ts)
  unfolding take_target
  take_target-Found o [] = tt
  take_target-Found o ((t, true) ∷ ts) =
      cons_target-Found o (t, true) ts (take_target q o ts) (take_target-Found o ts)
  take_target-Found o ((t, false) ∷ ts) =
      if_cases (Found o ((t, false) ∷ ts)) (is_match q o t) (some ((t, true) ∷ ts))
        (cons_target (t, false) (take_target q o ts)) (λ h. (inl (match-Stands o t h), refl))
        (λ h. cons_target-Found o (t, false) ts (take_target q o ts) (take_target-Found o ts))

  targets_of-free : (ts : List (QuoteLevel F)) → targets_of (map free ts) ≡ ts
  targets_of-free [] = refl
  targets_of-free (t ∷ ts) = ap (λ z. t ∷ z) (targets_of-free ts)

  put_quote-All :
      (P : ActiveQuote F → Type 0) (o : ActiveQuote F) (os : List (ActiveQuote F))
      → P o
      → All P os
      → All P (put_quote o os)
  unfolding put_quote
  put_quote-All P o [] h a = (h, tt)
  put_quote-All P o (x ∷ xs) h (b, a) =
      if_cases (All P) (same_text x.id o.id) (o ∷ xs) (x ∷ put_quote o xs) (λ _. (h, a))
        (λ _. (b, put_quote-All P o xs h a))

  accepted-All :
      (P : ActiveQuote F → Type 0) (client_id : Text) (t : QuoteLevel F)
      (resp : Option (Option Text)) (os : List (ActiveQuote F))
      → ((o : ActiveQuote F) → Stands o t → P o)
      → All P os
      → All P (accepted client_id t resp os)
  unfolding accepted
  accepted-All P client_id t none os k a = a
  accepted-All P client_id t (some id) os k a =
      put_quote-All P _ os (k _ (refl, refl, inl (refl, refl))) a

module _ {W F : Type 0} ⦃f : Float F⦄ (g : QuoteGateway W F) (q : PmmQuoter F) where
  retain_one-StandsForOne :
      (o : ActiveQuote F) (ts : List (QuoteLevel F × Bool))
      (found : Option (List (QuoteLevel F × Bool))) (w : W)
      → ((id : Text) (v : W) → (g.cancel_order id v).1 ≡ true)
      → Found q o ts found
      → let r = retain_one g o found ts w in
        All (StandsForOne q (targets_of q ts)) r.1 × (targets_of q r.2 ≡ targets_of q ts)
  unfolding retain_one drop_quote
  retain_one-StandsForOne o ts none w cancels h = rw (cancels o.id w) (tt, refl)
  retain_one-StandsForOne o ts (some us) w cancels (s, e) = ((s, tt), e)

  retain-StandsForOne :
      (os : List (ActiveQuote F)) (ts : List (QuoteLevel F × Bool)) (w : W)
      → ((id : Text) (v : W) → (g.cancel_order id v).1 ≡ true)
      → let r = retain g q os ts w in
        All (StandsForOne q (targets_of q ts)) r.1 × (targets_of q r.2 ≡ targets_of q ts)
  unfolding retain
  retain-StandsForOne [] ts w cancels = (tt, refl)
  retain-StandsForOne (o ∷ os) ts w cancels =
      let r = retain_one g o (take_target q o ts) ts w in
      let (stays, same) =
        retain_one-StandsForOne o ts (take_target q o ts) w cancels (take_target-Found q o ts) in
      let (kept, same') = retain-StandsForOne os (r.2) (r.0) cancels in
      (
        All-append (StandsForOne q (targets_of q ts)) (r.1) (retain g q os (r.2) (r.0)).1 stays
            (subst (λ l. All (StandsForOne q l) (retain g q os (r.2) (r.0)).1) same kept),
        same' ∙ same,
      )

  place-All :
      (P : ActiveQuote F → Type 0) (ts : List (QuoteLevel F × Bool)) (os : List (ActiveQuote F))
      (w : W)
      → ((o : ActiveQuote F) → StandsForOne q (targets_of q ts) o → P o)
      → All P os
      → All P (place g ts os w).1
  unfolding place
  place-All P [] os w k a = a
  place-All P ((t, true) ∷ ts) os w k a = place-All P ts os w (λ o h. k o (inr h)) a
  place-All P ((t, false) ∷ ts) os w k a =
      let id = quote_id g t w in
      let r = g.create_quote_order t id w in
      place-All P ts (accepted id t (r.1) os) (r.0) (λ o h. k o (inr h))
        (accepted-All q P id t (r.1) os (λ o h. k o (inl h)) a)

  -- Where the exchange accepts every cancellation, no stale quote is left: after the exchange for the targets,
  -- whatever was active before and whichever new orders are accepted, each active quote stands for one of the
  -- targets, with its two sides, and with its price and amount, or a price within 1.01 ticks of it and an amount
  -- within a step of it or by less than 5%.
  pub refresh-StandsForOne :
      (targets : List (QuoteLevel F)) (active : List (ActiveQuote F)) (w : W)
      → ((id : Text) (v : W) → (g.cancel_order id v).1 ≡ true)
      → All (StandsForOne q targets) (refresh g q targets active w).1
  unfolding refresh
  refresh-StandsForOne targets active w cancels =
      let r = retain g q active (map free targets) w in
      let (kept, same) = retain-StandsForOne active (map free targets) w cancels in
      let whole = targets_of-free q targets in
      place-All (StandsForOne q targets) (r.2) (r.1) (r.0)
        (λ o h. subst (λ l. StandsForOne q l o) (same ∙ whole) h)
        (subst (λ l. All (StandsForOne q l) (r.1)) whole kept)
