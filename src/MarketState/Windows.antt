-- ===== src/MarketState/Windows.antt =====
-- The price windows (app/core/market_state.py): eviction from the front, and the volatility multiplier.
use pmm_simple.Prelude.{
  ◌≡◌, refl, ap, sym, ◌&&◌, ◌++◌, Option, some, none, List, [], ◌∷◌, All, All-append, Bool-cases,
  inl, inr, arith, if◌then◌else◌, if_cases, if_true,
}
use pmm_simple.Float.{Float, FloatLaws, ◌-◌, nought, one, lit, le, lt, min, ◌≼◌, ◌≺◌}
use pmm_simple.Float.Order
use pmm_simple.MarketState.{
  Sample, MarketState, evict, prices, recent_prices, track, tracked_price, positive_mark,
  update_mid, update_top_of_book, is_valid_book, cap_multiplier, get_volatility_multiplier,
}

module _ {F : Type 0} ⦃f : Float F⦄ where
  -- The samples are in the order of their times.
  abbrev pub IsSorted : List (Sample F) → Type 0
  IsSorted [] = Unit
  IsSorted (p ∷ h) = All (λ (q : Sample F). p.at ≼ q.at) h × IsSorted h

  recent_prices_lem :
      (now lookback : F) (h : List (Sample F))
      → All (λ (q : Sample F). (now - q.at) ≼ lookback) h
      → recent_prices now lookback h ≡ prices h
  unfolding recent_prices
  recent_prices_lem now lookback [] a = refl
  recent_prices_lem now lookback (p ∷ h) (e, a) =
      rw e (ap (λ z. p.price ∷ z) (recent_prices_lem now lookback h a))

module _ {F : Type 0} ⦃f : Float F⦄ ⦃laws : FloatLaws F⦄ where
  open laws use {le_refl, le_trans, sub_le, lit_le}

  later_recent :
      (now lookback at : F) (h : List (Sample F))
      → (now - at) ≼ lookback
      → All (λ (q : Sample F). at ≼ q.at) h
      → All (λ (q : Sample F). (now - q.at) ≼ lookback) h
  later_recent now lookback at [] e a = tt
  later_recent now lookback at (q ∷ h) e (b, a) = (
    le_trans _ _ _ (sub_le now now q.at at (le_refl now) b) e,
    later_recent now lookback at h e a,
  )

  -- In a history whose times do not decrease, the eviction from the front leaves the prices of the last
  -- `lookback` seconds, all of them and no other.
  pub evict-recent_prices :
      (now lookback : F) (h : List (Sample F))
      → IsSorted h
      → prices (evict now lookback h) ≡ recent_prices now lookback h
  unfolding evict recent_prices
  evict-recent_prices now lookback [] s = refl
  evict-recent_prices now lookback (p ∷ h) (a, s) = elim (Bool-cases (le (now - p.at) lookback)) [
    | inl e ↦ rw e (
        ap (λ z. p.price ∷ z)
          (sym (recent_prices_lem now lookback h (later_recent now lookback p.at h e a))))
    | inr e ↦ rw e (evict-recent_prices now lookback h s)
  ]

  evict-All :
      (P : Sample F → Type 0) (now lookback : F) (h : List (Sample F))
      → All P h
      → All P (evict now lookback h)
  unfolding evict
  evict-All P now lookback [] a = tt
  evict-All P now lookback (p ∷ h) (b, a) =
      if_cases (All P) (lt lookback (now - p.at)) _ (p ∷ h) (λ _. evict-All P now lookback h a)
        (λ _. (b, a))

  evict-IsSorted :
      (now lookback : F) (h : List (Sample F)) → IsSorted h → IsSorted (evict now lookback h)
  unfolding evict
  evict-IsSorted now lookback [] s = tt
  evict-IsSorted now lookback (p ∷ h) (a, s) =
      if_cases IsSorted (lt lookback (now - p.at)) _ (p ∷ h) (λ _. evict-IsSorted now lookback h s)
        (λ _. (a, s))

  -- What the eviction leaves of a sorted history is no older than `lookback`.
  evict_recent :
      (now lookback : F) (h : List (Sample F))
      → IsSorted h
      → All (λ (q : Sample F). (now - q.at) ≼ lookback) (evict now lookback h)
  unfolding evict
  evict_recent now lookback [] s = tt
  evict_recent now lookback (p ∷ h) (a, s) = elim (Bool-cases (le (now - p.at) lookback)) [
    | inl e ↦ rw e (e, later_recent now lookback p.at h e a)
    | inr e ↦ rw e (evict_recent now lookback h s)
  ]

  append-IsSorted :
      (h : List (Sample F)) (p : Sample F)
      → All (λ (q : Sample F). q.at ≼ p.at) h
      → IsSorted h
      → IsSorted (h ++ (p ∷ []))
  append-IsSorted [] p a s = (tt, tt)
  append-IsSorted (q ∷ h) p (b, a) (c, s) =
      (All-append _ h (p ∷ []) c (b, tt), append-IsSorted h p a s)

  -- The window is sorted, and no sample is later than `now`.
  pub record IsWindow (now : F) (m : MarketState F) : Type 0 where
    pub sorted : IsSorted m.price_history_60s
    pub past : All (λ (q : Sample F). q.at ≼ now) m.price_history_60s

  track-IsWindow :
      (now price : F) (m : MarketState F) → IsWindow now m → IsWindow now (track now price m)
  unfolding track
  track-IsWindow now price m w =
      let new : Sample F = record { at = now; price = price } in
      let lookback = m.config.circuit_breaker_lookback_sec in
      let longer = m.price_history_60s ++ (new ∷ []) in
      if_cases (IsWindow now) (lt nought price)
        (record m { price_history_60s = evict now lookback longer }) m
        (λ _. record {
          sorted =
              evict-IsSorted now lookback longer
                (append-IsSorted m.price_history_60s new w.past w.sorted);
          past =
              evict-All (λ (q : Sample F). q.at ≼ now) now lookback longer
                (All-append (λ (q : Sample F). q.at ≼ now) m.price_history_60s (new ∷ []) w.past
                  (le_refl now, tt));
        })
        (λ _. w)

  track_recent :
      (now price : F) (m : MarketState F)
      → nought ≺ price
      → IsWindow now m
      → All
          (λ (q : Sample F). (now - q.at) ≼ m.config.circuit_breaker_lookback_sec)
          (track now price m).price_history_60s
  unfolding track
  track_recent now price m h w =
      let new : Sample F = record { at = now; price = price } in
      if_true
        (λ (z : MarketState F).
          All (λ (q : Sample F). (now - q.at) ≼ m.config.circuit_breaker_lookback_sec)
            z.price_history_60s)
        (lt nought price) _ _ h
        (evict_recent now m.config.circuit_breaker_lookback_sec (m.price_history_60s ++ (new ∷ []))
          (append-IsSorted m.price_history_60s new w.past w.sorted))

  update_mid-window :
      (now : F) (m : MarketState F) → (update_mid now m).price_history_60s ≡ m.price_history_60s
  unfolding update_mid
  update_mid-window now m =
      let same : MarketState F → Type 0 = λ z. z.price_history_60s ≡ m.price_history_60s in
      if_cases same (is_valid_book m.best_bid m.best_ask) _ _ (λ _. refl)
        (λ _.
          if_cases same (lt nought m.mark_price && le m.raw_mid nought) _ m (λ _. refl) (λ _. refl))

  -- Where the breaker's window is in the order of time, with nothing later than a tick, the tick keeps it so, and
  -- where the price it tracks is positive, the window then has no sample older than the breaker's `lookback`.
  pub update_top_of_book-IsWindow :
      (now bid ask : F) (mark : Option F) (m : MarketState F)
      → IsWindow now m
      → let m' = update_top_of_book now bid ask mark m in
        IsWindow now m'
        × (nought ≺ tracked_price bid ask mark
            → All
                (λ (q : Sample F). (now - q.at) ≼ m.config.circuit_breaker_lookback_sec)
                m'.price_history_60s)
  unfolding update_top_of_book
  update_top_of_book-IsWindow now bid ask mark m w =
      let quoted : MarketState F = record m {
        best_bid = if lt nought bid then bid else m.best_bid;
        best_ask = if lt nought ask then ask else m.best_ask;
        mark_price = elim (positive_mark mark) [ some p ↦ p | none ↦ m.mark_price ];
      } in
      let before : IsWindow now quoted = record { sorted = w.sorted; past = w.past } in
      let tracked = track now (tracked_price bid ask mark) quoted in
      let t = track-IsWindow now (tracked_price bid ask mark) quoted before in
      let same = update_mid-window now tracked in
      (
        record { sorted = rw same t.sorted; past = rw same t.past },
        λ h. rw same (track_recent now (tracked_price bid ask mark) quoted h before),
      )

  abbrev IsCapped : F → Type 0
  IsCapped v = (one ≼ v) × (v ≼ lit 40 1)

  cap_multiplier-IsCapped : (ratio : F) → IsCapped (cap_multiplier ratio)
  unfolding cap_multiplier
  cap_multiplier-IsCapped ratio =
      let high : F = lit 40 1 in
      let small : one ≼ high = lit_le 1 0 40 1 (omega arith) in
      (
        Order.le-max_left one (min ratio high),
        Order.max-le one (min ratio high) high small (Order.min-le_right ratio high),
      )

  -- The volatility multiplier is between 1 and 4 on every branch, whatever the square root returns.
  pub get_volatility_multiplier_bounds :
      (sqrt : F → F) (now : F) (m : MarketState F)
      → (one ≼ get_volatility_multiplier sqrt now m)
        × (get_volatility_multiplier sqrt now m ≼ lit 40 1)
  unfolding get_volatility_multiplier
  get_volatility_multiplier_bounds sqrt now m =
      if_cases IsCapped _ one (cap_multiplier _) (λ _. (le_refl one, lit_le 1 0 40 1 (omega arith)))
        (λ _. cap_multiplier-IsCapped _)
