-- ===== src/Funding/Reconcile/Absent.antt =====
-- The reconciliation and the positions that no exchange lists (app/core/fr_execution/position_tracker.py).
use pmm_simple.Prelude.{
  ℕ, ◌≡◌, refl, ◌∙◌, false, Option, none, some, List, [], ◌∷◌, All, arith, Bool-cases, inl, inr,
  codes, if_cases, if◌then◌else◌,
}
use pmm_simple.Float.{Float, nought, abs}
use pmm_simple.Models.State.{PositionSide, is_long}
use pmm_simple.Funding.Names.{Name, name_eq, canon}
use pmm_simple.Funding.NameSets.{name_eq_sound}
use pmm_simple.Funding.Canonical.{canon_idempotent}
use pmm_simple.Funding.Legs.{DualLegPosition, recalculate}
use pmm_simple.Funding.Gateway.{ExchangePosition}
use pmm_simple.Funding.PairTracker.{
  FrPositionTracker, lookup, store, new_position, get_or_create_position, get_position, update_leg,
  updated,
}
use pmm_simple.Funding.Reconcile.{
  reconcile_position, reconcile_all, recalculate_all, reconcile_with_exchange_positions,
  binance_side, bybit_side,
}

module _ {F : Type 0} ⦃f : Float F⦄ where
  -- None of the listed positions is of that canonical symbol.
  abbrev pub IsUnlisted : Name → List (ExchangePosition F) → Type 0
  IsUnlisted key = All (λ (raw : ExchangePosition F). name_eq (canon raw.symbol) key ≡ false)

  lookup-store_other :
      (k key : Name) (p : DualLegPosition F) (ps : List (Name × DualLegPosition F))
      → name_eq k key ≡ false
      → lookup key (store k p ps) ≡ lookup key ps
  unfolding lookup store
  lookup-store_other k key p [] h = rw h refl
  lookup-store_other k key p ((j, q) ∷ ps) h = elim (Bool-cases (name_eq j k)) [
    | inl e ↦ rw (e, lookup) (rw (name_eq_sound j k e, h) refl)
    | inr e ↦ rw (e, lookup) (rw (lookup-store_other k key p ps h) refl)
  ]

  found_or_stored :
      (now : F) (symbol a b key : Name) (t : FrPositionTracker F) (o : Option (DualLegPosition F))
      → lookup (canon symbol) t.positions ≡ o
      → name_eq (canon symbol) key ≡ false
      → lookup key (get_or_create_position now symbol a b t).0.positions ≡ lookup key t.positions
  unfolding get_or_create_position
  found_or_stored now symbol a b key t (some p) e h = rw (e, get_or_create_position) refl
  found_or_stored now symbol a b key t none e h =
      rw (e, get_or_create_position)
        (lookup-store_other (canon symbol) key (new_position now (canon symbol) a b) t.positions h)

  get_or_create_other :
      (now : F) (symbol a b key : Name) (t : FrPositionTracker F)
      → name_eq (canon symbol) key ≡ false
      → lookup key (get_or_create_position now symbol a b t).0.positions ≡ lookup key t.positions
  get_or_create_other now symbol a b key t h =
      found_or_stored now symbol a b key t (lookup (canon symbol) t.positions) refl h

  update_leg_other :
      (now : F) (symbol exchange key : Name) (side : PositionSide)
      (size entry mark upnl funding : F) (leverage : ℕ) (t : FrPositionTracker F)
      → name_eq (canon (canon symbol)) key ≡ false
      → lookup key
          (update_leg now symbol exchange side size entry mark upnl funding leverage t).0.positions
        ≡ lookup key t.positions
  unfolding update_leg
  update_leg_other now symbol exchange key side size entry mark upnl funding leverage t h =
      let r = get_or_create_position now (canon symbol) (codes "binance") (codes "bybit") t in
      lookup-store_other (canon (canon symbol)) key
        (updated now exchange side size entry mark upnl funding leverage r.1) r.0.positions h
      ∙ get_or_create_other now (canon symbol) (codes "binance") (codes "bybit") key t h

  reconcile_position_other :
      (now : F) (exchange key : Name) (side : PositionSide) (raw : ExchangePosition F)
      (t : FrPositionTracker F)
      → name_eq (canon raw.symbol) key ≡ false
      → lookup key (reconcile_position now exchange side raw t).positions ≡ lookup key t.positions
  unfolding reconcile_position
  reconcile_position_other now exchange key side raw t h =
      let own = canon raw.symbol in
      let h1 : name_eq (canon own) key ≡ false = rw (canon_idempotent raw.symbol) h in
      let h2 : name_eq (canon (canon own)) key ≡ false =
        rw (canon_idempotent (canon raw.symbol)) h1 in
      let r = get_or_create_position now own (codes "binance") (codes "bybit") t in
      let leg = if is_long side then r.1.long_leg else r.1.short_leg in
      let written =
        (update_leg now own exchange side (abs raw.contracts) raw.entry_price raw.mark_price
          raw.unrealized_pnl nought raw.leverage r.0).0 in
      let made = get_or_create_other now own (codes "binance") (codes "bybit") key t h1 in
      let Same = λ (u : FrPositionTracker F). lookup key u.positions ≡ lookup key t.positions in
      if_cases Same (name_eq own []) t (if name_eq leg.exchange exchange then written else r.0)
        (λ e. refl)
        λ e.
          if_cases Same (name_eq leg.exchange exchange) written r.0
            (λ k.
              update_leg_other now own exchange key side (abs raw.contracts) raw.entry_price
                raw.mark_price raw.unrealized_pnl nought raw.leverage r.0 h2
              ∙ made)
            (λ k. made)

  reconcile_all_other :
      (now : F) (exchange key : Name) (side_of : ExchangePosition F → PositionSide)
      (raws : List (ExchangePosition F)) (t : FrPositionTracker F)
      → IsUnlisted key raws
      → lookup key (reconcile_all now exchange side_of raws t).positions ≡ lookup key t.positions
  unfolding reconcile_all
  reconcile_all_other now exchange key side_of [] t h = refl
  reconcile_all_other now exchange key side_of (raw ∷ raws) t h =
      reconcile_all_other now exchange key side_of raws
        (reconcile_position now exchange (side_of raw) raw t) h.1
      ∙ reconcile_position_other now exchange key (side_of raw) raw t h.0

  pub recalculate_all-lookup :
      (now : F) (key : Name) (ps : List (Name × DualLegPosition F)) (p : DualLegPosition F)
      → lookup key ps ≡ some p
      → lookup key (recalculate_all now ps) ≡ some (recalculate now p)
  unfolding recalculate_all lookup
  recalculate_all-lookup now key [] p h = cc
  recalculate_all-lookup now key ((k, q) ∷ ps) p h =
      ground (arith, recalculate_all-lookup now key ps p)

  -- A position that neither exchange lists any more, whatever they list otherwise, keeps both legs and its status
  -- through a reconciliation: only its totals are computed again.
  pub reconcile_keeps_absent :
      (now : F) (binance bybit : List (ExchangePosition F)) (symbol : Name)
      (t : FrPositionTracker F) (p : DualLegPosition F)
      → get_position symbol t ≡ some p
      → IsUnlisted (canon symbol) binance
      → IsUnlisted (canon symbol) bybit
      → let q = recalculate now p in
        (get_position symbol (reconcile_with_exchange_positions now binance bybit t) ≡ some q)
        × (q.long_leg ≡ p.long_leg)
        × (q.short_leg ≡ p.short_leg)
        × (q.status ≡ p.status)
  unfolding get_position reconcile_with_exchange_positions recalculate
  reconcile_keeps_absent now binance bybit symbol t p e h k =
      let key = canon symbol in
      let t0 : FrPositionTracker F = record t { last_reconciled_at = now } in
      let t1 = reconcile_all now (codes "binance") binance_side binance t0 in
      let t2 = reconcile_all now (codes "bybit") bybit_side bybit t1 in
      let same : lookup key t2.positions ≡ some p =
        reconcile_all_other now (codes "bybit") key bybit_side bybit t1 k
        ∙ (reconcile_all_other now (codes "binance") key binance_side binance t0 h ∙ e) in
      (recalculate_all-lookup now key t2.positions p same, refl, refl, refl)
