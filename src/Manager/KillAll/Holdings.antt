-- ===== src/Manager/KillAll/Holdings.antt =====
-- What an exchange holds, and the positions that a kill has still to close (app/core/manager.py,
-- `emergency_kill_all`).
use pmm_simple.Prelude.{
  ◌≡◌, refl, sym, ◌∙◌, ◌⊎◌, inl, inr, false, Option, some, List, [], ◌∷◌, ◌++◌, String, All,
  Bool-cases,
}
use pmm_simple.Float.{Float, lit, lt}
use pmm_simple.Models.State.{PositionSide, long, short, SidePositionState}
use pmm_simple.Manager.KillAll.{OpenPosition, is_open_slot, open_slot}

module _ {F : Type 0} where
  -- The fetched slot holds this amount.
  pub record Sees (slot : Option (SidePositionState F)) (amount : F) : Type 0 where
    pub position : SidePositionState F
    pub found : slot ≡ some position
    pub same : position.amount ≡ amount

  -- The list has a position of this side of the symbol.
  abbrev pub Listed : String → PositionSide → List (OpenPosition F) → Type 0
  Listed symbol side [] = ⊥
  Listed symbol side (p ∷ ps) = ((p.symbol ≡ symbol) × (p.side ≡ side)) ⊎ Listed symbol side ps

  pub Listed-append :
      (symbol : String) (side : PositionSide) (ps qs : List (OpenPosition F))
      → Listed symbol side ps ⊎ Listed symbol side qs
      → Listed symbol side (ps ++ qs)
  Listed-append symbol side [] qs (inl h) = absurd h
  Listed-append symbol side [] qs (inr h) = h
  Listed-append symbol side (p ∷ ps) qs (inl (inl h)) = inl h
  Listed-append symbol side (p ∷ ps) qs (inl (inr h)) =
      inr (Listed-append symbol side ps qs (inl h))
  Listed-append symbol side (p ∷ ps) qs (inr h) = inr (Listed-append symbol side ps qs (inr h))

-- The amounts that an exchange holds.
abbrev pub Holdings : Type 0 → Type 0
Holdings F = String → PositionSide → F

module _ {F : Type 0} ⦃f : Float F⦄ where
  -- The exchange holds no more of this side than the procedure looks at.
  abbrev pub IsClosed : Holdings F → String → PositionSide → Type 0
  IsClosed a symbol side = lt (lit 1 6) (a symbol side) ≡ false

  abbrev pub IsFlat : Holdings F → String → Type 0
  IsFlat a symbol = IsClosed a symbol long × IsClosed a symbol short

  -- One side changes only by being closed.
  abbrev pub Keeps : Holdings F → Holdings F → String → PositionSide → Type 0
  Keeps a b symbol side = (b symbol side ≡ a symbol side) ⊎ IsClosed b symbol side

  abbrev pub Handled : Holdings F → List (OpenPosition F) → String → PositionSide → Type 0
  Handled a ps symbol side = IsClosed a symbol side ⊎ Listed symbol side ps

  -- The recorded amount is what the exchange holds, or nothing is left to close.
  abbrev pub IsCurrent : Holdings F → OpenPosition F → Type 0
  IsCurrent a p = (p.amount ≡ a p.symbol p.side) ⊎ IsClosed a p.symbol p.side

  pub Keeps-IsClosed :
      (a b : Holdings F) (symbol : String) (side : PositionSide)
      → Keeps a b symbol side
      → IsClosed a symbol side
      → IsClosed b symbol side
  Keeps-IsClosed a b symbol side (inl e) h = rw e h
  Keeps-IsClosed a b symbol side (inr k) h = k

  pub Keeps-IsCurrent :
      (a b : Holdings F) (p : OpenPosition F)
      → Keeps a b p.symbol p.side
      → IsCurrent a p
      → IsCurrent b p
  Keeps-IsCurrent a b p (inr k) h = inr k
  Keeps-IsCurrent a b p (inl e) (inl h) = inl (h ∙ sym e)
  Keeps-IsCurrent a b p (inl e) (inr h) = inr (rw e h)

  pub Keeps-AreCurrent :
      (a b : Holdings F)
      → ((symbol : String) (side : PositionSide) → Keeps a b symbol side)
      → (ps : List (OpenPosition F)) → All (IsCurrent a) ps
      → All (IsCurrent b) ps
  Keeps-AreCurrent a b keep [] h = tt
  Keeps-AreCurrent a b keep (p ∷ ps) h =
      (Keeps-IsCurrent a b p (keep p.symbol p.side) h.0, Keeps-AreCurrent a b keep ps h.1)

  -- After the exit of the first position the others are what is left to handle.
  pub Handled-tail :
      (a b : Holdings F) (p : OpenPosition F) (ps : List (OpenPosition F))
      → (symbol : String) (side : PositionSide) → Keeps a b symbol side
      → IsClosed b p.symbol p.side
      → Handled a (p ∷ ps) symbol side
      → Handled b ps symbol side
  Handled-tail a b p ps symbol side keep done (inl h) = inl (Keeps-IsClosed a b symbol side keep h)
  Handled-tail a b p ps symbol side keep done (inr (inl (e, e'))) = inl (rw (sym e, sym e') done)
  Handled-tail a b p ps symbol side keep done (inr (inr l)) = inr l

  pub Handled-append :
      (a : Holdings F) (symbol : String) (side : PositionSide) (ps qs : List (OpenPosition F))
      → Handled a ps symbol side ⊎ Handled a qs symbol side
      → Handled a (ps ++ qs) symbol side
  Handled-append a symbol side ps qs (inl (inl h)) = inl h
  Handled-append a symbol side ps qs (inl (inr l)) = inr (Listed-append symbol side ps qs (inl l))
  Handled-append a symbol side ps qs (inr (inl h)) = inl h
  Handled-append a symbol side ps qs (inr (inr l)) = inr (Listed-append symbol side ps qs (inr l))

  -- Each side of the symbol is closed or listed.
  abbrev pub BothHandled : Holdings F → List (OpenPosition F) → String → Type 0
  BothHandled a ps symbol = Handled a ps symbol long × Handled a ps symbol short

  pub BothHandled-append :
      (a : Holdings F) (ps qs : List (OpenPosition F)) (symbols : List String)
      → All (BothHandled a qs) symbols
      → All (BothHandled a (ps ++ qs)) symbols
  BothHandled-append a ps qs [] h = tt
  BothHandled-append a ps qs (s ∷ ss) h = (
    (Handled-append a s long ps qs (inr h.0.0), Handled-append a s short ps qs (inr h.0.1)),
    BothHandled-append a ps qs ss h.1,
  )

  module _ (a : Holdings F) (symbol : String) (side : PositionSide)
      {slot : Option (SidePositionState F)} (sees : Sees slot (a symbol side)) where
    pub open_slot_closed : IsClosed a symbol side → open_slot symbol side slot ≡ []
    unfolding open_slot
    open_slot_closed h = rw (sees.found, sees.same, h) refl

    pub is_open_slot_closed : IsClosed a symbol side → is_open_slot slot ≡ false
    unfolding is_open_slot
    is_open_slot_closed h = rw (sees.found, sees.same) h

    pub open_slot-Handled : Handled a (open_slot symbol side slot) symbol side
    unfolding open_slot
    open_slot-Handled = elim (Bool-cases (lt (lit 1 6) (a symbol side))) [
      | inl much ↦ rw (sees.found, sees.same, much) (inr (inl (refl, refl)))
      | inr little ↦ inl little
    ]

    pub open_slot-IsCurrent : All (IsCurrent a) (open_slot symbol side slot)
    unfolding open_slot
    open_slot-IsCurrent = elim (Bool-cases (lt (lit 1 6) (a symbol side))) [
      | inl much ↦ rw (sees.found, sees.same, much) (inl refl, tt)
      | inr little ↦ rw (sees.found, sees.same, little) tt
    ]
