-- ===== src/Tracker/Dedupe.antt =====
-- Exactly-once processing of fills (app/core/position_tracker.py, the idempotency block of `on_fill`).
use pmm_simple.Prelude.{
  ℕ, suc, ◌≤◌, ◌<◌, ◌≡◌, refl, ◌∙◌, true, false, List, [], ◌∷◌, String, ◌+◌, arith, Bool-cases, inl,
  inr, is_nonempty, length,
}
use pmm_simple.Float.{Float}
use pmm_simple.Models.State.{FillRecord, PositionSide, long, SidePositionState}
use pmm_simple.Tracker.{PositionTracker, put_state, process_fill, on_fill, remember}
use pmm_simple.Tracker.Ids.{
  mem_id, max_ids, IsConsistent, Recent, Recent-mem, remember_id-IsConsistent,
  remember_id-Recent_self, remember_id-Recent,
}

module _ {F : Type 0} where
  put_state-memory :
      (t : PositionTracker F) (side : PositionSide) (s : SidePositionState F)
      → ((put_state t side s).processed_fill_ids ≡ t.processed_fill_ids)
        × ((put_state t side s).processed_fill_order ≡ t.processed_fill_order)
  put_state-memory t long s = (refl, refl)
  put_state-memory t _ s = (refl, refl)

  abbrev pub IsConsistentTracker : PositionTracker F → Type 0
  IsConsistentTracker t = IsConsistent t.processed_fill_ids t.processed_fill_order

module _ {F : Type 0} ⦃f : Float F⦄ where
  process_fill-memory :
      (fill : FillRecord F) (t : PositionTracker F)
      → ((process_fill fill t).0.processed_fill_ids ≡ t.processed_fill_ids)
        × ((process_fill fill t).0.processed_fill_order ≡ t.processed_fill_order)
  unfolding process_fill
  process_fill-memory fill t = put_state-memory t _ _

  -- A new fill is processed by a tracker that has taken its id.
  on_fill_new :
      (fill : FillRecord F) (t : PositionTracker F)
      → is_nonempty fill.id ≡ true
      → mem_id fill.id t.processed_fill_ids ≡ false
      → on_fill fill t ≡ process_fill fill (remember fill.id t)
  unfolding on_fill
  on_fill_new fill t h n = rw (h, n)

  on_fill_old :
      (fill : FillRecord F) (t : PositionTracker F)
      → is_nonempty fill.id ≡ true
      → mem_id fill.id t.processed_fill_ids ≡ true
      → on_fill fill t ≡ (t, fill, false)
  unfolding on_fill
  on_fill_old fill t h n = rw (h, n)

  on_fill_anonymous :
      (fill : FillRecord F) (t : PositionTracker F)
      → is_nonempty fill.id ≡ false
      → on_fill fill t ≡ process_fill fill t
  unfolding on_fill
  on_fill_anonymous fill t h = rw h

  -- Every fill keeps the memory consistent: the set of ids is the content of the deque, which lists no
  -- id twice and never holds more than 10000.
  pub on_fill-IsConsistent :
      (fill : FillRecord F) (t : PositionTracker F)
      → IsConsistentTracker t
      → IsConsistentTracker (on_fill fill t).0
  unfolding remember
  on_fill-IsConsistent fill t c =
      let after : (u : PositionTracker F)
          → IsConsistentTracker u
          → IsConsistentTracker (process_fill fill u).0 =
        λ u k. rw ((process_fill-memory fill u).0, (process_fill-memory fill u).1) k in
      elim (Bool-cases (is_nonempty fill.id)) [
        | inr anonymous ↦ rw (on_fill_anonymous fill t anonymous) (after t c)
        | inl named ↦ elim (Bool-cases (mem_id fill.id t.processed_fill_ids)) [
          | inl old ↦ rw (on_fill_old fill t named old) c
          | inr new ↦ rw (on_fill_new fill t named new) (
              after (remember fill.id t) (
                remember_id-IsConsistent fill.id t.processed_fill_ids t.processed_fill_order c new))
        ]
      ]

  -- Fills one after another.
  pub on_fills : List (FillRecord F) → PositionTracker F → PositionTracker F
  on_fills [] t = t
  on_fills (fill ∷ fills) t = on_fills fills (on_fill fill t).0

  on_fill-Recent :
      (i : String) (k : ℕ) (fill : FillRecord F) (t : PositionTracker F)
      → IsConsistentTracker t
      → suc k < max_ids
      → Recent i k t.processed_fill_order
      → Recent i (suc k) (on_fill fill t).0.processed_fill_order
  unfolding remember
  on_fill-Recent i k fill t c h r =
      let (older, younger, e, l) = r in
      let still : Recent i (suc k) t.processed_fill_order = (older, younger, e, omega arith) in
      elim (Bool-cases (is_nonempty fill.id)) [
        | inr anonymous ↦
            rw (on_fill_anonymous fill t anonymous, (process_fill-memory fill t).1) still
        | inl named ↦ elim (Bool-cases (mem_id fill.id t.processed_fill_ids)) [
          | inl old ↦ rw (on_fill_old fill t named old) still
          | inr new ↦
              rw (on_fill_new fill t named new, (process_fill-memory fill (remember fill.id t)).1)
                (remember_id-Recent i fill.id k t.processed_fill_ids t.processed_fill_order
                  c.bounded h r)
        ]
      ]

  on_fills-mem :
      (i : String) (k : ℕ) (fills : List (FillRecord F)) (t : PositionTracker F)
      → IsConsistentTracker t
      → Recent i k t.processed_fill_order
      → suc (length fills + k) ≤ max_ids
      → mem_id i (on_fills fills t).processed_fill_ids ≡ true
  unfolding on_fills
  on_fills-mem i k [] t c r h = c.agrees i ∙ Recent-mem i k t.processed_fill_order r
  on_fills-mem i k (fill ∷ fills) t c r h =
      on_fills-mem i (suc k) fills (on_fill fill t).0 (on_fill-IsConsistent fill t c)
        (on_fill-Recent i k fill t c (omega arith) r) (omega arith)

  -- Exactly-once processing: after a new fill with an id and up to 9999 further fills of any kind, a
  -- fill with the same id changes nothing in the tracker and returns False.
  pub on_fill_once :
      (fill again : FillRecord F) (fills : List (FillRecord F)) (t : PositionTracker F)
      → IsConsistentTracker t
      → is_nonempty fill.id ≡ true
      → mem_id fill.id t.processed_fill_ids ≡ false
      → again.id ≡ fill.id
      → length fills < max_ids
      → let t' = on_fills fills (on_fill fill t).0 in on_fill again t' ≡ (t', again, false)
  unfolding remember
  on_fill_once fill again fills t c named new same h =
      let start : Recent fill.id 0 (on_fill fill t).0.processed_fill_order =
        rw (on_fill_new fill t named new, (process_fill-memory fill (remember fill.id t)).1)
          (remember_id-Recent_self fill.id t.processed_fill_ids t.processed_fill_order) in
      let kept =
        on_fills-mem fill.id 0 fills (on_fill fill t).0 (on_fill-IsConsistent fill t c) start
          (omega arith) in
      on_fill_old again _ (rw same named) (rw same kept)
