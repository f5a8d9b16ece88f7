-- ===== src/Worker/OwnIds.antt =====
-- The client order ids that an executor writes, as the worker and the tracker read them back (app/core/worker.py,
-- `on_fill`; app/core/executor.py; app/core/position_tracker.py).
use pmm_simple.Prelude.{
  ℕ, zero, suc, ltb, ◌+◌, ◌*◌, ◌/◌, if_cases, All-append, ◌≡◌, ◌≢◌, ◌≤◌, ◌-◌, refl, ap, ◌∙◌, ◌++◌,
  ◌==◌, Bool, true, false, [], ◌∷◌, All, codes, contains, starts_with, length, arith,
}
use pmm_simple.Models.State.{PositionSide, long, short, both, FillRecord}
use pmm_simple.Float.{Float}
use pmm_simple.Tracker.{normalized_side, cid_of}
use pmm_simple.Executor.Ids.{
  Text, take, digits, show, side_text, safe_client_order_id, safe_client_order_id_fits,
}
use pmm_simple.Executor.State.{stop_loss, take_profit, Executor, ExecutorState}
use pmm_simple.Executor.Exits.{exit_prefix, market_exit_order}
use pmm_simple.Executor.TakeProfit.{tp_order}
use pmm_simple.Executor.Triggers.{Tick}
use pmm_simple.Executor.Runtime.{passive_order, pyramid_order}
use pmm_simple.Worker.Routing.{route, starts_with_any, named_side, quoted_side}

-- Orders that an executor sends: a market exit for a stop loss, one for a take profit, a take-profit order of the
-- ladder with its index, the passive exit, and the pyramid entry.
pub data OwnOrder : Type 0 where
  own_stop own_profit own_passive own_pyramid : OwnOrder
  own_ladder : ℕ → OwnOrder

own_prefix : OwnOrder → PositionSide → Text
unfolding exit_prefix show
own_prefix own_stop side = exit_prefix stop_loss side
own_prefix own_profit side = exit_prefix take_profit side
own_prefix (own_ladder idx) side = codes "tp_" ++ (side_text side ++ (codes "_" ++ show idx))
own_prefix own_passive side = codes "pe_" ++ side_text side
own_prefix own_pyramid side = codes "q_pyr_" ++ side_text side

abbrev pub is_own_entry : OwnOrder → Bool
is_own_entry own_pyramid = true
is_own_entry _ = false

abbrev pub IsDigit : ℕ → Type 0
IsDigit c = c ≤ 57

-- A digit or an underscore.
abbrev IsMark : ℕ → Type 0
IsMark c = c ≤ 95

marks_of_digits : (ts : Text) → All IsDigit ts → All IsMark ts
marks_of_digits [] d = tt
marks_of_digits (t ∷ ts) (d, ds) = (omega arith, marks_of_digits ts ds)

take-All : (n : ℕ) (ts : Text) → All IsMark ts → All IsMark (take n ts)
unfolding take
take-All zero ts d = tt
take-All (suc n) [] d = tt
take-All (suc n) (t ∷ ts) (d, ds) = (d, take-All n ts ds)

digits-All : (fuel n : ℕ) → All IsMark (digits fuel n)
unfolding digits
digits-All zero n = tt
digits-All (suc fuel) n =
    let digit = 48 + (n - n / 10 * 10) in
    let small : digit ≤ 95 = omega arith in
    if_cases (All IsMark) (ltb n 10) (digit ∷ []) (digits fuel (n / 10) ++ (digit ∷ []))
      (λ _. (small, tt))
      (λ _.
        All-append IsMark (digits fuel (n / 10)) (digit ∷ []) (digits-All fuel (n / 10))
          (small, tt))

letter_missing : (c : ℕ) (xs ts : Text) → 96 ≤ c → All IsMark ts → contains (c ∷ xs) ts ≡ false
unfolding contains starts_with
letter_missing c xs [] h d = refl
letter_missing c xs (t ∷ ts) h (d, ds) =
    let differ : (c == t) ≡ false = ground arith in rw differ (letter_missing c xs ts h ds)

own_id_eq :
    (kind : OwnOrder) (side : PositionSide) (ts : Text)
    → length ts ≡ 13
    → safe_client_order_id ts (own_prefix kind side) 36
      ≡ take 22 (own_prefix kind side) ++ (95 ∷ ts)
own_id_eq kind side ts h =
    let budget : 36 - length ts - 1 ≡ 22 = omega arith in
    let eq = (safe_client_order_id_fits ts (own_prefix kind side) 36 (omega arith)).1 in
    eq ∙ ap (λ n. take n (own_prefix kind side) ++ (95 ∷ ts)) budget

long_quoted :
    (cid : Text) (other : PositionSide)
    → contains (codes "short") cid ≡ false
    → contains (codes "q_sell") cid ≡ false
    → contains (codes "long") cid ≡ true
    → (quoted_side cid other ≡ long) × (named_side cid other ≡ long)
unfolding quoted_side named_side
long_quoted cid other h k l = (rw h (rw k (rw l refl)), rw h (rw l refl))

no_short : (ts : Text) → All IsMark ts → contains (codes "short") ts ≡ false
no_short ts d = letter_missing 115 (codes "hort") ts (omega arith) d

no_sell : (ts : Text) → All IsMark ts → contains (codes "q_sell") ts ≡ false
no_sell ts d = letter_missing 113 (codes "_sell") ts (omega arith) d

-- An id as it is written, once its length is known.
abbrev written : OwnOrder → PositionSide → Text → Text
written kind side ts = take 22 (own_prefix kind side) ++ (95 ∷ ts)

own_quoted :
    (kind : OwnOrder) (side other : PositionSide) (ts : Text)
    → side ≢ both
    → All IsDigit ts
    → (quoted_side (written kind side ts) other ≡ side)
      × (named_side (written kind side ts) other ≡ side)
unfolding quoted_side named_side own_prefix take contains starts_with exit_prefix show
own_quoted own_stop short other ts n d = (refl, refl)
own_quoted own_profit short other ts n d = (refl, refl)
own_quoted own_passive short other ts n d = (refl, refl)
own_quoted own_pyramid short other ts n d = (refl, refl)
own_quoted (own_ladder idx) short other ts n d = (refl, refl)
own_quoted (own_ladder idx) long other ts n d =
    let tail = take 14 (show idx) ++ (95 ∷ ts) in
    let marks : All IsMark tail =
      All-append IsMark (take 14 (show idx)) (95 ∷ ts)
        (take-All 14 (show idx) (digits-All (suc idx) idx)) (omega arith, marks_of_digits ts d) in
    long_quoted (written (own_ladder idx) long ts) other (no_short tail marks) (no_sell tail marks)
      refl
own_quoted own_stop long other ts n d =
    long_quoted (written own_stop long ts) other (no_short ts (marks_of_digits ts d))
      (no_sell ts (marks_of_digits ts d)) refl
own_quoted own_profit long other ts n d =
    long_quoted (written own_profit long ts) other (no_short ts (marks_of_digits ts d))
      (no_sell ts (marks_of_digits ts d)) refl
own_quoted own_passive long other ts n d =
    long_quoted (written own_passive long ts) other (no_short ts (marks_of_digits ts d))
      (no_sell ts (marks_of_digits ts d)) refl
own_quoted own_pyramid long other ts n d =
    long_quoted (written own_pyramid long ts) other (no_short ts (marks_of_digits ts d))
      (no_sell ts (marks_of_digits ts d)) refl
own_quoted kind both other ts n d = absurd (n refl)

own_routed :
    {F : Type 0} (kind : OwnOrder) (side : PositionSide) (ts : Text) (fill : FillRecord F)
    → side ≢ both
    → All IsDigit ts
    → route (written kind side ts) fill ≡ (side, is_own_entry kind)
unfolding route starts_with_any own_prefix take starts_with exit_prefix
own_routed own_stop long ts fill n d = refl
own_routed own_stop short ts fill n d = refl
own_routed own_profit long ts fill n d = refl
own_routed own_profit short ts fill n d = refl
own_routed (own_ladder idx) long ts fill n d = refl
own_routed (own_ladder idx) short ts fill n d = refl
own_routed own_passive long ts fill n d = refl
own_routed own_passive short ts fill n d = refl
own_routed own_pyramid long ts fill n d =
    ap (λ s. (s, true)) (own_quoted own_pyramid long fill.position_side ts n d).1
own_routed own_pyramid short ts fill n d =
    ap (λ s. (s, true)) (own_quoted own_pyramid short fill.position_side ts n d).1
own_routed kind both ts fill n d = absurd (n refl)

-- The side that the tracker reads off a fill.
pub normalized_side-quoted_side :
    {F : Type 0} ⦃f : Float F⦄ (fill : FillRecord F)
    → normalized_side fill ≡ quoted_side (cid_of fill) fill.position_side
unfolding normalized_side quoted_side
normalized_side-quoted_side fill = refl

own_prefix_routed :
    {F : Type 0} ⦃f : Float F⦄ (kind : OwnOrder) (side : PositionSide) (ts : Text)
    (fill : FillRecord F)
    → side ≢ both
    → length ts ≡ 13
    → All IsDigit ts
    → cid_of fill ≡ safe_client_order_id ts (own_prefix kind side) 36
    → (route (cid_of fill) fill ≡ (side, is_own_entry kind)) × (normalized_side fill ≡ side)
own_prefix_routed kind side ts fill n h d e =
    let own : cid_of fill ≡ written kind side ts = e ∙ own_id_eq kind side ts h in
    (
      ap (λ c. route c fill) own ∙ own_routed kind side ts fill n d,
      normalized_side-quoted_side fill
          ∙ (ap (λ c. quoted_side c fill.position_side) own
              ∙ (own_quoted kind side fill.position_side ts n d).0),
    )

module _ {W F : Type 0} ⦃f : Float F⦄ (x : Executor W F) (s : ExecutorState W F) where
  -- The client order id of the executor's own order of a kind, whatever its quantity and price.
  unfoldable pub own_id : F → F → Tick F → OwnOrder → Text
  own_id qty price tick own_stop = (market_exit_order x stop_loss qty s).client_order_id
  own_id qty price tick own_profit = (market_exit_order x take_profit qty s).client_order_id
  own_id qty price tick (own_ladder idx) = (tp_order x s idx qty price).client_order_id
  own_id qty price tick own_passive = (passive_order x qty tick s).client_order_id
  own_id qty price tick own_pyramid = (pyramid_order x s).client_order_id

  own_id-own_prefix :
      (qty price : F) (tick : Tick F) (kind : OwnOrder)
      → own_id qty price tick kind
        ≡ safe_client_order_id (x.outside.millis s.world) (own_prefix kind x.position_side) 36
  unfolding own_id own_prefix market_exit_order tp_order passive_order pyramid_order
  own_id-own_prefix qty price tick own_stop = refl
  own_id-own_prefix qty price tick own_profit = refl
  own_id-own_prefix qty price tick (own_ladder idx) = refl
  own_id-own_prefix qty price tick own_passive = refl
  own_id-own_prefix qty price tick own_pyramid = refl

  -- A fill with the id of an order as a LONG or SHORT executor writes it, a market exit for a stop loss or a take
  -- profit, a take-profit order of the ladder with any index, a passive exit or a pyramid entry, where the clock
  -- in milliseconds has 13 digits, is routed by the worker to that executor's side, as an entry exactly for the
  -- pyramid, and booked by the tracker on the same side, whatever side the exchange reported. The other id of a
  -- second attempt after -2022 is not spoken of.
  pub route_own :
      (qty price : F) (tick : Tick F) (kind : OwnOrder) (fill : FillRecord F)
      → x.position_side ≢ both
      → length (x.outside.millis s.world) ≡ 13
      → All IsDigit (x.outside.millis s.world)
      → cid_of fill ≡ own_id qty price tick kind
      → (route (cid_of fill) fill ≡ (x.position_side, is_own_entry kind))
        × (normalized_side fill ≡ x.position_side)
  route_own qty price tick kind fill n h d e =
      own_prefix_routed kind x.position_side (x.outside.millis s.world) fill n h d
        (e ∙ own_id-own_prefix qty price tick kind)
