-- ===== src/Worker/Routing.antt =====
-- The side and the direction of a fill by its client order id (app/core/worker.py, `on_fill`).
use pmm_simple.Prelude.{
  ◌||◌, Bool, true, false, List, [], ◌∷◌, codes, contains, starts_with, if◌then◌else◌,
}
use pmm_simple.Models.State.{PositionSide, long, short, FillRecord}
use pmm_simple.Tracker.{is_entry}
use pmm_simple.Executor.Ids.{Text}

-- `str.startswith` of a tuple.
unfoldable pub starts_with_any : List Text → Text → Bool
unfolding starts_with
starts_with_any [] cid = false
starts_with_any (p ∷ ps) cid = starts_with p cid || starts_with_any ps cid

-- The side that an id names, or else another.
unfoldable pub named_side : Text → PositionSide → PositionSide
unfolding contains
named_side cid other =
    if contains (codes "short") cid
    then short
    else if contains (codes "long") cid
    then long
    else other

-- The same with the names of the quotes.
unfoldable pub quoted_side : Text → PositionSide → PositionSide
unfolding contains
quoted_side cid other =
    if contains (codes "short") cid || contains (codes "q_sell") cid
    then short
    else if contains (codes "long") cid || contains (codes "q_buy") cid
    then long
    else other

abbrev pub long_exits : List Text
long_exits =
    codes "tp_long"
    ∷ codes "sl_long"
    ∷ codes "pe_long"
    ∷ codes "pexit_long"
    ∷ codes "kill_long"
    ∷ []

abbrev pub short_exits : List Text
short_exits =
    codes "tp_short"
    ∷ codes "sl_short"
    ∷ codes "pe_short"
    ∷ codes "pexit_short"
    ∷ codes "kill_short"
    ∷ []

abbrev pub exits : List Text
exits =
    codes "tp_" ∷ codes "sl_" ∷ codes "pe_" ∷ codes "pexit_" ∷ codes "exit_" ∷ codes "kill_" ∷ []

-- The side of a fill, and whether it is an entry.
unfoldable pub route : {F : Type 0} → Text → FillRecord F → PositionSide × Bool
unfolding starts_with starts_with_any named_side quoted_side
route cid fill =
    let side = quoted_side cid fill.position_side in
    if starts_with (codes "q_pyr_") cid
    then (named_side cid fill.position_side, true)
    else if starts_with (codes "q_buy_") cid
    then (long, true)
    else if starts_with (codes "q_sell_") cid
    then (short, true)
    else if starts_with_any long_exits cid
    then (long, false)
    else if starts_with_any short_exits cid
    then (short, false)
    else if starts_with_any exits cid
    then (named_side cid fill.position_side, false)
    else (side, is_entry side fill.side)
