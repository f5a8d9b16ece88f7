-- ===== src/Database/Sums.antt =====
-- The PnL summary depends on the rows in its window only (app/persistence/db.py).
use pmm_simple.Prelude.{◌≡◌, refl, false, Option, none, some, ◌∷◌, String, arith}
use pmm_simple.Float.{Float, ◌≺◌}
use pmm_simple.Models.State.{FillRecord}
use pmm_simple.Database.{Database, is_selected, sum_selected, get_pnl_summary}

module _ {F : Type 0} ⦃f : Float F⦄ where
  is_selected_older :
      (since : F) (symbol : Option String) (r : FillRecord F)
      → r.timestamp ≺ since
      → is_selected since symbol r ≡ false
  unfolding is_selected
  is_selected_older since none r h = ground arith
  is_selected_older since (some symbol) r h = ground arith

  -- A fill before the window adds nothing, wherever it was inserted first.
  pub get_pnl_summary_older :
      (since : F) (symbol : Option String) (r : FillRecord F) (db : Database F)
      → r.timestamp ≺ since
      → get_pnl_summary since symbol (record db { fills = r ∷ db.fills })
        ≡ get_pnl_summary since symbol db
  unfolding get_pnl_summary sum_selected
  get_pnl_summary_older since symbol r db h = rw (is_selected_older since symbol r h) refl
