-- ===== src/Backtest/Books.antt =====
-- The books of a backtest and its exits (backtest/pmm_simulator.py), in the exact arithmetic of `Fixed`: rounding
-- aside, the balance is what the trades and the open slots account for.
use mathlib.Core.Path.{subst}
use pmm_simple.Prelude.{
  ◌≡◌, refl, sym, ap, ◌∙◌, ◌++◌, Bool, true, false, Option, none, some, List, [], ◌∷◌,
  if◌then◌else◌, if_true, if_false,
}
use pmm_simple.Prelude.Int.{ℤ, pos, ◌+ℤ◌, ◌-ℤ◌, pos_part, neg_part, eq_of_parts, int_laws}
use pmm_simple.Float.Fixed.{Fixed, fixed_float}
use pmm_simple.Models.State.{is_long}
use pmm_simple.Backtest.Types.{
  Bar, Settings, PositionSlot, Exit, Trade, Simulation, put_slot, is_none,
}
use pmm_simple.Backtest.Exits.{
  follow, exit_of, trade_of, count_fast, close_position, settle_slot, manage,
}
use pmm_simple.Backtest.{end_exit, close_last}

-- The balance from the first on, with the net results of the trades in turn.
abbrev pub total : Fixed → List (Trade Fixed) → Fixed
total b [] = b
total b (t ∷ ts) = total (b +ℤ t.net_pnl) ts

abbrev pub fee_of : Option (PositionSlot Fixed) → Fixed
fee_of none = pos 0
fee_of (some p) = p.entry_fee

abbrev pub IsSided : Bool → Option (PositionSlot Fixed) → Type 0
IsSided side none = Unit
IsSided side (some p) = is_long p.side ≡ side

total-snoc :
    (b : Fixed) (ts : List (Trade Fixed)) (t : Trade Fixed)
    → total b (ts ++ (t ∷ [])) ≡ total b ts +ℤ t.net_pnl
total-snoc b [] t = refl
total-snoc b (u ∷ ts) t = total-snoc (b +ℤ u.net_pnl) ts t

-- The slots lie on their sides, and the balance with the entry fees of the open slots, which are paid, is the first
-- balance with the results of the trades.
pub record IsBalanced (first : Fixed) (s : Simulation Fixed) : Type 0 where
  pub long_side : IsSided true s.long_pos
  pub short_side : IsSided false s.short_pos
  pub books : s.balance +ℤ (fee_of s.long_pos +ℤ fee_of s.short_pos) ≡ total first s.trades

-- An exit moves the fee of its slot from the open slots into the result of its trade.
books_close :
    (balance fee rest before gross exit_fee slippage : ℤ)
    → balance +ℤ (fee +ℤ rest) ≡ before
    → (balance +ℤ ((gross -ℤ exit_fee) -ℤ slippage)) +ℤ (pos 0 +ℤ rest)
      ≡ before +ℤ ((gross -ℤ (fee +ℤ exit_fee)) -ℤ slippage)
books_close balance fee rest before gross exit_fee slippage h =
    eq_of_parts ((balance +ℤ ((gross -ℤ exit_fee) -ℤ slippage)) +ℤ (pos 0 +ℤ rest))
      (before +ℤ ((gross -ℤ (fee +ℤ exit_fee)) -ℤ slippage))
      (omega (int_laws, ap pos_part h, ap neg_part h))

-- An entry pays its fee.
pub books_open :
    (balance fee rest before : ℤ)
    → balance +ℤ (pos 0 +ℤ rest) ≡ before
    → (balance -ℤ fee) +ℤ (fee +ℤ rest) ≡ before
books_open balance fee rest before h =
    eq_of_parts ((balance -ℤ fee) +ℤ (fee +ℤ rest)) before
      (omega (int_laws, ap pos_part h, ap neg_part h))

pub books_start : (balance : ℤ) → balance +ℤ (pos 0 +ℤ pos 0) ≡ balance
books_start balance = eq_of_parts (balance +ℤ (pos 0 +ℤ pos 0)) balance (omega int_laws)

pub none_of : (o : Option (PositionSlot Fixed)) → is_none o ≡ true → o ≡ none
none_of none h = refl
none_of (some p) h = cc

pub books_swap :
    (balance fee rest before : ℤ)
    → balance +ℤ (rest +ℤ fee) ≡ before
    → balance +ℤ (fee +ℤ rest) ≡ before
books_swap balance fee rest before h =
    eq_of_parts (balance +ℤ (fee +ℤ rest)) before (omega (int_laws, ap pos_part h, ap neg_part h))

-- A slot to close: it lies on its side, and the books hold with it open.
pub record IsClosable (first : Fixed) (side : Bool) (p : PositionSlot Fixed) (s : Simulation Fixed)
    : Type 0 where
  pub own_side : is_long p.side ≡ side
  pub long_side : IsSided true s.long_pos
  pub short_side : IsSided false s.short_pos
  pub books :
      s.balance +ℤ (p.entry_fee +ℤ fee_of (if side then s.short_pos else s.long_pos))
      ≡ total first s.trades

module _ (x : Settings Fixed) where
  abbrev pub Balanced : Simulation Fixed → Type 0
  Balanced = IsBalanced x.initial_balance

  abbrev pub Closable : Bool → PositionSlot Fixed → Simulation Fixed → Type 0
  Closable = IsClosable x.initial_balance

  abbrev settled : PositionSlot Fixed → Exit Fixed → Simulation Fixed → Simulation Fixed
  settled p e s =
      let t = trade_of x p e in
      record s {
        balance = s.balance +ℤ ((t.gross_pnl -ℤ t.exit_fee) -ℤ e.slippage_cost);
        trades = s.trades ++ (t ∷ []);
      }

  closed_books :
      (p : PositionSlot Fixed) (e : Exit Fixed) (s : Simulation Fixed) (rest : Fixed)
      → s.balance +ℤ (p.entry_fee +ℤ rest) ≡ total x.initial_balance s.trades
      → let t = trade_of x p e in
        (s.balance +ℤ ((t.gross_pnl -ℤ t.exit_fee) -ℤ e.slippage_cost)) +ℤ (pos 0 +ℤ rest)
        ≡ total x.initial_balance (s.trades ++ (t ∷ []))
  unfolding trade_of
  closed_books p e s rest h =
      let t = trade_of x p e in
      books_close s.balance p.entry_fee rest (total x.initial_balance s.trades) t.gross_pnl
        t.exit_fee e.slippage_cost h
      ∙ sym (total-snoc x.initial_balance s.trades t)

  close_position-IsBalanced :
      (side : Bool) (p : PositionSlot Fixed) (e : Exit Fixed) (s : Simulation Fixed)
      → Closable side p s
      → Balanced (close_position x p e s)
  unfolding close_position
  close_position-IsBalanced true p e s c =
      let s' = settled p e s in
      if_true Balanced (is_long p.side) (record s' { long_pos = none })
        (record s' { short_pos = none }) c.own_side
        (record {
          long_side = tt;
          short_side = c.short_side;
          books = closed_books p e s (fee_of s.short_pos) c.books;
        })
  close_position-IsBalanced false p e s c =
      let s' = settled p e s in
      if_false Balanced (is_long p.side) (record s' { long_pos = none })
        (record s' { short_pos = none }) c.own_side
        (record {
          long_side = c.long_side;
          short_side = tt;
          books =
              books_swap s'.balance (fee_of s.long_pos) (pos 0) (total x.initial_balance s'.trades)
                (closed_books p e s (fee_of s.long_pos) c.books);
        })

  -- A slot that stays open is put back.
  put_slot-IsBalanced :
      (side : Bool) (p : PositionSlot Fixed) (s : Simulation Fixed)
      → Closable side p s
      → Balanced (put_slot p.side (some p) s)
  put_slot-IsBalanced true p s c =
      if_true Balanced (is_long p.side) (record s { long_pos = some p })
        (record s { short_pos = some p }) c.own_side
        (record { long_side = c.own_side; short_side = c.short_side; books = c.books })
  put_slot-IsBalanced false p s c =
      if_false Balanced (is_long p.side) (record s { long_pos = some p })
        (record s { short_pos = some p }) c.own_side
        (record {
          long_side = c.long_side;
          short_side = c.own_side;
          books =
              books_swap s.balance (fee_of s.long_pos) p.entry_fee
                (total x.initial_balance s.trades) c.books;
        })

  count_fast-IsClosable :
      (side : Bool) (p : PositionSlot Fixed) (saved : Option Fixed) (s : Simulation Fixed)
      → Closable side p s
      → Closable side p (count_fast saved s)
  count_fast-IsClosable side p none s c = c
  count_fast-IsClosable true p (some v) s c = record {
    own_side = c.own_side;
    long_side = c.long_side;
    short_side = c.short_side;
    books = c.books;
  }
  count_fast-IsClosable false p (some v) s c = record {
    own_side = c.own_side;
    long_side = c.long_side;
    short_side = c.short_side;
    books = c.books;
  }

  settle_slot-IsBalanced :
      (side : Bool) (p : PositionSlot Fixed) (e : Option (Exit Fixed)) (s : Simulation Fixed)
      → Closable side p s
      → Balanced (settle_slot x p e s)
  settle_slot-IsBalanced side p none s c = put_slot-IsBalanced side p s c
  settle_slot-IsBalanced side p (some e) s c =
      close_position-IsBalanced side p e (count_fast e.saved s)
        (count_fast-IsClosable side p e.saved s c)

  -- An open slot of balanced books can be closed.
  open-IsClosable :
      (side : Bool) (p : PositionSlot Fixed) (s : Simulation Fixed)
      → (if side then s.long_pos else s.short_pos) ≡ some p
      → Balanced s
      → Closable side p s
  open-IsClosable true p s e h = record {
    own_side = subst (IsSided true) e h.long_side;
    long_side = h.long_side;
    short_side = h.short_side;
    books =
        subst
          (λ o. s.balance +ℤ (fee_of o +ℤ fee_of s.short_pos) ≡ total x.initial_balance s.trades) e
          h.books;
  }
  open-IsClosable false p s e h = record {
    own_side = subst (IsSided false) e h.short_side;
    long_side = h.long_side;
    short_side = h.short_side;
    books =
        books_swap s.balance p.entry_fee (fee_of s.long_pos) (total x.initial_balance s.trades) (
          subst
            (λ o. s.balance +ℤ (fee_of s.long_pos +ℤ fee_of o) ≡ total x.initial_balance s.trades) e
            h.books);
  }

  follow-IsClosable :
      (b : Bar Fixed) (side : Bool) (p : PositionSlot Fixed) (s : Simulation Fixed)
      → Closable side p s
      → Closable side (follow x b p) s
  unfolding follow
  follow-IsClosable b side p s c = record {
    own_side = c.own_side;
    long_side = c.long_side;
    short_side = c.short_side;
    books = c.books;
  }

  pub manage-IsBalanced :
      (b : Bar Fixed) (side : Bool) (slot : Option (PositionSlot Fixed)) (s : Simulation Fixed)
      → (if side then s.long_pos else s.short_pos) ≡ slot
      → Balanced s
      → Balanced (manage x b slot s)
  unfolding manage
  manage-IsBalanced b side none s e h = h
  manage-IsBalanced b side (some p) s e h =
      settle_slot-IsBalanced side (follow x b p) (exit_of x b (follow x b p)) s
        (follow-IsClosable b side p s (open-IsClosable side p s e h))

  pub close_last-IsBalanced :
      (last : Bar Fixed) (side : Bool) (slot : Option (PositionSlot Fixed)) (s : Simulation Fixed)
      → (if side then s.long_pos else s.short_pos) ≡ slot
      → Balanced s
      → Balanced (close_last x last slot s)
  close_last-IsBalanced last side none s e h = h
  close_last-IsBalanced last side (some p) s e h =
      close_position-IsBalanced side p (end_exit last) s (open-IsClosable side p s e h)
