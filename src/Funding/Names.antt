-- ===== src/Funding/Names.antt =====
-- The texts of app/core/fr_execution as lists of code points: symbols and names of exchanges, `strip`, `upper`,
-- `lower`, and `FRPositionTracker._canon` (app/core/fr_execution/position_tracker.py).
use mathlib.Core.List.{reverse}
use pmm_simple.Prelude.{
  ℕ, zero, suc, ◌-◌, Bool, true, false, ◌&&◌, ◌||◌, Option, none, some, List, [], ◌∷◌, ◌++◌, map,
  leb, ◌==◌, codes, starts_with, to_lower, length, if◌then◌else◌,
}

abbrev pub Name : Type 0
Name = List ℕ

-- `==` on texts.
unfoldable pub name_eq : Name → Name → Bool
name_eq [] [] = true
name_eq (x ∷ xs) (y ∷ ys) = x == y && name_eq xs ys
name_eq _ _ = false

-- `in` on a set of texts, or on the keys of a dict.
unfoldable pub mem_name : Name → List Name → Bool
unfolding name_eq
mem_name n [] = false
mem_name n (m ∷ ms) = name_eq m n || mem_name n ms

unfoldable pub add_name : Name → List Name → List Name
unfolding mem_name
add_name n ms = if mem_name n ms then ms else n ∷ ms

unfoldable pub discard_name : Name → List Name → List Name
unfolding name_eq
discard_name n [] = []
discard_name n (m ∷ ms) = if name_eq m n then discard_name n ms else m ∷ discard_name n ms

abbrev pub to_upper : ℕ → ℕ
to_upper c = if leb b'a' c && leb c b'z' then c - 32 else c

unfoldable pub upper : Name → Name
upper s = map to_upper s

unfoldable pub lower_name : Name → Name
unfolding to_lower
lower_name s = map to_lower s

-- The ASCII characters that `strip` removes.
abbrev pub is_space : ℕ → Bool
is_space c = c == 32 || ((leb 9 c && leb c 13) || (leb 28 c && leb c 31))

unfoldable pub left_strip : Name → Name
left_strip [] = []
left_strip (c ∷ s) = if is_space c then left_strip s else c ∷ s

-- A character before a stripped text: a blank before nothing goes too.
abbrev pub prepend : ℕ → Name → Name
prepend c [] = if is_space c then [] else c ∷ []
prepend c (y ∷ ys) = c ∷ y ∷ ys

unfoldable pub right_strip : Name → Name
right_strip [] = []
right_strip (c ∷ s) = prepend c (right_strip s)

unfoldable pub strip : Name → Name
unfolding left_strip right_strip
strip s = right_strip (left_strip s)

-- `policy.symbol.strip().upper()`
unfoldable pub tidy : Name → Name
unfolding upper strip
tidy s = upper (strip s)

-- What stands before the first `c`, and after it.
unfoldable pub before : ℕ → Name → Name
before c [] = []
before c (x ∷ s) = if x == c then [] else x ∷ before c s

unfoldable pub after : ℕ → Name → Option Name
after c [] = none
after c (x ∷ s) = if x == c then some s else after c s

abbrev pub join : Name → Name → Name
join base quote = base ++ (b'/' ∷ (quote ++ (b':' ∷ quote)))

abbrev pub cut : ℕ → Name → Name
cut zero s = []
cut (suc n) [] = []
cut (suc n) (c ∷ s) = c ∷ cut n s

-- `s[:-4]`
abbrev pub but_last4 : Name → Name
but_last4 s = cut (length s - 4) s

unfoldable pub ends_with : Name → Name → Bool
unfolding starts_with
ends_with suffix s = starts_with (reverse suffix) (reverse s)

-- `_canon` of a text without blanks at its ends, in upper case, and cut at ":".
unfoldable pub canon_pair : Name → Name
unfolding before after ends_with
canon_pair s = elim (after b'/' s) [
  | some rest ↦ join (before b'/' s) (before b'/' rest)
  | none ↦
      if ends_with (codes "USDT") s
      then join (but_last4 s) (codes "USDT")
      else if ends_with (codes "USDC") s
      then join (but_last4 s) (codes "USDC")
      else join s (codes "USDT")
]

unfoldable pub canon : Name → Name
unfolding tidy before canon_pair
canon [] = []
canon (x ∷ xs) = canon_pair (before b':' (tidy (x ∷ xs)))
