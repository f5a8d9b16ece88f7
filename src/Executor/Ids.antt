-- ===== src/Executor/Ids.antt =====
-- Client order ids (app/core/executor.py, `_safe_client_order_id`), as lists of code points.
use mathlib.Core.Path.{◌≡◌}
use pmm_simple.Prelude.{
  ℕ, zero, suc, ◌+◌, ◌-◌, ◌*◌, ◌/◌, ◌≤◌, ltb, List, [], ◌∷◌, ◌++◌, codes, length, length-append,
  if◌then◌else◌, arith, refl, ap,
}
use pmm_simple.Models.State.{PositionSide, long, short, both}

abbrev pub Text : Type 0
Text = List ℕ

-- `s[:n]`
unfoldable pub take : ℕ → Text → Text
take zero s = []
take (suc n) [] = []
take (suc n) (c ∷ s) = c ∷ take n s

-- The decimal digits of a number; `fuel` bounds their count.
unfoldable pub digits : ℕ → ℕ → Text
digits zero n = []
digits (suc fuel) n =
    let rest = digits fuel (n / 10) in
    let digit = 48 + (n - n / 10 * 10) in if ltb n 10 then digit ∷ [] else rest ++ (digit ∷ [])

unfoldable pub show : ℕ → Text
unfolding digits
show n = digits (suc n) n

-- `position_side.value.lower()`
abbrev pub side_text : PositionSide → Text
side_text long = codes "long"
side_text short = codes "short"
side_text both = codes "both"

abbrev pub one_or_more : ℕ → ℕ
one_or_more n = if ltb 1 n then n else 1

-- `ts` is the clock in milliseconds, in decimal. The budget may be negative in the source; `[:max(1, ..)]`
-- takes one character then, as here.
unfoldable pub safe_client_order_id : Text → Text → ℕ → Text
unfolding take
safe_client_order_id ts prefix max_len =
    let budget = max_len - length ts - 1 in
    take max_len (take (one_or_more budget) prefix ++ (95 ∷ ts))

length-take : (n : ℕ) (s : Text) → length (take n s) ≤ n
unfolding take
length-take zero s = omega arith
length-take (suc n) [] = omega arith
length-take (suc n) (c ∷ s) = omega (arith, length-take n s)

take_all : (n : ℕ) (s : Text) → length s ≤ n → take n s ≡ s
unfolding take
take_all zero [] h = refl
take_all zero (c ∷ s) h = absurd (omega arith)
take_all (suc n) [] h = refl
take_all (suc n) (c ∷ s) h = ap (λ t. c ∷ t) (take_all n s (omega arith))

one_or_more_lem : (n : ℕ) → 1 ≤ n → one_or_more n ≡ n
one_or_more_lem n h = ground arith

-- An id is never longer than `max_len`, and where the time stamp leaves room for a character and the
-- underscore, the whole stamp is its end, after the underscore and a beginning of the prefix.
pub safe_client_order_id_fits :
    (ts prefix : Text) (max_len : ℕ)
    → length ts + 2 ≤ max_len
    → (length (safe_client_order_id ts prefix max_len) ≤ max_len)
      × (safe_client_order_id ts prefix max_len
          ≡ take (max_len - length ts - 1) prefix ++ (95 ∷ ts))
unfolding safe_client_order_id
safe_client_order_id_fits ts prefix max_len h =
    let budget : ℕ = max_len - length ts - 1 in
    let fits : length (take budget prefix ++ (95 ∷ ts)) ≤ max_len =
      omega (arith, length-append (take budget prefix) (95 ∷ ts), length-take budget prefix) in
    let cut = take_all max_len (take budget prefix ++ (95 ∷ ts)) fits in
    rw (one_or_more_lem budget (omega arith)) (length-take max_len _, cut)
