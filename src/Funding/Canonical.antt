-- ===== src/Funding/Canonical.antt =====
-- Canonical symbols (`FRPositionTracker._canon`, app/core/fr_execution/position_tracker.py).
use mathlib.Core.List.{append_assoc}
use pmm_simple.Prelude.{
  ℕ, zero, suc, ◌≡◌, refl, sym, false, none, some, [], ◌∷◌, ◌++◌, All, arith, Bool-cases,
  Option-cases, inl, inr, ◌==◌, codes, ◌-◌, length, if_cases,
}
use pmm_simple.Funding.Names.{
  Name, to_upper, upper, is_space, left_strip, right_strip, prepend, strip, tidy, before, after,
  join, cut, but_last4, ends_with, canon_pair, canon,
}

-- A character in upper case that is no colon; and one that is no slash either.
IsUpper : ℕ → Type 0
IsUpper c = (to_upper c ≡ c) × ((c == b':') ≡ false)

IsPlain : ℕ → Type 0
IsPlain c = (to_upper c ≡ c) × ((c == b':') ≡ false) × ((c == b'/') ≡ false)

-- No blank in front.
IsTrimmed : Name → Type 0
IsTrimmed [] = Unit
IsTrimmed (c ∷ s) = is_space c ≡ false

prepend-append : (c : ℕ) (u r : Name) → prepend c (u ++ (b':' ∷ r)) ≡ c ∷ (u ++ (b':' ∷ r))
prepend-append c [] r = refl
prepend-append c (x ∷ u) r = refl

prepend-colon : (r : Name) → prepend b':' r ≡ b':' ∷ r
prepend-colon [] = refl
prepend-colon (x ∷ r) = refl

right_strip-append : (u v : Name) → right_strip (u ++ (b':' ∷ v)) ≡ u ++ (b':' ∷ right_strip v)
unfolding right_strip
right_strip-append [] v = prepend-colon (right_strip v)
right_strip-append (c ∷ u) v = rw (right_strip-append u v) (prepend-append c u (right_strip v))

before-upper : (u r : Name) → All IsUpper u → before b':' (upper (u ++ (b':' ∷ r))) ≡ u
unfolding before upper IsUpper
before-upper [] r a = refl
before-upper (c ∷ u) r a = rw (a.0.0, a.0.1, before-upper u r a.1) refl

after-append : (u v : Name) → All IsPlain u → after b'/' (u ++ (b'/' ∷ v)) ≡ some v
unfolding after IsPlain
after-append [] v a = refl
after-append (c ∷ u) v a = rw (a.0.2) (after-append u v a.1)

before-append : (u v : Name) → All IsPlain u → before b'/' (u ++ (b'/' ∷ v)) ≡ u
unfolding before IsPlain
before-append [] v a = refl
before-append (c ∷ u) v a = rw (a.0.2, before-append u v a.1) refl

before_absent : (u : Name) → All IsPlain u → before b'/' u ≡ u
unfolding before IsPlain
before_absent [] a = refl
before_absent (c ∷ u) a = rw (a.0.2, before_absent u a.1) refl

append-IsUpper : (u v : Name) → All IsPlain u → All IsPlain v → All IsUpper (u ++ (b'/' ∷ v))
unfolding IsPlain IsUpper
append-IsUpper [] [] a b = ((refl, refl), tt)
append-IsUpper [] (c ∷ v) a b = ((refl, refl), ((b.0.0, b.0.1), (append-IsUpper [] v a b.1).1))
append-IsUpper (c ∷ u) v a b = ((a.0.0, a.0.1), append-IsUpper u v a.1 b)

left_strip-join : (u v : Name) → IsTrimmed u → left_strip (join u v) ≡ join u v
unfolding left_strip IsTrimmed
left_strip-join [] v h = refl
left_strip-join (c ∷ u) v h = rw h refl

before-tidy :
    (u v : Name)
    → IsTrimmed u
    → All IsPlain u
    → All IsPlain v
    → before b':' (tidy (join u v)) ≡ u ++ (b'/' ∷ v)
unfolding tidy strip
before-tidy u v h a b =
    rw
      (
        left_strip-join u v h,
        sym (append_assoc u (b'/' ∷ v) (b':' ∷ v)),
        right_strip-append (u ++ (b'/' ∷ v)) v,
      )
      (before-upper (u ++ (b'/' ∷ v)) (right_strip v) (append-IsUpper u v a b))

canon_pair-join :
    (u v : Name) → All IsPlain u → All IsPlain v → canon_pair (u ++ (b'/' ∷ v)) ≡ join u v
unfolding canon_pair
canon_pair-join u v a b =
    rw (after-append u v a, canon_pair, before-append u v a, before_absent v b) refl

canon-join :
    (u v : Name) → IsTrimmed u → All IsPlain u → All IsPlain v → canon (join u v) ≡ join u v
unfolding canon
canon-join [] v h a b = rw (before-tidy [] v h a b) (canon_pair-join [] v a b)
canon-join (c ∷ u) v h a b = rw (before-tidy (c ∷ u) v h a b) (canon_pair-join (c ∷ u) v a b)

left_strip-IsTrimmed : (s : Name) → IsTrimmed (left_strip s)
unfolding left_strip IsTrimmed
left_strip-IsTrimmed [] = tt
left_strip-IsTrimmed (c ∷ s) = elim (Bool-cases (is_space c)) [
  | inl h ↦ rw h (left_strip-IsTrimmed s)
  | inr h ↦ rw h h
]

prepend-IsTrimmed : (c : ℕ) (r : Name) → is_space c ≡ false → IsTrimmed (prepend c r)
unfolding IsTrimmed
prepend-IsTrimmed c [] h = rw h h
prepend-IsTrimmed c (x ∷ r) h = h

right_strip-IsTrimmed : (s : Name) → IsTrimmed s → IsTrimmed (right_strip s)
unfolding right_strip IsTrimmed
right_strip-IsTrimmed [] h = tt
right_strip-IsTrimmed (c ∷ s) h = prepend-IsTrimmed c (right_strip s) h

upper-IsTrimmed : (s : Name) → IsTrimmed s → IsTrimmed (upper s)
unfolding upper IsTrimmed
upper-IsTrimmed [] h = tt
upper-IsTrimmed (c ∷ s) h = ground arith

tidy-IsTrimmed : (s : Name) → IsTrimmed (tidy s)
unfolding tidy strip
tidy-IsTrimmed s =
    upper-IsTrimmed (right_strip (left_strip s))
      (right_strip-IsTrimmed (left_strip s) (left_strip-IsTrimmed s))

before-IsTrimmed : (d : ℕ) (s : Name) → IsTrimmed s → IsTrimmed (before d s)
unfolding before IsTrimmed
before-IsTrimmed d [] h = tt
before-IsTrimmed d (c ∷ s) h = elim (Bool-cases (c == d)) [ inl e ↦ rw e tt | inr e ↦ rw e h ]

cut-IsTrimmed : (n : ℕ) (s : Name) → IsTrimmed s → IsTrimmed (cut n s)
unfolding IsTrimmed
cut-IsTrimmed zero s h = tt
cut-IsTrimmed (suc n) [] h = tt
cut-IsTrimmed (suc n) (c ∷ s) h = h

to_upper_twice : (c : ℕ) → to_upper (to_upper c) ≡ to_upper c
to_upper_twice c = ground arith

before-IsUpper : (s : Name) → All IsUpper (before b':' (upper s))
unfolding before upper IsUpper
before-IsUpper [] = tt
before-IsUpper (c ∷ s) = elim (Bool-cases (to_upper c == b':')) [
  | inl h ↦ rw h tt
  | inr h ↦ rw h ((to_upper_twice c, h), before-IsUpper s)
]

before-IsPlain : (s : Name) → All IsUpper s → All IsPlain (before b'/' s)
unfolding before IsUpper IsPlain
before-IsPlain [] a = tt
before-IsPlain (c ∷ s) a = elim (Bool-cases (c == b'/')) [
  | inl h ↦ rw h tt
  | inr h ↦ rw h ((a.0.0, a.0.1, h), before-IsPlain s a.1)
]

some_injective : (a b : Name) → some a ≡ some b → b ≡ a
some_injective a b h = cc

some-none : (a : Name) → some a ≡ none → ⊥
some-none a h = cc

after-IsUpper : (s rest : Name) → All IsUpper s → after b'/' s ≡ some rest → All IsUpper rest
unfolding after
after-IsUpper [] rest a e = absurd (cc)
after-IsUpper (c ∷ s) rest a e = elim (Bool-cases (c == b'/')) [
  | inl h ↦ rw (some_injective s rest (rw h at e)) a.1
  | inr h ↦ after-IsUpper s rest a.1 (rw h at e)
]

after-none : (s : Name) → All IsUpper s → after b'/' s ≡ none → All IsPlain s
unfolding after IsUpper IsPlain
after-none [] a e = tt
after-none (c ∷ s) a e = elim (Bool-cases (c == b'/')) [
  | inl h ↦ absurd (some-none s (rw h at e))
  | inr h ↦ ((a.0.0, a.0.1, h), after-none s a.1 (rw h at e))
]

cut-IsPlain : (n : ℕ) (s : Name) → All IsPlain s → All IsPlain (cut n s)
cut-IsPlain zero s a = tt
cut-IsPlain (suc n) [] a = tt
cut-IsPlain (suc n) (c ∷ s) a = (a.0, cut-IsPlain n s a.1)

usdt-IsPlain : All IsPlain (codes "USDT")
unfolding IsPlain
usdt-IsPlain =
    ((refl, refl, refl), ((refl, refl, refl), ((refl, refl, refl), ((refl, refl, refl), tt))))

usdc-IsPlain : All IsPlain (codes "USDC")
unfolding IsPlain
usdc-IsPlain =
    ((refl, refl, refl), ((refl, refl, refl), ((refl, refl, refl), ((refl, refl, refl), tt))))

IsFixed : Name → Type 0
IsFixed n = canon n ≡ n

canon_pair-IsFixed : (s : Name) → IsTrimmed s → All IsUpper s → IsFixed (canon_pair s)
unfolding canon_pair IsFixed
canon_pair-IsFixed s h a = elim (Option-cases (after b'/' s)) [
  | inl e ↦
      let p = after-none s a e in
      let short = cut-IsPlain (length s - 4) s p in
      let front = cut-IsTrimmed (length s - 4) s h in
      rw (e, canon_pair)
        (if_cases IsFixed (ends_with (codes "USDT") s) _ _
          (λ t. canon-join (but_last4 s) (codes "USDT") front short usdt-IsPlain)
          (λ t.
            if_cases IsFixed (ends_with (codes "USDC") s) _ _
              (λ u. canon-join (but_last4 s) (codes "USDC") front short usdc-IsPlain)
              (λ u. canon-join s (codes "USDT") h p usdt-IsPlain)))
  | inr (rest, e) ↦
      rw (e, canon_pair)
        (canon-join (before b'/' s) (before b'/' rest) (before-IsTrimmed b'/' s h)
          (before-IsPlain s a) (before-IsPlain rest (after-IsUpper s rest a e)))
]

-- A canonical symbol is its own canonical symbol, for every text: the key under which a position is stored is
-- the key under which every later call looks for it.
pub canon_idempotent : (s : Name) → canon (canon s) ≡ canon s
unfolding canon IsFixed tidy
canon_idempotent [] = refl
canon_idempotent (x ∷ xs) =
    canon_pair-IsFixed (before b':' (tidy (x ∷ xs)))
      (before-IsTrimmed b':' (tidy (x ∷ xs)) (tidy-IsTrimmed (x ∷ xs)))
      (before-IsUpper (strip (x ∷ xs)))
