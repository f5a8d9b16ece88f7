-- ===== src/Tracker/Ids.antt =====
-- The bounded memory of fill ids (app/core/position_tracker.py, `_processed_fill_ids` and
-- `_processed_fill_order`): a set as a list of texts, and its laws.
use text.Mathlib.Text.{◌==◌ as str_eq}
use text.Mathlib.TextEquality.{eq_iff}
use text.Mathlib.TextPositions.{eq_refl}
use mathlib.Core.List.{append_assoc}
use pmm_simple.Prelude.{
  ℕ, ◌≡◌, refl, Bool, true, false, ◌||◌, List, [], ◌∷◌, ◌++◌, String, arith, if◌then◌else◌, length,
  length-append, ◌==◌, ◌≤◌, ◌<◌, suc, Bool-cases, inl, inr, ap,
}

-- Membership in `_processed_fill_ids`.
unfoldable pub mem_id : String → List String → Bool
mem_id i [] = false
mem_id i (j ∷ js) = str_eq j i || mem_id i js

-- `set.add` and `set.discard`.
unfoldable pub add_id : String → List String → List String
unfolding mem_id
add_id i js = if mem_id i js then js else i ∷ js

unfoldable pub discard_id : String → List String → List String
discard_id i [] = []
discard_id i (j ∷ js) = if str_eq j i then discard_id i js else j ∷ discard_id i js

-- `deque(maxlen=10000)`
abbrev pub max_ids : ℕ
max_ids = 10000

-- The set and the deque after a new id: a full deque drops its oldest id first.
unfoldable pub remember_id : String → List String → List String → List String × List String
unfolding mem_id add_id discard_id
remember_id i ids [] = (add_id i ids, i ∷ [])
remember_id i ids (oldest ∷ order) =
    if length (oldest ∷ order) == max_ids
    then (add_id i (discard_id oldest ids), order ++ (i ∷ []))
    else (add_id i ids, (oldest ∷ order) ++ (i ∷ []))

pub mem_id-add :
    (i j : String) (js : List String) → mem_id i (add_id j js) ≡ (str_eq j i || mem_id i js)
unfolding mem_id add_id
mem_id-add i j js = ground (arith, eq_iff j i)

pub mem_id-add_self : (i : String) (js : List String) → mem_id i (add_id i js) ≡ true
mem_id-add_self i js = rw (mem_id-add i i js, eq_refl)

pub mem_id-discard :
    (i j : String) (js : List String)
    → mem_id i (discard_id j js) ≡ (if str_eq j i then false else mem_id i js)
unfolding mem_id discard_id
mem_id-discard i j [] = ground arith
mem_id-discard i j (k ∷ js) =
    ground (arith, mem_id-discard i j js, eq_iff k j, eq_iff k i, eq_iff j i)

pub mem_id-append :
    (i : String) (xs ys : List String) → mem_id i (xs ++ ys) ≡ (mem_id i xs || mem_id i ys)
unfolding mem_id
mem_id-append i [] ys = refl
mem_id-append i (x ∷ xs) ys = ground (arith, mem_id-append i xs ys)

abbrev pub IsNodup : List String → Type 0
IsNodup [] = Unit
IsNodup (x ∷ xs) = (mem_id x xs ≡ false) × IsNodup xs

pub IsNodup-snoc :
    (i : String) (xs : List String) → IsNodup xs → mem_id i xs ≡ false → IsNodup (xs ++ (i ∷ []))
unfolding mem_id
IsNodup-snoc i [] n h = (refl, tt)
IsNodup-snoc i (x ∷ xs) n h =
    ground (arith, IsNodup-snoc i xs n.1, mem_id-append x xs (i ∷ []), eq_iff x i, eq_iff i x)

-- The set holds exactly the ids of the deque, which lists none twice and at most 10000.
pub record IsConsistent (ids order : List String) : Type 0 where
  pub bounded : length order ≤ max_ids
  pub nodup : IsNodup order
  pub agrees : (i : String) → mem_id i ids ≡ mem_id i order

pub remember_id-mem :
    (i : String) (ids order : List String) → mem_id i (remember_id i ids order).0 ≡ true
unfolding remember_id
remember_id-mem i ids [] = mem_id-add_self i ids
remember_id-mem i ids (oldest ∷ order) =
    ground (arith, mem_id-add_self i ids, mem_id-add_self i (discard_id oldest ids))

mem_id-snoc :
    (i j : String) (xs : List String) → mem_id j (xs ++ (i ∷ [])) ≡ (str_eq i j || mem_id j xs)
unfolding mem_id
mem_id-snoc i j xs = ground (arith, mem_id-append j xs (i ∷ []))

-- A full memory forgets its oldest id and takes the new one.
pub remember_id-IsConsistent :
    (i : String) (ids order : List String)
    → IsConsistent ids order
    → mem_id i ids ≡ false
    → let (ids', order') = remember_id i ids order in IsConsistent ids' order'
unfolding remember_id mem_id
remember_id-IsConsistent i ids [] c h = record {
  bounded = omega arith;
  nodup = (refl, tt);
  agrees = λ j. ground (arith, mem_id-add j i ids, c.agrees j);
}
remember_id-IsConsistent i ids (oldest ∷ order) c h =
    elim (Bool-cases (length (oldest ∷ order) == max_ids)) [
      | inl full ↦ rw full (record {
        bounded = omega (arith, length-append order (i ∷ []), c.bounded);
        nodup = IsNodup-snoc i order c.nodup.1 (ground (arith, c.agrees i, h));
        agrees = λ j. ground (
          arith,
          mem_id-add j i (discard_id oldest ids),
          mem_id-discard j oldest ids,
          mem_id-snoc i j order,
          c.agrees j,
          c.nodup.0,
          eq_iff oldest j,
        );
      })
      | inr room ↦ rw room (record {
        bounded = ground (arith, length-append order (i ∷ []), c.bounded);
        nodup = IsNodup-snoc i (oldest ∷ order) c.nodup (ground (arith, c.agrees i, h));
        agrees =
            λ j. ground (arith, mem_id-add j i ids, mem_id-snoc i j (oldest ∷ order), c.agrees j);
      })
    ]

-- `i` is in the deque, with at most `k` younger ids behind it.
abbrev pub Recent : String → ℕ → List String → Type 0
Recent i k order =
    (older : List String) × (younger : List String) × (order ≡ older ++ (i ∷ younger))
    × (length younger ≤ k)

pub Recent-mem :
    (i : String) (k : ℕ) (order : List String) → Recent i k order → mem_id i order ≡ true
unfolding mem_id
Recent-mem i k order (older, younger, e, _) =
    rw e (ground (arith, mem_id-append i older (i ∷ younger), eq_refl i))

-- The new id is the youngest.
pub remember_id-Recent_self :
    (i : String) (ids order : List String) → Recent i 0 (remember_id i ids order).1
unfolding remember_id
remember_id-Recent_self i ids [] = ([], [], refl, omega arith)
remember_id-Recent_self i ids (oldest ∷ order) =
    elim (Bool-cases (length (oldest ∷ order) == max_ids)) [
      | inl full ↦ rw full (order, [], refl, omega arith)
      | inr room ↦ rw room (oldest ∷ order, [], refl, omega arith)
    ]

-- An id with room behind it outlives one more.
pub remember_id-Recent :
    (i j : String) (k : ℕ) (ids order : List String)
    → length order ≤ max_ids
    → suc k < max_ids
    → Recent i k order
    → Recent i (suc k) (remember_id j ids order).1
unfolding remember_id
remember_id-Recent i j k ids [] b h ([], younger, e, l) = absurd (cc)
remember_id-Recent i j k ids [] b h (x ∷ older, younger, e, l) = absurd (cc)
remember_id-Recent i j k ids (oldest ∷ order) b h ([], younger, e, l) =
    elim (Bool-cases (length (oldest ∷ order) == max_ids)) [
      | inl full ↦ absurd (ground (arith, ap length e))
      | inr room ↦ rw room (
        [],
        younger ++ (j ∷ []),
        ap (λ z. z ++ (j ∷ [])) e,
        omega (arith, length-append younger (j ∷ [])),
      )
    ]
remember_id-Recent i j k ids (oldest ∷ order) b h (x ∷ older, younger, e, l) =
    let tail_eq : order ≡ older ++ (i ∷ younger) = ground arith in
    let small : length (younger ++ (j ∷ [])) ≤ suc k =
      omega (arith, length-append younger (j ∷ [])) in
    elim (Bool-cases (length (oldest ∷ order) == max_ids)) [
      | inl full ↦ rw full (
        older,
        younger ++ (j ∷ []),
        rw tail_eq (append_assoc older (i ∷ younger) (j ∷ [])),
        small,
      )
      | inr room ↦ rw room (
        oldest ∷ older,
        younger ++ (j ∷ []),
        rw tail_eq (ap (λ z. oldest ∷ z) (append_assoc older (i ∷ younger) (j ∷ []))),
        small,
      )
    ]
