-- ===== src/Funding/NameSets.antt =====
-- Laws of texts and of sets of texts.
use pmm_simple.Prelude.{◌≡◌, refl, true, List, [], ◌∷◌, arith, Bool-cases, inl, inr}
use pmm_simple.Funding.Names.{Name, name_eq, mem_name, add_name}

pub name_eq_refl : (n : Name) → name_eq n n ≡ true
unfolding name_eq
name_eq_refl [] = refl
name_eq_refl (x ∷ xs) = ground (arith, name_eq_refl xs)

pub name_eq_sound : (n m : Name) → name_eq n m ≡ true → n ≡ m
unfolding name_eq
name_eq_sound [] [] h = refl
name_eq_sound (x ∷ xs) (y ∷ ys) h = ground (arith, name_eq_sound xs ys)
name_eq_sound [] (y ∷ ys) h = ground arith
name_eq_sound (x ∷ xs) [] h = ground arith

pub mem_name-add : (n : Name) (ms : List Name) → mem_name n (add_name n ms) ≡ true
unfolding mem_name add_name
mem_name-add n ms = elim (Bool-cases (mem_name n ms)) [
  | inl h ↦ rw h h
  | inr h ↦ rw h (rw (name_eq_refl n) refl)
]
