-- ===== src/Manager/Pairs.antt =====
-- The dict `workers` of the manager (app/core/manager.py), in insertion order, and a step of one or of each of its
-- workers.
use pmm_simple.Prelude.{
  ◌≡◌, refl, ap, Option, none, some, List, [], ◌∷◌, String, All, map, Bool-cases, inl, inr,
  if◌then◌else◌,
}
use text.Mathlib.Text.{◌==◌ as str_eq}
use text.Mathlib.TextEquality.{eq_iff}
use pmm_simple.Worker.State.{Worker, WorkerState}

pub record Pair (W F : Type 0) : Type 0 where
  pub key : String
  pub worker : Worker W F
  pub state : WorkerState W F

module _ {W F : Type 0} where
  unfoldable pub find_pair : String → List (Pair W F) → Option (Pair W F)
  find_pair symbol [] = none
  find_pair symbol (p ∷ ps) = if str_eq p.key symbol then some p else find_pair symbol ps

  -- `workers[key] = worker`
  unfoldable pub put_pair : Pair W F → List (Pair W F) → List (Pair W F)
  put_pair q [] = q ∷ []
  put_pair q (p ∷ ps) = if str_eq p.key q.key then q ∷ ps else p ∷ put_pair q ps

  -- `workers.pop(symbol, None)`
  unfoldable pub drop_pair : String → List (Pair W F) → List (Pair W F)
  drop_pair symbol [] = []
  drop_pair symbol (p ∷ ps) = if str_eq p.key symbol then ps else p ∷ drop_pair symbol ps

  -- The worker's state in the world as the others left it.
  abbrev pub in_world : W → WorkerState W F → WorkerState W F
  in_world w s = record s { world = w }

  unfoldable pub step_pair :
      (Worker W F → WorkerState W F → WorkerState W F) → W → Pair W F → W × Pair W F
  step_pair step w p =
      let s = step p.worker (in_world w p.state) in (s.world, record p { state = s })

  unfoldable pub with_pair :
      String
      → (Worker W F → WorkerState W F → WorkerState W F)
      → List (Pair W F)
      → W
      → W × List (Pair W F)
  unfolding step_pair
  with_pair symbol step [] w = (w, [])
  with_pair symbol step (p ∷ ps) w =
      let (w', p') = step_pair step w p in
      let (w'', ps') = with_pair symbol step ps w in
      if str_eq p.key symbol then (w', p' ∷ ps) else (w'', p ∷ ps')

  unfoldable pub each :
      (Worker W F → WorkerState W F → WorkerState W F) → List (Pair W F) → W → W × List (Pair W F)
  unfolding step_pair
  each step [] w = (w, [])
  each step (p ∷ ps) w =
      let (w', p') = step_pair step w p in let (w'', ps') = each step ps w' in (w'', p' ∷ ps')

  unfoldable pub keys : List (Pair W F) → List String
  keys = map (λ p. p.key)

  -- What each step establishes holds of every worker.
  pub each-All :
      (P : WorkerState W F → Type 0) (step : Worker W F → WorkerState W F → WorkerState W F)
      → ((x : Worker W F) (s : WorkerState W F) → P (step x s))
      → (ps : List (Pair W F)) (w : W) → All (λ p. P p.state) (each step ps w).1
  unfolding each step_pair
  each-All P step h [] w = tt
  each-All P step h (p ∷ ps) w =
      (h p.worker (in_world w p.state), each-All P step h ps (step_pair step w p).0)

  pub keys-each :
      (step : Worker W F → WorkerState W F → WorkerState W F) (ps : List (Pair W F)) (w : W)
      → keys (each step ps w).1 ≡ keys ps
  unfolding keys each step_pair
  keys-each step [] w = refl
  keys-each step (p ∷ ps) w = ap (λ ks. p.key ∷ ks) (keys-each step ps (step_pair step w p).0)

  pub find-put_pair :
      (q : Pair W F) (ps : List (Pair W F)) → find_pair q.key (put_pair q ps) ≡ some q
  unfolding find_pair put_pair
  find-put_pair q [] = rw ((eq_iff q.key q.key).1 refl) refl
  find-put_pair q (p ∷ ps) = elim (Bool-cases (str_eq p.key q.key)) [
    | inl same ↦ rw (same, (eq_iff q.key q.key).1 refl) refl
    | inr other ↦ rw (other, other) (find-put_pair q ps)
  ]

  -- The step reaches the worker that the symbol names.
  pub find-with_pair :
      (symbol : String) (step : Worker W F → WorkerState W F → WorkerState W F)
      → (p : Pair W F) (ps : List (Pair W F)) (w : W) → find_pair symbol ps ≡ some p
      → find_pair symbol (with_pair symbol step ps w).1 ≡ some (step_pair step w p).1
  unfolding find_pair with_pair
  find-with_pair symbol step p [] w h = cc
  find-with_pair symbol step p (q ∷ ps) w h = elim (Bool-cases (str_eq q.key symbol)) [
    | inl same ↦
        let found : some q ≡ some p = rw same at h in
        let e : q ≡ p = cc in rw (same, same) (ap (λ r. some (step_pair step w r).1) e)
    | inr other ↦ rw (other, other) (find-with_pair symbol step p ps w (rw other at h))
  ]
