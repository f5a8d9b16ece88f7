-- ===== src/Manager/Commands.antt =====
-- The commands on one pair (app/core/manager.py, `start_pair`, `register_dynamic_pair` and `unlock_pair`).
use mathlib.Core.Path.{subst}
use pmm_simple.Prelude.{
  ◌≡◌, ◌≢◌, refl, ap, sym, inl, inr, Bool, true, false, not, Option, none, some, String, Bool-cases,
  if◌then◌else◌,
}
use pmm_simple.Float.{Float}
use pmm_simple.Models.Config.{PairConfig}
use pmm_simple.CircuitBreaker.{CircuitBreaker}
use pmm_simple.Worker.State.{Worker, WorkerState, is_locked}
use pmm_simple.Worker.Lifecycle.{Startup, start}
use pmm_simple.Worker.Start.{start_locked, start_running, start-IsRunning}
use pmm_simple.Manager.Health.Halt.{start_pair_tripped}
use pmm_simple.Manager.Pairs.{Pair, find_pair, step_pair, in_world, find-with_pair, find-put_pair}
use pmm_simple.Manager.{
  Venue, Manager, for_pair, set_enabled, enable_and_start, load_worker, ensure_worker, new_pair,
  start_pair, adopt, register_dynamic_pair, unlock_pair, command,
}

false_ne_true : false ≢ true
false_ne_true h = cc

not-false : (b : Bool) → not b ≡ false → b ≡ true
not-false true h = refl
not-false false h = cc

-- A function goes into both branches.
if_push {ℓ κ} :
    {A : Type ℓ} {B : Type κ} (g : A → B) (b : Bool) (x y : A) {z : B}
    → z ≡ g y
    → (if b then g x else z) ≡ g (if b then x else y)
if_push g true x y e = refl
if_push g false x y e = e

-- Three guards before a success.
module _ {A : Type 0} (refused done : A × Bool) (no : refused.1 ≡ false) where
  abbrev guards : Bool → Bool → Bool → A × Bool
  guards a b c = if a then refused else if b then refused else if c then done else refused

  guards_pass :
      (a b c : Bool)
      → (guards a b c).1 ≡ true
      → (a ≡ false) × (b ≡ false) × (c ≡ true) × (guards a b c ≡ done)
  guards_pass true b c h = cc
  guards_pass false true c h = cc
  guards_pass false false false h = cc
  guards_pass false false true h = (refl, refl, refl, refl)

  guards_stop : (a b c : Bool) → done.1 ≡ true → (guards a b c).1 ≡ false → guards a b c ≡ refused
  guards_stop true b c h e = refl
  guards_stop false true c h e = refl
  guards_stop false false false h e = refl
  guards_stop false false true h e = cc

module _ {W F : Type 0} where
  -- A worker that was asked to start runs, unless it is locked.
  pub data Started (s : WorkerState W F) : Type 0 where
    runs : s.running ≡ true → Started s
    locked : is_locked s ≡ true → Started s

  -- The manager has a worker for the symbol, which runs unless it is locked.
  pub record IsUp (symbol : String) (m : Manager W F) : Type 0 where
    pub pair : Pair W F
    pub found : find_pair symbol m.workers ≡ some pair
    pub started : Started pair.state

module _ {W F : Type 0} ⦃f : Float F⦄ where
  start-Started : (x : Worker W F) (y : Startup W F) (s : WorkerState W F) → Started (start x y s)
  start-Started x y s = elim (Bool-cases (is_locked s)) [
    | inl shut ↦ subst Started (sym (start_locked x y s shut)) (locked shut)
    | inr free ↦ elim (Bool-cases s.running) [
      | inl on ↦ subst Started (sym (start_running x y s on)) (runs on)
      | inr off ↦ runs ((start-IsRunning x y s free off).runs)
    ]
  ]

  -- The step of a known pair is what the manager then finds.
  find-for_pair :
      (symbol : String) (step : Worker W F → WorkerState W F → WorkerState W F)
      → (m : Manager W F) (p : Pair W F) → find_pair symbol m.workers ≡ some p
      → find_pair symbol (for_pair symbol step m).workers ≡ some (step_pair step m.world p).1
  unfolding for_pair
  find-for_pair symbol step m p h = find-with_pair symbol step p m.workers m.world h

  load_worker-found :
      (v : Venue W F) (symbol : String) (loaded : Option (PairConfig F)) (m : Manager W F)
      → (load_worker v symbol loaded m).1 ≡ true
      → (p : Pair W F) × (find_pair symbol (load_worker v symbol loaded m).0.workers ≡ some p)
  unfolding load_worker
  load_worker-found v symbol none m h = absurd (false_ne_true h)
  load_worker-found v symbol (some c) m h =
      let p = new_pair v symbol c m.world in (p, find-put_pair p m.workers)

  -- After `ensure_worker` answers true the pair is found.
  ensure_worker-found :
      (v : Venue W F) (symbol : String) (known : Option (Pair W F)) (m : Manager W F)
      → find_pair symbol m.workers ≡ known
      → (ensure_worker v symbol known m).1 ≡ true
      → (p : Pair W F) × (find_pair symbol (ensure_worker v symbol known m).0.workers ≡ some p)
  unfolding ensure_worker
  ensure_worker-found v symbol (some p) m e h = (p, e)
  ensure_worker-found v symbol none m e h =
      load_worker-found v symbol (v.load_pair_config symbol m.world) m h

  enable_and_start-Started :
      (v : Venue W F) (x : Worker W F) (s : WorkerState W F) → Started (enable_and_start v x s)
  unfolding enable_and_start
  enable_and_start-Started v x s = start-Started x v.startup (set_enabled v true s)

  for_pair-IsUp :
      (v : Venue W F) (symbol : String) (m : Manager W F) (p : Pair W F)
      → find_pair symbol m.workers ≡ some p
      → IsUp symbol (for_pair symbol (enable_and_start v) m)
  unfolding step_pair
  for_pair-IsUp v symbol m p e = record {
    pair = (step_pair (enable_and_start v) m.world p).1;
    found = find-for_pair symbol (enable_and_start v) m p e;
    started = enable_and_start-Started v p.worker (in_world m.world p.state);
  }

  -- `start_pair` answers true only with the breaker untripped and the gateway connected, and the manager then has
  -- a worker for the symbol that runs unless it is locked. Where it answers false nothing has changed.
  pub start_pair-IsUp :
      (v : Venue W F) (symbol : String) (m : Manager W F)
      → let r = start_pair v symbol m in
        (r.1 ≡ true
          → (m.breaker.tripped ≡ false) × (v.is_connected m.world ≡ true) × IsUp symbol r.0)
        × (r.1 ≡ false → r.0 ≡ m)
  unfolding start_pair
  start_pair-IsUp v symbol m =
      let known = find_pair symbol m.workers in
      let m' = (ensure_worker v symbol known m).0 in
      let has = (ensure_worker v symbol known m).1 in
      let done : Manager W F × Bool = (for_pair symbol (enable_and_start v) m', true) in
      let tripped = m.breaker.tripped in
      let offline = not (v.is_connected m.world) in
      (
        λ h.
            let passed = guards_pass (m, false) done refl tripped offline has h in
            let found = ensure_worker-found v symbol known m refl passed.2 in
            (
              passed.0,
              not-false (v.is_connected m.world) passed.1,
              subst (λ r. IsUp symbol r.0) (sym (passed.3))
                  (for_pair-IsUp v symbol m' found.0 found.1),
            ),
        λ h.
            ap (λ (r : Manager W F × Bool). r.0)
              (guards_stop (m, false) done refl tripped offline has refl h),
      )

  abbrev pub with_breaker : CircuitBreaker F → Manager W F → Manager W F
  with_breaker cb m = record m { breaker = cb }

  adopt-with_breaker :
      (v : Venue W F) (c : PairConfig F) (known : Option (Pair W F)) (cb : CircuitBreaker F)
      → (m : Manager W F)
      → adopt v c known (with_breaker cb m) ≡ with_breaker cb (adopt v c known m)
  unfolding adopt for_pair
  adopt-with_breaker v c none cb m = refl
  adopt-with_breaker v c (some p) cb m = refl

  register-with_breaker :
      (v : Venue W F) (c : PairConfig F) (cb : CircuitBreaker F) (m : Manager W F)
      → let r = register_dynamic_pair v c m in
        register_dynamic_pair v c (with_breaker cb m) ≡ (with_breaker cb (r.0), r.1)
  unfolding register_dynamic_pair for_pair
  register-with_breaker v c cb m =
      let saved : Manager W F = record m { world = v.save_pair_config c m.world } in
      let known = find_pair c.symbol saved.workers in
      let adopted = adopt v c known saved in
      let move : Manager W F × Bool → Manager W F × Bool = λ r. (with_breaker cb (r.0), r.1) in
      rw (adopt-with_breaker v c known cb saved) (
        if_push move (not (v.is_connected saved.world)) (saved, false)
          (if c.enabled
            then (for_pair c.symbol (λ x. start x v.startup) adopted, true)
            else (adopted, true))
          (if_push move c.enabled (for_pair c.symbol (λ x. start x v.startup) adopted, true)
            (adopted, true) refl))

  -- Registering a pair and unlocking one do the same whatever the circuit breaker says: also while it is tripped,
  -- when `start_pair` refuses every pair, they start the worker.
  pub register_ignores_breaker :
      (v : Venue W F) (c : PairConfig F) (symbol : String) (cb : CircuitBreaker F) (m : Manager W F)
      → let r = register_dynamic_pair v c m in
        let u = unlock_pair v symbol m in
        (register_dynamic_pair v c (with_breaker cb m) ≡ (with_breaker cb (r.0), r.1))
        × (unlock_pair v symbol (with_breaker cb m) ≡ (with_breaker cb (u.0), u.1))
        × (cb.tripped ≡ true → start_pair v symbol (with_breaker cb m) ≡ (with_breaker cb m, false))
  unfolding unlock_pair command for_pair
  register_ignores_breaker v c symbol cb m =
      (register-with_breaker v c cb m, refl, λ h. start_pair_tripped v symbol (with_breaker cb m) h)
