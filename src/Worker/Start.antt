-- ===== src/Worker/Start.antt =====
-- What starting and stopping a worker leaves (app/core/worker.py, `start` and `stop`).
use pmm_simple.Prelude.{◌≡◌, refl, true, false, [], if◌then◌else◌, if_cases, if_true, if_false}
use pmm_simple.Float.{Float}
use pmm_simple.Worker.State.{Worker, WorkerState, cancel_active_quotes, is_locked}
use pmm_simple.Worker.Lifecycle.{Startup, begin_running, prepare, start, stop}

module _ {W F : Type 0} where
  pub record IsRunning (s : WorkerState W F) : Type 0 where
    pub runs : s.running ≡ true
    pub unpaused : s.paused ≡ false
    pub fresh : s.market.price_history_60s ≡ []

module _ {W F : Type 0} ⦃f : Float F⦄ where
  begin_running-IsRunning : (y : Startup W F) (s : WorkerState W F) → IsRunning (begin_running y s)
  unfolding begin_running
  begin_running-IsRunning y s = record { runs = refl; unpaused = refl; fresh = refl }

  pub start_locked :
      (x : Worker W F) (y : Startup W F) (s : WorkerState W F)
      → is_locked s ≡ true
      → start x y s ≡ s
  unfolding start
  start_locked x y s h = rw h refl

  pub start_running :
      (x : Worker W F) (y : Startup W F) (s : WorkerState W F) → s.running ≡ true → start x y s ≡ s
  unfolding start
  start_running x y s h =
      let done = begin_running y (prepare x y s) in
      if_cases (λ t. t ≡ s) (is_locked s) s (if s.running then s else done) (λ e. refl)
        λ e. if_true (λ t. t ≡ s) s.running s done h refl

  pub start-IsRunning :
      (x : Worker W F) (y : Startup W F) (s : WorkerState W F)
      → is_locked s ≡ false
      → s.running ≡ false
      → IsRunning (start x y s)
  unfolding start
  start-IsRunning x y s h k =
      let done = begin_running y (prepare x y s) in
      if_false IsRunning (is_locked s) s (if s.running then s else done) h
        (if_false IsRunning s.running s done k (begin_running-IsRunning y (prepare x y s)))

  pub stop_stops :
      (x : Worker W F) (y : Startup W F) (s : WorkerState W F) → (stop x y s).running ≡ false
  unfolding stop cancel_active_quotes
  stop_stops x y s = refl
