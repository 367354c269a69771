-- ===== src/Runtime/EndExamples.antt =====
-- A thread in `block_on` with a value that another one gives it, a runtime of three workers, and the
-- theorems at them.
use hypertile.Base.{
  parker, ℕ, suc, ◌+◌, ◌*◌, ◌≡◌, refl, Bool, true, false, Option, none, some, [], ◌∷◌, ◌==◌,
  if◌then◌else◌, arith,
}
use hypertile.Registry.Defs.{contains, retain_other}
use hypertile.Pool.Samples.{lists}
use hypertile.Timer.Driver.{shutdown_timer}
use hypertile.Runtime.Blocking.{
  Polled, ready, pending, Future, returned, go_on, changes, wake, polled, block_step, wake_by_ref,
  act, run, begin,
}
use hypertile.Runtime.Wakes.{after, park-can_progress, block_on_returns}
use hypertile.Runtime.Shutdown.{
  Runtime, new_runtime, spawn, spawn_local, request_shutdown, shutdowns, shutdown_with_timeout,
}
use hypertile.Runtime.Ending.{
  EndsFirst, shutdown_with_timeout_returns, shutdowns-joins, spawn_local-spawn,
}

abbrev poll_cell : Option ℕ → Polled (Option ℕ) ℕ
poll_cell none = pending none false
poll_cell (some v) = ready v

abbrev is_there : Option ℕ → Bool
is_there none = false
is_there (some v) = true

ready_there : (s : Option ℕ) (v : ℕ) → poll_cell s ≡ ready v → is_there s ≡ true
ready_there none v h = cc
ready_there (some w) v h = refl

pending_not_there : (s t : Option ℕ) → poll_cell s ≡ pending t false → is_there t ≡ false
pending_not_there none none h = refl
pending_not_there none (some v) h = cc
pending_not_there (some w) t h = cc

owes : (x : ℕ) → true ≡ false → is_there (some x) ≡ false
owes x o = o

-- A cell that another thread fills.
abbrev cell : Future ℕ
cell = record {
  State = Option ℕ;
  poll = poll_cell;
  change = λ x s. (some x, true);
  can_progress = is_there;
  poll-ready = ready_there;
  poll-pending = pending_not_there;
  change-owes = λ x s h o. owes x o;
}

park-can_progress_example : is_there (after parker cell none (go_on ∷ [])).future ≡ false
unfolding run act begin block_step polled
park-can_progress_example = park-can_progress parker cell none (go_on ∷ []) refl refl refl

block_on_returns_example :
    (run (go_on ∷ go_on ∷ []) (after parker cell none (go_on ∷ changes 7 ∷ wake ∷ []))).pc
    ≡ returned 7
unfolding run act begin block_step polled wake_by_ref
block_on_returns_example =
    block_on_returns parker cell none (go_on ∷ changes 7 ∷ wake ∷ []) 7 refl refl refl

abbrev three_workers : Runtime lists
three_workers = new_runtime (λ i. 10 + i) 3

-- Two workers are active in the first rounds, and none from the third on.
abbrev active : ℕ → ℕ
active i = if i == 0 then 2 else (if i == 1 then 2 else 0)

shutdown_with_timeout_returns_example :
    (i : ℕ) × (shutdown_with_timeout active (λ j. j * 2000000) 6 0 5000000 (some three_workers) none
      ≡ some (record {
        alive = active (suc i);
        runtime = some (request_shutdown three_workers);
        timer = shutdown_timer none;
      }))
    × EndsFirst active (λ j. j * 2000000) (0 * 2000000 + 5000000) 0 5 i
shutdown_with_timeout_returns_example =
    shutdown_with_timeout_returns active (λ j. j * 2000000) 5000000 5 three_workers none
      (λ j. omega arith) (omega arith)

shutdowns-joins_example :
    let r = shutdowns (11 ∷ 12 ∷ []) three_workers in
    (r.value ≡ retain_other 11 three_workers.worker_threads)
    × ((j : ℕ)
        → contains r.value j ≡ (if 11 == j then false else contains three_workers.worker_threads j))
    × (r.pool.worker_threads ≡ [])
    × (r.pool.core.running ≡ false)
shutdowns-joins_example = shutdowns-joins 11 (12 ∷ []) three_workers

spawn_local-spawn_example : spawn_local 10 7 three_workers.core ≡ spawn 10 7 three_workers.core
spawn_local-spawn_example = spawn_local-spawn 10 7 three_workers.core
