-- ===== src/Runtime/Shutdown.antt =====
-- hypertile-core/src/runtime.rs: a runtime, what it spawns, and how it ends. A thread is a number.
use hypertile.Base.{
  ℕ, zero, suc, ◌+◌, false, ◌&&◌, Option, none, some, List, [], ◌∷◌, ◌++◌, length, ltb,
  if◌then◌else◌,
}
use hypertile.Registry.Defs.{retain_other}
use hypertile.Pool.Crossbeam.{Crossbeam}
use hypertile.Pool.Local.{Ret, Pool, new_core, try_push_local, inject, set_running}
use hypertile.Timer.Driver.{TimerDriver, shutdown_timer}

-- `start_workers`: the threads that the system starts, from the `i`th.
unfoldable pub start_workers : (ℕ → ℕ) → ℕ → ℕ → List ℕ
start_workers spawned i zero = []
start_workers spawned i (suc n) = spawned i ∷ start_workers spawned (suc i) n

-- `wait` looks at the number of active workers, and then at the time, before each millisecond of
-- sleep; `active` and `clock` are what the rounds read. The fuel is the number of rounds.
unfoldable pub wait_workers : (ℕ → ℕ) → (ℕ → ℕ) → ℕ → ℕ → ℕ → Option ℕ
wait_workers active clock deadline zero i = none
wait_workers active clock deadline (suc n) i =
    let rest = wait_workers active clock deadline n (suc i) in
    if ltb 0 (active i) && ltb (clock i) deadline then rest else some i

module _ {A : Type 0} (C : Crossbeam A) where
  pub record Runtime : Type 0 where
    pub core : Pool C
    pub worker_threads : List ℕ
    pub num_workers : ℕ

  -- What `shutdown_with_timeout` returns, and leaves.
  pub record Stopped : Type 0 where
    pub alive : ℕ
    pub runtime : Option Runtime
    pub timer : Option TimerDriver

module _ {A : Type 0} {C : Crossbeam A} where
  unfoldable pub new_runtime : (ℕ → ℕ) → ℕ → Runtime C
  unfolding start_workers
  new_runtime spawned n =
      let threads = start_workers spawned 0 n in
      record { core = new_core; worker_threads = threads; num_workers = length threads }

  -- `ExecutorCore::spawn` on the thread `t`, once it has made the handle of the task.
  unfoldable pub spawn : ℕ → A → Pool C → Pool C
  spawn t handle p = inject t handle p

  -- A handle that `try_push_local` gives back is injected.
  abbrev pub inject_returned : ℕ → Option A → Pool C → Pool C
  inject_returned t none p = p
  inject_returned t (some handle) p = inject t handle p

  unfoldable pub spawn_local : ℕ → A → Pool C → Pool C
  spawn_local t handle p = let r = try_push_local t handle p in inject_returned t r.value r.pool

  unfoldable pub request_shutdown : Runtime C → Runtime C
  request_shutdown rt = record rt { core = set_running false rt.core }

  -- `Runtime::shutdown` on the thread `current`, and so its drop; the value is the threads it joins.
  unfoldable pub shutdown : ℕ → Runtime C → Ret (List ℕ) (Runtime C)
  shutdown current rt = record {
    value = retain_other current rt.worker_threads;
    pool = record rt { core = set_running false rt.core; worker_threads = [] };
  }

  -- Calls of `Runtime::shutdown` on these threads, one after the other, with all that they join.
  unfoldable pub shutdowns : List ℕ → Runtime C → Ret (List ℕ) (Runtime C)
  shutdowns [] rt = record { value = []; pool = rt }
  shutdowns (c ∷ cs) rt =
      let r = shutdown c rt in
      let rest = shutdowns cs r.pool in record { value = r.value ++ rest.value; pool = rest.pool }

  -- `shutdown`, where none is a global runtime that was never made.
  unfoldable pub shutdown_global :
      ℕ → Option (Runtime C) → Option TimerDriver → Option (Runtime C) × Option TimerDriver
  unfolding shutdown
  shutdown_global current none timer = (none, shutdown_timer timer)
  shutdown_global current (some rt) timer = (some (shutdown current rt).pool, shutdown_timer timer)

  -- The end of `shutdown_with_timeout`, after the round `i`.
  unfoldable pub stopped : (ℕ → ℕ) → Runtime C → Option TimerDriver → Option ℕ → Option (Stopped C)
  stopped active rt timer none = none
  stopped active rt timer (some i) =
      some (record { alive = active (suc i); runtime = some rt; timer = timer })

  -- `start` is the time from which the timeout counts.
  unfoldable pub shutdown_with_timeout :
      (ℕ → ℕ) → (ℕ → ℕ) → ℕ → ℕ → ℕ → Option (Runtime C) → Option TimerDriver → Option (Stopped C)
  unfolding wait_workers request_shutdown stopped
  shutdown_with_timeout active clock fuel start timeout none timer =
      some (record { alive = 0; runtime = none; timer = shutdown_timer timer })
  shutdown_with_timeout active clock fuel start timeout (some rt) timer =
      stopped active (request_shutdown rt) (shutdown_timer timer)
        (wait_workers active clock (start + timeout) fuel 0)
