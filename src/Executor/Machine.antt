-- ===== src/Executor/Machine.antt =====
-- hypertile-core/src/executor.rs, task.rs and worker.rs: `ExecutorCore::spawn` and `schedule`, and the
-- workers, over task cells that any threads step through. The handle of a task is its number.
use hypertile.Base.{
  ℕ, Bool, true, false, Option, none, some, List, [], ◌∷◌, ◌++◌, length, get_elem?, set,
  if◌then◌else◌,
}
use hypertile.Task.Cell.{Pc, resting, run, wake, requeueing, enqueueing, Event, call_run}
use hypertile.Task.System.{System, start, advance}
use hypertile.Pool.Crossbeam.{Crossbeam}
use hypertile.Pool.Local.{Pool, new_core, inject}
use hypertile.Registry.Defs.{WorkerKind}
use hypertile.Pool.Worker.{WorkerHandle, find_task, new_worker, drop_guard}

-- The pool, and the cell of each task with the threads in it.
pub record Executor (C : Crossbeam ℕ) (F T P W : Type 0) : Type 0 where
  pub pool : Pool C
  pub tasks : List (System F T P W)

-- A step that queues the task, and one that takes a handle.
abbrev pub pushes : {F T P W : Type 0} → Pc F T P W → Bool
pushes (run requeueing) = true
pushes (wake enqueueing) = true
pushes p = false

abbrev pub takes : {F T P W : Type 0} → Event F T P W → Pc F T P W → Bool
takes call_run resting = true
takes e p = false

-- What happens: a thread `t` becomes a worker, or the guard of its worker `id` is dropped; it spawns the future `f`, whose cell has room for `n` threads; it goes on
-- in the place `k` of the task `id`; or it works, and runs what it finds in its place `k` there.
pub data Act (F T P W : Type 0) : Type 0 where
  joining : ℕ → WorkerKind → Act F T P W
  leaving : ℕ → ℕ → Act F T P W
  spawning : ℕ → F → ℕ → Act F T P W
  stepping : ℕ → ℕ → ℕ → Event F T P W → Act F T P W
  working : ℕ → WorkerHandle → ℕ → Act F T P W

-- `schedule`, if the step calls it
unfoldable pub schedule : {C : Crossbeam ℕ} → Bool → ℕ → ℕ → Pool C → Pool C
schedule false t id p = p
schedule true t id p = inject t id p

module _ {C : Crossbeam ℕ} {F T P W : Type 0} where
  unfoldable pub new_executor : Executor C F T P W
  new_executor = record { pool = new_core; tasks = [] }

  unfoldable pub spawn : ℕ → F → ℕ → Executor C F T P W → Executor C F T P W
  spawn t f n x = record {
    pool = inject t (length x.tasks) x.pool;
    tasks = x.tasks ++ (start f n ∷ []);
  }

  unfoldable pub after_step :
      ℕ → ℕ → Bool → Option (System F T P W) → Executor C F T P W → Executor C F T P W
  unfolding schedule
  after_step t id queues none x = x
  after_step t id queues (some sys) x = record {
    pool = schedule queues t id x.pool;
    tasks = set x.tasks id sys;
  }

  unfoldable pub step_from :
      ℕ
      → ℕ
      → ℕ
      → Event F T P W
      → System F T P W
      → Option (Pc F T P W)
      → Executor C F T P W
      → Executor C F T P W
  unfolding after_step
  step_from t id k e sys none x = x
  step_from t id k e sys (some p) x =
      if takes e p then x else after_step t id (pushes p) (advance k e sys) x

  unfoldable pub step_in :
      ℕ → ℕ → ℕ → Event F T P W → Option (System F T P W) → Executor C F T P W → Executor C F T P W
  unfolding step_from
  step_in t id k e none x = x
  step_in t id k e (some sys) x = step_from t id k e sys (get_elem? sys.threads k) x

  -- The thread begins to run the task that it has found, with the pool that is left.
  unfoldable pub begin :
      ℕ → Pool C → Option (System F T P W) → Executor C F T P W → Executor C F T P W
  begin id p none x = x
  begin id p (some sys) x = record { pool = p; tasks = set x.tasks id sys }

  unfoldable pub run_from :
      ℕ
      → ℕ
      → Pool C
      → System F T P W
      → Option (Pc F T P W)
      → Executor C F T P W
      → Executor C F T P W
  unfolding begin
  run_from id k p sys (some resting) x = begin id p (advance k call_run sys) x
  run_from id k p sys o x = x

  unfoldable pub run_in :
      ℕ → ℕ → Pool C → Option (System F T P W) → Executor C F T P W → Executor C F T P W
  unfolding run_from
  run_in id k p none x = x
  run_in id k p (some sys) x = run_from id k p sys (get_elem? sys.threads k) x

  unfoldable pub found : ℕ → Option ℕ → Pool C → Executor C F T P W → Executor C F T P W
  unfolding run_in
  found k none p x = record x { pool = p }
  found k (some id) p x = run_in id k p (get_elem? x.tasks id) x

  -- What cannot happen is passed over.
  unfoldable pub act : Act F T P W → Executor C F T P W → Executor C F T P W
  unfolding spawn step_in found
  act (joining t kind) x = record x { pool = (new_worker t kind x.pool).pool }
  act (leaving t id) x = record x { pool = drop_guard t id x.pool }
  act (spawning t f n) x = spawn t f n x
  act (stepping t id k e) x = step_in t id k e (get_elem? x.tasks id) x
  act (working t h k) x = let r = find_task h t x.pool in found k r.task r.pool x

  unfoldable pub acts : List (Act F T P W) → Executor C F T P W → Executor C F T P W
  acts [] x = x
  acts (a ∷ rest) x = acts rest (act a x)
