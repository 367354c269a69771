-- ===== src/Capi/Worker.antt =====
-- hypertile-capi/src/lib.rs and hypertile-core/src/registration.rs: the worker that a thread registers.
use hypertile.Base.{ℕ, Option, none, some, List, [], ◌∷◌, ◌==◌, if◌then◌else◌}
use hypertile.Registry.Defs.{native}
use hypertile.Batch.Run.{HypertileStatus, ok, err_worker_not_registered}
use hypertile.Pool.Crossbeam.{Crossbeam}
use hypertile.Pool.Local.{Pool}
use hypertile.Pool.Worker.{WorkerHandle, new_worker, drop_guard}

-- The pool, and `THREAD_WORKER` of each thread; dropping a worker runs its guard.
pub record Threads {A : Type 0} (C : Crossbeam A) : Type 0 where
  pub pool : Pool C
  pub workers : ℕ → Option WorkerHandle

module _ {A : Type 0} {C : Crossbeam A} where
  abbrev pub put_worker : ℕ → Option WorkerHandle → Threads C → Threads C
  put_worker t o s = record s { workers = λ u. if t == u then o else s.workers u }

  unfoldable pub drop_worker : ℕ → Option WorkerHandle → Threads C → Threads C
  drop_worker t none s = s
  drop_worker t (some h) s = record s { pool = drop_guard t h.id s.pool }

  -- `hypertile_register_worker`: the new worker is made before the old one, if any, is dropped.
  unfoldable pub register_worker : ℕ → Threads C → Threads C × ℕ
  unfolding drop_worker
  register_worker t s =
      let r = new_worker t native s.pool in
      (
        drop_worker t (s.workers t) (put_worker t (some r.value) (record s { pool = r.pool })),
        r.value.id,
      )

  -- What follows the tasks: the worker goes back, unless the thread has got a new one.
  unfoldable pub restore : ℕ → WorkerHandle → Option WorkerHandle → Threads C → Threads C
  unfolding drop_worker
  restore t h none s = put_worker t (some h) s
  restore t h (some new) s = drop_worker t (some h) s

  -- `hypertile_worker_run_until_idle`; `tasks` is what the tasks do that the worker finds.
  run_with :
      (WorkerHandle → Threads C → Threads C)
      → ℕ
      → Option WorkerHandle
      → Threads C
      → Threads C × HypertileStatus
  unfolding restore
  run_with tasks t none s = (s, err_worker_not_registered)
  run_with tasks t (some h) s =
      let s' = tasks h (put_worker t none s) in (restore t h (s'.workers t) s', ok)

  unfoldable pub run_until_idle :
      (WorkerHandle → Threads C → Threads C) → ℕ → Threads C → Threads C × HypertileStatus
  unfolding run_with
  run_until_idle tasks t s = run_with tasks t (s.workers t) s

  unfoldable pub deregister_from : ℕ → Option WorkerHandle → Threads C → Threads C × HypertileStatus
  unfolding drop_worker
  deregister_from t none s = (s, err_worker_not_registered)
  deregister_from t (some h) s = (drop_worker t (some h) (put_worker t none s), ok)

  -- `hypertile_worker_deregister`
  unfoldable pub deregister_worker : ℕ → Threads C → Threads C × HypertileStatus
  unfolding deregister_from
  deregister_worker t s = deregister_from t (s.workers t) s

pub data Call : Type 0 where
  registering deregistering : ℕ → Call

module _ {A : Type 0} {C : Crossbeam A} where
  unfoldable pub run : List Call → Threads C → Threads C
  unfolding register_worker deregister_worker
  run [] s = s
  run (registering t ∷ cs) s = run cs (register_worker t s).0
  run (deregistering t ∷ cs) s = run cs (deregister_worker t s).0
