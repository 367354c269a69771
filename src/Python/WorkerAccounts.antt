-- ===== src/Python/WorkerAccounts.antt =====
-- hypertile-sys/src/lib.rs: what the workers that Python registers do to the tasks of the pool.
use hypertile.Base.{ℕ, ◌+◌, ◌≡◌, ap, Option, none, some, List, [], ◌∷◌, total, arith}
use hypertile.Registry.Defs.{WorkerKind}
use hypertile.Pool.Crossbeam.{Crossbeam}
use hypertile.Pool.Local.{Pool}
use hypertile.Pool.Conservation.{weigh}
use hypertile.Pool.Flush.{new_worker-weigh, drop_guard-weigh}
use hypertile.Pool.Loop.{TaskKind}
use hypertile.Pool.Accounting.{run_one-Balanced, run_until_idle-Balanced}
use hypertile.Python.Outcome.{PyResult, ok, err}
use hypertile.Python.Worker.{
  RegistrationError, worker_kind, Registered, Module, register_as, register_worker, inner, loop_of,
  deregister, run_one, run_until_idle, Call, registering, running_one, running_until_idle,
  deregistering, call, calls,
}

module _ {A : Type 0} (C : Crossbeam A) (w g : A → ℕ) where
  -- The tasks in the pool and those that ran, against `m` and what came from those that ran.
  abbrev pub IsBalanced : ℕ → Module C → Type 0
  IsBalanced n m = weigh C w m.pool + total w m.ran ≡ n + total g m.ran

  register_as-IsBalanced :
      (n t : ℕ) (kind : PyResult WorkerKind RegistrationError) (m : Module C)
      → IsBalanced n m
      → IsBalanced n (register_as t kind m).0
  unfolding register_as
  register_as-IsBalanced n t (err e) m h = h
  register_as-IsBalanced n t (ok kind) m h = omega (arith, h, new_worker-weigh C w t kind m.pool)

  deregister-IsBalanced :
      (n i : ℕ) (o : Option Registered) (m : Module C)
      → IsBalanced n m
      → IsBalanced n (deregister i o m)
  unfolding deregister
  deregister-IsBalanced n i none m h = h
  deregister-IsBalanced n i (some r) m h =
      omega (arith, h, drop_guard-weigh C w r.thread r.handle.id m.pool)

  module _ (task_kind : A → TaskKind) (run : A → Pool C → Pool C)
      (adds : (a : A) (p : Pool C) → weigh C w (run a p) ≡ weigh C w p + g a) where
    run_one-IsBalanced :
        (n i : ℕ) (o : Option Registered) (m : Module C)
        → IsBalanced n m
        → IsBalanced n (run_one task_kind run i o m).0
    unfolding run_one
    run_one-IsBalanced n i none m h = h
    run_one-IsBalanced n i (some r) m h =
        run_one-Balanced C w g task_kind run r.thread n adds (loop_of r m) h

    run_until_idle-IsBalanced :
        (n k i : ℕ) (o : Option Registered) (m : Module C)
        → IsBalanced n m
        → IsBalanced n (run_until_idle task_kind run k i o m).0
    unfolding run_until_idle
    run_until_idle-IsBalanced n k i none m h = h
    run_until_idle-IsBalanced n k i (some r) m h =
        run_until_idle-Balanced C w g task_kind run r.thread n adds k (loop_of r m) h

    call-IsBalanced :
        (n : ℕ) (c : Call) (m : Module C) → IsBalanced n m → IsBalanced n (call task_kind run c m)
    unfolding call register_worker
    call-IsBalanced n (registering t kind) m h = register_as-IsBalanced n t (worker_kind kind) m h
    call-IsBalanced n (running_one i) m h = run_one-IsBalanced n i (inner i m) m h
    call-IsBalanced n (running_until_idle k i) m h = run_until_idle-IsBalanced n k i (inner i m) m h
    call-IsBalanced n (deregistering i) m h = deregister-IsBalanced n i (inner i m) m h

    calls_balance :
        (n : ℕ) (cs : List Call) (m : Module C)
        → IsBalanced n m
        → IsBalanced n (calls task_kind run cs m)
    unfolding calls
    calls_balance n [] m h = h
    calls_balance n (c ∷ cs) m h =
        calls_balance n cs (call task_kind run c m) (call-IsBalanced n c m h)

  -- Whatever Python calls on any number of registered workers, errors included, starting when no task
  -- has run: if running a task changes the weight of the pool by just what `g` says, then what the
  -- pool holds at the end and the tasks that ran add up to what the pool held at the start and what
  -- those tasks have added.
  pub calls-IsBalanced :
      (task_kind : A → TaskKind) (run : A → Pool C → Pool C) (cs : List Call) (m : Module C)
      → ((a : A) (p : Pool C) → weigh C w (run a p) ≡ weigh C w p + g a)
      → m.ran ≡ []
      → IsBalanced (weigh C w m.pool) (calls task_kind run cs m)
  unfolding total
  calls-IsBalanced task_kind run cs m adds e =
      calls_balance task_kind run adds (weigh C w m.pool) cs m
        (omega (arith, ap (total w) e, ap (total g) e))
