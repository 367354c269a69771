-- ===== src/Executor/Working.antt =====
-- hypertile-core/src/executor.rs and worker.rs: what a worker finds is a task, and is run.
use hypertile.Base.{
  ℕ, zero, suc, ◌<◌, ◌≡◌, refl, sym, ap, ◌∙◌, subst, Option, none, some, List, get_elem?, set,
  get_elem?-set_self, get_elem?-lt, arith,
}
use hypertile.Task.Cell.{resting, run, starting, call_run}
use hypertile.Task.Methods.{step}
use hypertile.Task.System.{System, advance}
use hypertile.Pool.Crossbeam.{Crossbeam, weigh_option}
use hypertile.Pool.Local.{Pool}
use hypertile.Pool.Worker.{WorkerHandle, find_task}
use hypertile.Pool.Conservation.{find_task-weigh}
use hypertile.Executor.Machine.{Executor, Act, working, begin, run_from, run_in, found, act}
use hypertile.Executor.Queued.{of_task, of_self, queued_of}
use hypertile.Executor.Handles.{reached, kept}

one_less : (n : ℕ) → 0 < n → (m : ℕ) × (n ≡ suc m)
one_less zero l = absurd (omega arith)
one_less (suc m) l = (m, refl)

module _ {F T P W : Type 0} where
  is_queued :
      (o : Option (System F T P W)) → 0 < queued_of o → (sys : System F T P W) × (o ≡ some sys)
  is_queued none l = absurd (omega arith)
  is_queued (some sys) l = (sys, refl)

  -- A thread that rests in the cell takes a handle.
  advance-call_run :
      (k m : ℕ) (sys : System F T P W)
      → get_elem? sys.threads k ≡ some resting
      → sys.shared.queued ≡ suc m
      → advance k call_run sys
        ≡ some (record {
          shared = record sys.shared { queued = m };
          threads = set sys.threads k (run starting);
        })
  unfolding advance step
  advance-call_run k m sys at q = rw (at, q) refl

module _ {C : Crossbeam ℕ} {F T P W : Type 0} where
  -- The task `id`, whose cell is `sys`, is run in the place `k`.
  pub record Runs (id k : ℕ) (sys : System F T P W) (p : Pool C) (x : Executor C F T P W)
      : Type 0 where
    pub pool : x.pool ≡ p
    pub cell : System F T P W
    pub task : get_elem? x.tasks id ≡ some cell
    pub thread : get_elem? cell.threads k ≡ some (run starting)
    pub taken : sys.shared.queued ≡ suc cell.shared.queued

  begin-Runs :
      (id k m : ℕ) (sys : System F T P W) (p : Pool C) (x : Executor C F T P W)
      → get_elem? x.tasks id ≡ some sys
      → get_elem? sys.threads k ≡ some resting
      → sys.shared.queued ≡ suc m
      → Runs id k sys p (begin id p (advance k call_run sys) x)
  unfolding begin
  begin-Runs id k m sys p x here at q =
      let next : System F T P W = record {
        shared = record sys.shared { queued = m };
        threads = set sys.threads k (run starting);
      } in
      subst (λ o. Runs id k sys p (begin id p o x)) (sym (advance-call_run k m sys at q))
        (record {
          pool = refl;
          cell = next;
          task = get_elem?-set_self x.tasks id next (get_elem?-lt x.tasks id sys here);
          thread =
              get_elem?-set_self sys.threads k (run starting)
                (get_elem?-lt sys.threads k resting at);
          taken = q;
        })

module _ (C : Crossbeam ℕ) {F T P W : Type 0} (events : List (Act F T P W)) where
  -- However threads join and leave the pool, spawn tasks, step through their cells and work, what
  -- a worker then finds is the handle of a task that was spawned and is queued.
  finds_task :
      (t id : ℕ) (h : WorkerHandle)
      → (find_task h t (reached C events).pool).task ≡ some id
      → 0 < queued_of (get_elem? (reached C events).tasks id)
  finds_task t id h e = omega (
    arith,
    find_task-weigh C (of_task id) h t (reached C events).pool,
    ap (weigh_option (of_task id)) e,
    of_self id,
    (kept C events).queued id,
  )

  -- However threads join and leave the pool, spawn tasks, step through their cells and work: if a
  -- worker then finds a handle, it is the handle of a task that was spawned; and if the worker's
  -- place in the cell of that task is free, the worker runs it there, the cell counts one handle
  -- less, and the pool is what the search has left.
  pub working-Runs :
      (t k id : ℕ) (h : WorkerHandle)
      → (find_task h t (reached C events).pool).task ≡ some id
      → (free : (sys : System F T P W)
          → get_elem? (reached C events).tasks id ≡ some sys
          → get_elem? sys.threads k ≡ some resting)
      → (sys : System F T P W) × (get_elem? (reached C events).tasks id ≡ some sys)
        × Runs id k sys
            (find_task h t (reached C events).pool).pool
            (act (working t h k) (reached C events))
  unfolding act found run_in run_from
  working-Runs t k id h e free =
      let x = reached C events in
      let r = find_task h t x.pool in
      let (sys, here) = is_queued (get_elem? x.tasks id) (finds_task t id h e) in
      let at = free sys here in
      let (m, q) =
        one_less sys.shared.queued (omega (arith, finds_task t id h e, ap queued_of here)) in
      let same : act (working t h k) x ≡ begin id r.pool (advance k call_run sys) x =
        ap (λ o. found k o r.pool x) e
        ∙ (ap (λ o. run_in id k r.pool o x) here ∙ ap (λ o. run_from id k r.pool sys o x) at) in
      (
        sys,
        here,
        subst (Runs id k sys r.pool) (sym same) (begin-Runs id k m sys r.pool x here at q),
      )
