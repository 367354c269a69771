-- ===== src/Pool/Examples.antt =====
-- The theorems on the pool at concrete pools.
use hypertile.Base.{
  total, inr, ℕ, ◌+◌, ◌≡◌, refl, none, some, List, [], ◌∷◌, ◌++◌, get_elem?, arith,
}
use hypertile.Registry.Defs.{bilingual, allocate_id, unpark_one_idle}
use hypertile.Pool.Crossbeam.{weigh_option}
use hypertile.Pool.Local.{new_core, inject, try_push_local, set_local_worker, take_any_local_worker}
use hypertile.Pool.Worker.{install, new_worker, find_task, drop_guard}
use hypertile.Pool.Conservation.{weigh, find_task-weigh}
use hypertile.Pool.Leave.{drop_guard-Flushed}
use hypertile.Pool.Loop.{python, Loop, run_loop}
use hypertile.Pool.Budget.{Within, run_loop-WithinBudget}
use hypertile.Pool.Accounting.{run_loop-Balanced}
use hypertile.Pool.Samples.{lists, busy, handle}

find_task-weigh_example :
    let r = find_task (handle 0) 0 busy in
    weigh lists (λ a. a) busy ≡ weigh_option (λ a. a) r.task + weigh lists (λ a. a) r.pool
find_task-weigh_example = find_task-weigh lists (λ a. a) (handle 0) 0 busy

drop_guard-Flushed_example :
    let q = drop_guard 0 1 busy in
    (lists.waiting q.injector ≡ lists.waiting busy.injector ++ (20 ∷ 21 ∷ []))
    × ((e : List ℕ) × (get_elem? q.heap 0 ≡ some e) × (lists.items e ≡ []))
    × (q.local 0 ≡ none)
unfolding inject try_push_local new_worker install set_local_worker take_any_local_worker new_core
    allocate_id unpark_one_idle
drop_guard-Flushed_example = drop_guard-Flushed lists 0 1 0 (20 ∷ 21 ∷ []) busy refl refl

-- A bilingual worker, for which every task is one of Python, and no task adds another.
abbrev worker : Loop lists
worker = record {
  handle = record { id = 1; kind = bilingual; tick = 1 };
  consecutive_rust = 0;
  consecutive_python = 32;
  pool = busy;
  ran = [];
}

run_loop-Balanced_example :
    let l = run_loop {C = lists} (λ a. python) (λ a p. p) 0 3 worker in
    weigh lists (λ a. a) l.pool + total (λ a. a) l.ran
    ≡ weigh lists (λ a. a) busy + total (λ a. 0) l.ran
run_loop-Balanced_example =
    run_loop-Balanced lists (λ a. a) (λ a. 0) (λ a. python) (λ a p. p) 0 3 worker
      (λ a p. omega arith) refl

run_loop-WithinBudget_example :
    let l = run_loop {C = lists} (λ a. python) (λ a p. p) 0 3 worker in
    Within l.consecutive_rust l.consecutive_python
run_loop-WithinBudget_example =
    run_loop-WithinBudget (λ a. python) (λ a p. p) 0 3 worker (inr (refl, omega arith))
