-- ===== src/Executor/Examples.antt =====
-- A task that is spawned, run, and woken, and the theorems at it.
use hypertile.Executor.Working.{Runs, working-Runs}
use hypertile.Base.{some-inj, subst, ℕ, ◌+◌, ◌≡◌, refl, none, some, List, [], ◌∷◌, get_elem?, total}
use hypertile.Task.Cell.{resting, pending, call_wake, answer, go}
use hypertile.Task.System.{System, start, advance}
use hypertile.Task.Methods.{new, step, run_step, wake_step}
use hypertile.Task.Safety.{Quiet}
use hypertile.Task.Tally.{handles, inside, outside}
use hypertile.Pool.Local.{
  take_local_worker, set_local_worker, take_any_local_worker, local_pop, new_core, inject,
  try_push_local, inject_rest, steal_injector_into_local,
}
use hypertile.Pool.Worker.{
  flush, drop_guard, new_worker, install, search_local, find_task, search, injector_first,
}
use hypertile.Pool.Samples.{lists, handle}
use hypertile.Registry.Defs.{native, bilingual, allocate_id, register}
use hypertile.Executor.Machine.{
  Act, joining, leaving, spawning, stepping, working, new_executor, spawn, schedule, after_step,
  step_from, step_in, begin, run_from, run_in, found, act, acts,
}
use hypertile.Executor.Queued.{queued_of}
use hypertile.Executor.Handles.{reached, handles_of, acts-queued, acts_scheduled, acts-Quiet}

-- Threads 0 and 1 are workers. Thread 0 spawns the task and runs it; its poll is pending. Thread 1
-- wakes it, into its own deque, and leaves.
abbrev spawned_and_woken : List (Act ℕ ℕ ℕ ℕ)
spawned_and_woken =
    joining 0 native
    ∷ joining 1 bilingual
    ∷ spawning 0 7 2
    ∷ working 0 (handle 0) 0
    ∷ stepping 0 0 0 go
    ∷ stepping 0 0 0 go
    ∷ stepping 0 0 0 (answer (pending 8))
    ∷ stepping 0 0 0 go
    ∷ stepping 0 0 0 go
    ∷ stepping 0 0 0 go
    ∷ stepping 1 0 1 call_wake
    ∷ stepping 1 0 1 go
    ∷ stepping 1 0 1 go
    ∷ stepping 1 0 1 go
    ∷ leaving 1 2
    ∷ []

abbrev task : System ℕ ℕ ℕ ℕ
task = elim (get_elem? (reached lists spawned_and_woken).tasks 0) [ none ↦ start 0 0 | some s ↦ s ]

acts-queued_example :
    handles_of lists spawned_and_woken 0
    ≡ queued_of (get_elem? (reached lists spawned_and_woken).tasks 0)
acts-queued_example = acts-queued lists spawned_and_woken 0

acts_scheduled_example :
    handles_of lists spawned_and_woken 0
      + total handles task.threads
      + (total inside task.threads + total outside task.threads)
    ≡ 1
unfolding acts act spawn step_in step_from after_step schedule begin run_from run_in found
    new_executor find_task search injector_first steal_injector_into_local new_core inject
    try_push_local inject_rest start new advance step run_step wake_step new_worker install
    set_local_worker take_any_local_worker search_local local_pop
acts_scheduled_example = acts_scheduled lists spawned_and_woken 0 task refl refl

acts-Quiet_example :
    let s = task.shared in
    Quiet s.state (handles_of lists spawned_and_woken 0) s.future s.join_waker s.published
unfolding acts act spawn step_in step_from after_step schedule begin run_from run_in found
    new_executor find_task search injector_first steal_injector_into_local new_core inject
    try_push_local inject_rest start new advance step run_step wake_step new_worker install
    set_local_worker take_any_local_worker search_local local_pop
acts-Quiet_example = acts-Quiet lists spawned_and_woken 0 task refl (refl, (refl, tt))

-- The same, with the handle of the woken task found by the thread 0, in the place 0.
place_zero_free :
    (sys : System ℕ ℕ ℕ ℕ)
    → get_elem? (reached lists spawned_and_woken).tasks 0 ≡ some sys
    → get_elem? sys.threads 0 ≡ some resting
unfolding acts act spawn step_in step_from after_step schedule begin run_from run_in found
    new_executor find_task search injector_first steal_injector_into_local new_core inject
    try_push_local inject_rest start new advance step run_step wake_step new_worker install
    set_local_worker take_any_local_worker search_local local_pop
place_zero_free sys h = subst (λ s. get_elem? s.threads 0 ≡ some resting) (some-inj h) refl

working-Runs_example :
    let x = reached lists spawned_and_woken in
    (sys : System ℕ ℕ ℕ ℕ) × (get_elem? x.tasks 0 ≡ some sys)
    × Runs 0 0 sys (find_task (handle 0) 0 x.pool).pool (act (working 0 (handle 0) 0) x)
unfolding acts act spawn step_in step_from after_step schedule begin run_from run_in found
    new_executor find_task search injector_first steal_injector_into_local new_core inject
    try_push_local inject_rest start new advance step run_step wake_step new_worker install
    set_local_worker take_any_local_worker search_local local_pop drop_guard take_local_worker
    allocate_id register flush
working-Runs_example = working-Runs lists spawned_and_woken 0 0 0 (handle 0) refl place_zero_free
