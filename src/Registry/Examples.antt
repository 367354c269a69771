-- ===== src/Registry/Examples.antt =====
-- A registry with two workers, and the theorems at it.
use hypertile.Base.{ℕ, ◌+◌, ◌*◌, ◌≤◌, ◌≡◌, length, List, [], ◌∷◌, arith}
use hypertile.Registry.Defs.{
  native, WorkerEntry, WorkerRegistry, new_registry, insert, contains, register, mark_idle,
  unpark_one_idle,
}
use hypertile.Registry.Invariant.{
  Call, allocates, registers, deregisters, marks, run, IsValid, run-new_registry-IsValid,
}
use hypertile.Registry.Steps.{
  Turn, calls, enters, goes_on, turns, nobody, alone, loading, finished, turns-unpark_one_idle,
}
use hypertile.Registry.Unpark.{Unparks, unpark_one_idle-Unparks}

abbrev entry : ℕ → WorkerEntry ℕ ℕ
entry n = record { id = n; kind = native; stealer = n; unparker = n }

-- Workers 1 and 2 are registered and worker 1 is idle.
abbrev history : List (Call ℕ ℕ)
history = allocates ∷ registers (entry 1) ∷ allocates ∷ registers (entry 2) ∷ marks 7 ∷ marks 1 ∷ []

abbrev two_workers : WorkerRegistry ℕ ℕ
two_workers = run (new_registry ℕ ℕ) history

run-new_registry-IsValid_example : IsValid two_workers
run-new_registry-IsValid_example = run-new_registry-IsValid history

unpark_one_idle-Unparks_example :
    let (q, who) = unpark_one_idle two_workers in
    Unparks two_workers.workers two_workers.idle_stack q.idle_stack who
unfolding run new_registry register mark_idle insert contains
unpark_one_idle-Unparks_example =
    unpark_one_idle-Unparks two_workers (run-new_registry-IsValid history) (omega arith)

-- Thread 5 pops worker 2 and is about to look for it when worker 2 leaves.
abbrev popped_while_leaving : List (Turn ℕ ℕ)
popped_while_leaving =
    calls (registers (entry 1))
    ∷ calls (registers (entry 2))
    ∷ calls (marks 1)
    ∷ calls (marks 2)
    ∷ enters 5
    ∷ goes_on 5
    ∷ goes_on 5
    ∷ calls (deregisters 2)
    ∷ goes_on 5
    ∷ []

turns-unpark_one_idle_example :
    let r = (turns popped_while_leaving nobody).registry in
    let (q, who) = unpark_one_idle r in
    IsValid r
    × ((n : ℕ) × (n ≤ 2 * length r.idle_stack + 2) × (alone n loading r ≡ (finished who, q)))
turns-unpark_one_idle_example = turns-unpark_one_idle popped_while_leaving
