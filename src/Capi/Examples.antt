-- ===== src/Capi/Examples.antt =====
-- Threads that register, over the pool of the other examples.
use hypertile.Base.{zero, suc, ◌≡◌, none, some, List, [], ◌∷◌}
use hypertile.Pool.Conservation.{weigh}
use hypertile.Pool.Samples.{lists, busy, handle}
use hypertile.Capi.Worker.{Threads, Call, registering, deregistering, run}
use hypertile.Capi.Registration.{run-weigh}

-- Thread 0 has the worker 1.
abbrev one : Threads lists
one = record { pool = busy; workers = λ t. elim t [ zero ↦ some (handle 0) | suc n ↦ none ] }

abbrev calls : List Call
calls = registering 1 ∷ registering 0 ∷ deregistering 1 ∷ registering 0 ∷ []

run-weigh_example : weigh lists (λ a. a) (run calls one).pool ≡ weigh lists (λ a. a) one.pool
run-weigh_example = run-weigh lists (λ a. a) calls one
