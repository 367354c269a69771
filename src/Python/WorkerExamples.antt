-- ===== src/Python/WorkerExamples.antt =====
-- `run_crypto_pipeline` on two bytes, workers that Python registers, and the theorems at them; a
-- callback that is called twice.
use hypertile.Base.{true, suc, ◌++◌, ℕ, ◌+◌, ◌*◌, ◌≡◌, refl, some, List, [], ◌∷◌, get_elem?, arith}
use hypertile.Registry.Defs.{native}
use hypertile.Pool.Local.{Pool}
use hypertile.Pool.Loop.{TaskKind, rust}
use hypertile.Pool.Conservation.{weigh}
use hypertile.Pool.Samples.{lists, busy}
use hypertile.Python.Outcome.{PyResult, ok, err}
use hypertile.Python.Wrapped.{Callback, call_wrapped, fall_back, asks_argument, missing, required}
use hypertile.Python.Pipeline.{absorb, run_crypto_pipeline}
use hypertile.Python.Slots.{
  IsDigest, byte_at, state_after, run_crypto_pipeline-IsDigest, run_crypto_pipeline-slot,
}
use hypertile.Python.Worker.{
  deregistered, invalid_kind, worker_kind, Module, worker_id, inner, register_worker, register_as,
  run_one, run_until_idle, deregister, Call, registering, running_one, running_until_idle,
  deregistering, call, calls, native_text,
}
use hypertile.Python.WorkerAccounts.{IsBalanced, calls-IsBalanced}
use hypertile.Python.Deregistered.{deregister_for_good}

run_crypto_pipeline-IsDigest_example :
    (out : List ℕ) × (run_crypto_pipeline (1 ∷ 2 ∷ []) 100 ≡ some out) × IsDigest out
run_crypto_pipeline-IsDigest_example = run_crypto_pipeline-IsDigest (1 ∷ 2 ∷ []) 100

-- Of 100 rounds, the round 84 is the last that writes the slot 1.
run_crypto_pipeline-slot_example :
    (out : List ℕ) × (run_crypto_pipeline (1 ∷ 2 ∷ []) 100 ≡ some out)
    × (get_elem? out (1 * 8 + 3)
        ≡ some (byte_at 3 (state_after 85 0 (absorb 0xcbf2_9ce4_8422_2325 (1 ∷ 2 ∷ [])))))
run_crypto_pipeline-slot_example =
    run_crypto_pipeline-slot (1 ∷ 2 ∷ []) 100 84 1 3 (omega arith) (omega arith) (omega arith)
      (omega arith) (omega arith)

-- "Native" and "gpu"
native_kind : worker_kind (78 ∷ 97 ∷ 116 ∷ 105 ∷ 118 ∷ 101 ∷ []) ≡ ok native
unfolding worker_kind
native_kind = refl

gpu_kind : worker_kind (103 ∷ 112 ∷ 117 ∷ []) ≡ err (invalid_kind (103 ∷ 112 ∷ 117 ∷ []))
unfolding worker_kind
gpu_kind = refl

abbrev all_rust : ℕ → TaskKind
all_rust a = rust

abbrev keep : ℕ → Pool lists → Pool lists
keep a p = p

abbrev idle_module : Module lists
idle_module = record { pool = busy; ran = []; workers = [] }

abbrev some_calls : List Call
some_calls =
    registering 0 native_text
    ∷ running_one 0
    ∷ registering 1 []
    ∷ running_until_idle 9 0
    ∷ deregistering 0
    ∷ running_one 0
    ∷ []

calls-IsBalanced_example :
    IsBalanced lists
      (λ a. 1)
      (λ a. 0)
      (weigh lists (λ a. 1) busy)
      (calls all_rust keep some_calls idle_module)
calls-IsBalanced_example =
    calls-IsBalanced lists (λ a. 1) (λ a. 0) all_rust keep some_calls idle_module
      (λ a p. omega arith) refl

deregister_for_good_example :
    let m = calls all_rust keep (registering 0 native_text ∷ []) idle_module in
    let q =
      calls all_rust keep
        (registering 1 native_text ∷ running_one 0 ∷ [])
        (call all_rust keep (deregistering 0) m) in
    (run_one all_rust keep 0 (inner 0 q) q ≡ (q, err deregistered))
    × (run_until_idle all_rust keep 3 0 (inner 0 q) q ≡ (q, err deregistered))
    × (worker_id (inner 0 q) ≡ err deregistered)
    × (deregister 0 (inner 0 q) q ≡ q)
unfolding calls call register_worker register_as worker_kind
deregister_for_good_example =
    deregister_for_good 0 all_rust keep (registering 1 native_text ∷ running_one 0 ∷ []) 3
      (calls all_rust keep (registering 0 native_text ∷ []) idle_module) (omega arith)

-- A callback with an optional parameter, the body of which counts its runs and then makes a call that
-- lacks an argument: it runs twice.
abbrev miscalls : ℕ → ℕ × PyResult Unit (List ℕ)
miscalls runs = (suc runs, err (missing ++ required))

abbrev optional_argument : Callback ℕ (List ℕ)
optional_argument = record {
  call0 = miscalls;
  call1 = miscalls;
  is_type_error = λ e. true;
  message = λ e. e;
}

wrapped_runs_twice : (call_wrapped optional_argument 0).0 ≡ 2
unfolding call_wrapped fall_back asks_argument
wrapped_runs_twice = refl
