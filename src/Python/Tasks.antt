-- ===== src/Python/Tasks.antt =====
-- hypertile-sys/src/lib.rs: `spawn_native_pipeline`, `spawn_callable` and their task classes.
use hypertile.Base.{
  ℕ, ◌<◌, ◌≡◌, refl, ap, ◌∙◌, true, false, Option, none, List, [], ◌∷◌, length, total, arith,
}
use hypertile.Registry.Defs.{contains}
use hypertile.Python.Flag.{BoolCounts, bool_flag}
use hypertile.Python.Outcome.{
  PyResult, ok, err, PyError, panic_in_task, raised, stop_iteration, Caught, returned, unwound,
  panic_message, store_native, native_result, store_callable, callable_result, next_step,
}
use hypertile.Python.Completion.{System, run, start}
use hypertile.Python.Step.{replay}
use hypertile.Python.Callbacks.{threads_of, reached, called_late}

-- A task that stores `o`, and threads that add the callbacks `cbs`.
unfoldable pub spawn_task : {M : Type 0} → List ℕ → System bool_flag (Option M)
unfolding start
spawn_task cbs = start bool_flag false none (threads_of (0 ∷ []) cbs)

module _ {M : Type 0} (o : Option M) (cbs ks : List ℕ) where
  abbrev pub task : System bool_flag (Option M)
  task = run bool_flag (λ i m. o) (λ i. 1) ks (spawn_task cbs)

  replay_stored :
      (m : Option M) (xs : List ℕ)
      → contains xs 0 ≡ true
      → replay bool_flag (λ i m. o) (λ i. 1) m xs ≡ o
  unfolding contains
  replay_stored m [] h = cc
  replay_stored m (x ∷ xs) h = refl

  -- A callback finds the task done, with its result stored.
  called_stored :
      0 < length task.shared.called → (task.shared.flag ≡ true) × (task.shared.memory ≡ o)
  unfolding spawn_task total contains
  called_stored l =
      let counts : BoolCounts false (total {A = ℕ} (λ i. 1) (0 ∷ [])) =
        (ground arith, ground arith) in
      let v =
        reached bool_flag (λ i m. o) (λ i. 1) (λ i. omega arith) false none (0 ∷ []) cbs counts
          ks in
      let (d, s) =
        called_late bool_flag (λ i m. o) (λ i. 1) (λ i. omega arith) false none (0 ∷ []) cbs counts
          ks 0 l (ground arith) in
      (d, v.replayed ∙ replay_stored none task.shared.stored s)

-- What a step of the iterator gives for a task that is done.
abbrev pub native_step : {V X T : Type 0} → Caught V T → T → PyResult (Option V) (PyError V X T)
native_step (returned v) fallback = err (stop_iteration v)
native_step (unwound p) fallback = err (panic_in_task (panic_message p fallback))

abbrev pub callable_step :
    {V X T : Type 0} → Caught (PyResult V X) T → T → PyResult (Option V) (PyError V X T)
callable_step (returned (ok v)) fallback = err (stop_iteration v)
callable_step (returned (err x)) fallback = err (raised x)
callable_step (unwound p) fallback = err (panic_in_task (panic_message p fallback))

module _ {V X T : Type 0} where
  native_stored :
      (c : Caught V T) (fallback : T)
      → next_step true (native_result {X = X} (store_native c fallback)) ≡ native_step c fallback
  unfolding next_step native_result store_native
  native_stored (returned v) fallback = refl
  native_stored (unwound p) fallback = refl

  callable_stored :
      (c : Caught (PyResult V X) T) (fallback : T)
      → next_step true (callable_result (store_callable c fallback)) ≡ callable_step c fallback
  unfolding next_step callable_result store_callable
  callable_stored (returned (ok v)) fallback = refl
  callable_stored (returned (err x)) fallback = refl
  callable_stored (unwound p) fallback = refl

  -- Whatever the schedule, once a callback of a native task was called, a step of its iterator ends
  -- it: with the computed bytes, or with the message of the panic.
  called-native_result :
      (c : Caught V T) (fallback : T) (cbs ks : List ℕ)
      → 0 < length (task (store_native c fallback) cbs ks).shared.called
      → let s = (task (store_native c fallback) cbs ks).shared in
        next_step s.flag (native_result {X = X} s.memory) ≡ native_step c fallback
  called-native_result c fallback cbs ks l =
      let (d, m) = called_stored (store_native c fallback) cbs ks l in
      ap (λ b. next_step b (native_result (task (store_native c fallback) cbs ks).shared.memory)) d
      ∙ (ap (λ x. next_step true (native_result x)) m ∙ native_stored c fallback)

  -- Whatever the schedule, once a callback of a callable's task was called, a step of its iterator
  -- ends it: with the value, with the exception that was raised, or with the message of the panic.
  called-callable_result :
      (c : Caught (PyResult V X) T) (fallback : T) (cbs ks : List ℕ)
      → 0 < length (task (store_callable c fallback) cbs ks).shared.called
      → let s = (task (store_callable c fallback) cbs ks).shared in
        next_step s.flag (callable_result s.memory) ≡ callable_step c fallback
  called-callable_result c fallback cbs ks l =
      let (d, m) = called_stored (store_callable c fallback) cbs ks l in
      ap
        (λ b. next_step b (callable_result (task (store_callable c fallback) cbs ks).shared.memory))
        d
      ∙ (ap (λ x. next_step true (callable_result x)) m ∙ callable_stored c fallback)
