-- ===== src/Python/Outcome.antt =====
-- hypertile-sys/src/lib.rs: what tasks store, and what `result` and `__next__` make of it.
use hypertile.Base.{Bool, true, false, Option, none, some, List, [], ◌∷◌}

pub data PyResult {ℓ} (V E : Type ℓ) : Type ℓ where
  ok : V → PyResult V E
  err : E → PyResult V E

-- A panic's payload: a `&str`, a `String`, or anything else.
pub data Payload {ℓ} (T : Type ℓ) : Type ℓ where
  text owned : T → Payload T
  other : Payload T

-- What `catch_unwind` gives.
pub data Caught {ℓ} (V T : Type ℓ) : Type ℓ where
  returned : V → Caught V T
  unwound : Payload T → Caught V T

-- The exceptions that the module raises, beside those of the user's code; `stop_iteration` is how
-- `__next__` hands over a result.
pub data PyError {ℓ} (V X T : Type ℓ) : Type ℓ where
  panic_in_task : T → PyError V X T
  not_completed : PyError V X T
  raised : X → PyError V X T
  stop_iteration : V → PyError V X T

unfoldable pub panic_message {ℓ} : {T : Type ℓ} → Payload T → T → T
panic_message (text s) fallback = s
panic_message (owned s) fallback = s
panic_message other fallback = fallback

-- The end of `spawn_native_pipeline`
unfoldable pub store_native {ℓ} : {V T : Type ℓ} → Caught V T → T → Option (PyResult V T)
unfolding panic_message
store_native (returned v) fallback = some (ok v)
store_native (unwound p) fallback = some (err (panic_message p fallback))

module _ {ℓ} {V X T : Type ℓ} where
  -- `PyNativeTask::result`
  unfoldable pub native_result : Option (PyResult V T) → PyResult V (PyError V X T)
  native_result (some (ok v)) = ok v
  native_result (some (err m)) = err (panic_in_task m)
  native_result none = err not_completed

  -- The end of `spawn_callable`
  unfoldable pub store_callable : Caught (PyResult V X) T → T → Option (PyResult V (PyError V X T))
  unfolding panic_message
  store_callable (returned (ok v)) fallback = some (ok v)
  store_callable (returned (err x)) fallback = some (err (raised x))
  store_callable (unwound p) fallback = some (err (panic_in_task (panic_message p fallback)))

  -- `PyCallableTask::result`
  unfoldable pub callable_result : Option (PyResult V (PyError V X T)) → PyResult V (PyError V X T)
  callable_result (some r) = r
  callable_result none = err not_completed

  -- `__next__` of the four task classes: `ok` is a pending step.
  unfoldable pub next_step : Bool → PyResult V (PyError V X T) → PyResult (Option V) (PyError V X T)
  next_step true (ok v) = err (stop_iteration v)
  next_step true (err e) = err e
  next_step false r = ok none

-- The shared memory of a batch.
pub record BatchMemory {ℓ} (V T : Type ℓ) : Type ℓ where
  pub results : List (Option V)
  pub panic_error : Option T

module _ {ℓ} {V X T : Type ℓ} where
  -- Whether all items are there; a missing one shows as `None`.
  unfoldable pub batch_result : Bool → BatchMemory V T → PyResult (List (Option V)) (PyError V X T)
  batch_result false m = err not_completed
  batch_result true m = elim m.panic_error [ some t ↦ err (panic_in_task t) | none ↦ ok m.results ]

  cons_result :
      Option V
      → PyResult (List (Option V)) (PyError V X T)
      → PyResult (List (Option V)) (PyError V X T)
  cons_result o (ok vs) = ok (o ∷ vs)
  cons_result o (err e) = err e

  -- The loop of `PyBatchCallableTask::result`, which stops at the first exception.
  unfoldable pub collect_results :
      List (Option (PyResult V X)) → PyResult (List (Option V)) (PyError V X T)
  unfolding cons_result
  collect_results [] = ok []
  collect_results (some (ok v) ∷ rs) = cons_result (some v) (collect_results rs)
  collect_results (some (err x) ∷ rs) = err (raised x)
  collect_results (none ∷ rs) = cons_result none (collect_results rs)

  unfoldable pub batch_callable_result :
      Bool → BatchMemory (PyResult V X) T → PyResult (List (Option V)) (PyError V X T)
  batch_callable_result false m = err not_completed
  batch_callable_result true m = elim m.panic_error [
    | some t ↦ err (panic_in_task t)
    | none ↦ collect_results m.results
  ]
