-- ===== src/Capi/Callback.antt =====
-- hypertile-capi/src/lib.rs: `hypertile_spawn_with_callback`. An address is a number, null is 0.
use hypertile.Base.{ℕ, Option, none, some}
use hypertile.Batch.Run.{HypertileStatus, ok, err_invalid_arg}
use hypertile.Python.Outcome.{Caught, returned, unwound}

unfoldable pub final_result : {T : Type 0} → Caught ℕ T → ℕ
final_result (returned a) = a
final_result (unwound p) = 0

-- The task: the callback gets what is left of the work, and what it does to the state `S` stays, also
-- if it unwinds.
unfoldable pub callback_task :
    {S T : Type 0} → (S → S × Caught ℕ T) → (ℕ → S → S × Caught Unit T) → S → S
unfolding final_result
callback_task work callback s = let (s', r) = work s in (callback (final_result r) s').0

-- The status, and the task that is spawned.
unfoldable pub spawn_with_callback :
    {S T : Type 0}
    → Option (S → S × Caught ℕ T)
    → Option (ℕ → S → S × Caught Unit T)
    → HypertileStatus × Option (S → S)
unfolding callback_task
spawn_with_callback none callback = (err_invalid_arg, none)
spawn_with_callback (some work) none = (err_invalid_arg, none)
spawn_with_callback (some work) (some callback) = (ok, some (callback_task work callback))
