-- ===== src/Coroutine/Cell.antt =====
-- hypertile-sys/src/bilingual.rs: a coroutine's task and what the interpreter answers.
use hypertile.Base.{ℕ, Bool, Option, List}
use hypertile.Python.Outcome.{PyResult, Payload}

-- What is asked of an object that a coroutine yields: `hasattr` may fail, the closure may not be
-- made, `add_done_callback` may raise, and the type may have no name. None of these calls panics.
pub record Yielded (T : Type 0) : Type 0 where
  pub has_add_done_callback : Option Bool
  pub closure_made : Bool
  pub callback_added : Bool
  pub is_none : Bool
  pub type_name : Option T

-- What `send` and `throw` give; `stopped` has the attribute `value` of the `StopIteration`.
pub data Answer (V X T : Type 0) : Type 0 where
  yielded : Yielded T → Answer V X T
  stopped : Option V → Answer V X T
  raised : X → Answer V X T
  panicked : Payload T → Answer V X T

-- The exceptions that a done callback is called with.
pub data Failure (X T : Type 0) : Type 0 where
  task_cancelled : Failure X T
  panic_in_task : T → Failure X T
  type_error : T → Failure X T
  exception : X → Failure X T

-- The interpreter: how a coroutine goes on, the exception `TaskCancelled` of a cancelled coroutine, the
-- object `None`, and the texts of messages.
pub record Interpreter (C V X T : Type 0) : Type 0 where
  pub send : V → C → Answer V X T × C
  pub throw : X → C → Answer V X T × C
  pub cancelled : X
  pub py_none : V
  pub unknown : T
  pub cannot_drive : T → T
  pub panic_text : T

-- What a coroutine is given: the exception `TaskCancelled`, or the outcome it waited for.
pub data Input (V X : Type 0) : Type 0 where
  cancellation : Input V X
  resume : Option (PyResult V X) → Input V X

-- `PyCoroutineTask`, with the handles to it in the pool and the hooks that futures hold. `given` and
-- `called` are traces of the coroutine's inputs and of the calls of the done callback, newest first.
pub record CoroutineTask (C V X T K : Type 0) : Type 0 where
  pub coro : Option C
  pub done_callback : Option K
  pub pending_value : Option (PyResult V X)
  pub token : Bool
  pub queued : ℕ
  pub hooks : ℕ
  pub given : List (Input V X)
  pub called : List (K × V × Option (Failure X T))

-- What a future's call of a hook finds: the future as its argument, with what `exception` and
-- `result` give where they do not raise, or no argument, and the `result` of the yielded object.
pub data WakeArgs (V X : Type 0) : Type 0 where
  future : Option (Option X) → Option V → WakeArgs V X
  no_argument : Option V → WakeArgs V X
