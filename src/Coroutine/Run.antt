-- ===== src/Coroutine/Run.antt =====
-- hypertile-sys/src/bilingual.rs: `PyCoroutineTask::run`, the hook it leaves with a future, and
-- `spawn_coroutine`. A run holds the lock of the coroutine from its first line to its last, and
-- does not touch the task once it has injected it or left its hook, so that a run is one step.
use hypertile.Base.{
  ℕ, zero, suc, Bool, false, Option, none, some, List, [], ◌∷◌, if◌then◌else◌, ◌&&◌,
}
use hypertile.Python.Outcome.{PyResult, ok, err, panic_message}
use hypertile.Coroutine.Token.{new_token, cancel_token}
use hypertile.Coroutine.Cell.{
  Yielded, Answer, yielded, stopped, raised, panicked, Failure, task_cancelled, panic_in_task,
  type_error, exception, Interpreter, cancellation, resume, CoroutineTask, WakeArgs, future,
  no_argument,
}

abbrev pub unwrap_or {ℓ} : {A : Type ℓ} → Option A → A → A
unwrap_or o a = elim o [ none ↦ a | some b ↦ b ]

-- The outcome that a hook stores.
unfoldable pub wake_value : {V X : Type 0} → WakeArgs V X → Option (PyResult V X)
wake_value (future (some (some x)) r) = some (err x)
wake_value (future (some none) (some v)) = some (ok v)
wake_value (future (some none) none) = none
wake_value (future none (some v)) = some (ok v)
wake_value (future none none) = none
wake_value (no_argument (some v)) = some (ok v)
wake_value (no_argument none) = none

module _ {C V X T K : Type 0} where
  unfoldable pub new_task : C → Option K → Bool → CoroutineTask C V X T K
  new_task c cb t = record {
    coro = some c;
    done_callback = cb;
    pending_value = none;
    token = t;
    queued = 0;
    hooks = 0;
    given = [];
    called = [];
  }

  unfoldable pub inject : CoroutineTask C V X T K → CoroutineTask C V X T K
  inject s = record s { queued = suc s.queued }

  -- `spawn_coroutine`; the token is a new one where none is given.
  unfoldable pub spawn_coroutine : C → Option K → Option Bool → CoroutineTask C V X T K
  unfolding inject new_task
  spawn_coroutine c cb t = inject (new_task c cb (unwrap_or t new_token))

  -- The coroutine is dropped and the done callback, if it is there, is taken and called.
  unfoldable pub finish :
      V → Option (Failure X T) → CoroutineTask C V X T K → CoroutineTask C V X T K
  finish v e s = record s {
    coro = none;
    done_callback = none;
    called = elim s.done_callback [ none ↦ s.called | some k ↦ (k, v, e) ∷ s.called ];
  }

  -- The hook: the task goes back into the pool whether or not the future gave an outcome.
  unfoldable pub wake_fn : WakeArgs V X → CoroutineTask C V X T K → CoroutineTask C V X T K
  unfolding inject
  wake_fn a s = inject (record s {
    pending_value = elim (wake_value a) [ none ↦ s.pending_value | some r ↦ some r ];
  })

module _ {C V X T : Type 0} (I : Interpreter C V X T) where
  -- The coroutine's next step.
  unfoldable pub give : Option (PyResult V X) → C → Answer V X T × C
  give (some (ok v)) c = I.send v c
  give (some (err x)) c = I.throw x c
  give none c = I.send I.py_none c

  -- Whether the wake function is left with the yielded object.
  unfoldable pub hooked : Yielded T → Bool
  hooked y = unwrap_or y.has_add_done_callback false && (y.closure_made && y.callback_added)

  unfoldable pub undrivable : Yielded T → Failure X T
  undrivable y = type_error (I.cannot_drive (unwrap_or y.type_name I.unknown))

  module _ {K : Type 0} where
    unfoldable pub after_yield : Yielded T → CoroutineTask C V X T K → CoroutineTask C V X T K
    unfolding hooked inject finish undrivable
    after_yield y s =
        if hooked y
        then record s { hooks = suc s.hooks }
        else if y.is_none
        then inject s
        else finish I.py_none (some (undrivable y)) s

    unfoldable pub settle : Answer V X T → CoroutineTask C V X T K → CoroutineTask C V X T K
    unfolding after_yield finish panic_message
    settle (yielded y) s = after_yield y s
    settle (stopped v) s = finish (unwrap_or v I.py_none) none s
    settle (raised x) s = finish I.py_none (some (exception x)) s
    settle (panicked p) s = finish I.py_none (some (panic_in_task (panic_message p I.panic_text))) s

    unfoldable pub step_coroutine : C → CoroutineTask C V X T K → CoroutineTask C V X T K
    unfolding give settle
    step_coroutine c s =
        let (a, c') = give s.pending_value c in
        settle a (record s {
          coro = some c';
          pending_value = none;
          given = resume s.pending_value ∷ s.given;
        })

    -- What follows `throw` on a cancelled coroutine. The call stands outside `catch_unwind`: where it
    -- panics the run unwinds, with the coroutine in its cell and the done callback not taken. Its
    -- result is not read.
    unfoldable pub cancel_live :
        Answer V X T × C → CoroutineTask C V X T K → CoroutineTask C V X T K
    unfolding finish
    cancel_live (panicked p, c) s = record s { coro = some c }
    cancel_live (yielded y, c) s = finish I.py_none (some task_cancelled) s
    cancel_live (stopped v, c) s = finish I.py_none (some task_cancelled) s
    cancel_live (raised x, c) s = finish I.py_none (some task_cancelled) s

    unfoldable pub run_live : C → CoroutineTask C V X T K → CoroutineTask C V X T K
    unfolding cancel_live step_coroutine
    run_live c s =
        if s.token
        then cancel_live (I.throw I.cancelled c) (record s { given = cancellation ∷ s.given })
        else step_coroutine c s

    -- `PyCoroutineTask::run`
    unfoldable pub run_coroutine : CoroutineTask C V X T K → CoroutineTask C V X T K
    unfolding run_live
    run_coroutine s = elim s.coro [ none ↦ s | some c ↦ run_live c s ]

-- What can happen to a task: a worker takes a handle to it and runs it, a future calls its hook, or
-- someone cancels the token.
pub data Event (V X : Type 0) : Type 0 where
  run_handle : Event V X
  call_hook : WakeArgs V X → Event V X
  cancel : Event V X

module _ {C V X T K : Type 0} (I : Interpreter C V X T) where
  unfoldable pub take_handle : ℕ → CoroutineTask C V X T K → CoroutineTask C V X T K
  unfolding run_coroutine
  take_handle zero s = s
  take_handle (suc n) s = run_coroutine I (record s { queued = n })

  -- A future calls each hook once.
  unfoldable pub take_hook : ℕ → WakeArgs V X → CoroutineTask C V X T K → CoroutineTask C V X T K
  unfolding wake_fn
  take_hook zero a s = s
  take_hook (suc n) a s = wake_fn a (record s { hooks = n })

  unfoldable pub step : Event V X → CoroutineTask C V X T K → CoroutineTask C V X T K
  unfolding take_handle take_hook cancel_token
  step run_handle s = take_handle s.queued s
  step (call_hook a) s = take_hook s.hooks a s
  step cancel s = record s { token = cancel_token s.token }

  unfoldable pub run : List (Event V X) → CoroutineTask C V X T K → CoroutineTask C V X T K
  run [] s = s
  run (e ∷ es) s = run es (step e s)
