-- ===== src/Task/Cell.antt =====
-- hypertile-core/src/task.rs: the shared cell of a task, and where a thread stands in a method.
use hypertile.Base.{ℕ, Bool, List, Option}

-- `STATE_IDLE`, `STATE_SCHEDULED`, `STATE_RUNNING`, `STATE_COMPLETED`
pub data State : Type 0 where
  idle scheduled running completed : State

pub data JoinError {ℓ} (P : Type ℓ) : Type ℓ where
  panicked : P → JoinError P
  cancelled : JoinError P

-- `Result<T, JoinError>`
pub data Outcome {ℓ} (T P : Type ℓ) : Type ℓ where
  ok : T → Outcome T P
  err : JoinError P → Outcome T P

-- What `catch_unwind` around `Future::poll` gives back; the future itself is a parameter.
pub data PollResult {ℓ} (F T P : Type ℓ) : Type ℓ where
  ready : T → PollResult F T P
  pending : F → PollResult F T P
  panics : P → PollResult F T P

-- `TaskCell`, without its scheduler.
pub record TaskCell {ℓ} (F T P W : Type ℓ) : Type ℓ where
  pub future : Option F
  pub result : Option (Outcome T P)
  pub join_waker : Option W
  pub state : State

-- The cell with what surrounds it: whether a thread holds the `result` mutex, the handles of the
-- task that lie in a queue, and three traces: the writes to `result`, the wakers that were woken,
-- and what `JoinHandle::poll` returned, each newest first.
pub record Shared {ℓ} (F T P W : Type ℓ) : Type ℓ where
  pub cell : TaskCell F T P W
  pub open cell use *
  pub result_locked : Bool
  pub queued : ℕ
  pub published : List (Outcome T P)
  pub woken : List W
  pub joined : List (Outcome T P)

-- `Runnable::run`, up to its call of `complete`.
pub data RunPc {ℓ} (F : Type ℓ) : Type ℓ where
  starting : RunPc F  -- a handle in hand, before the compare-exchange
  taking : RunPc F  -- before `self.future.lock().take()`
  polling : F → RunPc F  -- inside `poll`
  publishing : F → RunPc F  -- before `*self.future.lock() = Some(fut)`
  settling : RunPc F  -- head of the loop
  settling_cas : State → RunPc F  -- before its compare-exchange, with `curr`
  discarding : RunPc F  -- COMPLETED was seen
  requeueing : RunPc F  -- SCHEDULED was seen

-- `TaskCell::complete`
pub data CompletePc {ℓ} (T P : Type ℓ) : Type ℓ where
  locking : Outcome T P → CompletePc T P  -- before `self.result.lock()`
  swapping : Outcome T P → CompletePc T P
  storing : Outcome T P → CompletePc T P  -- the swap was won
  unlocking : CompletePc T P  -- the swap was lost
  handing_off : CompletePc T P  -- before `self.join_waker.lock().take()`

-- `wake_by_ref`, with the loop of `mark_scheduled`
pub data WakePc : Type 0 where
  marking : WakePc
  marking_cas : State → WakePc
  enqueueing : WakePc  -- `mark_scheduled` returned true

-- `JoinHandle::cancel`
pub data CancelPc : Type 0 where
  cancelling : CancelPc  -- before the swap
  dropping : CancelPc
  recording : CancelPc  -- before the write to `result`
  notifying : CancelPc

-- `JoinHandle::poll`
pub data JoinPc {ℓ} (W : Type ℓ) : Type ℓ where
  entering : W → JoinPc W  -- before `self.cell.result.lock()`
  checking : W → JoinPc W  -- lock held, no result, before the load of the state
  parking : W → JoinPc W  -- lock held, before the write to `join_waker`

-- `resting` is a thread in none of these methods.
pub data Pc {ℓ} (F T P W : Type ℓ) : Type ℓ where
  resting : Pc F T P W
  run : RunPc F → Pc F T P W
  complete : CompletePc T P → Pc F T P W
  wake : WakePc → Pc F T P W
  cancel : CancelPc → Pc F T P W
  join : JoinPc W → Pc F T P W

-- What the environment decides: which method a resting thread calls, what `poll` returns, and
-- whether a weak compare-exchange fails spuriously.
pub data Event {ℓ} (F T P W : Type ℓ) : Type ℓ where
  call_run call_wake call_cancel : Event F T P W
  call_join : W → Event F T P W
  answer : PollResult F T P → Event F T P W
  go spurious : Event F T P W
