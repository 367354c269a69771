-- ===== src/Task/Methods.antt =====
-- hypertile-core/src/task.rs: the methods of `TaskCell` and `JoinHandle`, one atomic access at a
-- time. `none` is a step that the thread cannot make now, such as taking a mutex that is held.
use hypertile.Base.{
  ℕ, zero, suc, Bool, true, false, not, Option, none, some, List, [], ◌∷◌, if◌then◌else◌,
}
use hypertile.Task.Cell.{
  State, idle, scheduled, running, completed, cancelled, panicked, Outcome, ok, err, PollResult,
  ready, pending, panics, TaskCell, Shared, RunPc, starting, taking, polling, publishing, settling,
  settling_cas, discarding, requeueing, CompletePc, locking, swapping, storing, unlocking,
  handing_off, WakePc, marking, marking_cas, enqueueing, CancelPc, cancelling, dropping, recording,
  notifying, JoinPc, entering, checking, parking, Pc, resting, run, complete, wake, cancel, join,
  Event, call_run, call_wake, call_cancel, call_join, answer, spurious,
}

abbrev pub same_state : State → State → Bool
same_state idle idle = true
same_state scheduled scheduled = true
same_state running running = true
same_state completed completed = true
same_state _ _ = false

abbrev pub to_list {ℓ} : {A : Type ℓ} → Option A → List A → List A
to_list none xs = xs
to_list (some x) xs = x ∷ xs

abbrev pub Next {ℓ} : (F T P W : Type ℓ) → Type ℓ
Next F T P W = Option (Shared F T P W × Pc F T P W)

module _ {ℓ} {F T P W : Type ℓ} where
  abbrev pub with_cell : Shared F T P W → TaskCell F T P W → Shared F T P W
  with_cell s c = record s { cell = c }

  -- A new cell is SCHEDULED, and its one handle goes into a queue (`TaskCell::new`, `inject`).
  unfoldable pub new : F → Shared F T P W
  new f = record {
    cell = record { future = some f; result = none; join_waker = none; state = scheduled };
    result_locked = false;
    queued = 1;
    published = [];
    woken = [];
    joined = [];
  }

  -- `compare_exchange`; the weak one may fail spuriously.
  abbrev pub exchange : Shared F T P W → State → State → Bool → Option (Shared F T P W)
  exchange s curr new fails =
      if fails
      then none
      else (if same_state s.state curr
          then some (with_cell s (record s.cell { state = new }))
          else none)

  abbrev pub fails : Event F T P W → Bool
  fails spurious = true
  fails _ = false

  -- After a poll: `complete` or the way back to the cell.
  polled : PollResult F T P → Pc F T P W
  polled (ready v) = complete (locking (ok v))
  polled (pending f) = run (publishing f)
  polled (panics p) = complete (locking (err (panicked p)))

  settle_from : State → Pc F T P W
  settle_from completed = run discarding
  settle_from scheduled = run requeueing
  settle_from curr = run (settling_cas curr)

  unfoldable pub run_step : Event F T P W → RunPc F → Shared F T P W → Next F T P W
  unfolding polled settle_from
  run_step (answer r) (polling f) s = some (s, polled r)
  run_step e (polling f) s = none
  run_step e starting s = elim (exchange s scheduled running false) [
    | some s' ↦ some (s', run taking)
    | none ↦ some (s, resting)
  ]
  run_step e taking s = elim s.future [
    | some f ↦ some (with_cell s (record s.cell { future = none }), run (polling f))
    | none ↦ some (s, resting)
  ]
  run_step e (publishing f) s = some (with_cell s (record s.cell { future = some f }), run settling)
  run_step e settling s = some (s, settle_from s.state)
  run_step e (settling_cas curr) s = elim (exchange s curr idle (fails e)) [
    | some s' ↦ some (s', resting)
    | none ↦ some (s, run settling)
  ]
  run_step e discarding s = some (with_cell s (record s.cell { future = none }), resting)
  run_step e requeueing s = some (record s { queued = suc s.queued }, resting)

  unfoldable pub complete_step : CompletePc T P → Shared F T P W → Next F T P W
  complete_step (locking o) s =
      if s.result_locked
      then none
      else some (record s { result_locked = true }, complete (swapping o))
  complete_step (swapping o) s = some (
    with_cell s (record s.cell { state = completed }),
    (if not (same_state s.state completed) then complete (storing o) else complete unlocking),
  )
  complete_step (storing o) s = some (
    record s {
      cell = record s.cell { result = some o };
      result_locked = false;
      published = o ∷ s.published;
    },
    complete handing_off,
  )
  complete_step unlocking s = some (record s { result_locked = false }, resting)
  complete_step handing_off s = some (
    record s { cell = record s.cell { join_waker = none }; woken = to_list s.join_waker s.woken },
    resting,
  )

  mark_from : State → Pc F T P W
  mark_from completed = resting
  mark_from scheduled = resting
  mark_from curr = wake (marking_cas curr)

  -- From RUNNING the runner re-queues the task; from IDLE the waker does.
  marked : State → Pc F T P W
  marked running = resting
  marked _ = wake enqueueing

  unfoldable pub wake_step : Event F T P W → WakePc → Shared F T P W → Next F T P W
  unfolding mark_from marked
  wake_step e marking s = some (s, mark_from s.state)
  wake_step e (marking_cas curr) s = elim (exchange s curr scheduled (fails e)) [
    | some s' ↦ some (s', marked curr)
    | none ↦ some (s, wake marking)
  ]
  wake_step e enqueueing s = some (record s { queued = suc s.queued }, resting)

  unfoldable pub cancel_step : CancelPc → Shared F T P W → Next F T P W
  cancel_step cancelling s = some (
    with_cell s (record s.cell { state = completed }),
    (if not (same_state s.state completed) then cancel dropping else resting),
  )
  cancel_step dropping s = some (with_cell s (record s.cell { future = none }), cancel recording)
  cancel_step recording s =
      if s.result_locked
      then none
      else some (
        record s {
          cell = record s.cell { result = some (err cancelled) };
          published = err cancelled ∷ s.published;
        },
        cancel notifying,
      )
  cancel_step notifying s = some (
    record s { cell = record s.cell { join_waker = none }; woken = to_list s.join_waker s.woken },
    resting,
  )

  -- Taking the result and unlocking is one step: nothing else reads `result` without its mutex.
  join_lock : W → Option (Outcome T P) → Shared F T P W → Next F T P W
  join_lock w (some o) s =
      some (record s { cell = record s.cell { result = none }; joined = o ∷ s.joined }, resting)
  join_lock w none s = some (record s { result_locked = true }, join (checking w))

  unfoldable pub join_step : JoinPc W → Shared F T P W → Next F T P W
  unfolding join_lock
  join_step (entering w) s = if s.result_locked then none else join_lock w s.result s
  join_step (checking w) s =
      if same_state s.state completed
      then some (record s { result_locked = false; joined = err cancelled ∷ s.joined }, resting)
      else some (s, join (parking w))
  join_step (parking w) s =
      some
        (record s { cell = record s.cell { join_waker = some w }; result_locked = false }, resting)

  -- A worker that pops the handle enters `run`; any thread may call the other methods.
  call : Event F T P W → Shared F T P W → ℕ → Next F T P W
  call call_run s zero = none
  call call_run s (suc q) = some (record s { queued = q }, run starting)
  call call_wake s q = some (s, wake marking)
  call call_cancel s q = some (s, cancel cancelling)
  call (call_join w) s q = some (s, join (entering w))
  call _ s q = none

  unfoldable pub step : Event F T P W → Pc F T P W → Shared F T P W → Next F T P W
  unfolding call run_step complete_step wake_step cancel_step join_step
  step e resting s = call e s s.queued
  step e (run p) s = run_step e p s
  step e (complete p) s = complete_step p s
  step e (wake p) s = wake_step e p s
  step e (cancel p) s = cancel_step p s
  step e (join p) s = join_step p s
