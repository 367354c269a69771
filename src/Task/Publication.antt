-- ===== src/Task/Publication.antt =====
-- hypertile-core/src/task.rs: the `result` mutex, who may write the result, and the join waker.
use hypertile.Base.{ℕ, ◌+◌, ◌≤◌, ◌≡◌, Bool, true, false, some, length, arith}
use hypertile.Task.Cell.{
  State, completed, Shared, starting, taking, polling, publishing, settling, settling_cas,
  discarding, requeueing, locking, swapping, storing, unlocking, handing_off, marking, marking_cas,
  enqueueing, cancelling, dropping, recording, notifying, entering, checking, parking, Pc, resting,
  run, complete, wake, cancel, join, Event,
}
use hypertile.Task.Methods.{step}
use hypertile.Task.Tally.{Tally, Shift}
use hypertile.Task.Ownership.{present}

abbrev pub held : Bool → ℕ
held true = 1
held false = 0

-- `n` counts the writes to `result` that were made, and those that a thread has won.
abbrev pub Won : State → ℕ → Type 0
Won completed n = n ≡ 1
Won _ n = n ≡ 0

-- After completion, `p` threads that may still store a join waker are covered by the `c` cancels
-- that wait for the mutex, and a stored waker `w` by the `n` threads that will take it.
abbrev pub Covered : State → (p c w n : ℕ) → Type 0
Covered completed p c w n = (p ≤ c) × (w ≤ n)
Covered _ p c w n = Unit {0}

pub record Publication {ℓ} {F T P W : Type ℓ} (s : Shared F T P W) (t : Tally) : Type 0 where
  pub locked : t.swap + t.store + t.check + t.park ≡ held s.result_locked
  pub once : Won s.state (t.store + t.cancel + length s.published)
  pub covered :
      Covered s.state t.park t.cancel (present s.join_waker) (t.store + t.cancel + t.notify)
  pub empty : present s.result + t.check + t.park ≤ 1

module _ {ℓ} {F T P W : Type ℓ} {s s' : Shared F T P W} {t t' : Tally} where
  pub step-Publication :
      (e : Event F T P W) (p q : Pc F T P W)
      → step e p s ≡ some (s', q)
      → Shift p q t t'
      → t.stray ≡ 0
      → Publication s t
      → Publication s' t'
  unfolding step
  step-Publication e resting q m h z o = ground arith
  step-Publication e (run starting) q m h z o = ground arith
  step-Publication e (run taking) q m h z o = ground arith
  step-Publication e (run (polling f)) q m h z o = ground arith
  step-Publication e (run (publishing f)) q m h z o = ground arith
  step-Publication e (run settling) q m h z o = ground arith
  step-Publication e (run (settling_cas curr)) q m h z o = ground arith
  step-Publication e (run discarding) q m h z o = ground arith
  step-Publication e (run requeueing) q m h z o = ground arith
  step-Publication e (complete (locking r)) q m h z o = ground arith
  step-Publication e (complete (swapping r)) q m h z o = ground arith
  step-Publication e (complete (storing r)) q m h z o = ground arith
  step-Publication e (complete unlocking) q m h z o = ground arith
  step-Publication e (complete handing_off) q m h z o = ground arith
  step-Publication e (wake marking) q m h z o = ground arith
  step-Publication e (wake (marking_cas curr)) q m h z o = ground arith
  step-Publication e (wake enqueueing) q m h z o = ground arith
  step-Publication e (cancel cancelling) q m h z o = ground arith
  step-Publication e (cancel dropping) q m h z o = ground arith
  step-Publication e (cancel recording) q m h z o = ground arith
  step-Publication e (cancel notifying) q m h z o = ground arith
  step-Publication e (join (entering w)) q m h z o = ground arith
  step-Publication e (join (checking w)) q m h z o = ground arith
  step-Publication e (join (parking w)) q m h z o = ground arith
