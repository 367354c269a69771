-- ===== src/Task/Ownership.antt =====
-- hypertile-core/src/task.rs: who has the right to run the task, and where its future is.
use hypertile.Base.{ℕ, ◌+◌, ◌≤◌, ◌≡◌, Option, none, some, arith}
use hypertile.Task.Cell.{
  State, idle, scheduled, running, completed, Shared, starting, taking, polling, publishing,
  settling, settling_cas, discarding, requeueing, locking, swapping, storing, unlocking,
  handing_off, marking, marking_cas, enqueueing, cancelling, dropping, recording, notifying,
  entering, checking, parking, Pc, resting, run, complete, wake, cancel, join, Event,
}
use hypertile.Task.Methods.{step}
use hypertile.Task.Tally.{Tally, Shift}

abbrev pub present {ℓ} : {A : Type ℓ} → Option A → ℕ
present none = 0
present (some _) = 1

-- `h` handles, `a` runners with the future in the cell, `b` runners that took it out, `f` futures
-- in the cell, `c` threads that will drop it.
abbrev pub Owners : State → (h a b f c : ℕ) → Type 0
Owners idle h a b f c = (h ≡ 0) × (a ≡ 0) × (b ≡ 0) × (f ≡ 1)
Owners scheduled h a b f c = (h + a + b ≡ 1) × (f + b ≡ 1)
Owners running h a b f c = (h ≡ 0) × (a + b ≡ 1) × (f + b ≡ 1)
Owners completed h a b f c = (h + a + b ≤ 1) × (f ≤ c)

-- `n` threads saw the task completed.
abbrev pub Finished : State → ℕ → Type 0
Finished completed n = Unit {0}
Finished _ n = n ≡ 0

pub record Ownership {ℓ} {F T P W : Type ℓ} (s : Shared F T P W) (t : Tally) : Type 0 where
  pub owners : Owners s.state (s.queued + t.handle) t.in_cell t.taken (present s.future) t.clear
  pub regular : t.stray ≡ 0
  pub finished : Finished s.state t.after

module _ {ℓ} {F T P W : Type ℓ} {s s' : Shared F T P W} {t t' : Tally} where
  pub step-Ownership :
      (e : Event F T P W) (p q : Pc F T P W)
      → step e p s ≡ some (s', q)
      → Shift p q t t'
      → Ownership s t
      → Ownership s' t'
  unfolding step
  step-Ownership e resting q m h o = ground arith
  step-Ownership e (run starting) q m h o = ground arith
  step-Ownership e (run taking) q m h o = ground arith
  step-Ownership e (run (polling f)) q m h o = ground arith
  step-Ownership e (run (publishing f)) q m h o = ground arith
  step-Ownership e (run settling) q m h o = ground arith
  step-Ownership e (run (settling_cas curr)) q m h o = ground arith
  step-Ownership e (run discarding) q m h o = ground arith
  step-Ownership e (run requeueing) q m h o = ground arith
  step-Ownership e (complete (locking r)) q m h o = ground arith
  step-Ownership e (complete (swapping r)) q m h o = ground arith
  step-Ownership e (complete (storing r)) q m h o = ground arith
  step-Ownership e (complete unlocking) q m h o = ground arith
  step-Ownership e (complete handing_off) q m h o = ground arith
  step-Ownership e (wake marking) q m h o = ground arith
  step-Ownership e (wake (marking_cas curr)) q m h o = ground arith
  step-Ownership e (wake enqueueing) q m h o = ground arith
  step-Ownership e (cancel cancelling) q m h o = ground arith
  step-Ownership e (cancel dropping) q m h o = ground arith
  step-Ownership e (cancel recording) q m h o = ground arith
  step-Ownership e (cancel notifying) q m h o = ground arith
  step-Ownership e (join (entering w)) q m h o = ground arith
  step-Ownership e (join (checking w)) q m h o = ground arith
  step-Ownership e (join (parking w)) q m h o = ground arith
