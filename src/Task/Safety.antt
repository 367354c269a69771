-- ===== src/Task/Safety.antt =====
-- hypertile-core/src/task.rs: what holds of a task cell after any schedule of any threads.
use hypertile.Base.{
  ℕ, ◌+◌, Bool, true, false, ◌≤◌, ◌≡◌, ◌≢◌, ◌⊎◌, refl, subst, List, ◌∷◌, Option, none, some, length,
  get_elem?, All, total, total_unique, total-All, le-total, arith,
}
use hypertile.Task.Cell.{
  State, idle, scheduled, running, completed, Outcome, taking, polling, starting, Shared, Pc,
  resting, run, complete, wake, cancel, join, marking, marking_cas, enqueueing, Event,
}
use hypertile.Task.Methods.{step}
use hypertile.Task.System
use hypertile.Task.System.{System, start, run_inv, Advanced}
use hypertile.Task.Tally.{handles, inside, outside, odd, clearing, storers, cancels, notifiers}
use hypertile.Task.Ownership.{present}
use hypertile.Task.Agreement.{Agrees, Reads, Agrees-published}
use hypertile.Task.Invariant.{IsSafe, run-IsSafe, advance-IsSafe}

-- What is left when no thread is in a method: by its state, the handles in the queues, the future,
-- the join waker and the published outcomes.
abbrev pub Quiet {ℓ} :
    {F T P W : Type ℓ} → State → ℕ → Option F → Option W → List (Outcome T P) → Type 0
Quiet idle q f w os = (q ≡ 0) × (present f ≡ 1) × (length os ≡ 0)
Quiet scheduled q f w os = (q ≡ 1) × (present f ≡ 1) × (length os ≡ 0)
Quiet running q f w os = ⊥
Quiet completed q f w os = (q ≤ 1) × (present f ≡ 0) × (present w ≡ 0) × (length os ≡ 1)

module _ {F T P W : Type 0} where
  step_completed :
      (e : Event F T P W) (p q : Pc F T P W) (s s' : Shared F T P W)
      → step e p s ≡ some (s', q)
      → odd p ≡ 0
      → s.state ≡ completed
      → s'.state ≡ completed
  unfolding step
  step_completed e resting q s s' m z h = ground arith
  step_completed e (run p) q s s' m z h = ground arith
  step_completed e (complete p) q s s' m z h = ground arith
  step_completed e (wake p) q s s' m z h = ground arith
  step_completed e (cancel p) q s s' m z h = ground arith
  step_completed e (join p) q s s' m z h = ground arith

  stays :
      (i : ℕ) (e : Event F T P W) (sys sys' : System F T P W)
      → Advanced i e sys sys'
      → IsSafe sys
      → sys.shared.state ≡ completed
      → sys'.shared.state ≡ completed
  stays i e sys sys' a v h =
      step_completed e a.from a.to sys.shared sys'.shared a.moved
        (omega (arith, le-total odd sys.threads i a.from a.here, v.ownership.regular)) h

  pub IsSafe-scheduled :
      (sys : System F T P W)
      → IsSafe sys
      → sys.shared.state ≡ scheduled
      → sys.shared.queued
          + total handles sys.threads
          + (total inside sys.threads + total outside sys.threads)
        ≡ 1
  IsSafe-scheduled sys safe h = ground (arith, safe.ownership.owners)

  pub IsSafe-Quiet :
      (sys : System F T P W)
      → IsSafe sys
      → All (λ p. p ≡ resting) sys.threads
      → let s = sys.shared in Quiet s.state s.queued s.future s.join_waker s.published
  IsSafe-Quiet sys safe h = ground (
    arith,
    safe.ownership.owners,
    safe.publication.once,
    safe.publication.covered,
    total-All handles resting refl sys.threads h,
    total-All inside resting refl sys.threads h,
    total-All outside resting refl sys.threads h,
    total-All clearing resting refl sys.threads h,
    total-All storers resting refl sys.threads h,
    total-All cancels resting refl sys.threads h,
    total-All notifiers resting refl sys.threads h,
  )

module _ {F T P W : Type 0} (f : F) (n : ℕ) (es : List (ℕ × Event F T P W)) where
  abbrev pub reached : System F T P W
  reached = System.run (start f n) es

  open reached use {shared, threads}

  safe : IsSafe reached
  safe = run-IsSafe f n es

  -- After any schedule of any number of threads, two threads that are inside `poll` of the task's
  -- future are the same thread.
  pub poll_exclusive :
      (i j : ℕ) (g h : F)
      → get_elem? threads i ≡ some (run (polling g))
      → get_elem? threads j ≡ some (run (polling h))
      → i ≡ j
  poll_exclusive i j g h p q =
      total_unique outside threads i j _ _ (ground (arith, safe.ownership.owners)) p q (omega arith)
        (omega arith)

  -- After any schedule, a task in SCHEDULED has exactly one handle or runner, in a queue or in the
  -- hands of a thread: its wake-up is neither lost nor doubled.
  scheduled_once :
      shared.state ≡ scheduled
      → shared.queued + total handles threads + (total inside threads + total outside threads) ≡ 1
  scheduled_once h = IsSafe-scheduled reached safe h

  -- After any schedule that leaves every thread outside the methods, the task is not RUNNING; it is
  -- idle with its future and no handle, or scheduled with its future and one handle in a queue, or
  -- completed with the future dropped, one outcome published, at most one stale handle, and no join
  -- waker left that was not woken.
  pub quiescent :
      All (λ p. p ≡ resting) threads
      → Quiet shared.state shared.queued shared.future shared.join_waker shared.published
  quiescent h = IsSafe-Quiet reached safe h

  -- After any schedule, a runner that won the exchange to RUNNING and finds no future in the cell
  -- belongs to a completed task: the early return of `run` strands no task.
  taking_none_completed :
      (i : ℕ)
      → get_elem? threads i ≡ some (run taking)
      → shared.future ≡ none
      → shared.state ≡ completed
  taking_none_completed i h e =
      ground (arith, safe.ownership.owners, le-total inside threads i (run taking) h)

  -- After any schedule, a popped handle whose exchange from SCHEDULED to RUNNING would fail belongs
  -- to a completed task: no second runner ever claims a task before it.
  starting_lost_completed :
      (i : ℕ)
      → get_elem? threads i ≡ some (run starting)
      → shared.state ≢ scheduled
      → shared.state ≡ completed
  starting_lost_completed i h e =
      ground (arith, safe.ownership.owners, le-total handles threads i (run starting) h)

  -- After any schedule at most one outcome was published, and none before completion.
  pub published_once :
      (length shared.published ≤ 1) × ((shared.state ≡ completed) ⊎ (length shared.published ≡ 0))
  published_once = ground (arith, safe.publication.once)

  -- After any schedule that published an outcome, either no poll of the join handle has returned
  -- and the outcome waits to be read, or the first poll that returned gave that outcome; every
  -- other return was that outcome or a cancellation.
  pub joined-Reads :
      (o : Outcome T P) (os : List (Outcome T P))
      → shared.published ≡ o ∷ os
      → Reads o shared.result shared.joined
  joined-Reads o os e =
      Agrees-published o os shared.joined shared.result (total cancels threads)
        (subst (λ l. Agrees l shared.result shared.joined (total cancels threads)) e safe.agreement)

  -- After any schedule that completed the task, no further schedule leaves COMPLETED.
  completed_forever :
      (more : List (ℕ × Event F T P W))
      → shared.state ≡ completed
      → (System.run reached more).shared.state ≡ completed
  completed_forever more h =
      (run_inv (λ sys. IsSafe sys × (sys.shared.state ≡ completed))
        (λ i e sys sys' a v. (advance-IsSafe i e sys sys' a v.0, stays i e sys sys' a v.0 v.1))
        reached more (safe, h)).1

-- A wake call that is not inside the loop of `mark_scheduled`.
abbrev pub outside_loop {ℓ} : {F T P W : Type ℓ} → Pc F T P W → Bool
outside_loop (wake marking) = false
outside_loop (wake (marking_cas _)) = false
outside_loop _ = true

module _ {F T P W : Type 0} (e : Event F T P W) (p q : Pc F T P W) (s s' : Shared F T P W) where
  -- Whatever the other threads did before, the step by which a thread leaves the loop of
  -- `mark_scheduled` leaves the task SCHEDULED or COMPLETED.
  wake_recorded :
      step e p s ≡ some (s', q)
      → outside_loop p ≡ false
      → outside_loop q ≡ true
      → (s'.state ≡ scheduled) ⊎ (s'.state ≡ completed)
  unfolding step
  wake_recorded m h k = cases p m h
    where
      cases :
          (p : Pc F T P W)
          → step e p s ≡ some (s', q)
          → outside_loop p ≡ false
          → (s'.state ≡ scheduled) ⊎ (s'.state ≡ completed)
      cases (wake marking) m h = ground arith
      cases (wake (marking_cas curr)) m h = ground arith
      cases (wake enqueueing) m h = cc
      cases resting m h = cc
      cases (run r) m h = cc
      cases (complete r) m h = cc
      cases (cancel r) m h = cc
      cases (join r) m h = cc
