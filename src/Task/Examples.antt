-- ===== src/Task/Examples.antt =====
-- Runs of one task cell, and the theorems at them.
use hypertile.Base.{ℕ, ◌≤◌, ◌≡◌, ◌⊎◌, refl, List, [], ◌∷◌, ◌++◌, some, length}
use hypertile.Task.Cell.{
  scheduled, completed, ok, ready, pending, Event, call_run, call_wake, call_cancel, call_join,
  answer, go,
}
use hypertile.Task.System
use hypertile.Task.System.{start}
use hypertile.Task.Agreement.{Reads}
use hypertile.Task.Safety.{Quiet, poll_exclusive, quiescent, published_once, joined-Reads}

abbrev Schedule : Type 0
Schedule = List (ℕ × Event ℕ ℕ ℕ ℕ)

-- Thread 0 polls the future 7.
abbrev poll_it : Schedule
poll_it = (0, call_run) ∷ (0, go) ∷ (0, go) ∷ []

-- Thread 1 wakes the task in the meantime; the poll gives back 8, and thread 0 queues the task.
abbrev woken_inside : Schedule
woken_inside =
    poll_it
    ++ (1, call_wake)
      ∷ (1, go)
      ∷ (1, go)
      ∷ (0, answer (pending 8))
      ∷ (0, go)
      ∷ (0, go)
      ∷ (0, go)
      ∷ []

-- Thread 1 parks in the join handle; thread 0 runs the task to its end.
abbrev joined_end : Schedule
joined_end =
    (1, call_join 3)
    ∷ (1, go)
    ∷ (1, go)
    ∷ (1, go)
    ∷ (0, call_run)
    ∷ (0, go)
    ∷ (0, go)
    ∷ (0, answer (ready 5))
    ∷ (0, go)
    ∷ (0, go)
    ∷ (0, go)
    ∷ (0, go)
    ∷ []

-- Thread 0 pops the handle; thread 1 cancels the task.
abbrev cancel_between : Schedule
cancel_between = (0, call_run) ∷ (1, call_cancel) ∷ (1, go) ∷ (1, go) ∷ (1, go) ∷ (1, go) ∷ []

-- The same with the exchange won before the cancellation.
abbrev cancel_taking : Schedule
cancel_taking =
    (0, call_run) ∷ (0, go) ∷ (1, call_cancel) ∷ (1, go) ∷ (1, go) ∷ (1, go) ∷ (1, go) ∷ []

woken_inside_end :
    let s = (System.run (start 7 2) woken_inside).shared in
    (s.state ≡ scheduled) × (s.queued ≡ 1) × (s.future ≡ some 8)
unfolding System.run start
woken_inside_end = (refl, refl, refl)

joined_end_end :
    let s = (System.run (start 7 2) joined_end).shared in
    (s.state ≡ completed) × (s.woken ≡ 3 ∷ []) × (s.result ≡ some (ok 5))
unfolding System.run start
joined_end_end = (refl, refl, refl)

poll_exclusive_example : ◌≡◌ {A = ℕ} 0 0
unfolding System.run start
poll_exclusive_example = poll_exclusive 7 2 poll_it 0 0 7 7 refl refl

quiescent_example :
    let s = (System.run (start 7 2) joined_end).shared in
    Quiet s.state s.queued s.future s.join_waker s.published
unfolding System.run start
quiescent_example = quiescent 7 2 joined_end (refl, (refl, tt))

published_once_example :
    let s = (System.run (start 7 2) joined_end).shared in
    (length s.published ≤ 1) × ((s.state ≡ completed) ⊎ (length s.published ≡ 0))
published_once_example = published_once 7 2 joined_end

joined-Reads_example :
    let s = (System.run (start 7 2) joined_end).shared in Reads (ok 5) s.result s.joined
unfolding System.run start
joined-Reads_example = joined-Reads 7 2 joined_end (ok 5) [] refl
