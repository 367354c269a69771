-- ===== src/Timer/LoopExamples.antt =====
-- The thread of the timer with two sleeps, step by step, and the theorems at it.
use hypertile.Base.{
  ℕ, ◌+◌, ◌*◌, ◌≤◌, ◌≡◌, ◌⊎◌, refl, true, false, none, some, List, [], ◌∷◌, ◌++◌, length, arith,
}
use hypertile.Registry.Defs.{contains}
use hypertile.Timer.Driver.{tick, register, new_driver, push, first}
use hypertile.Timer.Sleep.{new_sleep}
use hypertile.Timer.Loop.{
  resuming, waiting, Machine, new_machine, locked, collect_next, begin_wait, is_over, advance,
  Event, turn, make, store, enter, act, run,
}
use hypertile.Timer.Sleeping.{EndsInTime, waiting-EndsInTime}
use hypertile.Timer.Registered.{registered, waiting-registered}
use hypertile.Timer.Rounds.{turns, turns-tick}

-- The sleep with slot 0 ends at 900000, and the thread waits for it.
abbrev asleep : List Event
asleep = make 0 900000 ∷ store 0 70 ∷ enter 900000 0 ∷ turn 10 ∷ turn 20 ∷ turn 20 ∷ turn 30 ∷ []

waiting-EndsInTime_example :
    let d = (run asleep new_machine).driver in
    (d.shutdown ≡ false) × EndsInTime (some 900000) d.heap
unfolding run act new_machine new_driver new_sleep register push advance collect_next begin_wait
    locked
waiting-EndsInTime_example = waiting-EndsInTime asleep (some 900000) refl refl

-- The sleep with slot 0 ends at 300000; another is made before it is registered.
abbrev until_woken : List Event
until_woken =
    turn 100
    ∷ turn 300001
    ∷ turn 300001
    ∷ turn 300001
    ∷ turn 300001
    ∷ turn 300001
    ∷ turn 300001
    ∷ []

waiting-registered_example :
    let m = registered (make 0 300000 ∷ []) 0 70 (make 0 900000 ∷ []) 300000 until_woken in
    (contains m.woken 70 ≡ true) ⊎ (is_over 300000 none ≡ true)
unfolding run act new_machine new_driver new_sleep register push advance collect_next begin_wait
    locked
waiting-registered_example =
    waiting-registered (make 0 300000 ∷ []) (make 0 900000 ∷ []) until_woken 0 70 300000 none
      (omega arith) (refl, tt) refl (refl, (refl, (refl, (refl, (refl, (refl, (refl, tt))))))) refl
      refl

-- The thread at the head of its loop, with both sleeps registered.
abbrev both : Machine
both =
    run
      (make 0 900000
        ∷ make 0 300000
        ∷ store 0 70
        ∷ enter 900000 0
        ∷ store 1 71
        ∷ enter 300000 1
        ∷ turn 10
        ∷ [])
      new_machine

turns-tick_example :
    let (d, ws) = tick 400000 both.driver in
    (n : ℕ) × (n ≤ 2 * length both.driver.heap + 3)
    × (turns n 400000 both ≡ record both { driver = d; pc = resuming; woken = both.woken ++ ws })
unfolding run act new_machine new_driver new_sleep register push first advance locked
turns-tick_example = turns-tick 400000 both refl refl

-- A later poll that read the time before the deadline, and stores its waker after the thread has taken
-- the one of the first, leaves a waker in the slot, no entry, and no end of the wait.
stored_too_late :
    let m =
      run
        (make 0 300000
          ∷ store 0 70
          ∷ enter 300000 0
          ∷ turn 100
          ∷ turn 300001
          ∷ turn 300001
          ∷ store 0 71
          ∷ turn 300001
          ∷ turn 300001
          ∷ turn 300001
          ∷ turn 300001
          ∷ [])
        new_machine in
    (m.pc ≡ waiting none)
    × (m.driver.heap ≡ [])
    × (m.driver.slots ≡ some 71 ∷ [])
    × (m.woken ≡ 70 ∷ [])
unfolding run act new_machine new_driver new_sleep register push advance collect_next begin_wait
    locked
stored_too_late = (refl, refl, refl, refl)
