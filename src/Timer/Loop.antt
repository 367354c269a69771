-- ===== src/Timer/Loop.antt =====
-- hypertile-core/src/timer.rs: `run_timer_loop` step by step, between the calls of other threads.
-- `state` is locked in `scanning`, `collecting` and `resuming`. The `Condvar` is parking_lot's, which
-- wakes a waiter only when it is notified or its time is over.
use hypertile.Base.{
  ℕ, ◌+◌, ◌-◌, Bool, true, false, ◌||◌, Option, none, some, List, [], ◌∷◌, ◌++◌, get_elem?, set,
  ltb, leb, if◌then◌else◌,
}
use hypertile.Timer.Driver.{TimerEntry, TimerDriver, register, shut_down, new_driver}
use hypertile.Timer.Sleep.{new_sleep}

-- Where the thread of the timer is: before it has the lock, at the head of its loop, in the loop over
-- the expired entries, in the loop that wakes, after it, in the wait, and at its end.
pub data LoopPc : Type 0 where
  starting : LoopPc
  scanning : LoopPc
  collecting : ℕ → List ℕ → LoopPc
  waking : List ℕ → LoopPc
  resuming : LoopPc
  waiting : Option ℕ → LoopPc
  ended : LoopPc

-- The driver, the thread of the timer, whether its wait has been notified, and the wakers it has woken.
pub record Machine : Type 0 where
  pub driver : TimerDriver
  pub pc : LoopPc
  pub notified : Bool
  pub woken : List ℕ

unfoldable pub new_machine : Machine
new_machine = record { driver = new_driver; pc = starting; notified = false; woken = [] }

unfoldable pub locked : LoopPc → Bool
locked scanning = true
locked (collecting now ws) = true
locked resuming = true
locked pc = false

abbrev pub add_taken : List ℕ → Option (Option ℕ) → List ℕ
add_taken ws (some (some w)) = ws ++ (w ∷ [])
add_taken ws o = ws

abbrev pub after_collecting : List ℕ → LoopPc
after_collecting [] = resuming
after_collecting (w ∷ ws) = waking (w ∷ ws)

-- One turn of the loop over the expired entries, with the heap.
unfoldable pub collect_next : ℕ → List ℕ → List TimerEntry → Machine → Machine
collect_next now ws [] m = record m { pc = after_collecting ws }
collect_next now ws (e ∷ es) m =
    let d = m.driver in
    if leb e.deadline now
    then record m {
      driver = record d { heap = es; slots = set d.slots e.waker none };
      pc = collecting now (add_taken ws (get_elem? d.slots e.waker));
    }
    else record m { pc = after_collecting ws }

-- The wait until the next deadline, or the next registration.
unfoldable pub begin_wait : ℕ → List TimerEntry → Machine → Machine
begin_wait now [] m = record m { pc = waiting none; notified = false }
begin_wait now (e ∷ es) m =
    let timeout = e.deadline - now in
    if ltb 0 timeout
    then record m { pc = waiting (some (now + timeout)); notified = false }
    else record m { pc = scanning }

abbrev pub is_over : ℕ → Option ℕ → Bool
is_over now none = false
is_over now (some t) = leb t now

-- One step of the thread, at the time `now`.
unfoldable pub advance : ℕ → LoopPc → Machine → Machine
advance now starting m = record m { pc = scanning }
advance now scanning m = record m { pc = if m.driver.shutdown then ended else collecting now [] }
advance now (collecting t ws) m = collect_next t ws m.driver.heap m
advance now (waking []) m = record m { pc = resuming }
advance now (waking (w ∷ ws)) m = record m { pc = waking ws; woken = m.woken ++ (w ∷ []) }
advance now resuming m =
    if m.driver.shutdown then record m { pc = ended } else begin_wait now m.driver.heap m
advance now (waiting until) m =
    if m.notified || is_over now until then record m { pc = scanning } else m
advance now ended m = m

-- What can happen: a step of the thread at a time, a `Sleep` made at a time for a duration, the waker
-- of a poll stored in a slot, the registration that follows the first, a slot emptied by a poll that
-- is ready or by a drop, and `shutdown`.
pub data Event : Type 0 where
  turn : ℕ → Event
  make : ℕ → ℕ → Event
  store : ℕ → ℕ → Event
  enter : ℕ → ℕ → Event
  clear : ℕ → Event
  stop : Event

-- A call that needs the lock waits while the thread has it.
unfoldable pub act : Event → Machine → Machine
act (turn now) m = advance now m.pc m
act (make now duration) m = record m { driver = (new_sleep now duration m.driver).1 }
act (store slot waker) m =
    let d = m.driver in record m { driver = record d { slots = set d.slots slot (some waker) } }
act (enter deadline slot) m =
    if locked m.pc
    then m
    else record m { driver = (register deadline slot m.driver).0; notified = true }
act (clear slot) m =
    let d = m.driver in record m { driver = record d { slots = set d.slots slot none } }
act stop m = if locked m.pc then m else record m { driver = shut_down m.driver; notified = true }

unfoldable pub run : List Event → Machine → Machine
run [] m = m
run (e ∷ es) m = run es (act e m)
