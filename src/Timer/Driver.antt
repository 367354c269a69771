-- ===== src/Timer/Driver.antt =====
-- hypertile-core/src/timer.rs: `TimerDriver`. An `Instant` is a number of nanoseconds, a waker a
-- number, and the slot that an entry shares with its `Sleep` an address among the slots.
use hypertile.Base.{
  ℕ, ◌-◌, Bool, true, false, ◌&&◌, ◌||◌, Option, none, some, List, [], ◌∷◌, get_elem?, set, ltb,
  leb, ◌==◌, if◌then◌else◌,
}
use hypertile.Registry.Defs.{fetch_add}

pub record TimerEntry : Type 0 where
  pub deadline : ℕ
  pub id : ℕ
  pub waker : ℕ

-- `Ord for TimerEntry`, reversed twice: whether the first entry leaves the heap no later.
unfoldable pub first : TimerEntry → TimerEntry → Bool
first e f = ltb e.deadline f.deadline || ((e.deadline == f.deadline) && leb e.id f.id)

-- The heap is the list of its entries in the order in which `pop` gives them.
unfoldable pub push : TimerEntry → List TimerEntry → List TimerEntry
push e [] = e ∷ []
push e (f ∷ fs) = let rest = push e fs in if first e f then e ∷ f ∷ fs else f ∷ rest

pub record TimerDriver : Type 0 where
  pub heap : List TimerEntry
  pub shutdown : Bool
  pub next_id : ℕ
  pub slots : List (Option ℕ)

unfoldable pub new_driver : TimerDriver
new_driver = record { heap = []; shutdown = false; next_id = 1; slots = [] }

-- What the loop over the expired entries leaves: the heap, the slots, and the wakers it took.
pub record Collected : Type 0 where
  pub heap : List TimerEntry
  pub slots : List (Option ℕ)
  pub expired : List ℕ

abbrev pub take_slot : Option (Option ℕ) → List ℕ → List ℕ
take_slot (some (some w)) ws = w ∷ ws
take_slot _ ws = ws

unfoldable pub collect : ℕ → List TimerEntry → List (Option ℕ) → Collected
collect now [] slots = record { heap = []; slots = slots; expired = [] }
collect now (e ∷ es) slots =
    let rest = collect now es (set slots e.waker none) in
    if leb e.deadline now
    then record rest { expired = take_slot (get_elem? slots e.waker) rest.expired }
    else record { heap = e ∷ es; slots = slots; expired = [] }

-- One round of `run_timer_loop`, up to where it waits: the driver, and the wakers it wakes.
unfoldable pub tick : ℕ → TimerDriver → TimerDriver × List ℕ
tick now d =
    let r = collect now d.heap d.slots in
    if d.shutdown then (d, []) else (record d { heap = r.heap; slots = r.slots }, r.expired)

-- How long the round then waits: none is until it is notified.
unfoldable pub timeout : ℕ → TimerDriver → Option ℕ
timeout now d = elim d.heap [ [] ↦ none | e ∷ es ↦ some (e.deadline - now) ]

unfoldable pub register : ℕ → ℕ → TimerDriver → TimerDriver × ℕ
register deadline slot d = (
  record d {
    heap = push (record { deadline = deadline; id = d.next_id; waker = slot }) d.heap;
    next_id = fetch_add d.next_id 1;
  },
  d.next_id,
)

unfoldable pub shut_down : TimerDriver → TimerDriver
shut_down d = record d { shutdown = true }

-- `shutdown_timer`, where none is a global driver that was never started.
unfoldable pub shutdown_timer : Option TimerDriver → Option TimerDriver
unfolding shut_down
shutdown_timer none = none
shutdown_timer (some d) = some (shut_down d)
