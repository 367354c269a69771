-- ===== src/Runtime/Blocking.antt =====
-- hypertile-core/src/runtime.rs: `block_on`, as other threads change the future and wake it.
use hypertile.Base.{
  Parker, ℕ, ◌≡◌, Bool, true, false, ◌||◌, Option, none, some, List, [], ◌∷◌, if◌then◌else◌,
}

-- `Poll`; a pending future may have woken its waker itself.
pub data Polled (S V : Type 0) : Type 0 where
  ready : V → Polled S V
  pending : S → Bool → Polled S V

-- What is used of a future. `change` is what another thread does to it, and whether it then owes a
-- wake. A future that was pending can make no progress before it is changed, and who lets it make
-- progress wakes it.
pub record Future (V : Type 0) : Type 1 where
  pub State : Type 0
  pub poll : State → Polled State V
  pub change : ℕ → State → State × Bool
  pub can_progress : State → Bool
  pub poll-ready : (s : State) (v : V) → poll s ≡ ready v → can_progress s ≡ true
  pub poll-pending : (s t : State) → poll s ≡ pending t false → can_progress t ≡ false
  pub change-owes :
      (x : ℕ) (s : State)
      → can_progress s ≡ false
      → (change x s).1 ≡ false
      → can_progress (change x s).0 ≡ false

-- Where the thread is in the loop of `block_on`.
pub data BlockPc (V : Type 0) : Type 0 where
  polling parking : BlockPc V
  returned : V → BlockPc V

-- The future, the thread with its parker, and whether a wake is owed.
pub record Blocked (P : Parker) {V : Type 0} (F : Future V) : Type 0 where
  pub future : F.State
  pub token : P.Token
  pub pc : BlockPc V
  pub owed : Bool

-- The thread goes on, another one changes the future, or `BlockingWaker` is woken.
pub data Event : Type 0 where
  go_on : Event
  changes : ℕ → Event
  wake : Event

module _ {P : Parker} {V : Type 0} {F : Future V} where
  unfoldable pub begin : F.State → Blocked P F
  begin s = record { future = s; token = P.new; pc = polling; owed = false }

  unfoldable pub polled : Polled F.State V → Blocked P F → Blocked P F
  polled (ready v) b = record b { pc = returned v }
  polled (pending s woken) b = record b {
    future = s;
    token = if woken then P.unpark b.token else b.token;
    pc = parking;
  }

  unfoldable pub parked : Option P.Token → Blocked P F → Blocked P F
  parked none b = b
  parked (some t) b = record b { token = t; pc = polling }

  -- The thread, which stays where it is while it is blocked.
  unfoldable pub block_step : BlockPc V → Blocked P F → Blocked P F
  unfolding polled parked
  block_step polling b = polled (F.poll b.future) b
  block_step parking b = parked (P.park b.token) b
  block_step (returned v) b = b

  unfoldable pub wake_by_ref : Blocked P F → Blocked P F
  wake_by_ref b = record b { token = P.unpark b.token; owed = false }

  unfoldable pub act : Event → Blocked P F → Blocked P F
  unfolding block_step wake_by_ref
  act go_on b = block_step b.pc b
  act (changes x) b =
      let (s, owes) = F.change x b.future in record b { future = s; owed = b.owed || owes }
  act wake b = wake_by_ref b

  unfoldable pub run : List Event → Blocked P F → Blocked P F
  run [] b = b
  run (e ∷ es) b = run es (act e b)
