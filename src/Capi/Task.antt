-- ===== src/Capi/Task.antt =====
-- hypertile-capi/src/lib.rs: `hypertile_spawn`, `hypertile_poll` and `hypertile_wait`, access by access,
-- as the task and any number of threads interleave.
use hypertile.Base.{
  Parker, place, ℕ, Bool, true, false, Option, none, some, List, [], ◌∷◌, ◌++◌, if◌then◌else◌,
}
use hypertile.Batch.Run.{
  HypertileStatus, ok, pending, err_invalid_arg, err_panic, err_not_initialized,
}
use hypertile.Python.Outcome.{text, owned, other, Caught, returned, unwound}

-- `Result<usize, String>`; an address is a number.
pub data TaskResult (T : Type 0) : Type 0 where
  address : ℕ → TaskResult T
  panic_text : T → TaskResult T

unfoldable pub map_result : {T : Type 0} → T → Caught ℕ T → TaskResult T
map_result fallback (returned a) = address a
map_result fallback (unwound (text s)) = panic_text s
map_result fallback (unwound (owned s)) = panic_text s
map_result fallback (unwound other) = panic_text fallback

-- The end of `hypertile_poll` and `hypertile_wait`: the status, and what is written to `out_result`,
-- unless that is null. `missing` is the status if there is no result.
unfoldable pub read_result :
    {T : Type 0} → HypertileStatus → Bool → Option (TaskResult T) → HypertileStatus × Option ℕ
read_result missing out (some (address a)) = (ok, if out then some a else none)
read_result missing out (some (panic_text t)) = (err_panic, none)
read_result missing out none = (missing, none)

-- Where the task is. `draining` takes the unparkers, and `unparking` calls them.
pub data Producer : Type 0 where
  storing finishing draining : Producer
  unparking : List ℕ → Producer
  gone : Producer

-- Where a thread is in `hypertile_poll` or `hypertile_wait`. It holds the lock of the unparkers in
-- `checking` and `pushing`.
pub data Pc : Type 0 where
  polling poll_reading : Pc
  waiting registering checking pushing looping parking wait_reading : Pc
  polled waited : HypertileStatus × Option ℕ → Pc

-- A thread, its parker, and whether its `out_result` is there.
pub record Thread (P : Parker) : Type 0 where
  pub pc : Pc
  pub token : P.Token
  pub out : Bool

-- `HypertileTaskInner` with the task and the threads; the lock of the unparkers names its holder.
pub record System (P : Parker) (T : Type 0) : Type 0 where
  pub result : Option (TaskResult T)
  pub done : Bool
  pub unparkers : List ℕ
  pub lock : Option ℕ
  pub producer : Producer
  pub threads : ℕ → Thread P

-- The null checks.
unfoldable pub poll_task : Bool → Pc
poll_task null = if null then polled (err_invalid_arg, none) else polling

unfoldable pub wait_for : Bool → Pc
wait_for null = if null then waited (err_invalid_arg, none) else waiting

abbrev pub new_task : {P : Parker} {T : Type 0} → (ℕ → Thread P) → System P T
new_task ts = record {
  result = none;
  done = false;
  unparkers = [];
  lock = none;
  producer = storing;
  threads = ts;
}

-- `hypertile_spawn`, which gives null if there is no work; `ts` are the threads that call for the task.
unfoldable pub spawn : {W T : Type 0} {P : Parker} → Option W → (ℕ → Thread P) → Option (System P T)
spawn none ts = none
spawn (some work) ts = some (new_task ts)

module _ {P : Parker} {T : Type 0} where
  unfoldable pub go_to : ℕ → Pc → System P T → System P T
  unfolding place
  go_to k p s = record s { threads = place k (record (s.threads k) { pc = p }) s.threads }

  unfoldable pub unpark_thread : ℕ → System P T → System P T
  unfolding place
  unpark_thread i s = record s {
    threads = place i (record (s.threads i) { token = P.unpark (s.threads i).token }) s.threads;
  }

  unfoldable pub drain : Option ℕ → System P T → System P T
  drain (some holder) s = s
  drain none s = record s { producer = unparking s.unparkers; unparkers = [] }

  -- The task that `hypertile_spawn` spawns, one access; `r` is what the work leaves.
  unfoldable pub produce : TaskResult T → Producer → System P T → System P T
  unfolding unpark_thread drain
  produce r storing s = record s { result = some r; producer = finishing }
  produce r finishing s = record s { done = true; producer = draining }
  produce r draining s = drain s.lock s
  produce r (unparking (i ∷ is)) s = record (unpark_thread i s) { producer = unparking is }
  produce r (unparking []) s = record s { producer = gone }
  produce r gone s = s

  unfoldable pub take_lock : ℕ → Option ℕ → System P T → System P T
  unfolding go_to
  take_lock k (some holder) s = s
  take_lock k none s = go_to k checking (record s { lock = some k })

  unfoldable pub park_thread : ℕ → Option P.Token → System P T → System P T
  unfolding place
  park_thread k none s = s
  park_thread k (some t) s = record s {
    threads = place k (record (s.threads k) { pc = looping; token = t }) s.threads;
  }

  -- The next access of thread `k`, which stays where it is while it is blocked.
  unfoldable pub call_step : ℕ → Pc → System P T → System P T
  unfolding go_to take_lock park_thread
  call_step k polling s = go_to k (if s.done then poll_reading else polled (pending, none)) s
  call_step k poll_reading s = go_to k (polled (read_result pending (s.threads k).out s.result)) s
  call_step k waiting s = go_to k (if s.done then wait_reading else registering) s
  call_step k registering s = take_lock k s.lock s
  call_step k checking s =
      if s.done then go_to k looping (record s { lock = none }) else go_to k pushing s
  call_step k pushing s =
      go_to k looping (record s { unparkers = s.unparkers ++ (k ∷ []); lock = none })
  call_step k looping s = go_to k (if s.done then wait_reading else parking) s
  call_step k parking s = park_thread k (P.park (s.threads k).token) s
  call_step k wait_reading s =
      go_to k (waited (read_result err_not_initialized (s.threads k).out s.result)) s
  call_step k (polled r) s = s
  call_step k (waited r) s = s

-- Who makes the next access.
pub data Turn : Type 0 where
  worker : Turn
  caller : ℕ → Turn

module _ {P : Parker} {T : Type 0} (r : TaskResult T) where
  unfoldable pub advance : Turn → System P T → System P T
  advance worker s = produce r s.producer s
  advance (caller k) s = call_step k (s.threads k).pc s

  unfoldable pub run : List Turn → System P T → System P T
  run [] s = s
  run (t ∷ ts) s = run ts (advance t s)
