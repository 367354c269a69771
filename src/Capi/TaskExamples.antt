-- ===== src/Capi/TaskExamples.antt =====
-- A task with a thread that waits for it and a thread that polls it, and the theorems at them.
use hypertile.Base.{
  parker, place, ℕ, ◌≡◌, refl, inl, inr, Bool, true, false, List, [], ◌∷◌, ◌++◌, ◌==◌,
  if◌then◌else◌,
}
use hypertile.Capi.Task.{
  address, polling, waiting, waited, parking, Thread, new_task, Turn, worker, caller, advance, run,
  go_to, unpark_thread, produce, take_lock, call_step,
}
use hypertile.Capi.Parking.{outcome}
use hypertile.Capi.Completion.{wait_completes}
use hypertile.Capi.Return.{Begins, Answers, four, run-Answers, wait_returns}

-- Thread 0 polls, the others wait.
abbrev threads : ℕ → Thread parker
threads k = record { pc = if k == 0 then polling else waiting; token = false; out = true }

pcs : (b : Bool) → Begins (if b then polling else waiting)
pcs true = inl refl
pcs false = inr refl

threads-Begins : (k : ℕ) → Begins (threads k).pc
threads-Begins k = pcs (k == 0)

-- Thread 1 parks, then the task ends and unparks it.
abbrev turns : List Turn
turns =
    caller 1
    ∷ caller 1
    ∷ caller 1
    ∷ caller 1
    ∷ caller 1
    ∷ caller 0
    ∷ worker
    ∷ worker
    ∷ worker
    ∷ worker
    ∷ worker
    ∷ []

parked :
    ((run {P = parker} {T = ℕ}
        (address 5)
        (caller 1 ∷ caller 1 ∷ caller 1 ∷ caller 1 ∷ caller 1 ∷ [])
        (new_task threads)).threads
      1).pc
    ≡ parking
unfolding run advance call_step go_to place take_lock
parked = refl

run-Answers_example :
    let w = (run {T = ℕ} (address 5) turns (new_task threads)).threads 0 in
    Answers {T = ℕ} (address 5) w.pc w.out
run-Answers_example = run-Answers (address 5) threads threads-Begins turns 0

wait_returns_example :
    ((run {P = parker} {T = ℕ}
        (address 5)
        (four 1)
        (run (address 5) turns (new_task threads))).threads
      1).pc
    ≡ waited (outcome {T = ℕ} (address 5) true)
unfolding run advance call_step go_to place take_lock produce unpark_thread
wait_returns_example = wait_returns (address 5) threads threads-Begins turns 1 refl refl refl

wait_completes_example :
    (vs : List Turn) × (((run {P = parker} {T = ℕ} (address 5) (vs ++ four 1) (
          run
            (address 5)
            (caller 1 ∷ caller 1 ∷ caller 1 ∷ worker ∷ [])
            (new_task threads))).threads
        1).pc
      ≡ waited (outcome {T = ℕ} (address 5) true))
wait_completes_example =
    wait_completes (address 5) threads threads-Begins (caller 1 ∷ caller 1 ∷ caller 1 ∷ worker ∷ [])
      1 refl
