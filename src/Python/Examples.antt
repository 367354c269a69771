-- ===== src/Python/Examples.antt =====
-- A task with two callbacks and a batch of three items, and the theorems at them.
use hypertile.Base.{
  ℕ, ◌<◌, ◌≡◌, refl, true, false, Option, none, some, List, [], ◌∷◌, total, ◌==◌, if◌then◌else◌,
  arith,
}
use hypertile.Registry.Defs.{lookup}
use hypertile.Batch.Chunks.{python_chunks, chunks_until_empty, chunk_size, num_chunks, div_ceil}
use hypertile.Python.Flag.{BoolCounts, bool_flag, store_done, count_down}
use hypertile.Python.Outcome.{PyResult, ok, text, Caught, returned, unwound, batch_result}
use hypertile.Python.Chunk.{compute}
use hypertile.Python.Completion.{run, advance, step, start}
use hypertile.Python.Callbacks.{threads_of, Resting, count, called_once, settles}
use hypertile.Python.Batches.{spawn_batch, share}
use hypertile.Python.BatchResult.{Sequential, reach, batch-Sequential}

-- Thread 0 runs the task; threads 1 and 2 add the callbacks 7 and 8, one while the task finishes and
-- one afterwards.
abbrev order : List ℕ
order = 1 ∷ 1 ∷ 0 ∷ 1 ∷ 0 ∷ 1 ∷ 0 ∷ 1 ∷ 1 ∷ 0 ∷ 2 ∷ 2 ∷ 2 ∷ 2 ∷ []

abbrev cbs : List ℕ
cbs = 7 ∷ 8 ∷ []

abbrev bytes : Option ℕ
bytes = some 5

abbrev one : ℕ → ℕ
one i = 1

one_pos : (i : ℕ) → 0 < one i
one_pos i = omega arith

one_left : BoolCounts false (total one (0 ∷ []))
unfolding total
one_left = (refl, omega arith)

called_once_example :
    let s =
      (run bool_flag
        (λ i m. bytes)
        one
        order
        (start bool_flag false none (threads_of (0 ∷ []) cbs))).shared in
    (s.flag ≡ true) × ((a : ℕ) → count a s.called ≡ count a cbs)
unfolding run start advance step store_done
called_once_example =
    called_once bool_flag (λ i m. bytes) one one_pos false none (0 ∷ []) cbs one_left order
      (refl, (refl, (refl, tt)))

settles_example :
    (js : List ℕ) × Resting
      (run bool_flag
        (λ i m. bytes)
        one
        js
        (run bool_flag
          (λ i m. bytes)
          one
          (1 ∷ 1 ∷ 0 ∷ [])
          (start bool_flag false none (threads_of (0 ∷ []) cbs)))).threads
settles_example =
    settles bool_flag (λ i m. bytes) one one_pos false none (0 ∷ []) cbs one_left (1 ∷ 1 ∷ 0 ∷ [])

abbrev panicking : Caught ℕ ℕ
panicking = unwound (text 99)

abbrev fine : Caught (PyResult ℕ ℕ) ℕ
fine = returned (ok 3)

abbrev work : ℕ → Caught ℕ ℕ
work i = if i == 1 then unwound (text 99) else returned i

batch-Sequential_example :
    let sys = reach work 1 0 3 (9 ∷ []) (2 ∷ 0 ∷ 1 ∷ 1 ∷ 0 ∷ 2 ∷ []) in
    Sequential {X = ℕ} (compute work 3 0) (batch_result (sys.shared.flag == 0) sys.shared.memory)
unfolding run spawn_batch advance python_chunks chunks_until_empty num_chunks chunk_size div_ceil
    step count_down share lookup
batch-Sequential_example =
    batch-Sequential work 1 0 3 (9 ∷ []) (2 ∷ 0 ∷ 1 ∷ 1 ∷ 0 ∷ 2 ∷ []) (omega arith) (omega arith) ℕ
      refl
