-- ===== src/Batch/Run.antt =====
-- hypertile-capi/src/lib.rs: `hypertile_batch_spawn`, with its chunks running in any interleaving.
use hypertile.Base.{
  ℕ, zero, suc, ◌+◌, Bool, true, false, Option, none, some, List, [], ◌∷◌, map, length, get_elem?,
  set, ltb, ◌==◌, ◌⊎◌, inl, inr, if◌then◌else◌,
}
use hypertile.Registry.Defs.{fetch_sub}
use hypertile.Batch.Chunks.{batch_chunks}

pub data HypertileStatus : Type 0 where
  ok pending err_invalid_arg err_panic err_not_initialized err_worker_not_registered :
      HypertileStatus

-- The task of one chunk: its next item, the item behind its last one, and whether it is yet to count
-- itself as finished.
pub record Chunk : Type 0 where
  pub next : ℕ
  pub stop : ℕ
  pub active : Bool

-- A pointer, of an argument or a result, is a number. `unparks` counts the wakes of the caller.
pub record Batch : Type 0 where
  pub chunks : List Chunk
  pub out_results : List ℕ
  pub remaining : ℕ
  pub had_panic : Bool
  pub unparks : ℕ

abbrev pub spawned : ℕ × ℕ → Chunk
spawned (start, stop) = record { next = start; stop = stop; active = true }

-- All chunks are spawned.
unfoldable pub start_batch : ℕ → List ℕ → ℕ → Batch
start_batch active out count =
    let cs = batch_chunks active count in
    record {
      chunks = map spawned cs;
      out_results = out;
      remaining = length cs;
      had_panic = false;
      unparks = 0;
    }

-- The guards; a null pointer is none.
unfoldable pub batch_spawn :
    Option (ℕ → Option ℕ) → Option (List ℕ) → Option (List ℕ) → ℕ → ℕ → HypertileStatus ⊎ Batch
unfolding start_batch
batch_spawn work args out zero active = inl ok
batch_spawn none args out (suc n) active = inl err_invalid_arg
batch_spawn (some f) none out (suc n) active = inl err_invalid_arg
batch_spawn (some f) (some xs) none (suc n) active = inl err_invalid_arg
batch_spawn (some f) (some xs) (some ys) (suc n) active = inr (start_batch active ys (suc n))

-- `work` gives none where it panics.
module _ (work : ℕ → Option ℕ) (args : List ℕ) where
  -- What a call of `work` leaves: the result, or null and the panic flag.
  unfoldable pub write : ℕ → Option ℕ → Batch → Batch
  write i (some r) b = record b { out_results = set b.out_results i r }
  write i none b = record b { out_results = set b.out_results i 0; had_panic = true }

  unfoldable pub run_item : ℕ → Option ℕ → Batch → Batch
  unfolding write
  run_item i none b = b
  run_item i (some arg) b = write i (work arg) b

  abbrev put_chunk : ℕ → Chunk → Batch → Batch
  put_chunk k c b = record b { chunks = set b.chunks k c }

  -- The end of the chunk's task.
  unfoldable pub finish_chunk : ℕ → Chunk → Batch → Batch
  finish_chunk k c b = record b {
    chunks = set b.chunks k (record c { active = false });
    remaining = fetch_sub b.remaining 1;
    unparks = if b.remaining == 1 then suc b.unparks else b.unparks;
  }

  unfoldable pub step_chunk : ℕ → Option Chunk → Batch → Batch
  unfolding run_item finish_chunk
  step_chunk k none b = b
  step_chunk k (some c) b =
      if ltb c.next c.stop
      then run_item c.next (get_elem? args c.next) (put_chunk k (record c { next = c.next + 1 }) b)
      else (if c.active then finish_chunk k c b else b)

  unfoldable pub run_chunks : List ℕ → Batch → Batch
  unfolding step_chunk
  run_chunks [] b = b
  run_chunks (k ∷ ks) b = run_chunks ks (step_chunk k (get_elem? b.chunks k) b)

-- What the caller returns, once `remaining` is 0.
unfoldable pub status : Batch → HypertileStatus
status b = if b.had_panic then err_panic else ok
