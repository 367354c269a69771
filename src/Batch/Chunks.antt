-- ===== src/Batch/Chunks.antt =====
-- hypertile-capi/src/lib.rs `hypertile_batch_spawn` and hypertile-sys/src/lib.rs
-- `batch_spawn_native_pipeline`, `batch_spawn_callable`: how a batch of items is cut into chunks.
use hypertile.Base.{
  ℕ, zero, suc, ◌+◌, ◌*◌, ◌/◌, ◌%◌, min, max, List, [], ◌∷◌, leb, ◌==◌, if◌then◌else◌,
}
use hypertile.Registry.Defs.{word}

-- `usize::div_ceil`
unfoldable pub div_ceil : ℕ → ℕ → ℕ
div_ceil a b = if a % b == 0 then a / b else a / b + 1

-- `active` is the number of registered workers.
unfoldable pub num_chunks : ℕ → ℕ → ℕ
num_chunks active count = max (min (word (max active 1 * 4)) count) 1

unfoldable pub chunk_size : ℕ → ℕ → ℕ
chunk_size active count = div_ceil count (num_chunks active count)

-- The chunk `k`: its first item, and the item behind its last one.
abbrev pub chunk_start : ℕ → ℕ → ℕ
chunk_start size k = word (k * size)

abbrev pub chunk_end : ℕ → ℕ → ℕ → ℕ
chunk_end size count k = min (word (chunk_start size k + size)) count

-- The loop of the C interface: `n` rounds are left, `k` were made.
unfoldable pub chunks_from : ℕ → ℕ → ℕ → ℕ → List (ℕ × ℕ)
chunks_from size count zero k = []
chunks_from size count (suc n) k =
    (chunk_start size k, chunk_end size count k) ∷ chunks_from size count n (k + 1)

unfoldable pub batch_chunks : ℕ → ℕ → List (ℕ × ℕ)
batch_chunks active count =
    let size = chunk_size active count in chunks_from size count (div_ceil count size) 0

-- The loop of the Python module, which makes a round for each chunk that was asked for and stops at
-- the first empty one.
unfoldable pub chunks_until_empty : ℕ → ℕ → ℕ → ℕ → List (ℕ × ℕ)
chunks_until_empty size count zero k = []
chunks_until_empty size count (suc n) k =
    let rest = chunks_until_empty size count n (k + 1) in
    if leb (chunk_end size count k) (chunk_start size k)
    then []
    else (chunk_start size k, chunk_end size count k) ∷ rest

unfoldable pub python_chunks : ℕ → ℕ → List (ℕ × ℕ)
python_chunks active total =
    if total == 0
    then []
    else chunks_until_empty (chunk_size active total) total (num_chunks active total) 0
