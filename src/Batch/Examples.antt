-- ===== src/Batch/Examples.antt =====
-- A batch of three items on one worker, the second of which panics.
use hypertile.Base.{
  ℕ, suc, ◌≡◌, refl, Option, none, some, List, [], ◌∷◌, map, ltb, if◌then◌else◌, arith,
}
use hypertile.Batch.Chunks.{batch_chunks, chunks_from, chunk_size, num_chunks, div_ceil}
use hypertile.Batch.Tiling.{Tiles, batch_chunks-Tiles}
use hypertile.Batch.Run.{start_batch, run_chunks, status, err_panic, ok}
use hypertile.Batch.Outcome.{outcome, panics, run_chunks-status}

batch_chunks-Tiles_example : Tiles 0 10 (batch_chunks 1 10)
batch_chunks-Tiles_example = batch_chunks-Tiles 1 10 (omega arith) (omega arith)

abbrev work : ℕ → Option ℕ
work arg = if ltb 20 arg then none else some (suc arg)

abbrev items : List ℕ
items = 10 ∷ 30 ∷ 20 ∷ []

abbrev order : List ℕ
order = 2 ∷ 0 ∷ 1 ∷ 1 ∷ 0 ∷ 2 ∷ []

run_chunks-status_example :
    let b = run_chunks work items order (start_batch 1 (7 ∷ 7 ∷ 7 ∷ []) 3) in
    (b.out_results ≡ map (outcome work) items)
    × (status b ≡ (if panics work items then err_panic else ok))
    × (b.unparks ≡ 1)
unfolding run_chunks start_batch batch_chunks chunks_from div_ceil chunk_size num_chunks
run_chunks-status_example =
    run_chunks-status work 1 (7 ∷ 7 ∷ 7 ∷ []) items order (omega arith) (omega arith) refl refl
