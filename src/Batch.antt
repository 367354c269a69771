-- ===== src/Batch.antt =====
-- hypertile-capi/src/lib.rs and hypertile-sys/src/lib.rs: batches of items, run in chunks.
pub mod Chunks
pub mod Tiling
pub mod Run
pub mod Invariant
pub mod Finish
pub mod Outcome
pub mod Examples
