-- ===== src/Python.antt =====
-- hypertile-sys/src/lib.rs, bilingual.rs and cancel.rs: the Python module.
pub mod Flag
pub mod Completion
pub mod Step
pub mod Invariant
pub mod Settling
pub mod Callbacks
pub mod Outcome
pub mod Tasks
pub mod Chunk
pub mod Batches
pub mod BatchMemory
pub mod BatchResult
pub mod Pipeline
pub mod Slots
pub mod Wrapped
pub mod Worker
pub mod WorkerAccounts
pub mod Deregistered
pub mod WorkerExamples
pub mod Examples
