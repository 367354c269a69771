-- ===== src/Executor.antt =====
-- hypertile-core/src/executor.rs, task.rs and worker.rs: the tasks and the pool that holds them.
pub mod Machine
pub mod Queued
pub mod Handles
pub mod Working
pub mod Examples
