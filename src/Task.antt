-- ===== src/Task.antt =====
-- hypertile-core/src/task.rs: one task cell under any number of threads.
pub mod Cell
pub mod Methods
pub mod System
pub mod Tally
pub mod Ownership
pub mod Publication
pub mod Agreement
pub mod Invariant
pub mod Safety
mod Examples
