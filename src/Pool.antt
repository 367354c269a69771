-- ===== src/Pool.antt =====
-- hypertile-core/src/executor.rs, waker.rs, worker.rs and registration.rs: the pool and its workers.
pub mod Crossbeam
pub mod Local
pub mod Worker
pub mod Conservation
pub mod Flush
pub mod Leave
pub mod Order
pub mod Loop
pub mod Budget
pub mod Accounting
pub mod Samples
mod Examples
