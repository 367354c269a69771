-- ===== src/Runtime.antt =====
-- hypertile-core/src/runtime.rs: the size of the shared pool, and the one global runtime.
pub mod Sizing
pub mod Bounds
pub mod Decimal
pub mod Global
pub mod Once
pub mod Blocking
pub mod Wakes
pub mod Shutdown
pub mod Ending
pub mod EndExamples
pub mod Examples
