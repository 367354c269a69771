-- ===== src/Timer.antt =====
-- hypertile-core/src/timer.rs: the timer driver and the sleep future.
pub mod Driver
pub mod Sleep
pub mod Order
pub mod Firing
pub mod Reach
pub mod Polled
pub mod Loop
pub mod Sleeping
pub mod Waking
pub mod Registered
pub mod Rounds
pub mod LoopExamples
pub mod Examples
