-- ===== src/Coroutine.antt =====
-- hypertile-sys/src/bilingual.rs and cancel.rs: Python coroutines on the pool.
pub mod Cell
pub mod Token
pub mod Run
pub mod Drive
pub mod Level1
pub mod Examples
