-- ===== src/Capi.antt =====
-- hypertile-capi/src/lib.rs: the C interface.
pub mod Callback
pub mod Worker
pub mod Registration
pub mod Examples
pub mod Task
pub mod Parking
pub mod Waiters
pub mod Release
pub mod Calls
pub mod Return
pub mod Holder
pub mod Completion
pub mod TaskExamples
