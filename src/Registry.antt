-- ===== src/Registry.antt =====
-- hypertile-core/src/executor.rs: the registry of workers.
pub mod Defs
pub mod Lookup
pub mod Invariant
pub mod Unpark
pub mod Steps
pub mod Ids
mod Examples
