-- ===== src/Scheduler.antt =====
-- internal/scheduler: commands, the worker loop, the registry, and exclusive execution.
pub mod Command
pub mod Worker
pub mod Registry
pub mod Exclusive
pub mod Callers
