-- ===== src/Scheduler.antt =====
-- services/scheduler_service.py: the worker registry, the dispatch of tasks and the reaper. Every
-- call is one transaction: it returns the state that it commits, or raises and commits nothing.
pub mod Workers
pub mod Dispatch
pub mod Claim
pub mod Leases
