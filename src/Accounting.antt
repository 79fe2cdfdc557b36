-- ===== src/Accounting.antt =====
-- The slots of the workers, across services/scheduler_service.py and services/task_service.py: the
-- counter `in_flight` against the tasks that are RUNNING.
pub mod Invariant
pub mod Moves
pub mod Operations
pub mod Requests
pub mod Reaping
pub mod Recovery
pub mod Registration
pub mod Idle
pub mod Planning
