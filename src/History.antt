-- ===== src/History.antt =====
-- Histories: the calls of services/scheduler_service.py and services/task_service.py that write
-- tasks or workers, as one sequence of transactions. Whoever makes a call, it carries its own
-- context; a call that raises commits nothing.
pub mod Calls
pub mod Accounts
pub mod Steps
pub mod Evolution
pub mod Transitions
pub mod Reach
pub mod Fates
