-- ===== src/Scheduler.antt =====
-- kernel/src/scheduler: the task queues, and the scheduler over them.
pub mod Queue
pub mod State
pub mod Core
pub mod Task
