-- ===== src/Sched.antt =====
-- `kernel/src/sched`: tasks, the three ready queues, context switches, blocking and waking.
pub mod Context
pub mod Task
pub mod Scheduler
pub mod Blocking
pub mod Invariant
pub mod Tests
