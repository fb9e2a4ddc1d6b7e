-- ===== src/Sched/Invariant/Switch.antt =====
-- `schedule` keeps the state well formed and loses no task.
pub mod Pick
pub mod Retire
pub mod Whole
pub mod Priority
pub mod Terminated
