-- ===== src/Sched/Invariant.antt =====
-- What holds of the scheduler's state between any two operations.
pub mod Enqueue
pub mod Switch
pub mod Wakeup
use vitr_os.Base.{
  ℕ, ◌+◌, ◌≤◌, ◌≡◌, Bool, true, false, ◌&&◌, Option, none, some, List, [], ◌∷◌, All, sum_by, ◌==◌,
  if◌then◌else◌,
}
use vitr_os.Collections.Order.{nat_order, pair_order}
use vitr_os.Collections.TreeMap.{contains_key, IsSorted}
use vitr_os.Sched.Task.{Task, SchedulingClass, TaskState}
use vitr_os.Sched.Scheduler.{Sched, rt_key, cfs_key}

-- 1 for the task with the id.
abbrev pub one : ℕ → Task → ℕ
one i t = if t.id == i then 1 else 0

abbrev pub count_current : ℕ → Option Task → ℕ
count_current i none = 0
count_current i (some t) = one i t

-- How many tasks with the id wait in the three ready queues.
abbrev pub count_ready : ℕ → Sched → ℕ
count_ready i k =
    sum_by (λ e. one i e.1) k.rt_queue
    + sum_by (λ e. one i e.1) k.cfs_queue
    + sum_by (one i) k.idle_queue

abbrev pub count_blocked : ℕ → Sched → ℕ
count_blocked i k = sum_by (λ e. one i e.1) k.blocked_tasks

-- How many tasks with the id the scheduler knows.
abbrev pub count : ℕ → Sched → ℕ
count i k = count_ready i k + count_current i k.current + count_blocked i k

-- Realtime priorities are at most 99, so that the keys of the Realtime queue do not wrap.
abbrev pub IsTask : Task → Type 0
IsTask t = t.rt_priority ≤ 99

-- A task in a queue of class `c`, under the key `key`.
abbrev pub Queued : (Task → ℕ × ℕ) → SchedulingClass → (ℕ × ℕ) × Task → Type 0
Queued key c e =
    (e.0 ≡ key e.1) × (e.1.sched_class ≡ c) × (e.1.state ≡ TaskState.ready) × IsTask e.1

abbrev pub QueuedIdle : Task → Type 0
QueuedIdle t = (t.sched_class ≡ SchedulingClass.idle) × (t.state ≡ TaskState.ready) × IsTask t

abbrev pub Parked : ℕ × Task → Type 0
Parked e = (e.0 ≡ e.1.id) × (e.1.state ≡ TaskState.blocked) × IsTask e.1

abbrev pub CurrentOk : Option Task → Type 0
CurrentOk none = Unit
CurrentOk (some t) = IsTask t

-- The queues are sorted; each holds ready tasks of its class under their keys; the blocked tasks are
-- marked so; no task is in two places; and no blocked task has a wake-up pending.
pub record IsWellFormed (k : Sched) : Type 0 where
  pub rt_sorted : IsSorted k.rt_queue
  pub cfs_sorted : IsSorted k.cfs_queue
  pub blocked_sorted : IsSorted k.blocked_tasks
  pub pending_sorted : IsSorted k.wakeup_pending
  pub rt_queued : All (Queued rt_key SchedulingClass.realtime) k.rt_queue
  pub cfs_queued : All (Queued cfs_key SchedulingClass.normal) k.cfs_queue
  pub idle_queued : All QueuedIdle k.idle_queue
  pub parked : All Parked k.blocked_tasks
  pub current_ok : CurrentOk k.current
  pub unique : (i : ℕ) → count i k ≤ 1
  pub awake : (i : ℕ) → (contains_key i k.wakeup_pending && contains_key i k.blocked_tasks) ≡ false
