-- ===== src/Sched/Invariant/Wakeup/Steps.antt =====
-- Every interleaving of the scheduler's operations.
use vitr_os.Base.{ℕ, ◌≤◌, ◌≡◌, refl, ap, false, none, [], arith}
use vitr_os.Collections.Order.{nat_order}
use vitr_os.Collections.TreeMap.{contains_key}
use vitr_os.Sched.Task.{Task, TaskState}
use vitr_os.Sched.Scheduler.{
  Sched, enqueue_task, set_current_task, update_current_task_vruntime, set_need_resched, schedule,
}
use vitr_os.Sched.Blocking.{prepare_block, unblock_task}
use vitr_os.Sched.Invariant.{one, count_current, count, IsTask, IsWellFormed}
use vitr_os.Sched.Invariant.Enqueue.{enqueue_task-IsWellFormed, count-le-one}
use vitr_os.Sched.Invariant.Switch.Whole.{schedule-IsWellFormed}
use vitr_os.Sched.Invariant.Wakeup.{unblock_task-IsWellFormed, prepare_block-IsWellFormed}

-- The statics at boot.
unfoldable pub boot : Sched
boot = record {
  rt_queue = [];
  cfs_queue = [];
  idle_queue = [];
  current = none;
  blocked_tasks = [];
  wakeup_pending = [];
  need_resched = false;
  accumulated_runtime = 0;
  interrupts = false;
}

-- One atomic section: tasks and interrupt handlers run them in any order. `block_current_task` is
-- two steps, `prepare` and `switch`, between which handlers may run.
pub data Step (k : Sched) : Sched → Type 0 where
  add :
      (t : Task)
      → t.state ≡ TaskState.ready
      → IsTask t
      → count t.id k ≡ 0
      → Step k (enqueue_task t k)
  install :
      (t : Task) → k.current ≡ none → IsTask t → count t.id k ≡ 0 → Step k (set_current_task t k)
  tick : (delta : ℕ) → Step k (update_current_task_vruntime delta k)
  request : Step k (set_need_resched k)
  prepare : Step k (prepare_block k).0
  switch : Step k (schedule k).0
  wake : (i : ℕ) → Step k (unblock_task i k)

pub data Reach (k : Sched) : Sched → Type 0 where
  here : Reach k k
  next : {k' k'' : Sched} → Reach k k' → Step k' k'' → Reach k k''

boot-IsWellFormed : IsWellFormed boot
unfolding boot contains_key
boot-IsWellFormed = record {
  rt_sorted = tt;
  cfs_sorted = tt;
  blocked_sorted = tt;
  pending_sorted = tt;
  rt_queued = tt;
  cfs_queued = tt;
  idle_queued = tt;
  parked = tt;
  current_ok = tt;
  unique = λ i. omega arith;
  awake = λ i. refl;
}

one-le : (i : ℕ) (t : Task) → one i t ≤ 1
one-le i t = ground arith

set_current_task-IsWellFormed :
    (t : Task) (k : Sched)
    → IsWellFormed k
    → k.current ≡ none
    → IsTask t
    → count t.id k ≡ 0
    → IsWellFormed (set_current_task t k)
unfolding set_current_task
set_current_task-IsWellFormed t k v c p h = record {
  rt_sorted = v.rt_sorted;
  cfs_sorted = v.cfs_sorted;
  blocked_sorted = v.blocked_sorted;
  pending_sorted = v.pending_sorted;
  rt_queued = v.rt_queued;
  cfs_queued = v.cfs_queued;
  idle_queued = v.idle_queued;
  parked = v.parked;
  current_ok = p;
  unique = λ i. omega (arith, count-le-one t k i v.unique h, ap (count_current i) c);
  awake = v.awake;
}

update_current_task_vruntime-IsWellFormed :
    (delta : ℕ) (k : Sched) → IsWellFormed k → IsWellFormed (update_current_task_vruntime delta k)
unfolding update_current_task_vruntime
update_current_task_vruntime-IsWellFormed delta k v = record {
  rt_sorted = v.rt_sorted;
  cfs_sorted = v.cfs_sorted;
  blocked_sorted = v.blocked_sorted;
  pending_sorted = v.pending_sorted;
  rt_queued = v.rt_queued;
  cfs_queued = v.cfs_queued;
  idle_queued = v.idle_queued;
  parked = v.parked;
  current_ok = v.current_ok;
  unique = v.unique;
  awake = v.awake;
}

set_need_resched-IsWellFormed : (k : Sched) → IsWellFormed k → IsWellFormed (set_need_resched k)
unfolding set_need_resched
set_need_resched-IsWellFormed k v = record {
  rt_sorted = v.rt_sorted;
  cfs_sorted = v.cfs_sorted;
  blocked_sorted = v.blocked_sorted;
  pending_sorted = v.pending_sorted;
  rt_queued = v.rt_queued;
  cfs_queued = v.cfs_queued;
  idle_queued = v.idle_queued;
  parked = v.parked;
  current_ok = v.current_ok;
  unique = v.unique;
  awake = v.awake;
}

Step-IsWellFormed : {k k' : Sched} → Step k k' → IsWellFormed k → IsWellFormed k'
Step-IsWellFormed {k} (add t r p h) v = enqueue_task-IsWellFormed t k v r p h
Step-IsWellFormed {k} (install t c p h) v = set_current_task-IsWellFormed t k v c p h
Step-IsWellFormed {k} (tick delta) v = update_current_task_vruntime-IsWellFormed delta k v
Step-IsWellFormed {k} request v = set_need_resched-IsWellFormed k v
Step-IsWellFormed {k} prepare v = prepare_block-IsWellFormed k v
Step-IsWellFormed {k} switch v = schedule-IsWellFormed k v
Step-IsWellFormed {k} (wake i) v = unblock_task-IsWellFormed i k v

Reach-IsWellFormed : {k k' : Sched} → IsWellFormed k → Reach k k' → IsWellFormed k'
Reach-IsWellFormed v here = v
Reach-IsWellFormed v (next r s) = Step-IsWellFormed s (Reach-IsWellFormed v r)

-- In every state that the operations reach from boot, in any interleaving in which only unknown
-- tasks are added, the queues are sorted and hold ready tasks of their class, no task is in two
-- places, and no blocked task has a wake-up pending.
pub boot-Reach-IsWellFormed : {k : Sched} → Reach boot k → IsWellFormed k
boot-Reach-IsWellFormed r = Reach-IsWellFormed boot-IsWellFormed r
