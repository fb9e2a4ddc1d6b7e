-- ===== src/Sched/Blocking.antt =====
-- `kernel/src/sched/blocking.rs`: blocking the current task, and waking a task by its id.
use vitr_os.Base.{ℕ, Bool, true, false, Option, none, some, if◌then◌else◌}
use vitr_os.Collections.Order.{nat_order}
use vitr_os.Collections.TreeMap.{insert, get, contains_key, delete}
use vitr_os.Sched.Task.{TaskState, set_state}
use vitr_os.Sched.Scheduler.{Sched, Switch, enqueue_task, schedule}

-- The critical section of `block_current_task`: a wake-up that has come already is consumed.
-- Otherwise the current task is marked as blocked. The result says whether to call `schedule`.
unfoldable pub prepare_block : Sched → Sched × Bool
prepare_block k = elim k.current [
  | none ↦ (k, false)
  | some t ↦
      if contains_key t.id k.wakeup_pending
      then (record k { wakeup_pending = delete t.id k.wakeup_pending }, false)
      else (record k { current = some (set_state TaskState.blocked t) }, true)
]

unfoldable pub block_current_task : Sched → Sched × Option Switch
block_current_task k =
    let (k', should_block) = prepare_block k in if should_block then schedule k' else (k', none)

-- A task that is not among the blocked ones, or does not exist, gets a wake-up to be consumed later.
unfoldable pub unblock_task : ℕ → Sched → Sched
unblock_task id k = elim (get id k.blocked_tasks) [
  | some t ↦
      enqueue_task (set_state TaskState.ready t)
        (record k { blocked_tasks = delete id k.blocked_tasks })
  | none ↦ record k { wakeup_pending = insert id tt k.wakeup_pending }
]
