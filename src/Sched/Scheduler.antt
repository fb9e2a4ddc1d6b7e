-- ===== src/Sched/Scheduler.antt =====
-- `kernel/src/sched/scheduler.rs`: the ready queues, the selection of the next task, and `schedule`.
-- The statics of the module are the fields of one record. A spin lock is held within one operation
-- only, with interrupts disabled, so each operation is one atomic step and locks need no state.
use vitr_os.Base.{
  ℕ, ◌+◌, ◌-◌, ◌%◌, ◌^◌, Bool, true, false, Option, none, some, List, [], ◌∷◌, ◌++◌, ltb,
  if◌then◌else◌,
}
use vitr_os.Collections.Order.{nat_order, pair_order}
use vitr_os.Collections.TreeMap.{insert, contains_key, delete, pop_first}
use vitr_os.Sched.Task.{
  Task, SchedulingClass, TaskState, set_state, update_vruntime, rt_priority_max, fresh_id,
}

pub record Sched : Type 0 where
  pub rt_queue : List ((ℕ × ℕ) × Task)
  pub cfs_queue : List ((ℕ × ℕ) × Task)
  pub idle_queue : List Task
  pub current : Option Task
  -- Of `blocking.rs`.
  pub blocked_tasks : List (ℕ × Task)
  pub wakeup_pending : List (ℕ × Unit {0})
  pub need_resched : Bool
  pub accumulated_runtime : ℕ
  -- The interrupt flag.
  pub interrupts : Bool

-- The keys of the two maps. `u8` subtraction would wrap above 99.
abbrev pub rt_key : Task → ℕ × ℕ
rt_key t = ((rt_priority_max + 2 ^ 8 - t.rt_priority) % 2 ^ 8, t.id)

abbrev pub cfs_key : Task → ℕ × ℕ
cfs_key t = (t.vruntime, t.id)

unfoldable pub enqueue_as : SchedulingClass → Task → Sched → Sched
enqueue_as SchedulingClass.realtime t k = record k { rt_queue = insert (rt_key t) t k.rt_queue }
enqueue_as SchedulingClass.normal t k = record k { cfs_queue = insert (cfs_key t) t k.cfs_queue }
enqueue_as SchedulingClass.idle t k = record k { idle_queue = k.idle_queue ++ (t ∷ []) }

-- `enqueue_task_impl`, which `enqueue_task_single` and `enqueue_to_appropriate_queue` call, and
-- which `try_add_task` and `add_task` repeat for a new task.
unfoldable pub enqueue_task : Task → Sched → Sched
unfolding enqueue_as
enqueue_task t k = enqueue_as t.sched_class t k

-- `set_current_task`. A task that was current before is dropped.
unfoldable pub set_current_task : Task → Sched → Sched
set_current_task t k = record k { current = some t }

-- `update_current_task_vruntime`: an atomic addition, which wraps.
unfoldable pub update_current_task_vruntime : ℕ → Sched → Sched
update_current_task_vruntime delta k = record k {
  accumulated_runtime = (k.accumulated_runtime + delta) % 2 ^ 64;
}

unfoldable pub set_need_resched : Sched → Sched
set_need_resched k = record k { need_resched = true }

-- `current_task_id`: the id, and the counter of ids, which moves only if no task is current.
unfoldable pub current_task_id : ℕ → Sched → ℕ × ℕ
current_task_id next_id k = elim k.current [ none ↦ fresh_id next_id | some t ↦ (t.id, next_id) ]

pop_front : List Task → Option (Task × List Task)
pop_front [] = none
pop_front (t ∷ r) = some (t, r)

-- Phase 1 of `schedule`: the first entry of the first queue that is not empty.
unfoldable pub pick_next : Sched → Option (Task × Sched)
unfolding pop_front
pick_next k = elim (pop_first k.rt_queue) [
  | some (_, t, rest) ↦ some (t, record k { rt_queue = rest })
  | none ↦ elim (pop_first k.cfs_queue) [
    | some (_, t, rest) ↦ some (t, record k { cfs_queue = rest })
    | none ↦ elim (pop_front k.idle_queue) [
      | some (t, rest) ↦ some (t, record k { idle_queue = rest })
      | none ↦ none
    ]
  ]
]

is_normal : SchedulingClass → Bool
is_normal SchedulingClass.normal = true
is_normal _ = false

abbrev charged_time : ℕ → ℕ
charged_time accumulated = if ltb 0 accumulated then accumulated else 1

-- The run time of the task that leaves the processor; at least 1 is charged.
unfoldable pub charge : ℕ → Task → Task
unfolding is_normal
charge accumulated t =
    if is_normal t.sched_class then update_vruntime (charged_time accumulated) t else t

unfoldable pub preempted : TaskState → TaskState
preempted TaskState.running = TaskState.ready
preempted s = s

-- The task that leaves the processor, charged, and ready if it was running.
unfoldable pub leaving : ℕ → Task → Task
unfolding preempted
leaving accumulated t = let t' = charge accumulated t in set_state (preempted t'.state) t'

-- A blocked task whose wake-up has come already becomes ready at once.
unfoldable pub park : Task → Sched → Sched
park t k =
    if contains_key t.id k.wakeup_pending
    then enqueue_task (set_state TaskState.ready t)
        (record k { wakeup_pending = delete t.id k.wakeup_pending })
    else record k { blocked_tasks = insert t.id t k.blocked_tasks }

-- Phase 3: a terminated task is dropped.
unfoldable pub retire_as : TaskState → Task → Sched → Sched
retire_as TaskState.terminated t k = k
retire_as TaskState.blocked t k = park t k
retire_as _ t k = enqueue_task t k

unfoldable pub retire : Task → Sched → Sched
unfolding retire_as park
retire t k = retire_as t.state t k

-- The two arguments of `switch_context`: whose context is saved (`none` is the dummy context of the
-- first switch), and whose is restored.
pub record Switch : Type 0 where
  pub old : Option ℕ
  pub new : ℕ

-- Phases 2 and 3 and the switch, by the task that is taken from `CURRENT_TASK`. After the switch the
-- frame of the new task enables interrupts.
unfoldable pub switch_from : Option Task → Task → Sched → Sched × Switch
switch_from none next k =
    (record k { current = some next; interrupts = true }, record { old = none; new = next.id })
switch_from (some t) next k = (
  retire (leaving k.accumulated_runtime t)
      (record k { current = some next; accumulated_runtime = 0; interrupts = true }),
  record { old = some t.id; new = next.id },
)

-- With no task in any queue `schedule` returns at once, and enables interrupts.
unfoldable pub run_picked : Sched → Option (Task × Sched) → Sched × Option Switch
run_picked k none = (record k { interrupts = true }, none)
run_picked k (some (t, k')) =
    let (k'', s) = switch_from k'.current (set_state TaskState.running t) k' in (k'', some s)

-- `schedule`, which is also `yield_now`.
unfoldable pub schedule : Sched → Sched × Option Switch
unfolding run_picked
schedule k = let k' = record k { interrupts = false } in run_picked k' (pick_next k')
