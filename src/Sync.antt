-- ===== src/Sync.antt =====
-- `kernel/src/sync`: wait queues and the blocking mutex on top of the scheduler. The value that a
-- mutex guards is not modelled: the mutex never looks at it.
pub mod WaitQueue
pub mod Mutex
mod Tests
use vitr_os.Base.{
  ℕ, ◌≡◌, Bool, true, false, not, Option, none, some, List, [], ◌∷◌, ◌++◌, if◌then◌else◌,
}
use vitr_os.Sched.Scheduler.{Sched, Switch, current_task_id}
use vitr_os.Sched.Blocking.{block_current_task, unblock_task}

-- A mutex with its wait queue, and the scheduler.
pub record Shared : Type 0 where
  pub locked : Bool
  pub waiters : List ℕ
  pub sched : Sched
  pub next_id : ℕ

-- `WaitQueue::wait` up to the release of its spin lock.
unfoldable pub enqueue_waiter : Shared → Shared
enqueue_waiter s =
    let (id, next) = current_task_id s.next_id s.sched in
    record s { waiters = s.waiters ++ (id ∷ []); next_id = next }

abbrev pub block : Shared → Shared × Option Switch
block s = let (k, w) = block_current_task s.sched in (record s { sched = k }, w)

unfoldable pub wait : Shared → Shared × Option Switch
wait s = block (enqueue_waiter s)

wake_first : List ℕ → Shared → Shared × Bool
wake_first [] s = (s, false)
wake_first (id ∷ rest) s = (record s { waiters = rest; sched = unblock_task id s.sched }, true)

unfoldable pub wake_one : Shared → Shared × Bool
unfolding wake_first
wake_one s = wake_first s.waiters s

-- The loop of `wake_all`, by the queue that is left.
unfoldable pub wake_each : List ℕ → Shared → Shared
wake_each [] s = s
wake_each (id ∷ rest) s =
    wake_each rest (record s { waiters = rest; sched = unblock_task id s.sched })

unfoldable pub wake_all : Shared → Shared
wake_all s = wake_each s.waiters s

-- The compare-exchange of `try_lock` and `lock`: the Boolean says whether a guard is returned.
unfoldable pub try_lock : Shared → Shared × Bool
try_lock s = if s.locked then (s, false) else (record s { locked = true }, true)

-- The drop of a guard.
unfoldable pub unlock : Shared → Shared
unlock s = (wake_one (record s { locked = false })).0

-- `is_interrupt_context`: interrupts are disabled.
abbrev pub is_interrupt_context : Sched → Bool
is_interrupt_context k = not k.interrupts

pub data Attempt : Type 0 where
  acquired : Attempt
  spinning : Attempt
  waited : Option Switch → Attempt

-- One round of the loop of `lock`. A spinning task polls the lock, and tries again once it is free.
unfoldable pub lock_round : Shared → Shared × Attempt
lock_round s =
    let (s', done) = try_lock s in
    if done
    then (s', acquired)
    else if is_interrupt_context s.sched
    then (s, spinning)
    else let (s'', w) = wait s in (s'', waited w)
