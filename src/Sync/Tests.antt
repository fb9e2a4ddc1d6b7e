-- ===== src/Sync/Tests.antt =====
-- The theorems about wait queues and the mutex at concrete inputs, and tests.
use vitr_os.Base.{◌≤◌, ◌≡◌, arith, refl, true, false, [], ◌∷◌, All}
use vitr_os.Collections.TreeMap.{insert, pop_first, contains_key}
use vitr_os.Sched.Scheduler.{enqueue_task, set_current_task, pick_next, switch_from, schedule}
use vitr_os.Sched.Blocking.{block_current_task, prepare_block}
use vitr_os.Sched.Invariant.{count_blocked}
use vitr_os.Sched.Invariant.Wakeup.Steps.{boot}
use vitr_os.Sched.Tests.{
  main_task, busy, asleep, busy-IsWellFormed, asleep-IsWellFormed, asleep-counts,
}
use vitr_os.Sched.Invariant.Wakeup.Delivery.{IsAwake}
use vitr_os.Sync.{Shared, try_lock, unlock, wait, enqueue_waiter, wake_one, wake_all}
use vitr_os.Sync.WaitQueue.{wake_all-wakes}
use vitr_os.Sync.Mutex.{Reach, here, next, take, release, Consistent, mutual_exclusion, unlock-wait}

abbrev free_mutex : Shared
free_mutex = record { locked = false; waiters = []; sched = busy; next_id = 9 }

abbrev contended : Shared
contended = record { locked = true; waiters = 0 ∷ 2 ∷ []; sched = asleep; next_id = 9 }

wake_all-wakes_example :
    ((wake_all contended).waiters ≡ [])
    × ((wake_all contended).locked ≡ true)
    × All (λ i. IsAwake i (wake_all contended).sched) (0 ∷ 2 ∷ [])
wake_all-wakes_example =
    wake_all-wakes contended asleep-IsWellFormed (asleep-counts.2, (asleep-counts.3, tt))

abbrev taken : Shared
taken = (try_lock free_mutex).0

-- A guard is taken, dropped, and taken again.
guarded : Reach (free_mutex, 0) ((try_lock (unlock taken)).0, 1)
unfolding try_lock unlock wake_one
guarded =
    next (next (next here (take free_mutex 0 refl)) (release taken 0)) (take (unlock taken) 0 refl)

mutual_exclusion_example : (◌≤◌ 1 1) × Consistent ((try_lock (unlock taken)).0, 1)
mutual_exclusion_example =
    mutual_exclusion {c = (free_mutex, 0)} {d = ((try_lock (unlock taken)).0, 1)} refl guarded

-- The holder drops its guard before the main task has entered the wait queue.
unlock-wait_example :
    (try_lock taken ≡ (taken, false))
    × (unlock taken ≡ record taken { locked = false })
    × ((wait (record (unlock taken) { sched = busy })).0.locked ≡ false)
    × ((wait (record (unlock taken) { sched = busy })).0.waiters ≡ 0 ∷ [])
    × (count_blocked 0 (wait (record (unlock taken) { sched = busy })).0.sched ≡ 1)
unfolding busy enqueue_task set_current_task boot insert wait enqueue_waiter block_current_task
    prepare_block schedule pick_next switch_from pop_first contains_key try_lock unlock wake_one
unlock-wait_example =
    unlock-wait taken main_task busy refl refl busy-IsWellFormed refl refl (omega arith)
