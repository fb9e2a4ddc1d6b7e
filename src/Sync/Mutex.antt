-- ===== src/Sync/Mutex.antt =====
-- `kernel/src/sync/blocking_mutex.rs`: mutual exclusion, and the wait of a task that did not get the
-- lock.
use mathlib.Core.Path.{subst}
use vitr_os.Base.{
  ℕ, suc, ◌≤◌, ◌≡◌, refl, ap, ◌∙◌, sym, Bool, true, false, some, List, [], ◌∷◌, Bool-cases, inl,
  inr, arith,
}
use vitr_os.Collections.Order.{nat_order}
use vitr_os.Collections.TreeMap.{contains_key}
use vitr_os.Sched.Task.{Task, TaskState, set_state}
use vitr_os.Sched.Scheduler.{Sched, current_task_id, schedule}
use vitr_os.Sched.Blocking.{prepare_block, block_current_task}
use vitr_os.Sched.Invariant.{count_blocked, IsWellFormed}
use vitr_os.Sched.Invariant.Switch.Priority.{HasReady, schedule-switches}
use vitr_os.Sched.Invariant.Switch.Terminated.{schedule-parks}
use vitr_os.Sched.Invariant.Wakeup.{prepare_block-IsWellFormed}
use vitr_os.Sync.{Shared, try_lock, unlock, wake_first, wake_one, enqueue_waiter, wait}

-- A guard is counted from the exchange that returns it to its drop. Any number of tasks takes
-- these steps in any order; `others` is all that happens elsewhere to the scheduler.
pub data Step : Shared × ℕ → Shared × ℕ → Type 0 where
  take : (s : Shared) (n : ℕ) → (try_lock s).1 ≡ true → Step (s, n) ((try_lock s).0, suc n)
  lose : (s : Shared) (n : ℕ) → (try_lock s).1 ≡ false → Step (s, n) ((try_lock s).0, n)
  sleep : (s : Shared) (n : ℕ) → Step (s, n) ((wait s).0, n)
  release : (s : Shared) (n : ℕ) → Step (s, suc n) (unlock s, n)
  others : (s : Shared) (n : ℕ) (k : Sched) → Step (s, n) (record s { sched = k }, n)

pub data Reach (c : Shared × ℕ) : Shared × ℕ → Type 0 where
  here : Reach c c
  next : {d e : Shared × ℕ} → Reach c d → Step d e → Reach c e

-- The number of guards that the lock flag stands for.
abbrev pub held : Bool → ℕ
held true = 1
held false = 0

abbrev pub Consistent : Shared × ℕ → Type 0
Consistent (s, n) = n ≡ held s.locked

wait-locked : (s : Shared) → (wait s).0.locked ≡ s.locked
unfolding wait enqueue_waiter
wait-locked s = refl

unlock-locked : (s : Shared) → (unlock s).locked ≡ false
unfolding unlock wake_one
unlock-locked s = first s.waiters
  where
    first : (l : List ℕ) → (wake_first l (record s { locked = false })).0.locked ≡ false
    first [] = refl
    first (i ∷ r) = refl

Step-Consistent : {c d : Shared × ℕ} → Step c d → Consistent c → Consistent d
unfolding try_lock
Step-Consistent (take s n e) h = ground arith
Step-Consistent (lose s n e) h = ground arith
Step-Consistent (sleep s n) h = h ∙ ap held (sym (wait-locked s))
Step-Consistent (release s n) h = elim (Bool-cases s.locked) [
  | inl e ↦ omega (arith, ap held (unlock-locked s), h, ap held e)
  | inr e ↦ absurd (omega (arith, h, ap held e))
]
Step-Consistent (others s n k) h = h

-- Mutual exclusion: from an unlocked mutex without guards, whatever the tasks do and in whatever
-- order, there is never more than one guard, and there is one exactly while the lock flag is set.
pub mutual_exclusion : {c d : Shared × ℕ} → Consistent c → Reach c d → (d.1 ≤ 1) × Consistent d
mutual_exclusion {c} h here = (ground (arith, h), h)
mutual_exclusion h (next r s) =
    let q = Step-Consistent s (mutual_exclusion h r).1 in (ground (arith, q), q)

block-parks :
    (t : Task) (k : Sched)
    → IsWellFormed k
    → k.current ≡ some t
    → contains_key t.id k.wakeup_pending ≡ false
    → HasReady k
    → count_blocked t.id (block_current_task k).0 ≡ 1
unfolding block_current_task prepare_block
block-parks t k v c n r =
    let k' : Sched = record k { current = some (set_state TaskState.blocked t) } in
    let p : prepare_block k ≡ (k', true) = ground arith in
    let b : block_current_task k ≡ schedule k' = ground (arith, p) in
    let v' : IsWellFormed k' = subst (λ r. IsWellFormed r.0) p (prepare_block-IsWellFormed k v) in
    let (s, e) = schedule-switches k' v' r in
    let q : count_blocked t.id (schedule k').0 ≡ 1 =
      schedule-parks (set_state TaskState.blocked t) k' v' refl refl n e in
    ap (λ r. count_blocked t.id r.0) b ∙ q

unlock_empty : (s : Shared) → s.waiters ≡ [] → unlock s ≡ record s { locked = false }
unfolding unlock wake_one wake_first
unlock_empty s e = ground (arith, e)

-- The window between a failed attempt to lock and the entry into the wait queue. The attempt on a
-- mutex that is held and that nobody waits for fails and changes nothing. If the holder drops its
-- guard in this window, the mutex is free, and nobody is woken: the scheduler is as before. The
-- task that then goes on with `wait`, in whichever scheduler state `k` it runs again, is blocked
-- although the mutex is free and it alone waits for it. This holds if no wake-up is pending for
-- the task and another one is ready to run.
pub unlock-wait :
    (s : Shared) (t : Task) (k : Sched)
    → s.locked ≡ true
    → s.waiters ≡ []
    → IsWellFormed k
    → k.current ≡ some t
    → contains_key t.id k.wakeup_pending ≡ false
    → HasReady k
    → (try_lock s ≡ (s, false))
      × (unlock s ≡ record s { locked = false })
      × ((wait (record (unlock s) { sched = k })).0.locked ≡ false)
      × ((wait (record (unlock s) { sched = k })).0.waiters ≡ t.id ∷ [])
      × (count_blocked t.id (wait (record (unlock s) { sched = k })).0.sched ≡ 1)
unfolding wait enqueue_waiter current_task_id try_lock
unlock-wait s t k l e v c n r = (
  rw l refl,
  unlock_empty s e,
  unlock-locked s,
  ground (arith, unlock_empty s e),
  block-parks t k v c n r,
)
