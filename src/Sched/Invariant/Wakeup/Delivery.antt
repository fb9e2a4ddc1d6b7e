-- ===== src/Sched/Invariant/Wakeup/Delivery.antt =====
-- Wake-ups are delivered.
use vitr_os.Base.{
  ℕ, ◌+◌, ◌≤◌, ◌≡◌, refl, ap, ◌∙◌, ◌⊎◌, true, false, none, some, ◌==◌, ==_iff, Bool-cases, inl, inr,
  arith,
}
use vitr_os.Collections.Order.{nat_order}
use vitr_os.Collections.TreeMap.{insert, contains_key}
use vitr_os.Collections.TreeMap.Laws.{
  same_refl, contains_key-insert, contains_key-delete, insert-IsSorted, sum_by-delete,
}
use vitr_os.Sched.Task.{Task, TaskState, set_state}
use vitr_os.Sched.Scheduler.{Sched, schedule}
use vitr_os.Sched.Blocking.{prepare_block, block_current_task, unblock_task}
use vitr_os.Sched.Invariant.{one, count_ready, count_current, count_blocked, count, IsWellFormed}
use vitr_os.Sched.Invariant.Switch.Retire.{pending-count_blocked}
use vitr_os.Sched.Invariant.Switch.Whole.{NotTerminated, schedule-awaited, count-schedule}
use vitr_os.Sched.Invariant.Wakeup.{
  woken, noted, unblock_task-Unblocked, unblock_task-IsWellFormed, count-unblock_task,
  noted-IsWellFormed, prepare_block-IsWellFormed,
}

-- The task is ready or current, once, and not blocked.
abbrev pub IsAwake : ℕ → Sched → Type 0
IsAwake i k = (count_blocked i k ≡ 0) × (count_ready i k + count_current i k.current ≡ 1)

noted-pending : (i : ℕ) (k : Sched) → contains_key i (insert i tt k.wakeup_pending) ≡ true
noted-pending i k = contains_key-insert i i tt k.wakeup_pending ∙ ground (arith, same_refl i)

one_of_eq : (i : ℕ) (u : Task) → u.id ≡ i → one i u ≡ 1
one_of_eq i u s = ground arith

-- `unblock_task` reaches every task that the scheduler knows: afterwards the task is in a ready
-- queue, or it is the current task and its wake-up is recorded. It is not blocked in either case.
pub unblock_task-delivers :
    (i : ℕ) (k : Sched)
    → IsWellFormed k
    → count i k ≡ 1
    → (count_blocked i (unblock_task i k) ≡ 0)
      × ((count_ready i (unblock_task i k) ≡ 1)
          ⊎ (count_current i k.current ≡ 1)
            × (contains_key i (unblock_task i k).wakeup_pending ≡ true))
unblock_task-delivers i k v h = elim (unblock_task-Unblocked i k v) [
  | woken t t_id e w r c b n ↦
      let o : one i t ≡ 1 = one_of_eq i t t_id in
      let q : count_blocked i (unblock_task i k) ≡ 0 =
        omega (arith, n i, r i, w.unique i, ap (count_current i) c) in
      (q, inl (omega (arith, n i, r i, h, o, w.unique i)))
  | noted e s ↦
      let z : count_blocked i k ≡ 0 =
        pending-count_blocked (record k { wakeup_pending = insert i tt k.wakeup_pending })
          (noted-IsWellFormed i k v e) i (noted-pending i k) in
      rw s (elim (Bool-cases (count_ready i k == 1)) [
        | inl q ↦ (z, inl ((==_iff (count_ready i k) 1).0 q))
        | inr q ↦ (z, inr (ground arith, noted-pending i k))
      ])
]

current_counted : (t : Task) (k : Sched) → k.current ≡ some t → count_current t.id k.current ≡ 1
current_counted t k e = rw e (ground arith)

-- A wake-up that comes before the task blocks is not lost: after `unblock_task` of the current task
-- `block_current_task` consumes the wake-up and returns without a switch, with the task unchanged.
pub unblock-block :
    (t : Task) (k : Sched)
    → IsWellFormed k
    → k.current ≡ some t
    → ((block_current_task (unblock_task t.id k)).1 ≡ none)
      × ((block_current_task (unblock_task t.id k)).0.current ≡ some t)
      × (contains_key t.id (block_current_task (unblock_task t.id k)).0.wakeup_pending ≡ false)
      × (count_ready t.id (block_current_task (unblock_task t.id k)).0 ≡ count_ready t.id k)
unfolding block_current_task prepare_block
unblock-block t k v c = elim (unblock_task-Unblocked t.id k v) [
  | woken u s e w r _ b n ↦ absurd (
      omega (
        arith,
        current_counted t k c,
        v.unique t.id,
        sum_by-delete (one t.id) t.id u k.blocked_tasks e,
        one_of_eq t.id u s,
      ))
  | noted e s ↦
      rw (s, c, noted-pending t.id k)
        (
          refl,
          refl,
          contains_key-delete t.id t.id (insert t.id tt k.wakeup_pending)
                (insert-IsSorted t.id tt k.wakeup_pending v.pending_sorted)
              ∙ ground (arith, same_refl t.id),
          refl,
        )
]

-- The current task is not among the blocked ones, so `unblock_task` records a wake-up for it.
unblock-current :
    (t : Task) (k : Sched)
    → IsWellFormed k
    → k.current ≡ some t
    → (contains_key t.id (unblock_task t.id k).wakeup_pending ≡ true)
      × ((unblock_task t.id k).current ≡ some t)
      × (count t.id (unblock_task t.id k) ≡ 1)
unblock-current t k v c =
    let n : count t.id k ≡ 1 = omega (arith, current_counted t k c, v.unique t.id) in
    let o : count t.id (unblock_task t.id k) ≡ 1 = count-unblock_task t.id t.id k v ∙ n in
    elim (unblock_task-Unblocked t.id k v) [
      | woken u s e w r _ b _ ↦ absurd (
          omega (
            arith,
            current_counted t k c,
            v.unique t.id,
            sum_by-delete (one t.id) t.id u k.blocked_tasks e,
            one_of_eq t.id u s,
          ))
      | noted e s ↦ (
        ap (λ (x : Sched). contains_key t.id x.wakeup_pending) s ∙ noted-pending t.id k,
        ap (λ (x : Sched). x.current) s ∙ c,
        o,
      )
    ]

prepare_block-current :
    (t : Task) (k : Sched)
    → k.current ≡ some t
    → (prepare_block k).1 ≡ true
    → (prepare_block k).0.current ≡ some (set_state TaskState.blocked t)
unfolding prepare_block
prepare_block-current t k c b = ground arith

-- A wake-up that comes between the critical section of `block_current_task` and its call of
-- `schedule` is not lost: `schedule` leaves the task ready or current, and not blocked.
pub prepare-unblock-schedule :
    (t : Task) (k : Sched)
    → IsWellFormed k
    → k.current ≡ some t
    → (prepare_block k).1 ≡ true
    → (count_blocked t.id (schedule (unblock_task t.id (prepare_block k).0)).0 ≡ 0)
      × (count_ready t.id (schedule (unblock_task t.id (prepare_block k).0)).0
            + count_current t.id (schedule (unblock_task t.id (prepare_block k).0)).0.current
          ≡ 1)
prepare-unblock-schedule t k v c b =
    let k1 = (prepare_block k).0 in
    let v1 : IsWellFormed k1 = prepare_block-IsWellFormed k v in
    let (w, c2, n) =
      unblock-current (set_state TaskState.blocked t) k1 v1 (prepare_block-current t k c b) in
    let v2 : IsWellFormed (unblock_task t.id k1) = unblock_task-IsWellFormed t.id k1 v1 in
    let z : count_blocked t.id (schedule (unblock_task t.id k1)).0 ≡ 0 =
      schedule-awaited (unblock_task t.id k1) t.id v2 w in
    let q : NotTerminated (unblock_task t.id k1).current = rw c2 (λ e. cc) in
    (z, omega (arith, z, n, count-schedule (unblock_task t.id k1) t.id v2 q))

-- `unblock_task` blocks nobody.
pub count_blocked-unblock_task :
    (i j : ℕ) (k : Sched) → IsWellFormed k → count_blocked j (unblock_task i k) ≤ count_blocked j k
count_blocked-unblock_task i j k v = elim (unblock_task-Unblocked i k v) [
  | woken t s e w r c b n ↦ omega (arith, n j, r j, ap (count_current j) c)
  | noted e s ↦ rw s (omega arith)
]
