-- ===== src/Sched/Invariant/Switch/Retire.antt =====
-- Phase 3 of `schedule`: the task that leaves the processor goes to its place.
use vitr_os.Base.{
  ℕ, ◌+◌, ◌≡◌, ◌≢◌, refl, sym, ap, ◌∙◌, true, false, false≢true, List, [], ◌∷◌, All, sum_by,
  Bool-cases, inl, inr, arith,
}
use vitr_os.Collections.Order.{nat_order, pair_order}
use vitr_os.Collections.TreeMap.{same, insert, delete, contains_key}
use vitr_os.Collections.TreeMap.Laws.{
  same→eq, All-insert, insert-IsSorted, delete-IsSorted, contains_key-insert, contains_key-delete,
  sum_by-insert,
}
use vitr_os.Sched.Task.{Task, TaskState, set_state, update_vruntime}
use vitr_os.Sched.Scheduler.{Sched, charge, leaving, enqueue_task, park, retire_as, retire}
use vitr_os.Sched.Invariant.{one, count_blocked, count, IsTask, Parked, IsWellFormed}
use vitr_os.Sched.Invariant.Enqueue.{
  enqueue_task-Enqueued, enqueue_task-IsWellFormed, blocked_absent, count-le-one, count-Enqueued,
}

-- Only the run time and the state of the task change.
pub leaving-id : (a : ℕ) (t : Task) → (leaving a t).id ≡ t.id
unfolding leaving charge update_vruntime
leaving-id a t = ground arith

pub leaving-IsTask : (a : ℕ) (t : Task) → IsTask t → IsTask (leaving a t)
unfolding leaving charge update_vruntime
leaving-IsTask a t h = ground arith

pub leaving-state : (a : ℕ) (t : Task) → (leaving a t).state ≢ TaskState.running
unfolding leaving
leaving-state a t h = ground arith

-- A task with a wake-up pending is not among the blocked ones.
count_of_absent :
    (i : ℕ) (m : List (ℕ × Task))
    → All Parked m
    → contains_key i m ≡ false
    → sum_by (λ e. one i e.1) m ≡ 0
unfolding contains_key
count_of_absent i [] a h = refl
count_of_absent i ((j, t) ∷ m) a h = ground (arith, count_of_absent i m a.1, a.0.0)

pub pending-count_blocked :
    (k : Sched)
    → IsWellFormed k
    → (i : ℕ) → contains_key i k.wakeup_pending ≡ true
    → count_blocked i k ≡ 0
pending-count_blocked k v i w =
    count_of_absent i k.blocked_tasks v.parked (ground (arith, v.awake i))

pub one_ne : (i : ℕ) (t : Task) → t.id ≢ i → one i t ≡ 0
one_ne i t n = ground arith

-- A task is parked among the blocked ones if no wake-up is pending for it.
park-IsWellFormed :
    (t : Task) (k : Sched)
    → IsWellFormed k
    → t.state ≡ TaskState.blocked
    → IsTask t
    → count t.id k ≡ 0
    → contains_key t.id k.wakeup_pending ≡ false
    → IsWellFormed (record k { blocked_tasks = insert t.id t k.blocked_tasks })
park-IsWellFormed t k v b p h w = record {
  rt_sorted = v.rt_sorted;
  cfs_sorted = v.cfs_sorted;
  blocked_sorted = insert-IsSorted t.id t k.blocked_tasks v.blocked_sorted;
  pending_sorted = v.pending_sorted;
  rt_queued = v.rt_queued;
  cfs_queued = v.cfs_queued;
  idle_queued = v.idle_queued;
  parked = All-insert Parked t.id t k.blocked_tasks (refl, b, p) v.parked;
  current_ok = v.current_ok;
  unique = λ i. omega (
    arith,
    count-le-one t k i v.unique h,
    sum_by-insert (one i) t.id t k.blocked_tasks (blocked_absent t k v h),
  );
  awake = λ i. rw (contains_key-insert i t.id t k.blocked_tasks) (elim (Bool-cases (same i t.id)) [
    | inl e ↦ rw (same→eq i t.id e) (rw w)
    | inr e ↦ rw e (v.awake i)
  ]);
}

-- A pending wake-up can be consumed.
pub consume-IsWellFormed :
    (i : ℕ) (k : Sched)
    → IsWellFormed k
    → IsWellFormed (record k { wakeup_pending = delete i k.wakeup_pending })
consume-IsWellFormed j k v = record {
  rt_sorted = v.rt_sorted;
  cfs_sorted = v.cfs_sorted;
  blocked_sorted = v.blocked_sorted;
  pending_sorted = delete-IsSorted j k.wakeup_pending v.pending_sorted;
  rt_queued = v.rt_queued;
  cfs_queued = v.cfs_queued;
  idle_queued = v.idle_queued;
  parked = v.parked;
  current_ok = v.current_ok;
  unique = v.unique;
  awake = λ i.
      rw (contains_key-delete i j k.wakeup_pending v.pending_sorted) (ground (arith, v.awake i));
}

-- A terminated task is counted no more, any other is counted where it goes.
abbrev pub kept : TaskState → ℕ → ℕ
kept TaskState.terminated n = 0
kept TaskState.running n = n
kept TaskState.ready n = n
kept TaskState.blocked n = n

pub record Retired (s : TaskState) (t : Task) (k k' : Sched) : Type 0 where
  pub well_formed : IsWellFormed k'
  pub counted : (i : ℕ) → count i k' ≡ kept s (one i t) + count i k
  pub current : k'.current ≡ k.current
  pub awaited : (i : ℕ) → contains_key i k.wakeup_pending ≡ true → count_blocked i k' ≡ 0

requeue-Retired :
    (s : TaskState) (t : Task) (k : Sched)
    → IsWellFormed k
    → t.state ≡ TaskState.ready
    → IsTask t
    → count t.id k ≡ 0
    → ((n : ℕ) → kept s n ≡ n)
    → Retired s t k (enqueue_task t k)
requeue-Retired s t k v r p h q = record {
  well_formed = enqueue_task-IsWellFormed t k v r p h;
  counted = λ i.
      rw (q (one i t)) (count-Enqueued t k (enqueue_task t k) (enqueue_task-Enqueued t k v h) i);
  current = (enqueue_task-Enqueued t k v h).current;
  awaited = λ i w.
      ap (sum_by (λ (e : ℕ × Task). one i e.1)) (enqueue_task-Enqueued t k v h).blocked
      ∙ pending-count_blocked k v i w;
}

park-Retired :
    (t : Task) (k : Sched)
    → IsWellFormed k
    → t.state ≡ TaskState.blocked
    → IsTask t
    → count t.id k ≡ 0
    → Retired TaskState.blocked t k (park t k)
unfolding park
park-Retired t k v b p h = elim (Bool-cases (contains_key t.id k.wakeup_pending)) [
  | inl w ↦
      let k' : Sched = record k { wakeup_pending = delete t.id k.wakeup_pending } in
      let v' = consume-IsWellFormed t.id k v in
      let r =
        requeue-Retired TaskState.blocked (set_state TaskState.ready t) k' v' refl p h
          (λ n. refl) in
      rw w (record {
        well_formed = r.well_formed;
        counted = r.counted;
        current = r.current;
        awaited = λ i q.
            ap (sum_by (λ (e : ℕ × Task). one i e.1))
              (enqueue_task-Enqueued (set_state TaskState.ready t) k' v' h).blocked
            ∙ pending-count_blocked k v i q;
      })
  | inr w ↦ rw w (record {
    well_formed = park-IsWellFormed t k v b p h w;
    counted =
        λ i. omega (arith, sum_by-insert (one i) t.id t k.blocked_tasks (blocked_absent t k v h));
    current = refl;
    awaited = λ i q.
        let n : t.id ≢ i =
          λ e. false≢true (sym w ∙ ap (λ (j : ℕ). contains_key j k.wakeup_pending) e ∙ q) in
        omega (
          arith,
          pending-count_blocked k v i q,
          sum_by-insert (one i) t.id t k.blocked_tasks (blocked_absent t k v h),
          one_ne i t n,
        );
  })
]

retire_as-Retired :
    (s : TaskState) (t : Task) (k : Sched)
    → IsWellFormed k
    → t.state ≡ s
    → s ≢ TaskState.running
    → IsTask t
    → count t.id k ≡ 0
    → Retired s t k (retire_as s t k)
unfolding retire_as
retire_as-Retired TaskState.terminated t k v e n p h = record {
  well_formed = v;
  counted = λ i. omega arith;
  current = refl;
  awaited = pending-count_blocked k v;
}
retire_as-Retired TaskState.blocked t k v e n p h = park-Retired t k v e p h
retire_as-Retired TaskState.ready t k v e n p h =
    requeue-Retired TaskState.ready t k v e p h (λ m. refl)
retire_as-Retired TaskState.running t k v e n p h = absurd (n refl)

pub retire-Retired :
    (t : Task) (k : Sched)
    → IsWellFormed k
    → t.state ≢ TaskState.running
    → IsTask t
    → count t.id k ≡ 0
    → Retired t.state t k (retire t k)
unfolding retire
retire-Retired t k v n p h = retire_as-Retired t.state t k v refl n p h
