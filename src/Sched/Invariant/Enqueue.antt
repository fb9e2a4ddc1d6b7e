-- ===== src/Sched/Invariant/Enqueue.antt =====
-- A task enters a ready queue.
use vitr_os.Base.{
  ℕ, ◌+◌, ◌≤◌, ◌≡◌, refl, ap, ◌∙◌, false, List, [], ◌∷◌, All, All-mono, All-append, sum_by,
  sum_by-append, ◌==◌, ==_iff, Bool-cases, inl, inr, arith,
}
use vitr_os.Collections.Order.{Order, nat_order, pair_order}
use vitr_os.Collections.TreeMap.{same, contains_key}
use vitr_os.Collections.TreeMap.Laws.{same→eq, All-insert, insert-IsSorted, sum_by-insert}
use vitr_os.Sched.Task.{Task, SchedulingClass, TaskState}
use vitr_os.Sched.Scheduler.{Sched, rt_key, cfs_key, enqueue_as, enqueue_task}
use vitr_os.Sched.Invariant.{
  one, count_ready, count_current, count, IsTask, Queued, QueuedIdle, IsWellFormed,
}

-- A map whose keys show the ids holds no key of a task that it does not hold.
module _ {ℓ} {K : Type ℓ} ⦃o : Order K⦄ (key : Task → K) (t : Task) where
  pub absent_of_count :
      ((u : Task) → key t ≡ key u → t.id ≡ u.id)
      → (m : List (K × Task)) → All (λ e. e.0 ≡ key e.1) m
      → sum_by (λ e. one t.id e.1) m ≡ 0
      → contains_key (key t) m ≡ false
  unfolding contains_key
  absent_of_count inj [] a h = refl
  absent_of_count inj ((j, u) ∷ m) a h = elim (Bool-cases (same (key t) j)) [
    | inl e ↦ absurd (ground (arith, inj u (same→eq (key t) j e ∙ a.0)))
    | inr e ↦ rw e (absent_of_count inj m a.1 (omega arith))
  ]

rt_key-injective : (t u : Task) → rt_key t ≡ rt_key u → t.id ≡ u.id
rt_key-injective t u e = ap (λ (p : ℕ × ℕ). p.1) e

cfs_key-injective : (t u : Task) → cfs_key t ≡ cfs_key u → t.id ≡ u.id
cfs_key-injective t u e = ap (λ (p : ℕ × ℕ). p.1) e

pub rt_absent :
    (t : Task) (k : Sched)
    → IsWellFormed k
    → count t.id k ≡ 0
    → contains_key (rt_key t) k.rt_queue ≡ false
rt_absent t k v h =
    absent_of_count rt_key t (rt_key-injective t) k.rt_queue
      (All-mono (λ e q. q.0) k.rt_queue v.rt_queued) (omega arith)

pub cfs_absent :
    (t : Task) (k : Sched)
    → IsWellFormed k
    → count t.id k ≡ 0
    → contains_key (cfs_key t) k.cfs_queue ≡ false
cfs_absent t k v h =
    absent_of_count cfs_key t (cfs_key-injective t) k.cfs_queue
      (All-mono (λ e q. q.0) k.cfs_queue v.cfs_queued) (omega arith)

pub blocked_absent :
    (t : Task) (k : Sched)
    → IsWellFormed k
    → count t.id k ≡ 0
    → contains_key t.id k.blocked_tasks ≡ false
blocked_absent t k v h =
    absent_of_count (λ u. u.id) t (λ u e. e) k.blocked_tasks
      (All-mono (λ e q. q.0) k.blocked_tasks v.parked) (omega arith)

-- What `enqueue_task` adds to, by the class of the task; all else stays.
pub record Enqueued (t : Task) (k k' : Sched) : Type 0 where
  pub ready : (i : ℕ) → count_ready i k' ≡ one i t + count_ready i k
  pub current : k'.current ≡ k.current
  pub blocked : k'.blocked_tasks ≡ k.blocked_tasks
  pub pending : k'.wakeup_pending ≡ k.wakeup_pending

enqueue-ready :
    (c : SchedulingClass) (t : Task) (k : Sched) (i : ℕ)
    → IsWellFormed k
    → count t.id k ≡ 0
    → count_ready i (enqueue_as c t k) ≡ one i t + count_ready i k
unfolding enqueue_as
enqueue-ready SchedulingClass.realtime t k i v h =
    omega (arith, sum_by-insert (one i) (rt_key t) t k.rt_queue (rt_absent t k v h))
enqueue-ready SchedulingClass.normal t k i v h =
    omega (arith, sum_by-insert (one i) (cfs_key t) t k.cfs_queue (cfs_absent t k v h))
enqueue-ready SchedulingClass.idle t k i v h =
    omega (arith, sum_by-append (one i) k.idle_queue (t ∷ []))

enqueue_as-Enqueued :
    (c : SchedulingClass) (t : Task) (k : Sched)
    → IsWellFormed k
    → count t.id k ≡ 0
    → Enqueued t k (enqueue_as c t k)
unfolding enqueue_as
enqueue_as-Enqueued SchedulingClass.realtime t k v h = record {
  ready = λ i. enqueue-ready SchedulingClass.realtime t k i v h;
  current = refl;
  blocked = refl;
  pending = refl;
}
enqueue_as-Enqueued SchedulingClass.normal t k v h = record {
  ready = λ i. enqueue-ready SchedulingClass.normal t k i v h;
  current = refl;
  blocked = refl;
  pending = refl;
}
enqueue_as-Enqueued SchedulingClass.idle t k v h = record {
  ready = λ i. enqueue-ready SchedulingClass.idle t k i v h;
  current = refl;
  blocked = refl;
  pending = refl;
}

pub enqueue_task-Enqueued :
    (t : Task) (k : Sched) → IsWellFormed k → count t.id k ≡ 0 → Enqueued t k (enqueue_task t k)
unfolding enqueue_task
enqueue_task-Enqueued t k v h = enqueue_as-Enqueued t.sched_class t k v h

pub count-Enqueued :
    (t : Task) (k k' : Sched) → Enqueued t k k' → (i : ℕ) → count i k' ≡ one i t + count i k
count-Enqueued t k k' e i = omega (
  arith,
  e.ready i,
  ap (count_current i) e.current,
  ap (sum_by (λ (e : ℕ × Task). one i e.1)) e.blocked,
)

pub count-le-one :
    (t : Task) (k : Sched) (i : ℕ)
    → ((j : ℕ) → count j k ≤ 1)
    → count t.id k ≡ 0
    → one i t + count i k ≤ 1
count-le-one t k i u h = elim (Bool-cases (t.id == i)) [
  | inl e ↦ rw e (omega (arith, ap (λ (j : ℕ). count j k) ((==_iff t.id i).0 e)))
  | inr e ↦ rw e (omega (arith, u i))
]

enqueue_as-IsWellFormed :
    (c : SchedulingClass) (t : Task) (k : Sched)
    → IsWellFormed k
    → t.sched_class ≡ c
    → t.state ≡ TaskState.ready
    → IsTask t
    → count t.id k ≡ 0
    → IsWellFormed (enqueue_as c t k)
unfolding enqueue_as
enqueue_as-IsWellFormed SchedulingClass.realtime t k v c r p h = record {
  rt_sorted = insert-IsSorted (rt_key t) t k.rt_queue v.rt_sorted;
  cfs_sorted = v.cfs_sorted;
  blocked_sorted = v.blocked_sorted;
  pending_sorted = v.pending_sorted;
  rt_queued =
      All-insert (Queued rt_key SchedulingClass.realtime) (rt_key t) t k.rt_queue (refl, c, r, p)
        v.rt_queued;
  cfs_queued = v.cfs_queued;
  idle_queued = v.idle_queued;
  parked = v.parked;
  current_ok = v.current_ok;
  unique = λ i.
      omega
        (arith, count-le-one t k i v.unique h, enqueue-ready SchedulingClass.realtime t k i v h);
  awake = v.awake;
}
enqueue_as-IsWellFormed SchedulingClass.normal t k v c r p h = record {
  rt_sorted = v.rt_sorted;
  cfs_sorted = insert-IsSorted (cfs_key t) t k.cfs_queue v.cfs_sorted;
  blocked_sorted = v.blocked_sorted;
  pending_sorted = v.pending_sorted;
  rt_queued = v.rt_queued;
  cfs_queued =
      All-insert (Queued cfs_key SchedulingClass.normal) (cfs_key t) t k.cfs_queue (refl, c, r, p)
        v.cfs_queued;
  idle_queued = v.idle_queued;
  parked = v.parked;
  current_ok = v.current_ok;
  unique = λ i.
      omega (arith, count-le-one t k i v.unique h, enqueue-ready SchedulingClass.normal t k i v h);
  awake = v.awake;
}
enqueue_as-IsWellFormed SchedulingClass.idle t k v c r p h = record {
  rt_sorted = v.rt_sorted;
  cfs_sorted = v.cfs_sorted;
  blocked_sorted = v.blocked_sorted;
  pending_sorted = v.pending_sorted;
  rt_queued = v.rt_queued;
  cfs_queued = v.cfs_queued;
  idle_queued = All-append QueuedIdle k.idle_queue (t ∷ []) v.idle_queued ((c, r, p), tt);
  parked = v.parked;
  current_ok = v.current_ok;
  unique = λ i.
      omega (arith, count-le-one t k i v.unique h, enqueue-ready SchedulingClass.idle t k i v h);
  awake = v.awake;
}

-- A ready task that is nowhere in the scheduler yet can be added.
pub enqueue_task-IsWellFormed :
    (t : Task) (k : Sched)
    → IsWellFormed k
    → t.state ≡ TaskState.ready
    → IsTask t
    → count t.id k ≡ 0
    → IsWellFormed (enqueue_task t k)
unfolding enqueue_task
enqueue_task-IsWellFormed t k v r p h = enqueue_as-IsWellFormed t.sched_class t k v refl r p h
