-- ===== src/Sched/Invariant/Switch/Pick.antt =====
-- Phase 1 of `schedule` takes one ready task out of its queue.
use vitr_os.Base.{
  ℕ, ◌+◌, ◌≤◌, ◌≡◌, refl, ap, ◌⊎◌, Option, none, some, List, [], ◌∷◌, All, sum_by, inl, inr, arith,
}
use vitr_os.Collections.Order.{nat_order, pair_order}
use vitr_os.Collections.TreeMap.{IsSorted, pop_first}
use vitr_os.Sched.Task.{Task, SchedulingClass, TaskState}
use vitr_os.Sched.Scheduler.{Sched, rt_key, cfs_key, pick_next}
use vitr_os.Sched.Invariant.{
  one, count_ready, count_current, IsTask, Queued, QueuedIdle, IsWellFormed,
}

-- The three queues, of which the first that is not empty gives its first task.
pub data PickCase (k : Sched) (o : Option (Task × Sched)) : Type 0 where
  from_rt :
      (t : Task) (key : ℕ × ℕ) (r : List ((ℕ × ℕ) × Task))
      → k.rt_queue ≡ (key, t) ∷ r
      → o ≡ some (t, record k { rt_queue = r })
      → PickCase k o
  from_cfs :
      (t : Task) (key : ℕ × ℕ) (r : List ((ℕ × ℕ) × Task))
      → k.rt_queue ≡ []
      → k.cfs_queue ≡ (key, t) ∷ r
      → o ≡ some (t, record k { cfs_queue = r })
      → PickCase k o
  from_idle :
      (t : Task) (r : List Task)
      → k.rt_queue ≡ []
      → k.cfs_queue ≡ []
      → k.idle_queue ≡ t ∷ r
      → o ≡ some (t, record k { idle_queue = r })
      → PickCase k o
  nothing : k.rt_queue ≡ [] → k.cfs_queue ≡ [] → k.idle_queue ≡ [] → o ≡ none → PickCase k o

pick-idle :
    (k : Sched) (l : List Task)
    → k.idle_queue ≡ l
    → k.rt_queue ≡ []
    → k.cfs_queue ≡ []
    → PickCase k (pick_next k)
unfolding pick_next pop_first
pick-idle k [] e p q = nothing p q e (ground arith)
pick-idle k (t ∷ r) e p q = from_idle t r p q e (ground arith)

pick-cfs :
    (k : Sched) (l : List ((ℕ × ℕ) × Task))
    → k.cfs_queue ≡ l
    → k.rt_queue ≡ []
    → PickCase k (pick_next k)
unfolding pick_next pop_first
pick-cfs k [] e p = pick-idle k k.idle_queue refl p e
pick-cfs k ((key, t) ∷ r) e p = from_cfs t key r p e (ground arith)

pick-rt : (k : Sched) (l : List ((ℕ × ℕ) × Task)) → k.rt_queue ≡ l → PickCase k (pick_next k)
unfolding pick_next pop_first
pick-rt k [] e = pick-cfs k k.cfs_queue refl e
pick-rt k ((key, t) ∷ r) e = from_rt t key r e (ground arith)

pub pick_next-PickCase : (k : Sched) → PickCase k (pick_next k)
pick_next-PickCase k = pick-rt k k.rt_queue refl

-- What the removal of the ready task `t` leaves.
pub record Picked (k : Sched) (t : Task) (k' : Sched) : Type 0 where
  pub ready : (i : ℕ) → count_ready i k ≡ one i t + count_ready i k'
  pub current : k'.current ≡ k.current
  pub blocked : k'.blocked_tasks ≡ k.blocked_tasks
  pub pending : k'.wakeup_pending ≡ k.wakeup_pending
  pub accumulated : k'.accumulated_runtime ≡ k.accumulated_runtime
  pub was_ready : t.state ≡ TaskState.ready
  pub task : IsTask t
  pub well_formed : IsWellFormed k'

-- A part of a well-formed state's queues is well formed.
shrink :
    (k k' : Sched)
    → IsWellFormed k
    → IsSorted k'.rt_queue × All (Queued rt_key SchedulingClass.realtime) k'.rt_queue
    → IsSorted k'.cfs_queue × All (Queued cfs_key SchedulingClass.normal) k'.cfs_queue
    → All QueuedIdle k'.idle_queue
    → k'.current ≡ k.current
    → k'.blocked_tasks ≡ k.blocked_tasks
    → k'.wakeup_pending ≡ k.wakeup_pending
    → ((i : ℕ) → count_ready i k' ≤ count_ready i k)
    → IsWellFormed k'
shrink k k' v r c d eq_c eq_b eq_p le = record {
  rt_sorted = r.0;
  cfs_sorted = c.0;
  blocked_sorted = rw eq_b v.blocked_sorted;
  pending_sorted = rw eq_p v.pending_sorted;
  rt_queued = r.1;
  cfs_queued = c.1;
  idle_queued = d;
  parked = rw eq_b v.parked;
  current_ok = rw eq_c v.current_ok;
  unique = λ i. omega (
    arith,
    v.unique i,
    le i,
    ap (count_current i) eq_c,
    ap (sum_by (λ (e : ℕ × Task). one i e.1)) eq_b,
  );
  awake = λ i. rw (eq_b, eq_p) (v.awake i);
}

rt-Picked :
    (k : Sched) (t : Task) (key : ℕ × ℕ) (r : List ((ℕ × ℕ) × Task))
    → IsWellFormed k
    → k.rt_queue ≡ (key, t) ∷ r
    → Picked k t (record k { rt_queue = r })
rt-Picked k t key r v e =
    let s : IsSorted ((key, t) ∷ r) = rw e at v.rt_sorted in
    let q : All (Queued rt_key SchedulingClass.realtime) ((key, t) ∷ r) = rw e at v.rt_queued in
    let n : (i : ℕ) → count_ready i k ≡ one i t + count_ready i (record k { rt_queue = r }) =
      λ i. omega (arith, ap (sum_by (λ (e : (ℕ × ℕ) × Task). one i e.1)) e) in
    record {
      ready = n;
      current = refl;
      blocked = refl;
      pending = refl;
      accumulated = refl;
      was_ready = q.0.2;
      task = q.0.3;
      well_formed =
          shrink k (record k { rt_queue = r }) v (s.1, q.1) (v.cfs_sorted, v.cfs_queued)
            v.idle_queued refl refl refl (λ i. omega (arith, n i));
    }

cfs-Picked :
    (k : Sched) (t : Task) (key : ℕ × ℕ) (r : List ((ℕ × ℕ) × Task))
    → IsWellFormed k
    → k.cfs_queue ≡ (key, t) ∷ r
    → Picked k t (record k { cfs_queue = r })
cfs-Picked k t key r v e =
    let s : IsSorted ((key, t) ∷ r) = rw e at v.cfs_sorted in
    let q : All (Queued cfs_key SchedulingClass.normal) ((key, t) ∷ r) = rw e at v.cfs_queued in
    let n : (i : ℕ) → count_ready i k ≡ one i t + count_ready i (record k { cfs_queue = r }) =
      λ i. omega (arith, ap (sum_by (λ (e : (ℕ × ℕ) × Task). one i e.1)) e) in
    record {
      ready = n;
      current = refl;
      blocked = refl;
      pending = refl;
      accumulated = refl;
      was_ready = q.0.2;
      task = q.0.3;
      well_formed =
          shrink k (record k { cfs_queue = r }) v (v.rt_sorted, v.rt_queued) (s.1, q.1)
            v.idle_queued refl refl refl (λ i. omega (arith, n i));
    }

idle-Picked :
    (k : Sched) (t : Task) (r : List Task)
    → IsWellFormed k
    → k.idle_queue ≡ t ∷ r
    → Picked k t (record k { idle_queue = r })
idle-Picked k t r v e =
    let q : All QueuedIdle (t ∷ r) = rw e at v.idle_queued in
    let n : (i : ℕ) → count_ready i k ≡ one i t + count_ready i (record k { idle_queue = r }) =
      λ i. omega (arith, ap (sum_by (one i)) e) in
    record {
      ready = n;
      current = refl;
      blocked = refl;
      pending = refl;
      accumulated = refl;
      was_ready = q.0.1;
      task = q.0.2;
      well_formed =
          shrink k (record k { idle_queue = r }) v (v.rt_sorted, v.rt_queued)
            (v.cfs_sorted, v.cfs_queued) q.1 refl refl refl (λ i. omega (arith, n i));
    }

-- Phase 1 finds no task, and then all queues are empty, or takes one.
pub pick_next-Picked :
    (k : Sched)
    → IsWellFormed k
    → (pick_next k ≡ none) × ((i : ℕ) → count_ready i k ≡ 0)
      ⊎ ((t : Task) × (k' : Sched) × (pick_next k ≡ some (t, k')) × Picked k t k')
pick_next-Picked k v = elim (pick_next-PickCase k) [
  | from_rt t key r e p ↦ inr (t, record k { rt_queue = r }, p, rt-Picked k t key r v e)
  | from_cfs t key r d e p ↦ inr (t, record k { cfs_queue = r }, p, cfs-Picked k t key r v e)
  | from_idle t r c d e p ↦ inr (t, record k { idle_queue = r }, p, idle-Picked k t r v e)
  | nothing c d e p ↦ inl (p, λ i. rw (c, d, e) refl)
]
