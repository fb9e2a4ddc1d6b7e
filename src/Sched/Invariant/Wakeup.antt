-- ===== src/Sched/Invariant/Wakeup.antt =====
-- Blocking and waking keep the state well formed, and lose no task.
pub mod Delivery
pub mod Steps
use mathlib.Core.Path.{subst}
use vitr_os.Base.{
  ℕ, suc, ◌+◌, ◌-◌, ◌≤◌, ◌<◌, ◌≡◌, ◌≢◌, refl, sym, ap, ◌∙◌, ◌⊎◌, Bool, true, false, ◌&&◌, ◌||◌, not,
  Option, none, some, List, [], ◌∷◌, ◌++◌, All, sum_by, ◌==◌, if◌then◌else◌, Bool-cases,
  Option-cases, inl, inr, arith,
}
use vitr_os.Collections.Order.{nat_order}
use vitr_os.Collections.TreeMap.{same, insert, get, contains_key, delete}
use vitr_os.Collections.TreeMap.Laws.{
  same→eq, All-get, All-delete, insert-IsSorted, delete-IsSorted, contains_key-insert,
  contains_key-delete, contains_key_of_get-none, sum_by-delete,
}
use vitr_os.Sched.Task.{Task, TaskState, set_state}
use vitr_os.Sched.Scheduler.{Sched, Switch, enqueue_task, schedule}
use vitr_os.Sched.Blocking.{prepare_block, block_current_task, unblock_task}
use vitr_os.Sched.Invariant.{
  one, count_ready, count_current, count, IsTask, CurrentOk, Parked, IsWellFormed,
}
use vitr_os.Sched.Invariant.Enqueue.{
  Enqueued, enqueue_task-Enqueued, enqueue_task-IsWellFormed, count-Enqueued,
}
use vitr_os.Sched.Invariant.Switch.Retire.{consume-IsWellFormed}
use vitr_os.Sched.Invariant.Switch.Whole.{NotTerminated, schedule-IsWellFormed, count-schedule}

-- The state without the blocked task `t`, which is about to be queued.
module _ (t : Task) (k : Sched) (v : IsWellFormed k) (e : get t.id k.blocked_tasks ≡ some t) where
  abbrev taken : Sched
  taken = record k { blocked_tasks = delete t.id k.blocked_tasks }

  count-taken : (i : ℕ) → count i k ≡ one i t + count i taken
  count-taken i = omega (arith, sum_by-delete (one i) t.id t k.blocked_tasks e)

  taken-fresh : count t.id taken ≡ 0
  taken-fresh =
      let o : one t.id t ≡ 1 = ground arith in omega (arith, count-taken t.id, v.unique t.id)

  taken-IsWellFormed : IsWellFormed taken
  taken-IsWellFormed = record {
    rt_sorted = v.rt_sorted;
    cfs_sorted = v.cfs_sorted;
    blocked_sorted = delete-IsSorted t.id k.blocked_tasks v.blocked_sorted;
    pending_sorted = v.pending_sorted;
    rt_queued = v.rt_queued;
    cfs_queued = v.cfs_queued;
    idle_queued = v.idle_queued;
    parked = All-delete Parked t.id k.blocked_tasks v.parked;
    current_ok = v.current_ok;
    unique = λ i. omega (arith, count-taken i, v.unique i);
    awake = λ i.
        rw (contains_key-delete i t.id k.blocked_tasks v.blocked_sorted)
          (ground (arith, v.awake i));
  }

-- What `unblock_task` does: a blocked task is queued, for any other id a wake-up is recorded.
pub data Unblocked (i : ℕ) (k k' : Sched) : Type 0 where
  woken :
      (t : Task)
      → t.id ≡ i
      → get i k.blocked_tasks ≡ some t
      → IsWellFormed k'
      → ((j : ℕ) → count_ready j k' ≡ one j t + count_ready j k)
      → k'.current ≡ k.current
      → k'.blocked_tasks ≡ delete i k.blocked_tasks
      → ((j : ℕ) → count j k' ≡ count j k)
      → Unblocked i k k'
  noted :
      get i k.blocked_tasks ≡ none
      → k' ≡ record k { wakeup_pending = insert i tt k.wakeup_pending }
      → Unblocked i k k'

woken-Unblocked :
    (i : ℕ) (t : Task) (k : Sched)
    → IsWellFormed k
    → get i k.blocked_tasks ≡ some t
    → t.id ≡ i
    → IsTask t
    → Unblocked i k (
        enqueue_task
          (set_state TaskState.ready t)
          (record k { blocked_tasks = delete i k.blocked_tasks }))
woken-Unblocked i t k v e s p =
    subst
      (λ j.
        get j k.blocked_tasks ≡ some t
        → Unblocked j k (
            enqueue_task (set_state TaskState.ready t)
              (record k { blocked_tasks = delete j k.blocked_tasks })))
      s
      (λ g.
        let t' = set_state TaskState.ready t in
        let q =
          enqueue_task-Enqueued t' (taken t k v g) (taken-IsWellFormed t k v g)
            (taken-fresh t k v g) in
        woken t refl g
          (enqueue_task-IsWellFormed t' (taken t k v g) (taken-IsWellFormed t k v g) refl p
            (taken-fresh t k v g))
          (λ j. q.ready j) q.current q.blocked
          (λ j. omega (
            arith,
            count-Enqueued t' (taken t k v g) (enqueue_task t' (taken t k v g)) q j,
            count-taken t k v g j,
          )))
      e

pub unblock_task-Unblocked : (i : ℕ) (k : Sched) → IsWellFormed k → Unblocked i k (unblock_task i k)
unfolding unblock_task
unblock_task-Unblocked i k v = elim (Option-cases (get i k.blocked_tasks)) [
  | inl e ↦ noted e (ground arith)
  | inr (t, e) ↦
      let (s, b, p) = All-get Parked i k.blocked_tasks v.parked e in
      subst (Unblocked i k) (ground arith) (woken-Unblocked i t k v e (sym s) p)
]

noted-IsWellFormed :
    (i : ℕ) (k : Sched)
    → IsWellFormed k
    → get i k.blocked_tasks ≡ none
    → IsWellFormed (record k { wakeup_pending = insert i tt k.wakeup_pending })
noted-IsWellFormed i k v e = record {
  rt_sorted = v.rt_sorted;
  cfs_sorted = v.cfs_sorted;
  blocked_sorted = v.blocked_sorted;
  pending_sorted = insert-IsSorted i tt k.wakeup_pending v.pending_sorted;
  rt_queued = v.rt_queued;
  cfs_queued = v.cfs_queued;
  idle_queued = v.idle_queued;
  parked = v.parked;
  current_ok = v.current_ok;
  unique = v.unique;
  awake = λ j. rw (contains_key-insert j i tt k.wakeup_pending) (elim (Bool-cases (same j i)) [
    | inl s ↦ rw s (rw (same→eq j i s) (contains_key_of_get-none i k.blocked_tasks e))
    | inr s ↦ rw s (v.awake j)
  ]);
}

pub unblock_task-IsWellFormed :
    (i : ℕ) (k : Sched) → IsWellFormed k → IsWellFormed (unblock_task i k)
unblock_task-IsWellFormed i k v = elim (unblock_task-Unblocked i k v) [
  | woken t s e w r c b n ↦ w
  | noted e s ↦ rw s (noted-IsWellFormed i k v e)
]

pub count-unblock_task :
    (i j : ℕ) (k : Sched) → IsWellFormed k → count j (unblock_task i k) ≡ count j k
count-unblock_task i j k v = elim (unblock_task-Unblocked i k v) [
  | woken t s e w r c b n ↦ n j
  | noted e s ↦ rw s refl
]

-- The three outcomes of the critical section of `block_current_task`.
pub data Prepared (k : Sched) (r : Sched × Bool) : Type 0 where
  no_task : k.current ≡ none → r ≡ (k, false) → Prepared k r
  consumed :
      (t : Task)
      → k.current ≡ some t
      → contains_key t.id k.wakeup_pending ≡ true
      → r ≡ (record k { wakeup_pending = delete t.id k.wakeup_pending }, false)
      → Prepared k r
  marked :
      (t : Task)
      → k.current ≡ some t
      → contains_key t.id k.wakeup_pending ≡ false
      → r ≡ (record k { current = some (set_state TaskState.blocked t) }, true)
      → Prepared k r

pub prepare_block-Prepared : (k : Sched) → Prepared k (prepare_block k)
unfolding prepare_block
prepare_block-Prepared k = elim (Option-cases k.current) [
  | inl e ↦ no_task e (ground arith)
  | inr (t, e) ↦ elim (Bool-cases (contains_key t.id k.wakeup_pending)) [
    | inl w ↦ consumed t e w (ground arith)
    | inr w ↦ marked t e w (ground arith)
  ]
]

marked-IsWellFormed :
    (t : Task) (k : Sched)
    → IsWellFormed k
    → k.current ≡ some t
    → IsWellFormed (record k { current = some (set_state TaskState.blocked t) })
marked-IsWellFormed t k v e =
    let q : IsTask t = rw e at v.current_ok in
    record {
      rt_sorted = v.rt_sorted;
      cfs_sorted = v.cfs_sorted;
      blocked_sorted = v.blocked_sorted;
      pending_sorted = v.pending_sorted;
      rt_queued = v.rt_queued;
      cfs_queued = v.cfs_queued;
      idle_queued = v.idle_queued;
      parked = v.parked;
      current_ok = q;
      unique = λ i. omega (arith, v.unique i, ap (count_current i) e);
      awake = v.awake;
    }

pub prepare_block-IsWellFormed : (k : Sched) → IsWellFormed k → IsWellFormed (prepare_block k).0
prepare_block-IsWellFormed k v = elim (prepare_block-Prepared k) [
  | no_task e r ↦ rw r v
  | consumed t e w r ↦ rw r (consume-IsWellFormed t.id k v)
  | marked t e w r ↦ rw r (marked-IsWellFormed t k v e)
]

pub count-prepare_block : (k : Sched) (i : ℕ) → count i (prepare_block k).0 ≡ count i k
count-prepare_block k i = elim (prepare_block-Prepared k) [
  | no_task e r ↦ rw r refl
  | consumed t e w r ↦ rw r refl
  | marked t e w r ↦ rw r (omega (arith, ap (count_current i) e))
]

-- `block_current_task` keeps the state well formed, also when it switches.
pub block_current_task-IsWellFormed :
    (k : Sched) → IsWellFormed k → IsWellFormed (block_current_task k).0
unfolding block_current_task
block_current_task-IsWellFormed k v = elim (Bool-cases (prepare_block k).1) [
  | inl b ↦ rw b (schedule-IsWellFormed (prepare_block k).0 (prepare_block-IsWellFormed k v))
  | inr b ↦ rw b (prepare_block-IsWellFormed k v)
]
