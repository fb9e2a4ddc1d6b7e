-- ===== src/Sched/Invariant/Switch/Whole.antt =====
-- `schedule` as a whole.
use vitr_os.Base.{
  ℕ, ◌+◌, ◌≤◌, ◌≡◌, ◌≢◌, refl, ap, ◌⊎◌, Bool, true, false, Option, none, some, sum_by, ◌==◌,
  if◌then◌else◌, inl, inr, arith,
}
use vitr_os.Collections.Order.{nat_order}
use vitr_os.Collections.TreeMap.{contains_key}
use vitr_os.Sched.Task.{Task, TaskState, set_state, update_vruntime}
use vitr_os.Sched.Scheduler.{
  Sched, charge, leaving, preempted, retire, pick_next, switch_from, schedule,
}
use vitr_os.Sched.Invariant.{one, count_current, count_blocked, count, IsTask, IsWellFormed}
use vitr_os.Sched.Invariant.Switch.Pick.{Picked, pick_next-Picked}
use vitr_os.Sched.Invariant.Switch.Retire.{
  kept, Retired, pending-count_blocked, retire-Retired, leaving-id, leaving-IsTask, leaving-state,
}

-- What is counted of the task that is current before a switch.
abbrev pub kept_current : ℕ → ℕ → Option Task → ℕ
kept_current a i none = 0
kept_current a i (some t) = kept (leaving a t).state (one i t)

-- The state with `next` in the place of the current task.
abbrev pub installed : Task → ℕ → Sched → Sched
installed next a k = record k { current = some next; accumulated_runtime = a; interrupts = true }

pub installed-IsWellFormed :
    (next : Task) (a : ℕ) (k : Sched)
    → IsWellFormed k
    → IsTask next
    → ((i : ℕ) → one i next + count i k ≤ 1)
    → IsWellFormed (installed next a k)
installed-IsWellFormed next a k v p u = record {
  rt_sorted = v.rt_sorted;
  cfs_sorted = v.cfs_sorted;
  blocked_sorted = v.blocked_sorted;
  pending_sorted = v.pending_sorted;
  rt_queued = v.rt_queued;
  cfs_queued = v.cfs_queued;
  idle_queued = v.idle_queued;
  parked = v.parked;
  current_ok = p;
  unique = λ i. omega (arith, u i);
  awake = v.awake;
}

pub interrupts-IsWellFormed :
    (b : Bool) (k : Sched) → IsWellFormed k → IsWellFormed (record k { interrupts = b })
interrupts-IsWellFormed b k v = record {
  rt_sorted = v.rt_sorted;
  cfs_sorted = v.cfs_sorted;
  blocked_sorted = v.blocked_sorted;
  pending_sorted = v.pending_sorted;
  rt_queued = v.rt_queued;
  cfs_queued = v.cfs_queued;
  idle_queued = v.idle_queued;
  parked = v.parked;
  current_ok = v.current_ok;
  unique = v.unique;
  awake = v.awake;
}

pub record Switched (k : Sched) (next : Task) (k' : Sched) : Type 0 where
  pub well_formed : IsWellFormed k'
  pub current : k'.current ≡ some next
  pub awaited : (i : ℕ) → contains_key i k.wakeup_pending ≡ true → count_blocked i k' ≡ 0
  pub counted :
      (i : ℕ)
      → count i k' + count_current i k.current
        ≡ one i next + count i k + kept_current k.accumulated_runtime i k.current

pub one_self : (t : Task) → one t.id t ≡ 1
one_self t = ground arith

one-leaving : (i a : ℕ) (t : Task) → one i (leaving a t) ≡ one i t
one-leaving i a t = ap (λ (j : ℕ). if j == i then 1 else 0) (leaving-id a t)

switch_from-Switched :
    (o : Option Task) (next : Task) (k : Sched)
    → IsWellFormed k
    → IsTask next
    → ((i : ℕ) → one i next + count i k ≤ 1)
    → k.current ≡ o
    → Switched k next (switch_from o next k).0
unfolding switch_from
switch_from-Switched none next k v p u e = record {
  well_formed = installed-IsWellFormed next k.accumulated_runtime k v p u;
  current = refl;
  awaited = pending-count_blocked k v;
  counted = λ i. omega (arith, ap (count_current i) e, ap (kept_current k.accumulated_runtime i) e);
}
switch_from-Switched (some t) next k v p u e =
    let a = k.accumulated_runtime in
    let w : IsWellFormed (installed next 0 k) = installed-IsWellFormed next 0 k v p u in
    let q : IsTask t = rw e at v.current_ok in
    let z : count (leaving a t).id (installed next 0 k) ≡ 0 = omega (
      arith,
      one_self (leaving a t),
      u t.id,
      ap (count_current (leaving a t).id) e,
      one-leaving (leaving a t).id a t,
      one-leaving t.id a t,
      v.unique (leaving a t).id,
      u (leaving a t).id,
    ) in
    let r : Retired (leaving a t).state (leaving a t) (installed next 0 k)
        (retire (leaving a t) (installed next 0 k)) =
      retire-Retired (leaving a t) (installed next 0 k) w (leaving-state a t) (leaving-IsTask a t q)
        z in
    record {
      well_formed = r.well_formed;
      current = r.current;
      awaited = r.awaited;
      counted = λ i. omega (
        arith,
        r.counted i,
        ap (count_current i) e,
        ap (kept_current a i) e,
        ap (kept (leaving a t).state) (one-leaving i a t),
      );
    }

-- `schedule` finds nothing to run, and changes nothing but the interrupt flag; or it switches to a
-- task that was ready.
pub schedule_cases :
    (k : Sched)
    → IsWellFormed k
    → (pick_next (record k { interrupts = false }) ≡ none)
        × ((schedule k).1 ≡ none)
        × ((schedule k).0 ≡ record k { interrupts = true })
      ⊎ ((t : Task) × (k' : Sched) × (pick_next (record k { interrupts = false }) ≡ some (t, k'))
          × Picked (record k { interrupts = false }) t k'
          × ((schedule k).0 ≡ (switch_from k'.current (set_state TaskState.running t) k').0)
          × ((schedule k).1 ≡ some (switch_from k'.current (set_state TaskState.running t) k').1))
unfolding schedule
schedule_cases k v =
    elim (pick_next-Picked (record k { interrupts = false }) (interrupts-IsWellFormed false k v)) [
      | inl (e, _) ↦ inl (e, rw e, rw e)
      | inr (t, k', e, p) ↦ inr (t, k', e, p, rw e, rw e)
    ]

pub Picked-Switched :
    (k : Sched) (t : Task) (k' : Sched)
    → IsWellFormed k
    → Picked k t k'
    → Switched k'
        (set_state TaskState.running t)
        (switch_from k'.current (set_state TaskState.running t) k').0
Picked-Switched k t k' v p =
    switch_from-Switched k'.current (set_state TaskState.running t) k' p.well_formed p.task
      (λ i. omega (
        arith,
        p.ready i,
        v.unique i,
        ap (count_current i) p.current,
        ap (sum_by (λ (e : ℕ × Task). one i e.1)) p.blocked,
      ))
      refl

-- `schedule` keeps the scheduler's state well formed.
pub schedule-IsWellFormed : (k : Sched) → IsWellFormed k → IsWellFormed (schedule k).0
schedule-IsWellFormed k v = elim (schedule_cases k v) [
  | inl (_, _, e) ↦ rw e (interrupts-IsWellFormed true k v)
  | inr (t, k', _, p, e, _) ↦
      rw e
        (Picked-Switched (record k { interrupts = false }) t k' (interrupts-IsWellFormed false k v)
          p).well_formed
]

abbrev pub NotTerminated : Option Task → Type 0
NotTerminated none = Unit
NotTerminated (some t) = t.state ≢ TaskState.terminated

leaving-NotTerminated :
    (a : ℕ) (t : Task) (n : ℕ) → t.state ≢ TaskState.terminated → kept (leaving a t).state n ≡ n
unfolding leaving charge update_vruntime preempted
leaving-NotTerminated a t n h = ground arith

kept_current-NotTerminated :
    (a i : ℕ) (o : Option Task) → NotTerminated o → kept_current a i o ≡ count_current i o
kept_current-NotTerminated a i none h = refl
kept_current-NotTerminated a i (some t) h = leaving-NotTerminated a t (one i t) h

-- `schedule` neither loses nor duplicates a task: for every id, as many tasks with that id are
-- queued, running or blocked after it as before, unless the current task has terminated.
pub count-schedule :
    (k : Sched) (i : ℕ)
    → IsWellFormed k
    → NotTerminated k.current
    → count i (schedule k).0 ≡ count i k
count-schedule k i v h = elim (schedule_cases k v) [
  | inl (_, _, e) ↦ rw e refl
  | inr (t, k', _, p, e, _) ↦
      let w = interrupts-IsWellFormed false k v in
      rw e (
        omega (
          arith,
          (Picked-Switched (record k { interrupts = false }) t k' w p).counted i,
          p.ready i,
          ap (count_current i) p.current,
          ap (sum_by (λ (e : ℕ × Task). one i e.1)) p.blocked,
          kept_current-NotTerminated k'.accumulated_runtime i k'.current (rw p.current h),
        ))
]

-- Across `schedule`, a task with a wake-up pending does not end up among the blocked tasks.
pub schedule-awaited :
    (k : Sched) (i : ℕ)
    → IsWellFormed k
    → contains_key i k.wakeup_pending ≡ true
    → count_blocked i (schedule k).0 ≡ 0
schedule-awaited k i v w = elim (schedule_cases k v) [
  | inl (_, _, e) ↦ rw e (pending-count_blocked k v i w)
  | inr (t, k', _, p, e, _) ↦ rw e (
      (Picked-Switched (record k { interrupts = false }) t k' (interrupts-IsWellFormed false k v)
          p).awaited
        i (rw p.pending w))
]
