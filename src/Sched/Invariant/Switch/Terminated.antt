-- ===== src/Sched/Invariant/Switch/Terminated.antt =====
-- Where `schedule` leaves a current task that has terminated, or is blocked.
-- `schedule` when the current task has terminated.
use mathlib.Core.Path.{subst}
use vitr_os.Base.{
  ℕ, ◌+◌, ◌≤◌, ◌≡◌, sym, ap, ◌∙◌, ◌⊎◌, false, Option, none, some, sum_by, inl, inr, arith,
}
use vitr_os.Collections.Order.{nat_order}
use vitr_os.Collections.TreeMap.{contains_key}
use vitr_os.Collections.TreeMap.Laws.{sum_by-insert}
use vitr_os.Sched.Task.{Task, TaskState, set_state, update_vruntime}
use vitr_os.Sched.Scheduler.{
  Sched, Switch, charge, leaving, preempted, park, retire_as, retire, switch_from, schedule,
}
use vitr_os.Sched.Invariant.{one, count_current, count_blocked, count, IsWellFormed}
use vitr_os.Sched.Invariant.Enqueue.{blocked_absent}
use vitr_os.Sched.Invariant.Switch.Priority.{HasReady, schedule-switches}
use vitr_os.Sched.Invariant.Switch.Retire.{kept, leaving-id}
use vitr_os.Sched.Invariant.Switch.Whole.{
  kept_current, installed, installed-IsWellFormed, interrupts-IsWellFormed, Picked-Switched,
  schedule_cases, one_self,
}

switch_from-old :
    (t next : Task) (o : Option Task) (k : Sched)
    → o ≡ some t
    → (switch_from o next k).1.old ≡ some t.id
unfolding switch_from
switch_from-old t next none k e = cc
switch_from-old t next (some u) k e = ground arith

leaving-terminated :
    (a : ℕ) (t : Task) (n : ℕ) → t.state ≡ TaskState.terminated → kept (leaving a t).state n ≡ 0
unfolding leaving charge update_vruntime preempted
leaving-terminated a t n h = ground arith

terminated_cases :
    (t : Task) (k : Sched)
    → IsWellFormed k
    → k.current ≡ some t
    → t.state ≡ TaskState.terminated
    → ((schedule k).1 ≡ none)
      ⊎ ((s : Switch) × ((schedule k).1 ≡ some s)
          × (s.old ≡ some t.id)
          × (count t.id (schedule k).0 ≡ 0))
terminated_cases t k v c d = elim (schedule_cases k v) [
  | inl (_, n, e) ↦ inl n
  | inr (u, k', _, p, e, s) ↦
      let w = interrupts-IsWellFormed false k v in
      let q = Picked-Switched (record k { interrupts = false }) u k' w p in
      let c' : k'.current ≡ some t = p.current ∙ c in
      inr (
        (switch_from k'.current (set_state TaskState.running u) k').1,
        s,
        switch_from-old t (set_state TaskState.running u) k'.current k' c',
        rw e (
            omega (
              arith,
              q.counted t.id,
              p.ready t.id,
              v.unique t.id,
              ap (count_current t.id) p.current,
              ap (count_current t.id) c,
              one_self t,
              ap (sum_by (λ (e : ℕ × Task). one t.id e.1)) p.blocked,
              ap (kept_current k'.accumulated_runtime t.id) c',
              leaving-terminated k'.accumulated_runtime t (one t.id t) d,
            )),
      )
]

-- When the current task has terminated and another one is ready, `schedule` switches, and saves the
-- processor's state into the context of the terminated task although, with the retirement, the
-- scheduler has already dropped that task.
pub schedule_terminated :
    (t : Task) (k : Sched)
    → IsWellFormed k
    → k.current ≡ some t
    → t.state ≡ TaskState.terminated
    → HasReady k
    → (s : Switch) × ((schedule k).1 ≡ some s)
      × (s.old ≡ some t.id)
      × (count t.id (schedule k).0 ≡ 0)
schedule_terminated t k v c d h = elim (terminated_cases t k v c d) [
  | inl n ↦ let (s, e) = schedule-switches k v h in absurd (cc)
  | inr r ↦ r
]

-- A blocked task with no wake-up pending is parked.
retire-parks :
    (t : Task) (k : Sched)
    → IsWellFormed k
    → t.state ≡ TaskState.blocked
    → contains_key t.id k.wakeup_pending ≡ false
    → count t.id k ≡ 0
    → count_blocked t.id (retire t k) ≡ 1
unfolding retire retire_as park
retire-parks t k v b w h =
    subst (λ s. count_blocked t.id (retire_as s t k) ≡ 1) (sym b)
      (rw w (
        omega (
          arith,
          sum_by-insert (one t.id) t.id t k.blocked_tasks (blocked_absent t k v h),
          one_self t,
        )))

leaving-blocked :
    (a : ℕ) (t : Task) → t.state ≡ TaskState.blocked → (leaving a t).state ≡ TaskState.blocked
unfolding leaving charge update_vruntime preempted
leaving-blocked a t h = ground arith

same_task : (u t : Task) → some u ≡ some t → u ≡ t
same_task u t e = cc

switch_from-parks :
    (o : Option Task) (t next : Task) (k : Sched)
    → o ≡ some t
    → IsWellFormed (installed next 0 k)
    → t.state ≡ TaskState.blocked
    → contains_key t.id k.wakeup_pending ≡ false
    → count t.id (installed next 0 k) ≡ 0
    → count_blocked t.id (switch_from o next k).0 ≡ 1
unfolding switch_from
switch_from-parks none t next k e v b w h = cc
switch_from-parks (some u) t next k e v b w h =
    subst
      (λ x. count_blocked t.id (retire (leaving k.accumulated_runtime x) (installed next 0 k)) ≡ 1)
      (sym (same_task u t e))
      (subst
        (λ j. count_blocked j (retire (leaving k.accumulated_runtime t) (installed next 0 k)) ≡ 1)
        (leaving-id k.accumulated_runtime t)
        (retire-parks (leaving k.accumulated_runtime t) (installed next 0 k) v
          (leaving-blocked k.accumulated_runtime t b) (rw (leaving-id k.accumulated_runtime t) w)
          (rw (leaving-id k.accumulated_runtime t) h)))

-- A current task that is marked blocked, with no wake-up pending, is parked when `schedule` switches.
pub schedule-parks :
    (t : Task) (k : Sched) {s : Switch}
    → IsWellFormed k
    → k.current ≡ some t
    → t.state ≡ TaskState.blocked
    → contains_key t.id k.wakeup_pending ≡ false
    → (schedule k).1 ≡ some s
    → count_blocked t.id (schedule k).0 ≡ 1
schedule-parks t k v c b n s = elim (schedule_cases k v) [
  | inl (_, d, _) ↦ cc
  | inr (u, k', _, p, e, _) ↦
      let next = set_state TaskState.running u in
      let le : (i : ℕ) → one i next + count i k' ≤ 1 = λ i. omega (
        arith,
        p.ready i,
        v.unique i,
        ap (count_current i) p.current,
        ap (sum_by (λ (e : ℕ × Task). one i e.1)) p.blocked,
      ) in
      rw e (
        switch_from-parks k'.current t next k' (p.current ∙ c)
          (installed-IsWellFormed next 0 k' p.well_formed p.task le) b (rw p.pending n)
          (omega (arith, le t.id, ap (count_current t.id) (p.current ∙ c), one_self t)))
]
