-- ===== src/Sched/Invariant/Switch/Priority.antt =====
-- Which task `schedule` switches to.
use mathlib.Core.Path.{subst}
use vitr_os.Base.{
  ℕ, ◌≤◌, ◌<◌, ◌≡◌, refl, sym, ap, ◌∙◌, ◌⊎◌, true, false, Option, none, some, [], ◌∷◌, All,
  All-mono, All-zip, List, length, ◌+◌, inl, inr, arith,
}
use vitr_os.Collections.Order.{lex, pair_order}
use vitr_os.Collections.TreeMap.{IsSorted}
use vitr_os.Sched.Task.{Task, SchedulingClass, TaskState, set_state}
use vitr_os.Sched.Scheduler.{Sched, Switch, rt_key, cfs_key, switch_from, schedule}
use vitr_os.Sched.Invariant.{Queued, QueuedIdle, IsTask, IsWellFormed}
use vitr_os.Sched.Invariant.Switch.Pick.{
  PickCase, pick_next-PickCase, from_rt, from_cfs, from_idle, nothing,
}
use vitr_os.Sched.Invariant.Switch.Whole.{schedule_cases, Picked-Switched, interrupts-IsWellFormed}

abbrev pub rank : SchedulingClass → ℕ
rank SchedulingClass.realtime = 2
rank SchedulingClass.normal = 1
rank SchedulingClass.idle = 0

-- The order that the scheduler promises: by class; among Realtime tasks a higher priority first;
-- among Normal tasks a smaller virtual run time first; at a tie the smaller id first.
pub data Precedes (t u : Task) : Type 0 where
  by_class : rank u.sched_class < rank t.sched_class → Precedes t u
  by_priority :
      t.sched_class ≡ SchedulingClass.realtime
      → u.sched_class ≡ SchedulingClass.realtime
      → (u.rt_priority < t.rt_priority) ⊎ (u.rt_priority ≡ t.rt_priority) × (t.id ≤ u.id)
      → Precedes t u
  by_vruntime :
      t.sched_class ≡ SchedulingClass.normal
      → u.sched_class ≡ SchedulingClass.normal
      → (t.vruntime < u.vruntime) ⊎ (t.vruntime ≡ u.vruntime) × (t.id ≤ u.id)
      → Precedes t u
  by_arrival :
      t.sched_class ≡ SchedulingClass.idle → u.sched_class ≡ SchedulingClass.idle → Precedes t u

-- Every task in the ready queues satisfies the predicate.
abbrev pub AllReady : (Task → Type 0) → Sched → Type 0
AllReady P k = All (λ e. P e.1) k.rt_queue × All (λ e. P e.1) k.cfs_queue × All P k.idle_queue

rt-Precedes :
    (t u : Task)
    → t.sched_class ≡ SchedulingClass.realtime
    → IsTask t
    → (j : ℕ × ℕ) → Queued rt_key SchedulingClass.realtime (j, u)
    → lex (rt_key t) j ≡ true
    → Precedes t u
rt-Precedes t u c p j (e, d, _, q) h =
    by_priority c d
      (let l : lex (rt_key t) (rt_key u) ≡ true = ap (lex (rt_key t)) (sym e) ∙ h in ground arith)

cfs-Precedes :
    (t u : Task)
    → t.sched_class ≡ SchedulingClass.normal
    → (j : ℕ × ℕ) → Queued cfs_key SchedulingClass.normal (j, u)
    → lex (cfs_key t) j ≡ true
    → Precedes t u
cfs-Precedes t u c j (e, d, _, q) h =
    by_vruntime c d (
      let l : lex (cfs_key t) (cfs_key u) ≡ true = ap (lex (cfs_key t)) (sym e) ∙ h in ground arith)

best-PickCase :
    (k : Sched) {t : Task} {k' : Sched}
    → IsWellFormed k
    → PickCase k (some (t, k'))
    → AllReady (Precedes t) k
best-PickCase k {t} {k'} v (from_rt u key r e o) =
    let s : IsSorted ((key, u) ∷ r) = rw e at v.rt_sorted in
    let q : All (Queued rt_key SchedulingClass.realtime) ((key, u) ∷ r) = rw e at v.rt_queued in
    let same : u ≡ t = ground arith in
    subst (λ x. AllReady (Precedes x) k) same
      (
        rw e (
          by_priority q.0.1 q.0.1 (inr (refl, omega arith)),
          All-zip
              (λ (f : (ℕ × ℕ) × Task) (a : Queued rt_key SchedulingClass.realtime f)
                  (b : lex key f.0 ≡ true).
                rt-Precedes u f.1 q.0.1 q.0.3 f.0 a (ap (λ (x : ℕ × ℕ). lex x f.0) (sym q.0.0) ∙ b))
              r q.1 s.0,
        ),
        All-mono (λ (f : (ℕ × ℕ) × Task) a. by_class (rw (a.1, q.0.1) (omega arith))) k.cfs_queue
            v.cfs_queued,
        All-mono (λ f a. by_class (rw (a.0, q.0.1) (omega arith))) k.idle_queue v.idle_queued,
      )
best-PickCase k {t} {k'} v (from_cfs u key r d e o) =
    let s : IsSorted ((key, u) ∷ r) = rw e at v.cfs_sorted in
    let q : All (Queued cfs_key SchedulingClass.normal) ((key, u) ∷ r) = rw e at v.cfs_queued in
    let same : u ≡ t = ground arith in
    subst (λ x. AllReady (Precedes x) k) same
      (
        rw d tt,
        rw e (
          by_vruntime q.0.1 q.0.1 (inr (refl, omega arith)),
          All-zip
              (λ (f : (ℕ × ℕ) × Task) (a : Queued cfs_key SchedulingClass.normal f)
                  (b : lex key f.0 ≡ true).
                cfs-Precedes u f.1 q.0.1 f.0 a (ap (λ (x : ℕ × ℕ). lex x f.0) (sym q.0.0) ∙ b))
              r q.1 s.0,
        ),
        All-mono (λ f a. by_class (rw (a.0, q.0.1) (omega arith))) k.idle_queue v.idle_queued,
      )
best-PickCase k {t} {k'} v (from_idle u r c d e o) =
    let q : All QueuedIdle (u ∷ r) = rw e at v.idle_queued in
    let same : u ≡ t = ground arith in
    subst (λ x. AllReady (Precedes x) k) same
      (rw c tt, rw d tt, All-mono (λ f a. by_arrival q.0.0 a.0) k.idle_queue v.idle_queued)
best-PickCase k v (nothing c d e o) = absurd (ground arith)

none-PickCase :
    (k : Sched) → PickCase k none → (k.rt_queue ≡ []) × (k.cfs_queue ≡ []) × (k.idle_queue ≡ [])
none-PickCase k (from_rt t key r e o) = absurd (ground arith)
none-PickCase k (from_cfs t key r d e o) = absurd (ground arith)
none-PickCase k (from_idle t r c d e o) = absurd (ground arith)
none-PickCase k (nothing c d e o) = (c, d, e)

-- The task is the first of one of the ready queues.
abbrev pub IsFirst : Task → Sched → Type 0
IsFirst t k =
    ((key : ℕ × ℕ) × (r : List ((ℕ × ℕ) × Task)) × (k.rt_queue ≡ (key, t) ∷ r))
    ⊎ ((key : ℕ × ℕ) × (r : List ((ℕ × ℕ) × Task)) × (k.cfs_queue ≡ (key, t) ∷ r))
    ⊎ ((r : List Task) × (k.idle_queue ≡ t ∷ r))

IsFirst-PickCase : (k : Sched) {t : Task} {k' : Sched} → PickCase k (some (t, k')) → IsFirst t k
IsFirst-PickCase k {t} {k'} (from_rt u key r e o) =
    let same : u ≡ t = ground arith in subst (λ x. IsFirst x k) same (inl (key, r, e))
IsFirst-PickCase k {t} {k'} (from_cfs u key r d e o) =
    let same : u ≡ t = ground arith in subst (λ x. IsFirst x k) same (inr (inl (key, r, e)))
IsFirst-PickCase k {t} {k'} (from_idle u r c d e o) =
    let same : u ≡ t = ground arith in subst (λ x. IsFirst x k) same (inr (inr (r, e)))
IsFirst-PickCase k (nothing c d e o) = absurd (ground arith)

switch_from-new :
    (o : Option Task) (next : Task) (k : Sched) → (switch_from o next k).1.new ≡ next.id
unfolding switch_from
switch_from-new none next k = refl
switch_from-new (some t) next k = refl

-- Either all ready queues are empty, and `schedule` switches to no task and changes nothing but that
-- interrupts are enabled; or it switches to the first task of one of the ready queues, which
-- becomes current in state Running, whose context is the one restored, and which precedes every
-- ready task.
pub schedule_best :
    (k : Sched)
    → IsWellFormed k
    → (k.rt_queue ≡ [])
        × (k.cfs_queue ≡ [])
        × (k.idle_queue ≡ [])
        × (schedule k ≡ (record k { interrupts = true }, none))
      ⊎ ((t : Task) × (s : Switch) × ((schedule k).1 ≡ some s)
          × (s.new ≡ t.id)
          × ((schedule k).0.current ≡ some (set_state TaskState.running t))
          × IsFirst t k
          × AllReady (Precedes t) k)
unfolding schedule
schedule_best k v = elim (schedule_cases k v) [
  | inl (q, n, e) ↦
      let (a, b, c) =
        none-PickCase (record k { interrupts = false })
          (rw q at (pick_next-PickCase (record k { interrupts = false }))) in
      inl (a, b, c, λ i. (e i, n i))
  | inr (t, k', q, p, e, s) ↦ inr (
    t,
    (switch_from k'.current (set_state TaskState.running t) k').1,
    s,
    switch_from-new k'.current (set_state TaskState.running t) k',
    rw e
        (Picked-Switched (record k { interrupts = false }) t k' (interrupts-IsWellFormed false k v)
          p).current,
    IsFirst-PickCase (record k { interrupts = false })
        (rw q at (pick_next-PickCase (record k { interrupts = false }))),
    best-PickCase (record k { interrupts = false }) (interrupts-IsWellFormed false k v)
        (rw q at (pick_next-PickCase (record k { interrupts = false }))),
  )
]

-- Some task is ready.
abbrev pub HasReady : Sched → Type 0
HasReady k = 0 < length k.rt_queue + length k.cfs_queue + length k.idle_queue

-- `schedule` switches if some task is ready.
pub schedule-switches :
    (k : Sched) → IsWellFormed k → HasReady k → (s : Switch) × ((schedule k).1 ≡ some s)
schedule-switches k v h = elim (schedule_best k v) [
  | inl (a, b, c, _) ↦ absurd (omega (arith, h, ap length a, ap length b, ap length c))
  | inr (t, s, e, _, _, _, _) ↦ (s, e)
]
