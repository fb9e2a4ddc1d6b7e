-- ===== src/Sched/Task/Build.antt =====
-- The three constructors of a task: when they succeed, and what they return.
use Prim.Native.String.{String}
use vitr_os.Base.{
  ℕ, zero, suc, ◌+◌, ◌%◌, min, false, ◌^◌, ◌≤◌, ◌<◌, ◌≡◌, ◌≢◌, ◌⊎◌, inl, inr, refl, ltb, some, ℤ,
  pos, ok, err, arith,
}
use vitr_os.Sched.Context.{TaskError, init_frame, restore}
use vitr_os.Sched.Context.Frames.{new_lem, IsEntry, restore-new}
use vitr_os.Sched.Task.{
  Task, SchedulingClass, TaskState, World, new, new_realtime, top, nice_to_weight,
  kernel_virtual_base, clamp, nice_min, nice_max,
}
use vitr_os.Sched.Task.Weight.{nice_to_weight_total}

-- The heap lies low in physical memory, or is mapped in the upper half.
abbrev pub IsStackBase : ℕ → Type 0
IsStackBase base =
    (base + 16384 < 2 ^ 47) ⊎ (kernel_virtual_base ≤ base + 16384) × (base + 16384 < 2 ^ 64)

top-ge : (base : ℕ) → IsStackBase base → 1024 ≤ top base
unfolding top
top-ge base h = ground arith

-- What a new task is, whatever its class: a ready task with the next id, on its own stack, that
-- starts at its entry point when it is first switched to.
pub record IsNew (entry base : ℕ) (w : World) (t : Task) (w' : World) : Type 0 where
  pub id : t.id ≡ w.next_id
  pub state : t.state ≡ TaskState.ready
  pub vruntime : t.vruntime ≡ 0
  pub stack : t.stack ≡ base
  pub rsp : t.context.rsp + 576 ≤ top base
  pub starts : IsEntry entry (top base) (restore t.context w'.memory)

-- With a non-null entry point and a stack in a valid range `Task::new` succeeds. The task is a new
-- task of the Normal class, its nice value is clamped, and its weight, the one of the table, lies
-- between 15 and 88761.
pub new_builds :
    (name : String) (nice : ℤ) (entry stack : ℕ) (w : World)
    → entry ≢ 0
    → IsStackBase stack
    → (t : Task) × (w' : World) × (new name nice entry stack w ≡ ok (t, w'))
      × IsNew entry stack w t w'
      × (t.sched_class ≡ SchedulingClass.normal)
      × (t.nice ≡ clamp nice nice_min nice_max)
      × (nice_to_weight t.nice ≡ some t.weight)
      × (15 ≤ t.weight)
      × (t.weight ≤ 88761)
unfolding new
new_builds name nice entry stack w h s =
    let (c, e, al, lo, hi) = new_lem entry (top stack) w.memory h (top-ge stack s) in
    let (k, q, l, u) = nice_to_weight_total (clamp nice nice_min nice_max) in
    (
      record {
        id = w.next_id;
        name = name;
        sched_class = SchedulingClass.normal;
        nice = clamp nice nice_min nice_max;
        rt_priority = 0;
        weight = k;
        vruntime = 0;
        context = c;
        state = TaskState.ready;
        stack = stack;
      },
      record { next_id = (w.next_id + 1) % 2 ^ 64; memory = init_frame entry (top stack) w.memory },
      rw (e, q),
      record {
        id = refl;
        state = refl;
        vruntime = refl;
        stack = refl;
        rsp = lo;
        starts = restore-new entry (top stack) w.memory _ e (λ x _ _. refl);
      },
      refl,
      refl,
      q,
      l,
      u,
    )

not-below-one : (p : ℕ) → ltb (suc p) 1 ≡ false
not-below-one p = ground arith

-- `Task::new_realtime` refuses priority 0, whatever the other arguments: no entry point and no stack
-- is looked at. With any other priority, a non-null entry point and a stack in a valid range it
-- builds a new task of the Realtime class with the priority cut off at 99.
pub new_realtime_builds :
    (name : String) (priority entry stack : ℕ) (w : World)
    → (priority ≡ 0) ⊎ (entry ≢ 0) × IsStackBase stack
    → (priority ≡ 0) × (new_realtime name priority entry stack w ≡ err TaskError.invalid_priority)
      ⊎ ((t : Task) × (w' : World) × (new_realtime name priority entry stack w ≡ ok (t, w'))
          × IsNew entry stack w t w'
          × (t.sched_class ≡ SchedulingClass.realtime)
          × (1 ≤ t.rt_priority)
          × (t.rt_priority ≤ 99)
          × (t.rt_priority ≡ min priority 99))
unfolding new_realtime
new_realtime_builds name zero entry stack w c = inl (refl, refl)
new_realtime_builds name (suc p) entry stack w (inl z) = absurd (omega (arith, z))
new_realtime_builds name (suc p) entry stack w (inr (h, s)) =
    let (c, e, al, lo, hi) = new_lem entry (top stack) w.memory h (top-ge stack s) in
    inr (
      record {
        id = w.next_id;
        name = name;
        sched_class = SchedulingClass.realtime;
        nice = pos 0;
        rt_priority = min (suc p) 99;
        weight = 0;
        vruntime = 0;
        context = c;
        state = TaskState.ready;
        stack = stack;
      },
      record { next_id = (w.next_id + 1) % 2 ^ 64; memory = init_frame entry (top stack) w.memory },
      rw (not-below-one p, e),
      record {
        id = refl;
        state = refl;
        vruntime = refl;
        stack = refl;
        rsp = lo;
        starts = restore-new entry (top stack) w.memory _ e (λ x _ _. refl);
      },
      refl,
      omega arith,
      omega arith,
      refl,
    )
