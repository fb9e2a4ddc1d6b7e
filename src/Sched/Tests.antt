-- ===== src/Sched/Tests.antt =====
-- The theorems about the scheduler at concrete inputs, and tests.
use vitr_os.Base.{
  ℕ, ◌+◌, ◌*◌, ◌^◌, min, ◌≤◌, ◌<◌, ◌≡◌, ◌⊎◌, inl, refl, true, false, none, some, [], inr, pos,
  negsuc, ok, err, arith,
}
use vitr_os.Collections.Order.{nat_order, pair_order}
use vitr_os.Collections.TreeMap.{insert, contains_key, pop_first}
use vitr_os.Sched.Context.{Memory, Cpu, TaskError, new, init_frame, save, restore}
use vitr_os.Sched.Context.Frames.{IsEntry, restore-new, IsResumed, restore-save}
use vitr_os.Sched.Task.{
  Task, SchedulingClass, TaskState, World, set_state, update_vruntime, nice_to_weight, nice_min,
  nice_max, clamp, top,
}
use vitr_os.Sched.Task
use vitr_os.Sched.Task.Weight.{update_vruntime_advances}
use vitr_os.Sched.Task.Build.{IsNew, new_builds, new_realtime_builds}
use vitr_os.Sched.Scheduler.{
  Sched, Switch, enqueue_task, set_current_task, pick_next, switch_from, schedule, retire, leaving,
  charge,
}
use vitr_os.Sched.Blocking.{prepare_block, block_current_task, unblock_task}
use vitr_os.Sched.Invariant.{count_ready, count_current, count_blocked, count, IsWellFormed}
use vitr_os.Sched.Invariant.Switch.Whole.{count-schedule, schedule-IsWellFormed}
use vitr_os.Sched.Invariant.Wakeup.{prepare_block-IsWellFormed}
use vitr_os.Sched.Invariant.Switch.Priority.{Precedes, IsFirst, AllReady, schedule_best}
use vitr_os.Sched.Invariant.Switch.Terminated.{schedule_terminated}
use vitr_os.Sched.Invariant.Wakeup.Delivery.{
  unblock_task-delivers, unblock-block, prepare-unblock-schedule,
}
use vitr_os.Sched.Invariant.Wakeup.Steps.{
  boot, Reach, boot-Reach-IsWellFormed, add, install, switch, here, next,
}

abbrev pub sample_task : ℕ → SchedulingClass → ℕ → ℕ → TaskState → Task
sample_task id c priority weight s = record {
  id = id;
  name = "sample";
  sched_class = c;
  nice = pos 0;
  rt_priority = priority;
  weight = weight;
  vruntime = 0;
  context = record { rsp = 0 };
  state = s;
  stack = 0;
}

abbrev pub worker : Task
worker = sample_task 1 SchedulingClass.normal 0 1024 TaskState.ready

abbrev pub compositor : Task
compositor = sample_task 2 SchedulingClass.realtime 50 0 TaskState.ready

abbrev pub main_task : Task
main_task = sample_task 0 SchedulingClass.normal 0 1024 TaskState.running

-- The main task runs, and two tasks have been added.
unfoldable pub busy : Sched
busy = enqueue_task compositor (enqueue_task worker (set_current_task main_task boot))

busy-Reach : Reach boot busy
unfolding busy enqueue_task set_current_task boot insert
busy-Reach =
    next
      (next (next here (install main_task refl (omega arith) refl))
        (add worker refl (omega arith) refl))
      (add compositor refl (omega arith) refl)

pub busy-IsWellFormed : IsWellFormed busy
busy-IsWellFormed = boot-Reach-IsWellFormed busy-Reach

boot-Reach-IsWellFormed_example : IsWellFormed (schedule busy).0
boot-Reach-IsWellFormed_example = boot-Reach-IsWellFormed (next busy-Reach switch)

count-schedule_example : count 0 (schedule busy).0 ≡ count 0 busy
unfolding busy enqueue_task set_current_task boot
count-schedule_example = count-schedule busy 0 busy-IsWellFormed (λ e. cc)

schedule_best_example :
    (busy.rt_queue ≡ [])
      × (busy.cfs_queue ≡ [])
      × (busy.idle_queue ≡ [])
      × (schedule busy ≡ (record busy { interrupts = true }, none))
    ⊎ ((t : Task) × (s : Switch) × ((schedule busy).1 ≡ some s)
        × (s.new ≡ t.id)
        × ((schedule busy).0.current ≡ some (set_state TaskState.running t))
        × IsFirst t busy
        × AllReady (Precedes t) busy)
schedule_best_example = schedule_best busy busy-IsWellFormed

schedule-busy : (schedule busy).1 ≡ some (record { old = some 0; new = 2 })
unfolding busy enqueue_task set_current_task boot insert schedule pop_first pick_next switch_from
schedule-busy = refl

unblock_task-delivers_example :
    (count_blocked 1 (unblock_task 1 busy) ≡ 0)
    × ((count_ready 1 (unblock_task 1 busy) ≡ 1)
        ⊎ (count_current 1 busy.current ≡ 1)
          × (contains_key 1 (unblock_task 1 busy).wakeup_pending ≡ true))
unfolding busy enqueue_task set_current_task boot insert
unblock_task-delivers_example = unblock_task-delivers 1 busy busy-IsWellFormed refl

unblock-block_example :
    ((block_current_task (unblock_task 0 busy)).1 ≡ none)
    × ((block_current_task (unblock_task 0 busy)).0.current ≡ some main_task)
    × (contains_key 0 (block_current_task (unblock_task 0 busy)).0.wakeup_pending ≡ false)
    × (count_ready 0 (block_current_task (unblock_task 0 busy)).0 ≡ count_ready 0 busy)
unfolding busy enqueue_task set_current_task boot
unblock-block_example = unblock-block main_task busy busy-IsWellFormed refl

prepare-unblock-schedule_example :
    (count_blocked 0 (schedule (unblock_task 0 (prepare_block busy).0)).0 ≡ 0)
    × (count_ready 0 (schedule (unblock_task 0 (prepare_block busy).0)).0
          + count_current 0 (schedule (unblock_task 0 (prepare_block busy).0)).0.current
        ≡ 1)
unfolding busy enqueue_task set_current_task boot prepare_block contains_key
prepare-unblock-schedule_example =
    prepare-unblock-schedule main_task busy busy-IsWellFormed refl refl

-- The main task has ended.
ended : Sched
ended =
    enqueue_task worker
      (set_current_task (sample_task 0 SchedulingClass.normal 0 1024 TaskState.terminated) boot)

ended-IsWellFormed : IsWellFormed ended
unfolding ended enqueue_task set_current_task boot insert
ended-IsWellFormed = boot-Reach-IsWellFormed (
    next
      (next here (
        install (sample_task 0 SchedulingClass.normal 0 1024 TaskState.terminated) refl
          (omega arith) refl))
      (add worker refl (omega arith) refl))

schedule_terminated_example :
    (s : Switch) × ((schedule ended).1 ≡ some s)
    × (s.old ≡ some 0)
    × (count 0 (schedule ended).0 ≡ 0)
unfolding ended enqueue_task set_current_task boot insert
schedule_terminated_example =
    schedule_terminated (sample_task 0 SchedulingClass.normal 0 1024 TaskState.terminated) ended
      ended-IsWellFormed refl refl (omega arith)

-- The main task and the compositor have blocked.
unfoldable pub asleep : Sched
unfolding busy
asleep = (schedule (prepare_block (schedule (prepare_block busy).0).0).0).0

pub asleep-IsWellFormed : IsWellFormed asleep
unfolding asleep
asleep-IsWellFormed =
    let s = (schedule (prepare_block busy).0).0 in
    let v : IsWellFormed s =
      schedule-IsWellFormed (prepare_block busy).0
        (prepare_block-IsWellFormed busy busy-IsWellFormed) in
    schedule-IsWellFormed (prepare_block s).0 (prepare_block-IsWellFormed s v)

-- Both are blocked, and nowhere else.
pub asleep-counts :
    (count_blocked 0 asleep ≡ 1)
    × (count_blocked 2 asleep ≡ 1)
    × (count 0 asleep ≡ 1)
    × (count 2 asleep ≡ 1)
unfolding asleep busy enqueue_task set_current_task boot insert prepare_block schedule pick_next
    switch_from pop_first contains_key retire leaving charge update_vruntime
asleep-counts = (refl, refl, refl, refl)

zeros : Memory
zeros x = 0

abbrev first_frame : Memory
first_frame = init_frame 0x401000 0x8000 zeros

restore-new_example : IsEntry 0x401000 0x8000 (restore (record { rsp = 0x7dc0 }) first_frame)
unfolding new
restore-new_example =
    restore-new 0x401000 0x8000 zeros first_frame {c = record { rsp = 0x7dc0 }} {n = first_frame}
      refl (λ x _ _. refl)

abbrev sample_cpu : Cpu
sample_cpu = record {
  rsp = 0x8000;
  rip = 0x401000;
  rflags = 0x46;
  rbp = 1;
  rbx = 2;
  r12 = 3;
  r13 = 4;
  r14 = 5;
  r15 = 6;
  fpu = λ i. i;
}

restore-save_example :
    IsResumed sample_cpu (restore (save sample_cpu zeros).0 (save sample_cpu zeros).1) zeros
restore-save_example =
    restore-save sample_cpu zeros (save sample_cpu zeros).1 (omega arith) (λ x _ _. refl)

abbrev sample_world : World
sample_world = record { next_id = 7; memory = zeros }

new_builds_example :
    (t : Task) × (w' : World) × (Task.new "shell" (negsuc 29) 0x401000 0x200000 sample_world
      ≡ ok (t, w'))
    × IsNew 0x401000 0x200000 sample_world t w'
    × (t.sched_class ≡ SchedulingClass.normal)
    × (t.nice ≡ clamp (negsuc 29) nice_min nice_max)
    × (nice_to_weight t.nice ≡ some t.weight)
    × (15 ≤ t.weight)
    × (t.weight ≤ 88761)
new_builds_example =
    new_builds "shell" (negsuc 29) 0x401000 0x200000 sample_world (omega arith) (inl (omega arith))

new_realtime_builds_example :
    (◌≡◌ {A = ℕ} 200 0)
      × (Task.new_realtime "mouse" 200 0x401000 0x200000 sample_world
          ≡ err TaskError.invalid_priority)
    ⊎ ((t : Task) × (w' : World) × (Task.new_realtime "mouse" 200 0x401000 0x200000 sample_world
          ≡ ok (t, w'))
        × IsNew 0x401000 0x200000 sample_world t w'
        × (t.sched_class ≡ SchedulingClass.realtime)
        × (1 ≤ t.rt_priority)
        × (t.rt_priority ≤ 99)
        × (t.rt_priority ≡ min 200 99))
new_realtime_builds_example =
    new_realtime_builds "mouse" 200 0x401000 0x200000 sample_world
      (inr (omega arith, inl (omega arith)))

-- A task of nice value -20 does not advance by the minimal charge of 1.
abbrev heavy : Task
heavy = sample_task 3 SchedulingClass.normal 0 88761 TaskState.running

update_vruntime_advances_example :
    ((update_vruntime 1 heavy).vruntime < 2 ^ 64)
    × ((heavy.weight ≤ 1 * 1024) × (heavy.vruntime < (update_vruntime 1 heavy).vruntime)
        ⊎ (1 * 1024 < heavy.weight) × ((update_vruntime 1 heavy).vruntime ≡ heavy.vruntime))
update_vruntime_advances_example =
    update_vruntime_advances 1 heavy (omega arith) (omega arith) (omega arith)
