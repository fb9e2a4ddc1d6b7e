-- ===== src/Sched/Task.antt =====
-- `kernel/src/sched/task.rs`: tasks, their classes and states, weights and virtual run time.
pub mod Weight
pub mod Build
use Prim.Native.String.{String}
use vitr_os.Base.{
  ℕ, ◌+◌, ◌-◌, ◌*◌, ◌/◌, ◌%◌, ◌^◌, ◌≡◌, min, Bool, true, false, Option, none, some, List, [], ◌∷◌,
  ltb, leb, ◌==◌, ℤ, pos, negsuc, ◌-ℤ◌, leb_ℤ, to_usize, get_elem?, if◌then◌else◌, Outcome, ok, err,
  panic, ◌>>=◌,
}
use vitr_os.Sched.Context.{TaskError, Context, Memory}
use vitr_os.Sched.Context

pub data SchedulingClass : Type 0 where
  realtime normal idle : SchedulingClass

pub data TaskState : Type 0 where
  running ready blocked terminated : TaskState

abbrev pub nice_min : ℤ
nice_min = negsuc 19

abbrev pub nice_max : ℤ
nice_max = pos 19

abbrev pub rt_priority_min : ℕ
rt_priority_min = 1

abbrev pub rt_priority_max : ℕ
rt_priority_max = 99

-- `PRIO_TO_WEIGHT`.
abbrev pub prio_to_weight : List ℕ
prio_to_weight =
    88761 ∷ 71755 ∷ 56483 ∷ 46273 ∷ 36291 ∷ 29154 ∷ 23254 ∷ 18705 ∷ 14949 ∷ 11916 ∷ 9548 ∷ 7620
    ∷ 6100 ∷ 4904 ∷ 3906 ∷ 3121 ∷ 2501 ∷ 1991 ∷ 1586 ∷ 1277 ∷ 1024 ∷ 820 ∷ 655 ∷ 526 ∷ 423 ∷ 335
    ∷ 272 ∷ 215 ∷ 172 ∷ 137 ∷ 110 ∷ 87 ∷ 70 ∷ 56 ∷ 45 ∷ 36 ∷ 29 ∷ 23 ∷ 18 ∷ 15 ∷ []

-- `Ord::clamp`.
abbrev pub clamp : ℤ → ℤ → ℤ → ℤ
clamp x lo hi = if leb_ℤ lo x then (if leb_ℤ x hi then x else hi) else lo

-- `none` is the panic of an index out of range.
unfoldable pub nice_to_weight : ℤ → Option ℕ
nice_to_weight nice = get_elem? prio_to_weight (to_usize (clamp nice nice_min nice_max -ℤ nice_min))

abbrev pub stack_size : ℕ
stack_size = 16384

abbrev pub kernel_virtual_base : ℕ
kernel_virtual_base = 0xFFFF800000000000

-- `TaskStack::top`, of a stack that lies at `base`.
unfoldable pub top : ℕ → ℕ
top base =
    let physical_top = (base + stack_size) % 2 ^ 64 in
    if leb kernel_virtual_base physical_top
    then physical_top
    else (kernel_virtual_base + physical_top) % 2 ^ 64

pub record Task : Type 0 where
  pub id : ℕ
  pub name : String
  pub sched_class : SchedulingClass
  pub nice : ℤ
  pub rt_priority : ℕ
  pub weight : ℕ
  pub vruntime : ℕ
  pub context : Context
  pub state : TaskState
  pub stack : ℕ

-- What the creation of a task reads and writes: the counter of `TaskId::new`, and memory.
pub record World : Type 0 where
  pub next_id : ℕ
  pub memory : Memory

-- `TaskId::new`: the id, and the counter after `fetch_add`, which wraps.
abbrev pub fresh_id : ℕ → ℕ × ℕ
fresh_id next = (next, (next + 1) % 2 ^ 64)

or_panic {ℓ} : {A : Type ℓ} → Option A → Outcome TaskError A
or_panic none = panic
or_panic (some a) = ok a

-- `Task::new`. `stack` is the address that the heap gave to the stack.
unfoldable pub new : String → ℤ → ℕ → ℕ → World → Outcome TaskError (Task × World)
unfolding or_panic
new name nice entry_point stack w = do
  (context, memory) ← Context.new entry_point (top stack) w.memory
  let clamped_nice = clamp nice nice_min nice_max
  weight ← or_panic (nice_to_weight clamped_nice)
  let (id, next) = fresh_id w.next_id
  ok (
    record {
      id = id;
      name = name;
      sched_class = SchedulingClass.normal;
      nice = clamped_nice;
      rt_priority = 0;
      weight = weight;
      vruntime = 0;
      context = context;
      state = TaskState.ready;
      stack = stack;
    },
    record { next_id = next; memory = memory },
  )

-- `Task::new_realtime`.
unfoldable pub new_realtime : String → ℕ → ℕ → ℕ → World → Outcome TaskError (Task × World)
new_realtime name rt_priority entry_point stack w =
    if ltb rt_priority rt_priority_min then err TaskError.invalid_priority else do
      (context, memory) ← Context.new entry_point (top stack) w.memory
      let (id, next) = fresh_id w.next_id
      ok (
        record {
          id = id;
          name = name;
          sched_class = SchedulingClass.realtime;
          nice = pos 0;
          rt_priority = min rt_priority rt_priority_max;
          weight = 0;
          vruntime = 0;
          context = context;
          state = TaskState.ready;
          stack = stack;
        },
        record { next_id = next; memory = memory },
      )

-- `Task::new_idle`.
unfoldable pub new_idle : String → ℕ → ℕ → World → Outcome TaskError (Task × World)
unfolding or_panic
new_idle name entry_point stack w = do
  (context, memory) ← Context.new entry_point (top stack) w.memory
  weight ← or_panic (nice_to_weight nice_max)
  let (id, next) = fresh_id w.next_id
  ok (
    record {
      id = id;
      name = name;
      sched_class = SchedulingClass.idle;
      nice = nice_max;
      rt_priority = 0;
      weight = weight;
      vruntime = 0;
      context = context;
      state = TaskState.ready;
      stack = stack;
    },
    record { next_id = next; memory = memory },
  )

abbrev pub base_weight : ℕ
base_weight = 1024

-- `u64::saturating_add`.
abbrev pub saturating_add : ℕ → ℕ → ℕ
saturating_add a b = min (a + b) (2 ^ 64 - 1)

-- `Task::update_vruntime`. The product wraps; the sum saturates.
unfoldable pub update_vruntime : ℕ → Task → Task
update_vruntime delta t =
    if t.weight == 0
    then t
    else record t { vruntime = saturating_add t.vruntime (delta * base_weight % 2 ^ 64 / t.weight) }

-- `Task::set_state`.
abbrev pub set_state : TaskState → Task → Task
set_state s t = record t { state = s }
