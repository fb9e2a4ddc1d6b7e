-- ===== src/Timer.antt =====
-- `kernel/src/timer.rs`: the timer queue, the queue of expired timers, and softirq processing; with
-- the callers in `kernel/src/sched`: `sleep_ms` and `check_resched_on_interrupt_exit`.
pub mod Heap
pub mod Check
pub mod Softirq
pub mod Sleep
mod Tests
use vitr_os.Base.{
  ℕ, zero, suc, ◌+◌, ◌*◌, ◌/◌, ◌%◌, ◌^◌, ◌≤◌, max, Bool, true, false, Option, none, some, List, [],
  ◌∷◌, ◌++◌, leb, ◌==◌, if◌then◌else◌, length,
}
use vitr_os.Sched.Scheduler.{Sched, Switch, current_task_id, schedule}
use vitr_os.Sched.Blocking.{block_current_task, unblock_task}

-- The closure of `sleep_ms` wakes a task; any other callback is a number that `run` below explains.
pub data Callback : Type 0 where
  wake : ℕ → Callback
  other : ℕ → Callback

pub record Timer : Type 0 where
  pub id : ℕ
  pub expires_at : ℕ
  pub callback : Option Callback

-- The statics of the module.
pub record Timers : Type 0 where
  pub tick_count : ℕ
  pub timer_id_counter : ℕ
  pub timer_frequency_hz : ℕ
  pub softirq_pending : Bool
  pub in_softirq : Bool
  pub timer_queue : List Timer
  pub pending_queue : List Timer

-- The kernel as the timers and the scheduler see it.
pub record Kernel : Type 0 where
  pub sched : Sched
  pub timers : Timers
  pub next_id : ℕ

unfoldable pub increment_tick : Timers → Timers × ℕ
increment_tick s = let n = (s.tick_count + 1) % 2 ^ 64 in (record s { tick_count = n }, n)

-- `Timer::new`: the counter and the deadline wrap.
unfoldable pub new : ℕ → Callback → Timers → Timer × Timers
new delay_ticks callback s = (
  record {
    id = s.timer_id_counter;
    expires_at = (s.tick_count + delay_ticks) % 2 ^ 64;
    callback = some callback;
  },
  record s { timer_id_counter = (s.timer_id_counter + 1) % 2 ^ 64 },
)

-- `BinaryHeap::push`, the heap being the collection of its elements.
abbrev pub push : Timer → List Timer → List Timer
push t q = t ∷ q

unfoldable pub register_timer : ℕ → Callback → Timers → Timers × ℕ
register_timer delay_ticks callback s =
    let (t, s') = new delay_ticks callback s in
    (record s' { timer_queue = push t s'.timer_queue }, t.id)

unfoldable pub raise_softirq : Timers → Timers
raise_softirq s = record s { softirq_pending = true }

-- The multiplication wraps.
unfoldable pub ms_to_ticks : ℕ → Timers → ℕ
ms_to_ticks ms s = ms * s.timer_frequency_hz % 2 ^ 64 / 1000

-- What `BinaryHeap` documents: `pop` returns an element that is greatest in the order of `Timer`,
-- which is one with the earliest deadline, and leaves the others. Which of several such
-- elements it is, is left open.
abbrev pub Pop : Type 0
Pop = List Timer → Option (Timer × List Timer)

-- The loop of `check_timers` on the two queues; the Boolean is `has_pending`. `none`: out of fuel.
unfoldable pub move_expired :
    Pop → ℕ → ℕ → List Timer → List Timer → Bool → Option (List Timer × List Timer × Bool)
move_expired pop zero current queue pending has_pending = none
move_expired pop (suc fuel) current queue pending has_pending = elim (pop queue) [
  | none ↦ some (queue, pending, has_pending)
  | some (t, rest) ↦
      let more = move_expired pop fuel current rest (pending ++ (t ∷ [])) true in
      if leb t.expires_at current then more else some (queue, pending, has_pending)
]

finish_check : Timers → Option (List Timer × List Timer × Bool) → Option Timers
finish_check s none = none
finish_check s (some (queue, pending, has_pending)) =
    let s' = record s { timer_queue = queue; pending_queue = pending } in
    some (if has_pending then raise_softirq s' else s')

unfoldable pub check_timers : Pop → Timers → Option Timers
unfolding finish_check raise_softirq
check_timers pop s =
    finish_check s (
      move_expired pop (suc (length s.timer_queue)) s.tick_count s.timer_queue s.pending_queue
        false)

-- What a callback does to the kernel; `run` stands for the callbacks of other modules.
unfoldable pub invoke : (ℕ → Kernel → Kernel) → Option Callback → Kernel → Kernel
invoke run none k = k
invoke run (some (wake id)) k = record k { sched = unblock_task id k.sched }
invoke run (some (other c)) k = run c k

abbrev pub with_pending : List Timer → Kernel → Kernel
with_pending l k = let s = k.timers in record k { timers = record s { pending_queue = l } }

-- The loop of `process_pending_timers`. `none`: out of fuel.
unfoldable pub process_pending : (ℕ → Kernel → Kernel) → ℕ → Kernel → Option Kernel
process_pending run zero k = none
process_pending run (suc fuel) k = elim k.timers.pending_queue [
  | [] ↦ some k
  | t ∷ rest ↦ process_pending run fuel (invoke run t.callback (with_pending rest k))
]

abbrev pub set_flags : Bool → Bool → Kernel → Kernel
set_flags softirq_pending in_softirq k =
    let s = k.timers in
    record k { timers = record s { softirq_pending = softirq_pending; in_softirq = in_softirq } }

-- The loop of `do_softirq`: the flag is cleared before each round.
unfoldable pub softirq_loop : (ℕ → Kernel → Kernel) → ℕ → ℕ → Kernel → Option Kernel
softirq_loop run zero inner k = none
softirq_loop run (suc fuel) inner k = elim k.timers.softirq_pending [
  | false ↦ some (set_flags false k.timers.in_softirq k)
  | true ↦ elim (process_pending run inner (set_flags false k.timers.in_softirq k)) [
    | none ↦ none
    | some k' ↦ softirq_loop run fuel inner k'
  ]
]

leave_softirq : Option Kernel → Option Kernel
leave_softirq none = none
leave_softirq (some k) = some (set_flags k.timers.softirq_pending false k)

-- `do_softirq`: nothing if it is running already.
unfoldable pub do_softirq : (ℕ → Kernel → Kernel) → ℕ → ℕ → Kernel → Option Kernel
unfolding leave_softirq
do_softirq run fuel inner k =
    let rest =
      leave_softirq (softirq_loop run fuel inner (set_flags k.timers.softirq_pending true k)) in
    if k.timers.in_softirq then some k else rest
