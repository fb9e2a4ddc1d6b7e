-- ===== src/Timer/Sleep.antt =====
-- `sleep_ms` of `kernel/src/sched/blocking.rs`, `check_resched_on_interrupt_exit` of
-- `kernel/src/sched/scheduler.rs`, and how a sleeping task comes back.
use vitr_os.Base.{
  ℕ, suc, ◌+◌, ◌%◌, ◌^◌, ◌≤◌, ◌<◌, ◌≡◌, ◌≢◌, ◌⊎◌, refl, ap, ◌∙◌, sym, max, Bool, true, false,
  false≢true, Option, none, some, List, [], ◌∷◌, length, ◌==◌, if◌then◌else◌, Bool-cases, inl, inr,
  arith,
}
use vitr_os.Sched.Task.{Task}
use vitr_os.Sched.Scheduler.{Switch, current_task_id, schedule}
use vitr_os.Sched.Blocking.{block_current_task}
use vitr_os.Sched.Invariant.{count_blocked, count, IsWellFormed}
use vitr_os.Sched.Invariant.Wakeup.{unblock_task-IsWellFormed, count-unblock_task}
use vitr_os.Sched.Invariant.Wakeup.Delivery.{
  IsAwake, unblock_task-delivers, count_blocked-unblock_task,
}
use vitr_os.Timer.{
  Callback, wake, other, Timer, Kernel, ms_to_ticks, new, register_timer, invoke, with_pending,
  do_softirq, set_flags,
}
use vitr_os.Timer.Softirq.{IsCallback, invoke_all, do_softirq_lem}

abbrev with_interrupts : Bool → Kernel → Kernel
with_interrupts b k = let s = k.sched in record k { sched = record s { interrupts = b } }

-- The end of an interrupt handler, once softirqs are done: a pending request to reschedule is served
-- unless softirq processing is still running below this interrupt.
unfoldable pub resched : Kernel → Kernel × Option Switch
resched k =
    if k.timers.in_softirq
    then (k, none)
    else if k.sched.need_resched
    then (let s = k.sched in
        let (s', w) = schedule (record s { need_resched = false }) in (record k { sched = s' }, w))
    else (k, none)

after_softirq : Option Kernel → Option (Kernel × Option Switch)
after_softirq none = none
after_softirq (some k) = some (resched (with_interrupts false k))

-- `none`: out of fuel.
unfoldable pub check_resched_on_interrupt_exit :
    (ℕ → Kernel → Kernel) → ℕ → ℕ → Kernel → Option (Kernel × Option Switch)
unfolding resched after_softirq
check_resched_on_interrupt_exit run fuel inner k =
    if k.timers.softirq_pending
    then after_softirq (do_softirq run fuel inner (with_interrupts true k))
    else some (resched k)

-- The current task registers a timer that wakes it, of at least one tick, and blocks.
unfoldable pub sleep_ms : ℕ → Kernel → Kernel × Option Switch
sleep_ms ms k =
    if ms == 0
    then (let (s, w) = schedule k.sched in (record k { sched = s }, w))
    else (let (id, next) = current_task_id k.next_id k.sched in
        let (t, _) = register_timer (max (ms_to_ticks ms k.timers) 1) (wake id) k.timers in
        let (s, w) = block_current_task k.sched in
        (record { sched = s; timers = t; next_id = next }, w))

-- Callbacks of other modules do not block tasks.
pub record IsTame (run : ℕ → Kernel → Kernel) : Type 0 where
  pub sound : (c : ℕ) (k : Kernel) → IsWellFormed k.sched → IsWellFormed (run c k).sched
  pub keeps : (c i : ℕ) (k : Kernel) → count i (run c k).sched ≡ count i k.sched
  pub frees : (c i : ℕ) (k : Kernel) → count_blocked i (run c k).sched ≤ count_blocked i k.sched

-- A timer among them wakes the task.
abbrev pub Wakes : ℕ → List Timer → Type 0
Wakes i [] = ⊥
Wakes i (t ∷ l) = (t.callback ≡ some (wake i)) ⊎ Wakes i l

module _ (run : ℕ → Kernel → Kernel) (tame : IsTame run) where
  invoke-IsWellFormed :
      (o : Option Callback) (k : Kernel)
      → IsWellFormed k.sched
      → IsWellFormed (invoke run o k).sched
  unfolding invoke
  invoke-IsWellFormed none k v = v
  invoke-IsWellFormed (some (wake i)) k v = unblock_task-IsWellFormed i k.sched v
  invoke-IsWellFormed (some (other c)) k v = tame.sound c k v

  invoke-counts :
      (o : Option Callback) (k : Kernel) (i : ℕ)
      → IsWellFormed k.sched
      → (count i (invoke run o k).sched ≡ count i k.sched)
        × (count_blocked i (invoke run o k).sched ≤ count_blocked i k.sched)
  unfolding invoke
  invoke-counts none k i v = (refl, omega arith)
  invoke-counts (some (wake j)) k i v =
      (count-unblock_task j i k.sched v, count_blocked-unblock_task j i k.sched v)
  invoke-counts (some (other c)) k i v = (tame.keeps c i k, tame.frees c i k)

  invoke-wake :
      (o : Option Callback) (k : Kernel) (i : ℕ)
      → IsWellFormed k.sched
      → count i k.sched ≡ 1
      → o ≡ some (wake i)
      → count_blocked i (invoke run o k).sched ≡ 0
  unfolding invoke
  invoke-wake o k i v n e = rw e (unblock_task-delivers i k.sched v n).0

  -- A task that is not blocked stays so while callbacks run.
  invoke_all-awake :
      (i : ℕ) (l : List Timer) (k : Kernel)
      → IsWellFormed k.sched
      → count_blocked i k.sched ≡ 0
      → count_blocked i (invoke_all run l k).sched ≡ 0
  unfolding invoke_all
  invoke_all-awake i [] k v z = z
  invoke_all-awake i (t ∷ l) k v z =
      invoke_all-awake i l (invoke run t.callback (with_pending l k))
        (invoke-IsWellFormed t.callback (with_pending l k) v)
        (omega (arith, (invoke-counts t.callback (with_pending l k) i v).1, z))

  invoke_all-Wakes :
      (i : ℕ) (l : List Timer) (k : Kernel)
      → IsWellFormed k.sched
      → count i k.sched ≡ 1
      → Wakes i l
      → count_blocked i (invoke_all run l k).sched ≡ 0
  unfolding invoke_all
  invoke_all-Wakes i [] k v n w = absurd w
  invoke_all-Wakes i (t ∷ l) k v n (inl e) =
      invoke_all-awake i l (invoke run t.callback (with_pending l k))
        (invoke-IsWellFormed t.callback (with_pending l k) v)
        (invoke-wake t.callback (with_pending l k) i v n e)
  invoke_all-Wakes i (t ∷ l) k v n (inr w) =
      invoke_all-Wakes i l (invoke run t.callback (with_pending l k))
        (invoke-IsWellFormed t.callback (with_pending l k) v)
        ((invoke-counts t.callback (with_pending l k) i v).0 ∙ n) w

  count-invoke_all :
      (i : ℕ) (l : List Timer) (k : Kernel)
      → IsWellFormed k.sched
      → count i (invoke_all run l k).sched ≡ count i k.sched
  unfolding invoke_all
  count-invoke_all i [] k v = refl
  count-invoke_all i (t ∷ l) k v =
      count-invoke_all i l (invoke run t.callback (with_pending l k))
        (invoke-IsWellFormed t.callback (with_pending l k) v)
      ∙ (invoke-counts t.callback (with_pending l k) i v).0

-- Once the timer of a task that the scheduler knows has expired, and the softirq is raised and not
-- running already, softirq processing wakes the task: it is ready or current, once, and not blocked
-- any more, whichever other callbacks run before or after. Callbacks of other modules must keep the
-- scheduler's state well formed, neither add nor drop a task, not block tasks, and not touch the
-- pending queue or the flags; and the loop must have a round more than the pending queue has
-- timers.
pub do_softirq-Wakes :
    (run : ℕ → Kernel → Kernel) (i : ℕ) (k : Kernel) (fuel inner : ℕ)
    → IsCallback run
    → IsTame run
    → IsWellFormed k.sched
    → count i k.sched ≡ 1
    → Wakes i k.timers.pending_queue
    → k.timers.softirq_pending ≡ true
    → k.timers.in_softirq ≡ false
    → length k.timers.pending_queue < inner
    → (k' : Kernel) × (do_softirq run (suc (suc fuel)) inner k ≡ some k') × IsAwake i k'.sched
do_softirq-Wakes run i k fuel inner ok tame v n w s r h =
    let (k', e, p) = do_softirq_lem run k fuel inner ok h in
    (
      k',
      e,
      elim p [
        | inl (b, _) ↦ absurd (false≢true (sym r ∙ b))
        | inr (_, q) ↦ elim q.work [
          | inl (b, _, _) ↦ absurd (false≢true (sym b ∙ s))
          | inr (_, _, d) ↦
              let z =
                ap (count_blocked i) d
                ∙ invoke_all-Wakes run tame i k.timers.pending_queue (set_flags false true k) v n
                    w in
              let c =
                ap (count i) d
                ∙ count-invoke_all run tame i k.timers.pending_queue (set_flags false true k) v in
              (z, omega (arith, z, c, n))
        ]
      ],
    )

-- What going to sleep leaves behind: a timer at the head of the timer queue that wakes the current
-- task `i` at the deadline.
pub record Asleep (i ms : ℕ) (k k' : Kernel) : Type 0 where
  pub timer : Timer
  pub queued : k'.timers.timer_queue ≡ timer ∷ k.timers.timer_queue
  pub wakes : timer.callback ≡ some (wake i)
  pub deadline : timer.expires_at ≡ (k.timers.tick_count + max (ms_to_ticks ms k.timers) 1) % 2 ^ 64
  pub later : k.timers.tick_count < timer.expires_at

-- Unless the deadline wraps, `sleep_ms` with a positive time registers a timer that wakes the
-- current task at a later tick, and then does what `block_current_task` does.
pub sleep_ms-Asleep :
    (ms : ℕ) (t : Task) (k : Kernel)
    → ms ≢ 0
    → k.sched.current ≡ some t
    → k.timers.tick_count + max (ms_to_ticks ms k.timers) 1 < 2 ^ 64
    → Asleep t.id ms k (sleep_ms ms k).0
      × ((sleep_ms ms k).0.sched ≡ (block_current_task k.sched).0)
      × ((sleep_ms ms k).1 ≡ (block_current_task k.sched).1)
unfolding sleep_ms current_task_id register_timer new
sleep_ms-Asleep ms t k n c h = elim (Bool-cases (ms == 0)) [
  | inl e ↦ absurd (ground arith)
  | inr e ↦ rw e (
    record {
      timer = record {
        id = k.timers.timer_id_counter;
        expires_at = (k.timers.tick_count + max (ms_to_ticks ms k.timers) 1) % 2 ^ 64;
        callback = some (wake t.id);
      };
      queued = rw (c, current_task_id) refl;
      wakes = refl;
      deadline = refl;
      later = omega arith;
    },
    refl,
    refl,
  )
]
