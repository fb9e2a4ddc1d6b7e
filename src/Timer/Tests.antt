-- ===== src/Timer/Tests.antt =====
-- The theorems about timers at concrete inputs, and tests.
use vitr_os.Base.{ℕ, ◌≡◌, ◌⊎◌, inl, refl, true, false, ◌||◌, some, List, [], ◌∷◌, ◌++◌, arith}
use vitr_os.Sched.Invariant.Wakeup.Delivery.{IsAwake}
use vitr_os.Sched.Tests.{asleep, asleep-IsWellFormed, asleep-counts}
use vitr_os.Timer.{wake, Timer, Timers, Kernel, move_expired, check_timers, do_softirq}
use vitr_os.Timer.Heap.{select, select-IsBinaryHeap}
use vitr_os.Timer.Check.{Moved, marked, check_timers_lem}
use vitr_os.Timer.Softirq.{IsCallback, Processed, do_softirq_lem}
use vitr_os.Timer.Sleep.{IsTame, do_softirq-Wakes}

abbrev timer : ℕ → ℕ → Timer
timer i deadline = record { id = i; expires_at = deadline; callback = some (wake i) }

abbrev sample_timers : Timers
sample_timers = record {
  tick_count = 10;
  timer_id_counter = 4;
  timer_frequency_hz = 100;
  softirq_pending = false;
  in_softirq = false;
  timer_queue = timer 1 12 ∷ timer 2 10 ∷ timer 3 7 ∷ [];
  pending_queue = [];
}

check_timers_runs :
    check_timers select sample_timers
    ≡ some (record sample_timers {
      timer_queue = timer 1 12 ∷ [];
      pending_queue = timer 3 7 ∷ timer 2 10 ∷ [];
      softirq_pending = true;
    })
unfolding check_timers move_expired select
check_timers_runs = refl

check_timers_lem_example :
    (queue moved : List Timer) × (check_timers select sample_timers
      ≡ some (record sample_timers {
        timer_queue = queue;
        pending_queue = [] ++ moved;
        softirq_pending = false || marked false moved;
      }))
    × Moved 10 sample_timers.timer_queue queue moved
check_timers_lem_example = check_timers_lem select sample_timers select-IsBinaryHeap

-- Callbacks of other modules that do nothing to this part of the kernel.
abbrev quiet : ℕ → Kernel → Kernel
quiet c k = k

quiet-IsCallback : IsCallback quiet
quiet-IsCallback = record { pending = λ c k. refl; softirq = λ c k. refl; running = λ c k. refl }

quiet-IsTame : IsTame quiet
quiet-IsTame = record { sound = λ c k v. v; keeps = λ c i k. refl; frees = λ c i k. omega arith }

abbrev expired_timers : Timers
expired_timers = record sample_timers { pending_queue = timer 0 10 ∷ []; softirq_pending = true }

abbrev sample_kernel : Kernel
sample_kernel = record { sched = asleep; timers = expired_timers; next_id = 9 }

do_softirq_lem_example :
    (k' : Kernel) × (do_softirq quiet 2 2 sample_kernel ≡ some k')
    × ((sample_kernel.timers.in_softirq ≡ true) × (k' ≡ sample_kernel)
        ⊎ (sample_kernel.timers.in_softirq ≡ false) × Processed quiet sample_kernel k')
do_softirq_lem_example = do_softirq_lem quiet sample_kernel 0 2 quiet-IsCallback (omega arith)

do_softirq-Wakes_example :
    (k' : Kernel) × (do_softirq quiet 2 2 sample_kernel ≡ some k') × IsAwake 0 k'.sched
do_softirq-Wakes_example =
    do_softirq-Wakes quiet 0 sample_kernel 0 2 quiet-IsCallback quiet-IsTame asleep-IsWellFormed
      asleep-counts.2 (inl refl) refl refl (omega arith)
