-- ===== src/Timer/Softirq.antt =====
-- Softirq processing runs every pending callback once, in order, and ends.
use vitr_os.Base.{
  ℕ, zero, suc, ◌<◌, ◌≡◌, refl, ap, ◌∙◌, ◌⊎◌, Bool, true, false, Option, none, some, List, [], ◌∷◌,
  length, if◌then◌else◌, Bool-cases, inl, inr, arith,
}
use vitr_os.Timer.{
  Callback, wake, other, Timer, Kernel, invoke, with_pending, process_pending, set_flags,
  softirq_loop, leave_softirq, do_softirq,
}

-- A callback of another module leaves the pending queue and the two flags alone, in the absence of
-- timer interrupts.
pub record IsCallback (run : ℕ → Kernel → Kernel) : Type 0 where
  pub pending : (c : ℕ) (k : Kernel) → (run c k).timers.pending_queue ≡ k.timers.pending_queue
  pub softirq : (c : ℕ) (k : Kernel) → (run c k).timers.softirq_pending ≡ k.timers.softirq_pending
  pub running : (c : ℕ) (k : Kernel) → (run c k).timers.in_softirq ≡ k.timers.in_softirq

-- The callbacks of the timers, one after the other.
unfoldable pub invoke_all : (ℕ → Kernel → Kernel) → List Timer → Kernel → Kernel
invoke_all run [] k = k
invoke_all run (t ∷ l) k = invoke_all run l (invoke run t.callback (with_pending l k))

module _ (run : ℕ → Kernel → Kernel) (ok : IsCallback run) where
  invoke-pending :
      (o : Option Callback) (k : Kernel)
      → (invoke run o k).timers.pending_queue ≡ k.timers.pending_queue
  unfolding invoke
  invoke-pending none k = refl
  invoke-pending (some (wake i)) k = refl
  invoke-pending (some (other c)) k = ok.pending c k

  invoke-flags :
      (o : Option Callback) (k : Kernel)
      → ((invoke run o k).timers.softirq_pending ≡ k.timers.softirq_pending)
        × ((invoke run o k).timers.in_softirq ≡ k.timers.in_softirq)
  unfolding invoke
  invoke-flags none k = (refl, refl)
  invoke-flags (some (wake i)) k = (refl, refl)
  invoke-flags (some (other c)) k = (ok.softirq c k, ok.running c k)

  process_pending-invoke_all :
      (fuel : ℕ) (l : List Timer) (k : Kernel)
      → k.timers.pending_queue ≡ l
      → length l < fuel
      → process_pending run fuel k ≡ some (invoke_all run l k)
  unfolding process_pending invoke_all
  process_pending-invoke_all zero l k e h = absurd (omega arith)
  process_pending-invoke_all (suc fuel) [] k e h = ground (arith, e)
  process_pending-invoke_all (suc fuel) (t ∷ l) k e h =
      rw (e, process_pending)
        (process_pending-invoke_all fuel l (invoke run t.callback (with_pending l k))
          (invoke-pending t.callback (with_pending l k)) (omega arith))

  invoke_all-idle :
      (l : List Timer) (k : Kernel)
      → k.timers.pending_queue ≡ l
      → ((invoke_all run l k).timers.pending_queue ≡ [])
        × ((invoke_all run l k).timers.softirq_pending ≡ k.timers.softirq_pending)
        × ((invoke_all run l k).timers.in_softirq ≡ k.timers.in_softirq)
  unfolding invoke_all
  invoke_all-idle [] k e = (e, refl, refl)
  invoke_all-idle (t ∷ l) k e =
      let k' = invoke run t.callback (with_pending l k) in
      let (p, s, r) = invoke_all-idle l k' (invoke-pending t.callback (with_pending l k)) in
      let (fs, fr) = invoke-flags t.callback (with_pending l k) in (p, s ∙ fs, r ∙ fr)

  softirq_loop-idle :
      (fuel inner : ℕ) (k : Kernel)
      → k.timers.softirq_pending ≡ false
      → softirq_loop run (suc fuel) inner k ≡ some k
  unfolding softirq_loop
  softirq_loop-idle fuel inner k e = rw (e, softirq_loop) refl

  -- One round of the loop, then the test that ends it.
  softirq_loop-round :
      (fuel inner : ℕ) (k : Kernel)
      → k.timers.softirq_pending ≡ true
      → length k.timers.pending_queue < inner
      → softirq_loop run (suc (suc fuel)) inner k
        ≡ some (invoke_all run k.timers.pending_queue (set_flags false k.timers.in_softirq k))
  unfolding softirq_loop
  softirq_loop-round fuel inner k e h =
      let k1 = set_flags false k.timers.in_softirq k in
      let q : process_pending run inner k1 ≡ some (invoke_all run k.timers.pending_queue k1) =
        process_pending-invoke_all inner k.timers.pending_queue k1 refl h in
      let (p, s, r) = invoke_all-idle k.timers.pending_queue k1 refl in
      rw (e, softirq_loop)
        (rw q (softirq_loop-idle fuel inner (invoke_all run k.timers.pending_queue k1) s))

-- What `do_softirq` did, from `k` to `k'`: its flags are clear, the pending queue is empty if the
-- softirq was raised, and the callbacks have run in the order of the queue.
pub record Processed (run : ℕ → Kernel → Kernel) (k k' : Kernel) : Type 0 where
  pub ended : k'.timers.in_softirq ≡ false
  pub lowered : k'.timers.softirq_pending ≡ false
  pub work :
      (k.timers.softirq_pending ≡ false)
        × (k'.sched ≡ k.sched)
        × (k'.timers.pending_queue ≡ k.timers.pending_queue)
      ⊎ (k.timers.softirq_pending ≡ true)
        × (k'.timers.pending_queue ≡ [])
        × (k'.sched ≡ (invoke_all run k.timers.pending_queue (set_flags false true k)).sched)

module _ (run : ℕ → Kernel → Kernel) (ok : IsCallback run) (k : Kernel) (fuel inner : ℕ) where
  do_softirq-enter :
      {o : Option Kernel}
      → k.timers.in_softirq ≡ false
      → softirq_loop run (suc (suc fuel)) inner (set_flags k.timers.softirq_pending true k) ≡ o
      → do_softirq run (suc (suc fuel)) inner k ≡ leave_softirq o
  unfolding do_softirq
  do_softirq-enter {o} e r =
      ap
        (λ (b : Bool).
          if b
          then some k
          else leave_softirq
              (softirq_loop run (suc (suc fuel)) inner (set_flags k.timers.softirq_pending true k)))
        e
      ∙ ap leave_softirq r

  do_softirq-raised :
      k.timers.in_softirq ≡ false
      → k.timers.softirq_pending ≡ true
      → length k.timers.pending_queue < inner
      → (k' : Kernel) × (do_softirq run (suc (suc fuel)) inner k ≡ some k') × Processed run k k'
  unfolding leave_softirq
  do_softirq-raised e s h =
      let k2 = invoke_all run k.timers.pending_queue (set_flags false true k) in
      let (p, f, _) = invoke_all-idle run ok k.timers.pending_queue (set_flags false true k) refl in
      (
        set_flags k2.timers.softirq_pending false k2,
        do_softirq-enter e
            (softirq_loop-round run ok fuel inner (set_flags k.timers.softirq_pending true k) s h),
        record { ended = refl; lowered = f; work = inr (s, p, refl) },
      )

  do_softirq-calm :
      k.timers.in_softirq ≡ false
      → k.timers.softirq_pending ≡ false
      → (k' : Kernel) × (do_softirq run (suc (suc fuel)) inner k ≡ some k') × Processed run k k'
  unfolding leave_softirq
  do_softirq-calm e s = (
    set_flags k.timers.softirq_pending false (set_flags k.timers.softirq_pending true k),
    do_softirq-enter e
        (softirq_loop-idle run ok (suc fuel) inner (set_flags k.timers.softirq_pending true k) s),
    record { ended = refl; lowered = s; work = inl (s, refl, refl) },
  )

  do_softirq-nested : k.timers.in_softirq ≡ true → do_softirq run (suc (suc fuel)) inner k ≡ some k
  unfolding do_softirq
  do_softirq-nested e =
      ap
        (λ (b : Bool).
          if b
          then some k
          else leave_softirq
              (softirq_loop run (suc (suc fuel)) inner (set_flags k.timers.softirq_pending true k)))
        e

-- `do_softirq` ends after at most two rounds, each with one step for each pending timer and one more.
-- While softirq processing is running already it does nothing. Otherwise it clears both flags and,
-- if the softirq was raised, empties the pending queue and runs its callbacks in order. Callbacks
-- of other modules must not touch the pending queue or the flags, and no timer interrupt comes
-- in between.
pub do_softirq_lem :
    (run : ℕ → Kernel → Kernel) (k : Kernel) (fuel inner : ℕ)
    → IsCallback run
    → length k.timers.pending_queue < inner
    → (k' : Kernel) × (do_softirq run (suc (suc fuel)) inner k ≡ some k')
      × ((k.timers.in_softirq ≡ true) × (k' ≡ k)
          ⊎ (k.timers.in_softirq ≡ false) × Processed run k k')
do_softirq_lem run k fuel inner ok h = elim (Bool-cases k.timers.in_softirq) [
  | inl e ↦ (k, do_softirq-nested run ok k fuel inner e, inl (e, refl))
  | inr e ↦ elim (Bool-cases k.timers.softirq_pending) [
    | inl s ↦ let (k', q, p) = do_softirq-raised run ok k fuel inner e s h in (k', q, inr (e, p))
    | inr s ↦ let (k', q, p) = do_softirq-calm run ok k fuel inner e s in (k', q, inr (e, p))
  ]
]
