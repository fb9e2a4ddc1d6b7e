-- ===== src/Sync/WaitQueue.antt =====
-- `kernel/src/sync/wait_queue.rs`: waiters are woken in order, and none is left behind.
use vitr_os.Base.{ℕ, ◌≡◌, ◌⊎◌, refl, ◌∙◌, true, false, List, [], ◌∷◌, All, All-zip, inl, inr, arith}
use vitr_os.Sched.Scheduler.{Sched}
use vitr_os.Sched.Blocking.{unblock_task}
use vitr_os.Sched.Invariant.{count_blocked, count, IsWellFormed}
use vitr_os.Sched.Invariant.Wakeup.{unblock_task-IsWellFormed, count-unblock_task}
use vitr_os.Sched.Invariant.Wakeup.Delivery.{
  IsAwake, unblock_task-delivers, count_blocked-unblock_task,
}
use vitr_os.Sync.{Shared, wake_first, wake_one, wake_each, wake_all}

-- `wake_one` returns false on an empty queue, and then changes nothing. Otherwise it returns true,
-- takes out the task that has waited longest and leaves the others in order; a known task that it
-- wakes is not blocked any more. The lock flag stays, and the scheduler's state well formed.
wake_one-first :
    (s : Shared)
    → IsWellFormed s.sched
    → All (λ i. count i s.sched ≡ 1) s.waiters
    → IsWellFormed (wake_one s).0.sched
      × ((wake_one s).0.locked ≡ s.locked)
      × ((s.waiters ≡ []) × (wake_one s ≡ (s, false))
          ⊎ ((i : ℕ) × (s.waiters ≡ i ∷ (wake_one s).0.waiters)
              × ((wake_one s).1 ≡ true)
              × (count_blocked i (wake_one s).0.sched ≡ 0)))
unfolding wake_one
wake_one-first s v a = first s.waiters refl a
  where
    first :
        (l : List ℕ)
        → s.waiters ≡ l
        → All (λ i. count i s.sched ≡ 1) l
        → IsWellFormed (wake_first l s).0.sched
          × ((wake_first l s).0.locked ≡ s.locked)
          × ((s.waiters ≡ []) × (wake_first l s ≡ (s, false))
              ⊎ ((i : ℕ) × (s.waiters ≡ i ∷ (wake_first l s).0.waiters)
                  × ((wake_first l s).1 ≡ true)
                  × (count_blocked i (wake_first l s).0.sched ≡ 0)))
    first [] e q = (v, refl, inl (e, refl))
    first (i ∷ r) e q = (
      unblock_task-IsWellFormed i s.sched v,
      refl,
      inr (i, e, refl, (unblock_task-delivers i s.sched v q.0).0),
    )

known-unblock :
    (i : ℕ) (k : Sched) (l : List ℕ)
    → IsWellFormed k
    → All (λ j. count j k ≡ 1) l
    → All (λ j. count j (unblock_task i k) ≡ 1) l
known-unblock i k [] v a = tt
known-unblock i k (j ∷ l) v a = (count-unblock_task i j k v ∙ a.0, known-unblock i k l v a.1)

wake_each-awake :
    (i : ℕ) (l : List ℕ) (s : Shared)
    → IsWellFormed s.sched
    → count_blocked i s.sched ≡ 0
    → count_blocked i (wake_each l s).sched ≡ 0
unfolding wake_each
wake_each-awake i [] s v z = z
wake_each-awake i (j ∷ l) s v z =
    wake_each-awake i l (record s { waiters = l; sched = unblock_task j s.sched })
      (unblock_task-IsWellFormed j s.sched v)
      (omega (arith, count_blocked-unblock_task j i s.sched v, z))

wake_each-wakes :
    (l : List ℕ) (s : Shared)
    → IsWellFormed s.sched
    → All (λ i. count i s.sched ≡ 1) l
    → All (λ i. count_blocked i (wake_each l s).sched ≡ 0) l
unfolding wake_each
wake_each-wakes [] s v a = tt
wake_each-wakes (i ∷ l) s v a =
    let s' : Shared = record s { waiters = l; sched = unblock_task i s.sched } in
    let v' : IsWellFormed s'.sched = unblock_task-IsWellFormed i s.sched v in
    (
      wake_each-awake i l s' v' (unblock_task-delivers i s.sched v a.0).0,
      wake_each-wakes l s' v' (known-unblock i s.sched l v a.1),
    )

wake_each-known :
    (l : List ℕ) (w : List ℕ) (s : Shared)
    → IsWellFormed s.sched
    → All (λ i. count i s.sched ≡ 1) w
    → All (λ i. count i (wake_each l s).sched ≡ 1) w
unfolding wake_each
wake_each-known [] w s v a = a
wake_each-known (i ∷ l) w s v a =
    wake_each-known l w (record s { waiters = l; sched = unblock_task i s.sched })
      (unblock_task-IsWellFormed i s.sched v) (known-unblock i s.sched w v a)

wake_each-empties :
    (l : List ℕ) (s : Shared)
    → s.waiters ≡ l
    → ((wake_each l s).waiters ≡ []) × ((wake_each l s).locked ≡ s.locked)
unfolding wake_each
wake_each-empties [] s e = (e, refl)
wake_each-empties (i ∷ l) s e =
    wake_each-empties l (record s { waiters = l; sched = unblock_task i s.sched }) refl

-- `wake_all` empties the queue, and each task that waited in it and that the scheduler knows is ready
-- or current afterwards, once, and not blocked.
pub wake_all-wakes :
    (s : Shared)
    → IsWellFormed s.sched
    → All (λ i. count i s.sched ≡ 1) s.waiters
    → ((wake_all s).waiters ≡ [])
      × ((wake_all s).locked ≡ s.locked)
      × All (λ i. IsAwake i (wake_all s).sched) s.waiters
unfolding wake_all
wake_all-wakes s v a =
    let (e, l) = wake_each-empties s.waiters s refl in
    (
      e,
      l,
      All-zip
          (λ i (n : count i (wake_each s.waiters s).sched ≡ 1)
              (z : count_blocked i (wake_each s.waiters s).sched ≡ 0).
            (z, omega (arith, n, z)))
          s.waiters (wake_each-known s.waiters s.waiters s v a) (wake_each-wakes s.waiters s v a),
    )
