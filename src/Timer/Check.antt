-- ===== src/Timer/Check.antt =====
-- `check_timers` moves the expired timers, and only these.
use mathlib.Core.List.{append_assoc, append-nil}
use vitr_os.Base.{
  ℕ, zero, suc, ◌+◌, ◌≤◌, ◌<◌, ◌≡◌, refl, ◌∙◌, Bool, true, false, ◌||◌, some, List, [], ◌∷◌, ◌++◌,
  ltb, leb, if◌then◌else◌, length, All, All-mono, sum_by, Bool-cases, Option-cases, inl, inr, arith,
}
use vitr_os.Timer.{Timer, Timers, Pop, move_expired, finish_check, raise_softirq, check_timers}
use vitr_os.Timer.Heap.{IsBinaryHeap}

-- Whether a bound holds of all elements shows in a sum of weights, and so passes to any part.
early : ℕ → Timer → ℕ
early d u = if ltb u.expires_at d then 1 else 0

early-none : (d : ℕ) (l : List Timer) → All (λ u. d ≤ u.expires_at) l → sum_by (early d) l ≡ 0
unfolding early
early-none d [] a = refl
early-none d (u ∷ l) a = ground (arith, early-none d l a.1, a.0)

early-All : (d : ℕ) (l : List Timer) → sum_by (early d) l ≡ 0 → All (λ u. d ≤ u.expires_at) l
unfolding early
early-All d [] h = tt
early-All d (u ∷ l) h = (ground arith, early-All d l (ground arith))

abbrev pub IsAscending : List Timer → Type 0
IsAscending [] = Unit
IsAscending (t ∷ l) = All (λ u. t.expires_at ≤ u.expires_at) l × IsAscending l

-- The queues after a check at time `now`: `moved` has left the first and joined the second.
pub record Moved (now : ℕ) (queue queue' moved : List Timer) : Type 0 where
  pub kept : All (λ u. now < u.expires_at) queue'
  pub expired : All (λ u. u.expires_at ≤ now) moved
  pub ordered : IsAscending moved
  pub counted : (w : Timer → ℕ) → sum_by w queue ≡ sum_by w queue' + sum_by w moved

-- The flag that the loop returns: it was set, or a timer has been moved.
abbrev pub marked : Bool → List Timer → Bool
marked b [] = b
marked b (t ∷ l) = true

sum_by-length : (l : List Timer) → sum_by (λ _. 1) l ≡ length l
sum_by-length [] = refl
sum_by-length (t ∷ l) = omega (arith, sum_by-length l)

marked-true : (l : List Timer) → marked true l ≡ true
marked-true [] = refl
marked-true (t ∷ l) = refl

module _ (pop : Pop) (heap : IsBinaryHeap pop) (now : ℕ) where
  stop-Moved :
      (queue rest : List Timer) (t : Timer)
      → pop queue ≡ some (t, rest)
      → now < t.expires_at
      → Moved now queue queue []
  unfolding early
  stop-Moved queue rest t e h = record {
    kept = early-All (suc now) queue (
        heap.pop_sum queue t rest e (early (suc now))
        ∙ ground (
          arith,
          early-none (suc now) rest
              (All-mono (λ u q. omega arith) rest (heap.pop_least queue t rest e)),
        ));
    expired = tt;
    ordered = tt;
    counted = λ w. omega arith;
  }

  step-Moved :
      (queue rest queue' moved : List Timer) (t : Timer)
      → pop queue ≡ some (t, rest)
      → t.expires_at ≤ now
      → Moved now rest queue' moved
      → Moved now queue queue' (t ∷ moved)
  step-Moved queue rest queue' moved t e h m =
      let z : sum_by (early t.expires_at) rest ≡ 0 =
        early-none t.expires_at rest (heap.pop_least queue t rest e) in
      record {
        kept = m.kept;
        expired = (h, m.expired);
        ordered = (
          early-All t.expires_at moved (omega (arith, z, m.counted (early t.expires_at))),
          m.ordered,
        );
        counted = λ w. omega (arith, heap.pop_sum queue t rest e w, m.counted w);
      }

  move_expired-Moved :
      (fuel : ℕ) (queue pending : List Timer) (b : Bool)
      → length queue < fuel
      → (queue' moved : List Timer) × (move_expired pop fuel now queue pending b
          ≡ some (queue', pending ++ moved, marked b moved))
        × Moved now queue queue' moved
  unfolding move_expired
  move_expired-Moved zero queue pending b h = absurd (omega arith)
  move_expired-Moved (suc fuel) queue pending b h = elim (Option-cases (pop queue)) [
    | inl e ↦ (
      queue,
      [],
      rw (e, append-nil, move_expired),
      record {
        kept = rw (heap.pop_none queue e) tt;
        expired = tt;
        ordered = tt;
        counted = λ w. omega arith;
      },
    )
    | inr ((t, rest), e) ↦ elim (Bool-cases (leb t.expires_at now)) [
      | inr late ↦ (
        queue,
        [],
        rw (e, move_expired) (rw (late, append-nil)),
        stop-Moved queue rest t e (ground arith),
      )
      | inl due ↦
          let n : length rest < fuel = omega (
            arith,
            heap.pop_sum queue t rest e (λ _. 1),
            sum_by-length queue,
            sum_by-length rest,
          ) in
          let (queue', moved, q, m) = move_expired-Moved fuel rest (pending ++ (t ∷ [])) true n in
          (
            queue',
            t ∷ moved,
            rw (e, move_expired) (rw (due, q) (rw (append_assoc, marked-true moved))),
            step-Moved queue rest queue' moved t e (ground arith) m,
          )
    ]
  ]

  finish-flag :
      (s : Timers) (queue moved : List Timer)
      → finish_check s (some (queue, s.pending_queue ++ moved, marked false moved))
        ≡ some (record s {
          timer_queue = queue;
          pending_queue = s.pending_queue ++ moved;
          softirq_pending = s.softirq_pending || marked false moved;
        })
  unfolding finish_check raise_softirq
  finish-flag s queue [] = ground arith
  finish-flag s queue (t ∷ l) = ground arith

-- `check_timers` comes to an end. It moves to the pending queue, in the order of their deadlines and
-- behind what is there, exactly the timers whose deadline has been reached; none is lost or
-- duplicated. It raises the softirq if it moved any, and changes nothing else.
pub check_timers_lem :
    (pop : Pop) (s : Timers)
    → IsBinaryHeap pop
    → (queue moved : List Timer) × (check_timers pop s
        ≡ some (record s {
          timer_queue = queue;
          pending_queue = s.pending_queue ++ moved;
          softirq_pending = s.softirq_pending || marked false moved;
        }))
      × Moved s.tick_count s.timer_queue queue moved
unfolding check_timers
check_timers_lem pop s heap =
    let (queue, moved, e, m) =
      move_expired-Moved pop heap s.tick_count (suc (length s.timer_queue)) s.timer_queue
        s.pending_queue false (omega arith) in
    (queue, moved, rw e (finish-flag pop heap s.tick_count s queue moved), m)
