-- ===== src/Timer/Heap.antt =====
-- What the timer queue relies on of `BinaryHeap`, and a heap that meets it.
use vitr_os.Base.{
  ℕ, ◌+◌, ◌≤◌, ◌≡◌, refl, Option, none, some, List, [], ◌∷◌, leb, if◌then◌else◌, All, All-mono,
  sum_by, Bool-cases, inl, inr, arith,
}
use vitr_os.Timer.{Timer, Pop}

-- `pop` fails on the empty heap only; else it takes out one element with the earliest deadline.
pub record IsBinaryHeap (pop : Pop) : Type 0 where
  pub pop_none : (q : List Timer) → pop q ≡ none → q ≡ []
  pub pop_least :
      (q : List Timer) (t : Timer) (r : List Timer)
      → pop q ≡ some (t, r)
      → All (λ u. t.expires_at ≤ u.expires_at) r
  pub pop_sum :
      (q : List Timer) (t : Timer) (r : List Timer)
      → pop q ≡ some (t, r)
      → (w : Timer → ℕ) → sum_by w q ≡ w t + sum_by w r

-- Selection of the first element with the least deadline.
place : Timer → Option (Timer × List Timer) → Timer × List Timer
place t none = (t, [])
place t (some (u, r)) = if leb t.expires_at u.expires_at then (t, u ∷ r) else (u, t ∷ r)

unfoldable pub select : Pop
unfolding place
select [] = none
select (t ∷ q) = some (place t (select q))

select-none : (q : List Timer) → select q ≡ none → q ≡ []
unfolding select
select-none [] h = refl
select-none (t ∷ q) h = absurd (ground arith)

abbrev Selected : List Timer → Option (Timer × List Timer) → Type 0
Selected q none = q ≡ []
Selected q (some (t, r)) =
    All (λ u. t.expires_at ≤ u.expires_at) r × ((w : Timer → ℕ) → sum_by w q ≡ w t + sum_by w r)

place-Selected :
    (t : Timer) (q : List Timer) (o : Option (Timer × List Timer))
    → Selected q o
    → Selected (t ∷ q) (some (place t o))
unfolding place
place-Selected t q none e = (tt, λ w. rw e refl)
place-Selected t q (some (u, r)) (a, s) = elim (Bool-cases (leb t.expires_at u.expires_at)) [
  | inl e ↦ rw e ((ground arith, All-mono (λ x h. ground arith) r a), λ w. omega (arith, s w))
  | inr e ↦ rw e ((ground arith, a), λ w. omega (arith, s w))
]

select-Selected : (q : List Timer) → Selected q (select q)
unfolding select
select-Selected [] = refl
select-Selected (t ∷ q) = place-Selected t q (select q) (select-Selected q)

pub select-IsBinaryHeap : IsBinaryHeap select
select-IsBinaryHeap = record {
  pop_none = select-none;
  pop_least = λ q t r e. (rw e at (select-Selected q)).0;
  pop_sum = λ q t r e. (rw e at (select-Selected q)).1;
}
