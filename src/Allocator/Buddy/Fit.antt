-- ===== src/Allocator/Buddy/Fit.antt =====
-- Which free list the buddy allocator serves a request from.
use vitr_os.Base.{
  ℕ, zero, suc, ◌+◌, ◌-◌, ◌≤◌, ◌<◌, ◌≡◌, refl, ◌⊎◌, inl, inr, some, none, leb, leb→le, Bool-cases,
  Option-cases, arith,
}
use vitr_os.Allocator.Size.{max_order}
use vitr_os.Allocator.Buddy.{Buddy, Layout, block_order, find_order, allocate, allocate_at}

-- The orders from `lower` up to `upper` have no free block.
abbrev pub AllEmpty : Buddy → ℕ → ℕ → Type 0
AllEmpty s lower upper = (o : ℕ) → lower ≤ o → o < upper → s.free_lists o ≡ none

-- The order `found` is the first from `lower` on with a free block.
pub record IsFirst (s : Buddy) (lower upper found : ℕ) : Type 0 where
  pub from : lower ≤ found
  pub below : found < upper
  pub block : ℕ
  pub head : s.free_lists found ≡ some block
  pub first : AllEmpty s lower found

AllEmpty-step :
    (s : Buddy) (lower upper : ℕ)
    → s.free_lists lower ≡ none
    → AllEmpty s (suc lower) upper
    → AllEmpty s lower upper
AllEmpty-step s lower upper e h o a b = elim (Bool-cases (leb (suc lower) o)) [
  | inl l ↦ h o (leb→le (suc lower) o l) b
  | inr l ↦ let q : o ≡ lower = ground arith in rw q e
]

find_order-IsFirst :
    (n order : ℕ) (s : Buddy)
    → (find_order n order s ≡ none) × AllEmpty s order (order + n)
      ⊎ (f : ℕ) × (find_order n order s ≡ some f) × IsFirst s order (order + n) f
unfolding find_order
find_order-IsFirst zero order s = inl (refl, λ o a b. absurd (omega arith))
find_order-IsFirst (suc n) order s = elim (Option-cases (s.free_lists order)) [
  | inr (a, e) ↦ inr (
    order,
    rw (e, find_order) refl,
    record {
      from = omega arith;
      below = omega arith;
      block = a;
      head = e;
      first = λ o p q. absurd (omega arith);
    },
  )
  | inl e ↦ elim (find_order-IsFirst n (suc order) s) [
    | inl (q, h) ↦ inl (
      rw (e, find_order) q,
      AllEmpty-step s order (order + suc n) e (λ o a b. h o a (omega arith)),
    )
    | inr (f, q, h) ↦ inr (
      f,
      rw (e, find_order) q,
      record {
        from = omega (arith, h.from);
        below = omega (arith, h.below);
        block = h.block;
        head = h.head;
        first = AllEmpty-step s order f e h.first;
      },
    )
  ]
]

-- `allocate` fails, and changes nothing, if no order from that of the request up to the largest has
-- a free block. Otherwise it serves the request from the list of the least such order.
pub allocate_lem :
    (l : Layout) (s : Buddy)
    → (allocate l s ≡ some (s, none)) × AllEmpty s (block_order l) max_order
      ⊎ (f : ℕ) × (allocate l s ≡ allocate_at (block_order l) f s)
        × IsFirst s (block_order l) max_order f
unfolding allocate
allocate_lem l s = elim (Bool-cases (leb max_order (block_order l))) [
  | inl e ↦ inl (rw (e, allocate) refl, λ o a b. absurd (ground arith))
  | inr e ↦
      let r : ℕ = block_order l in
      let q : r + (max_order - r) ≡ max_order = ground arith in
      elim (rw q at (find_order-IsFirst (max_order - r) r s)) [
        | inl (g, h) ↦ inl (rw (e, allocate) (rw g refl), h)
        | inr (f, g, h) ↦ inr (f, rw (e, allocate) (rw g refl), h)
      ]
]
