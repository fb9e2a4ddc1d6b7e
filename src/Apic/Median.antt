-- ===== src/Apic/Median.antt =====
-- The calibration of the timer with the PIT takes the median of its measurements.
use vitr_os.Base.{
  ℕ, suc, ◌≤◌, ◌≡◌, refl, ◌∙◌, inl, inr, Bool, true, Bool-cases, List, [], ◌∷◌, leb, if◌then◌else◌,
  get_or, arith,
}
use vitr_os.Apic.{insert, sort}

-- How many numbers pass a test.
abbrev pub count : (ℕ → Bool) → List ℕ → ℕ
count p [] = 0
count p (a ∷ l) = let rest = count p l in if p a then suc rest else rest

count-swap : (p : ℕ → Bool) (a b : ℕ) (l : List ℕ) → count p (a ∷ b ∷ l) ≡ count p (b ∷ a ∷ l)
count-swap p a b l = elim (Bool-cases (p a)) [
  | inl e ↦ elim (Bool-cases (p b)) [ inl f ↦ rw (e, f) refl | inr f ↦ rw (e, f) refl ]
  | inr e ↦ elim (Bool-cases (p b)) [ inl f ↦ rw (e, f) refl | inr f ↦ rw (e, f) refl ]
]

count-more : (p : ℕ → Bool) (a : ℕ) (l : List ℕ) → count p l ≤ count p (a ∷ l)
count-more p a l = elim (Bool-cases (p a)) [
  | inl e ↦ rw e (omega arith)
  | inr e ↦ rw e (omega arith)
]

count-cons :
    (p : ℕ → Bool) (a : ℕ) (k l : List ℕ)
    → count p k ≡ count p l
    → count p (a ∷ k) ≡ count p (a ∷ l)
count-cons p a k l h = rw h refl

count-insert : (p : ℕ → Bool) (a : ℕ) (l : List ℕ) → count p (insert a l) ≡ count p (a ∷ l)
count-insert p a [] = refl
count-insert p a (b ∷ l) = elim (Bool-cases (leb a b)) [
  | inl e ↦ rw e refl
  | inr e ↦ rw e (count-cons p b (insert a l) (a ∷ l) (count-insert p a l) ∙ count-swap p b a l)
]

pub count-sort : (p : ℕ → Bool) (l : List ℕ) → count p (sort l) ≡ count p l
unfolding sort
count-sort p [] = refl
count-sort p (a ∷ l) = count-insert p a (sort l) ∙ count-cons p a (sort l) l (count-sort p l)

abbrev pub IsSorted : List ℕ → Type 0
IsSorted [] = Unit {0}
IsSorted (a ∷ []) = Unit {0}
IsSorted (a ∷ b ∷ l) = (a ≤ b) × IsSorted (b ∷ l)

insert-IsSorted : (a : ℕ) (l : List ℕ) → IsSorted l → IsSorted (insert a l)
insert-IsSorted a [] h = tt
insert-IsSorted a (b ∷ []) h = elim (Bool-cases (leb a b)) [
  | inl e ↦ rw e (ground (arith, e), tt)
  | inr e ↦ rw e (ground (arith, e), tt)
]
insert-IsSorted a (b ∷ c ∷ l) (h, k) =
    let rest = insert-IsSorted a (c ∷ l) k in
    elim (Bool-cases (leb a b)) [
      | inl e ↦ rw e (ground (arith, e), (h, k))
      | inr e ↦ elim (Bool-cases (leb a c)) [
        | inl f ↦ rw (e, f) (ground (arith, e), (rw f at rest))
        | inr f ↦ rw (e, f) (h, (rw f at rest))
      ]
    ]

pub sort-IsSorted : (l : List ℕ) → IsSorted (sort l)
unfolding sort
sort-IsSorted [] = tt
sort-IsSorted (a ∷ l) = insert-IsSorted a (sort l) (sort-IsSorted l)

-- The third of five numbers in order.
middle :
    (l : List ℕ)
    → IsSorted l
    → count (λ _. true) l ≡ 5
    → (3 ≤ count (λ x. leb x (get_or l 2 0)) l) × (3 ≤ count (λ x. leb (get_or l 2 0) x) l)
middle [] h n = absurd (omega (arith, n))
middle (a ∷ []) h n = absurd (omega (arith, n))
middle (a ∷ b ∷ []) h n = absurd (omega (arith, n))
middle (a ∷ b ∷ c ∷ []) h n = absurd (omega (arith, n))
middle (a ∷ b ∷ c ∷ d ∷ []) h n = absurd (omega (arith, n))
middle (a ∷ b ∷ c ∷ d ∷ e ∷ []) (h1, (h2, (h3, (h4, _)))) n =
    let r1 : leb a c ≡ true = ground (arith, h1, h2) in
    let r2 : leb b c ≡ true = ground (arith, h2) in
    let r3 : leb c c ≡ true = ground arith in
    let r4 : leb c d ≡ true = ground (arith, h3) in
    let r5 : leb c e ≡ true = ground (arith, h3, h4) in
    let p : ℕ → Bool = λ x. leb c x in
    let high : count p (c ∷ d ∷ e ∷ []) ≡ 3 = rw (r3, r4, r5) refl in
    (
      rw (r1, r2, r3) (omega arith),
      omega (arith, high, count-more p b (c ∷ d ∷ e ∷ []), count-more p a (b ∷ c ∷ d ∷ e ∷ [])),
    )
middle (a ∷ b ∷ c ∷ d ∷ e ∷ f ∷ l) h n = absurd (omega (arith, n))

-- Of five measurements, three at least are not above the one that is taken, and three not below it.
pub sort-median :
    (l : List ℕ)
    → count (λ _. true) l ≡ 5
    → (3 ≤ count (λ x. leb x (get_or (sort l) 2 0)) l)
      × (3 ≤ count (λ x. leb (get_or (sort l) 2 0) x) l)
sort-median l n =
    let m = get_or (sort l) 2 0 in
    let (a, b) = middle (sort l) (sort-IsSorted l) (count-sort (λ _. true) l ∙ n) in
    (omega (arith, a, count-sort (λ x. leb x m) l), omega (arith, b, count-sort (λ x. leb m x) l))
