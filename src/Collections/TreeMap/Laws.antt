-- ===== src/Collections/TreeMap/Laws.antt =====
-- Laws of the maps: which keys and entries they hold, and in which order.
use mathlib.Core.Path.{subst}
use vitr_os.Base.{
  ℕ, ◌+◌, ◌≡◌, refl, sym, true, false, not, ◌&&◌, ◌||◌, none, some, List, [], ◌∷◌, All, All-mono,
  sum_by, if◌then◌else◌, Bool-cases, inl, inr, arith,
}
use vitr_os.Collections.Order.{Order, lt}
use vitr_os.Collections.TreeMap.{same, insert, get, contains_key, delete, pop_first, IsSorted}

module _ {ℓ} {K : Type ℓ} ⦃o : Order K⦄ where
  pub same→eq : (a b : K) → same a b ≡ true → a ≡ b
  same→eq a b h = o.lt_total a b (ground arith) (ground arith)

  pub same_refl : (a : K) → same a a ≡ true
  same_refl a = rw (o.lt_irrefl a)

  pub same_of_eq : (a b : K) → a ≡ b → same a b ≡ true
  same_of_eq a b e = rw e (same_refl b)

  pub same_comm : (a b : K) → same a b ≡ same b a
  same_comm a b = ground arith

module _ {ℓ κ} {K : Type ℓ} {V : Type κ} ⦃o : Order K⦄ where
  pub All-insert {μ} :
      (P : K × V → Type μ) (k : K) (v : V) (m : List (K × V))
      → P (k, v)
      → All P m
      → All P (insert k v m)
  unfolding insert
  All-insert P k v [] p h = (p, tt)
  All-insert P k v ((j, w) ∷ m) p h = elim (Bool-cases (lt k j)) [
    | inl e ↦ rw e (p, h)
    | inr e ↦ rw e (elim (Bool-cases (lt j k)) [
      | inl d ↦ rw d (h.0, All-insert P k v m p h.1)
      | inr d ↦ rw d (p, h.1)
    ])
  ]

  pub All-delete {μ} :
      (P : K × V → Type μ) (k : K) (m : List (K × V)) → All P m → All P (delete k m)
  unfolding delete
  All-delete P k [] h = tt
  All-delete P k ((j, w) ∷ m) h = elim (Bool-cases (same k j)) [
    | inl e ↦ rw e h.1
    | inr e ↦ rw e (h.0, All-delete P k m h.1)
  ]

  -- What is below a key stays below all later keys.
  below_tail :
      (k j : K) (m : List (K × V))
      → lt k j ≡ true
      → All (λ f. lt j f.0 ≡ true) m
      → All (λ f. lt k f.0 ≡ true) m
  below_tail k j m h a = All-mono (λ f. o.lt_trans k j f.0 h) m a

  pub insert-IsSorted : (k : K) (v : V) (m : List (K × V)) → IsSorted m → IsSorted (insert k v m)
  unfolding insert
  insert-IsSorted k v [] s = (tt, tt)
  insert-IsSorted k v ((j, w) ∷ m) s = elim (Bool-cases (lt k j)) [
    | inl e ↦ rw e ((e, below_tail k j m e s.0), s)
    | inr e ↦ rw e (elim (Bool-cases (lt j k)) [
      | inl d ↦ rw d (All-insert (λ f. lt j f.0 ≡ true) k v m d s.0, insert-IsSorted k v m s.1)
      | inr d ↦ rw d (rw (o.lt_total k j e d) s)
    ])
  ]

  pub delete-IsSorted : (k : K) (m : List (K × V)) → IsSorted m → IsSorted (delete k m)
  unfolding delete
  delete-IsSorted k [] s = tt
  delete-IsSorted k ((j, w) ∷ m) s = elim (Bool-cases (same k j)) [
    | inl e ↦ rw e s.1
    | inr e ↦ rw e (All-delete (λ f. lt j f.0 ≡ true) k m s.0, delete-IsSorted k m s.1)
  ]

  pub contains_key-insert :
      (i k : K) (v : V) (m : List (K × V))
      → contains_key i (insert k v m) ≡ (same i k || contains_key i m)
  unfolding insert contains_key
  contains_key-insert i k v [] = refl
  contains_key-insert i k v ((j, w) ∷ m) = elim (Bool-cases (lt k j)) [
    | inl e ↦ rw e
    | inr e ↦ rw e (elim (Bool-cases (lt j k)) [
      | inl d ↦ rw d (ground (arith, contains_key-insert i k v m))
      | inr d ↦ rw d (rw (o.lt_total k j e d) (ground arith))
    ])
  ]

  pub get-insert :
      (i k : K) (v : V) (m : List (K × V))
      → get i (insert k v m) ≡ (if same i k then some v else get i m)
  unfolding insert get
  get-insert i k v [] = refl
  get-insert i k v ((j, w) ∷ m) = elim (Bool-cases (lt k j)) [
    | inl e ↦ rw e
    | inr e ↦ rw e (elim (Bool-cases (lt j k)) [
      | inl d ↦
          rw (d, get-insert i k v m)
            (elim (Bool-cases (same i k)) [
              | inl f ↦ rw (same→eq i k f) (ground (arith, o.lt_irrefl k))
              | inr f ↦ rw f
            ])
      | inr d ↦ rw d (rw (o.lt_total k j e d) (ground arith))
    ])
  ]

  pub get-contains_key : (k : K) (m : List (K × V)) → contains_key k m ≡ false → get k m ≡ none
  unfolding get contains_key
  get-contains_key k [] h = refl
  get-contains_key k ((j, w) ∷ m) h = ground (arith, get-contains_key k m)

  pub contains_key-get :
      (k : K) (v : V) (m : List (K × V)) → get k m ≡ some v → contains_key k m ≡ true
  unfolding get contains_key
  contains_key-get k v [] h = absurd (ground arith)
  contains_key-get k v ((j, w) ∷ m) h = ground (arith, contains_key-get k v m)

  -- A key below all others is not there.
  absent_below :
      (k : K) (m : List (K × V)) → All (λ f. lt k f.0 ≡ true) m → contains_key k m ≡ false
  unfolding contains_key
  absent_below k [] a = refl
  absent_below k ((j, w) ∷ m) a = ground (arith, absent_below k m a.1, a.0)

  pub contains_key-delete :
      (i k : K) (m : List (K × V))
      → IsSorted m
      → contains_key i (delete k m) ≡ (not (same i k) && contains_key i m)
  unfolding delete contains_key
  contains_key-delete i k [] s = ground arith
  contains_key-delete i k ((j, w) ∷ m) s = elim (Bool-cases (same k j)) [
    | inl e ↦ rw e (
        rw (same→eq k j e) (elim (Bool-cases (same i j)) [
          | inl f ↦ rw f (rw (same→eq i j f) (absent_below j m s.0))
          | inr f ↦ rw f
        ]))
    | inr e ↦
        rw (e, contains_key-delete i k m s.1)
          (elim (Bool-cases (same i j)) [
            | inl f ↦ rw (same→eq i j f) (rw (same_comm j k, e) (ground (arith, same_refl j)))
            | inr f ↦ rw f
          ])
  ]

  pub delete_absent : (k : K) (m : List (K × V)) → get k m ≡ none → delete k m ≡ m
  unfolding delete get
  delete_absent k [] h = refl
  delete_absent k ((j, w) ∷ m) h = ground (arith, delete_absent k m)

  -- `sum_by w` counts entries by weight: an insertion adds one entry, a removal takes one away.
  pub sum_by-insert :
      (w : V → ℕ) (k : K) (v : V) (m : List (K × V))
      → contains_key k m ≡ false
      → sum_by (λ e. w e.1) (insert k v m) ≡ w v + sum_by (λ e. w e.1) m
  unfolding insert contains_key
  sum_by-insert w k v [] h = refl
  sum_by-insert w k v ((j, u) ∷ m) h = ground (arith, sum_by-insert w k v m)

  pub sum_by-delete :
      (w : V → ℕ) (k : K) (v : V) (m : List (K × V))
      → get k m ≡ some v
      → sum_by (λ e. w e.1) m ≡ w v + sum_by (λ e. w e.1) (delete k m)
  unfolding delete get
  sum_by-delete w k v [] h = absurd (ground arith)
  sum_by-delete w k v ((j, u) ∷ m) h = ground (arith, sum_by-delete w k v m)

  pub pop_first-some :
      (m : List (K × V)) {k : K} {v : V} {r : List (K × V)}
      → pop_first m ≡ some (k, v, r)
      → m ≡ (k, v) ∷ r
  unfolding pop_first
  pop_first-some [] h = absurd (ground arith)
  pop_first-some ((j, w) ∷ m) h = ground arith

  pub pop_first-none : (m : List (K × V)) → pop_first m ≡ none → m ≡ []
  unfolding pop_first
  pop_first-none [] h = refl
  pop_first-none ((j, w) ∷ m) h = absurd (ground arith)

  pub contains_key_of_get-none :
      (k : K) (m : List (K × V)) → get k m ≡ none → contains_key k m ≡ false
  unfolding get contains_key
  contains_key_of_get-none k [] h = refl
  contains_key_of_get-none k ((j, w) ∷ m) h = ground (arith, contains_key_of_get-none k m)

  pub All-get {μ} :
      (P : K × V → Type μ) (k : K) {v : V} (m : List (K × V))
      → All P m
      → get k m ≡ some v
      → P (k, v)
  unfolding get
  All-get P k [] a h = absurd (ground arith)
  All-get P k {v} ((j, w) ∷ m) a h = elim (Bool-cases (same k j)) [
    | inl e ↦
        let q : w ≡ v = ground arith in
        subst (λ x. P (k, x)) q (subst (λ x. P (x, w)) (sym (same→eq k j e)) a.0)
    | inr e ↦ All-get P k m a.1 (ground arith)
  ]
