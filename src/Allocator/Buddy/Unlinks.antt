-- ===== src/Allocator/Buddy/Unlinks.antt =====
-- A block leaves the doubly linked list of its order.
use vitr_os.Base.{
  ℕ, ◌≡◌, ◌≢◌, refl, sym, ap, ◌∙◌, inl, inr, true, false, false≢true, Bool-cases, Option, none,
  some, Option-cases, ◌==◌, ==_iff, if◌then◌else◌, arith,
}
use vitr_os.Allocator.Buddy.{update}
use vitr_os.Allocator.Buddy.Links.{
  Blocks, mark, points, IsLinked, mark-cleared, mark-kept, points→some, points-some, some_inj,
  none≢some,
}

abbrev pub without_head : Option ℕ → ℕ → Option ℕ → (ℕ → Option ℕ) → ℕ → Option ℕ
without_head none o n heads = update o n heads
without_head (some p) o n heads = heads

without_head-same :
    (m n : Option ℕ) (o : ℕ) (heads : ℕ → Option ℕ) → m ≡ none → without_head m o n heads o ≡ n
without_head-same m n o heads h = let q : (o == o) ≡ true = ground arith in rw h (rw q refl)

module _ (heads : ℕ → Option ℕ) (next prev : ℕ → Option ℕ) (g : Blocks)
    (links : IsLinked heads next prev g) (o a : ℕ) where
  abbrev pub removed_heads : ℕ → Option ℕ
  removed_heads = without_head (prev a) o (next a) heads

  abbrev pub removed_prev : ℕ → Option ℕ
  removed_prev x = if points (next a) x then prev a else prev x

  abbrev pub removed_next : ℕ → Option ℕ
  removed_next x = if points (prev a) x then next a else next x

  module _ (here : g o a ≡ true) where
    other : (o' x : ℕ) → mark o a false g o' x ≡ true → (g o' x ≡ true) × (x ≢ a)
    other o' x h =
        let (n, m) = mark-cleared o a o' x g h in
        (m, λ e. n (links.once o' o a (ap (g o') (sym e) ∙ m) here, e))

    keep : (o' x : ℕ) → g o' x ≡ true → x ≢ a → mark o a false g o' x ≡ true
    keep o' x m n = mark-kept o a o' x g (λ e. n e.1) m

    prev_of_next : (x : ℕ) → next a ≡ some x → (g o x ≡ true) × (prev x ≡ some a)
    prev_of_next x = links.after o a x here

    next_of_prev : (x : ℕ) → prev a ≡ some x → (g o x ≡ true) × (next x ≡ some a)
    next_of_prev x = links.before o a x here

    prev_in : (x : ℕ) → points (next a) x ≡ true → removed_prev x ≡ prev a
    prev_in x f = rw f refl

    prev_out : (x : ℕ) → points (next a) x ≡ false → removed_prev x ≡ prev x
    prev_out x f = rw f refl

    next_in : (x : ℕ) → points (prev a) x ≡ true → removed_next x ≡ next a
    next_in x f = rw f refl

    next_out : (x : ℕ) → points (prev a) x ≡ false → removed_next x ≡ next x
    next_out x f = rw f refl

    points_of : (m : Option ℕ) (x : ℕ) → m ≡ some x → points m x ≡ true
    points_of m x h = ap (λ y. points y x) h ∙ points-some x

    -- Only the block `a` comes before the one that it links to.
    not_next : (x b : ℕ) → prev b ≡ some x → x ≢ a → points (next a) b ≡ false
    not_next x b h n = elim (Bool-cases (points (next a) b)) [
      | inr f ↦ f
      | inl f ↦ absurd (n (some_inj x a (sym h ∙ (prev_of_next b (points→some (next a) b f)).1)))
    ]

    not_prev : (x b : ℕ) → next b ≡ some x → x ≢ a → points (prev a) b ≡ false
    not_prev x b h n = elim (Bool-cases (points (prev a) b)) [
      | inr f ↦ f
      | inl f ↦ absurd (n (some_inj x a (sym h ∙ (next_of_prev b (points→some (prev a) b f)).1)))
    ]

    still_first : (x : ℕ) → prev x ≡ none → removed_prev x ≡ none
    still_first x p = elim (Bool-cases (points (next a) x)) [
      | inr f ↦ prev_out x f ∙ p
      | inl f ↦ absurd (none≢some a (sym p ∙ (prev_of_next x (points→some (next a) x f)).1))
    ]

    -- A list whose head stays.
    old_head :
        (o' x : ℕ)
        → heads o' ≡ some x
        → x ≢ a
        → (mark o a false g o' x ≡ true) × (removed_prev x ≡ none)
    old_head o' x h n = let (m, p) = links.head o' x h in (keep o' x m n, still_first x p)

    -- The head of another order is another block.
    head_apart : (o' x : ℕ) → heads o' ≡ some x → o' ≢ o → x ≢ a
    head_apart o' x h n e = n (links.once o' o a (ap (g o') (sym e) ∙ (links.head o' x h).0) here)

    other_head : (m : Option ℕ) (o' : ℕ) → o' ≢ o → without_head m o (next a) heads o' ≡ heads o'
    other_head none o' n = let q : (o' == o) ≡ false = ground arith in rw q refl
    other_head (some p) o' n = refl

    kept_heads : (p o' : ℕ) → prev a ≡ some p → removed_heads o' ≡ heads o'
    kept_heads p o' h = ap (λ m. without_head m o (next a) heads o') h

    remove_head :
        (o' x : ℕ)
        → removed_heads o' ≡ some x
        → (mark o a false g o' x ≡ true) × (removed_prev x ≡ none)
    remove_head o' x h = elim (Option-cases (prev a)) [
      | inr (p, e) ↦
          let k : heads o' ≡ some x = sym (kept_heads p o' e) ∙ h in
          old_head o' x k (λ q. none≢some p (sym (links.head o' x k).1 ∙ ap prev q ∙ e))
      | inl e ↦ elim (Bool-cases (o' == o)) [
        | inr f ↦
            let n : o' ≢ o = λ q. false≢true (ground (arith, q)) in
            let k : heads o' ≡ some x = sym (other_head (prev a) o' n) ∙ h in
            old_head o' x k (head_apart o' x k n)
        | inl f ↦
            let q : o' ≡ o = (==_iff o' o).0 f in
            let k : next a ≡ some x =
              sym (without_head-same (prev a) (next a) o heads e) ∙ ap removed_heads (sym q) ∙ h in
            let (m, p) = prev_of_next x k in
            (
              rw q (keep o x m (λ w. none≢some a (sym e ∙ ap prev (sym w) ∙ p))),
              prev_in x (points_of (next a) x k) ∙ e,
            )
      ]
    ]

    remove_first :
        (o' x : ℕ)
        → mark o a false g o' x ≡ true
        → removed_prev x ≡ none
        → removed_heads o' ≡ some x
    remove_first o' x h p =
        let (m, n) = other o' x h in
        elim (Bool-cases (points (next a) x)) [
          | inl f ↦
              let k = points→some (next a) x f in
              let q : o' ≡ o = links.once o' o x m (prev_of_next x k).0 in
              rw q (without_head-same (prev a) (next a) o heads (sym (prev_in x f) ∙ p) ∙ k)
          | inr f ↦
              let k : heads o' ≡ some x = links.first o' x m (sym (prev_out x f) ∙ p) in
              elim (Option-cases (prev a)) [
                | inr (b, e) ↦ kept_heads b o' e ∙ k
                | inl e ↦
                    other_head (prev a) o'
                      (λ q. n (some_inj x a (sym k ∙ ap heads q ∙ links.first o a here e)))
                    ∙ k
              ]
        ]

    remove_before :
        (o' x b : ℕ)
        → mark o a false g o' x ≡ true
        → removed_prev x ≡ some b
        → (mark o a false g o' b ≡ true) × (removed_next b ≡ some x)
    remove_before o' x b h p =
        let (m, n) = other o' x h in
        elim (Bool-cases (points (next a) x)) [
          | inl f ↦
              let k = points→some (next a) x f in
              let e : prev a ≡ some b = sym (prev_in x f) ∙ p in
              let q : o' ≡ o = links.once o' o x m (prev_of_next x k).0 in
              let (w, v) = next_of_prev b e in
              (
                rw q (keep o b w (λ r. n (some_inj x a (sym k ∙ ap next (sym r) ∙ v)))),
                next_in b (points_of (prev a) b e) ∙ k,
              )
          | inr f ↦
              let (w, v) = links.before o' x b m (sym (prev_out x f) ∙ p) in
              (
                keep o' b w (λ r. false≢true (sym f ∙ points_of (next a) x (ap next (sym r) ∙ v))),
                next_out b (not_prev x b v n) ∙ v,
              )
        ]

    remove_after :
        (o' x b : ℕ)
        → mark o a false g o' x ≡ true
        → removed_next x ≡ some b
        → (mark o a false g o' b ≡ true) × (removed_prev b ≡ some x)
    remove_after o' x b h p =
        let (m, n) = other o' x h in
        elim (Bool-cases (points (prev a) x)) [
          | inl f ↦
              let k = points→some (prev a) x f in
              let e : next a ≡ some b = sym (next_in x f) ∙ p in
              let q : o' ≡ o = links.once o' o x m (next_of_prev x k).0 in
              let (w, v) = prev_of_next b e in
              (
                rw q (keep o b w (λ r. n (some_inj x a (sym k ∙ ap prev (sym r) ∙ v)))),
                prev_in b (points_of (next a) b e) ∙ k,
              )
          | inr f ↦
              let (w, v) = links.after o' x b m (sym (next_out x f) ∙ p) in
              (
                keep o' b w (λ r. false≢true (sym f ∙ points_of (prev a) x (ap prev (sym r) ∙ v))),
                prev_out b (not_next x b v n) ∙ v,
              )
        ]

    -- The blocks around `a` are linked to each other, and the list starts with the one after it if it
    -- was the first.
    pub remove-IsLinked : IsLinked removed_heads removed_next removed_prev (mark o a false g)
    remove-IsLinked = record {
      head = remove_head;
      first = remove_first;
      before = remove_before;
      after = remove_after;
      once = λ p q x h k. links.once p q x (other p x h).0 (other q x k).0;
    }
