-- ===== src/Allocator/Buddy/Packing.antt =====
-- The blocks that the region of the buddy allocator is divided into, free or not: a block is cut into
-- its halves by `allocate`, and put together with its buddy by `deallocate`.
use vitr_os.Base.{
  ℕ, suc, ◌+◌, ◌*◌, ◌≤◌, ◌<◌, ◌≡◌, sym, ◌∙◌, ◌⊎◌, inl, inr, true, false, false≢true, arith,
}
use vitr_os.Allocator.Size.{max_order, order_to_size}
use vitr_os.Allocator.Buddy.Links.{Blocks, mark, mark-cases, mark-cleared, mark-kept}
use vitr_os.Allocator.Buddy.Blocks.{IsBlock, AreBuddies, order_to_size-bounds, order_to_size-suc}

-- No address is in both blocks.
abbrev pub AreApart : ℕ → ℕ → ℕ → ℕ → Type 0
AreApart o a o' b = (a + order_to_size o ≤ b) ⊎ (b + order_to_size o' ≤ a)

pub record IsPacking (start size : ℕ) (u : Blocks) : Type 0 where
  pub block : (o a : ℕ) → u o a ≡ true → IsBlock start size o a
  pub apart : (o a o' b : ℕ) → u o a ≡ true → u o' b ≡ true → (o ≡ o') × (a ≡ b) ⊎ AreApart o a o' b

abbrev pub no_blocks : Blocks
no_blocks o a = false

abbrev pub halved : ℕ → ℕ → Blocks → Blocks
halved o a u = mark o (a + order_to_size o) true (mark o a true (mark (suc o) a false u))

abbrev pub joined : ℕ → ℕ → ℕ → Blocks → Blocks
joined o a b u = mark (suc o) a true (mark o b false (mark o a false u))

pub no_blocks-IsPacking : (start size : ℕ) → IsPacking start size no_blocks
no_blocks-IsPacking start size = record {
  block = λ o a h. absurd (false≢true h);
  apart = λ o a o' b h k. absurd (false≢true h);
}

AreApart-sym : (o a o' b : ℕ) → AreApart o a o' b → AreApart o' b o a
AreApart-sym o a o' b h = elim h [ inl l ↦ inr l | inr l ↦ inl l ]

twice : (k n m : ℕ) → m ≡ n + n → (k + k) * n ≡ k * m
twice k n m h = grind arith

pub next : (k n : ℕ) → (k + 1) * n ≡ k * n + n
next k n = omega arith

module _ (start size : ℕ) (u : Blocks) (packing : IsPacking start size u) where
  positive : (o a : ℕ) → u o a ≡ true → 0 < order_to_size o
  positive o a h = omega (arith, (order_to_size-bounds o (packing.block o a h).small).0)

  -- No two blocks start at the same address.
  pub same_order : (o o' a : ℕ) → u o a ≡ true → u o' a ≡ true → o ≡ o'
  same_order o o' a h k = elim (packing.apart o a o' a h k) [
    | inl e ↦ e.0
    | inr (inl l) ↦ absurd (omega (arith, l, positive o a h))
    | inr (inr l) ↦ absurd (omega (arith, l, positive o' a k))
  ]

  pub insert-IsPacking :
      (o a : ℕ)
      → IsBlock start size o a
      → ((o' b : ℕ) → u o' b ≡ true → AreApart o a o' b)
      → IsPacking start size (mark o a true u)
  insert-IsPacking o a b away = record {
    block = λ p x h. elim (mark-cases o a p x u h) [
      | inl (e, f) ↦ rw e (rw f b)
      | inr m ↦ packing.block p x m
    ];
    apart = λ p x q y h k. elim (mark-cases o a p x u h) [
      | inl (e, f) ↦ elim (mark-cases o a q y u k) [
        | inl (e', f') ↦ inl (e ∙ sym e', f ∙ sym f')
        | inr n ↦ inr (rw e (rw f (away q y n)))
      ]
      | inr m ↦ elim (mark-cases o a q y u k) [
        | inl (e', f') ↦ inr (rw e' (rw f' (AreApart-sym o a p x (away p x m))))
        | inr n ↦ packing.apart p x q y m n
      ]
    ];
  }

  pub clear-IsPacking : (o a : ℕ) → IsPacking start size (mark o a false u)
  clear-IsPacking o a = record {
    block = λ p x h. packing.block p x (mark-cleared o a p x u h).1;
    apart = λ p x q y h k.
        packing.apart p x q y (mark-cleared o a p x u h).1 (mark-cleared o a q y u k).1;
  }

  pub others_apart :
      (o a o' b : ℕ) → u o a ≡ true → mark o a false u o' b ≡ true → AreApart o a o' b
  others_apart o a o' b h k =
      let (n, m) = mark-cleared o a o' b u k in
      elim (packing.apart o a o' b h m) [ inl (e, f) ↦ absurd (n (sym e, sym f)) | inr d ↦ d ]

module _ (start size : ℕ) (u : Blocks) (packing : IsPacking start size u) where
  module _ (o a : ℕ) (whole : u (suc o) a ≡ true) where
    order : suc o < max_order
    order = (packing.block (suc o) a whole).small

    low_half : IsBlock start size o a
    low_half =
        let b = packing.block (suc o) a whole in
        let e = order_to_size-suc o order in
        let t = twice b.index (order_to_size o) (order_to_size (suc o)) e in
        record {
          index = b.index + b.index;
          at_index = omega (arith, b.at_index, t);
          small = omega (arith, order);
          fits = omega (arith, b.fits, e, t);
        }

    high_half : IsBlock start size o (a + order_to_size o)
    high_half =
        let b = packing.block (suc o) a whole in
        let e = order_to_size-suc o order in
        let t = twice b.index (order_to_size o) (order_to_size (suc o)) e in
        let n : (b.index + b.index + 1) * order_to_size o
            ≡ (b.index + b.index) * order_to_size o + order_to_size o =
          next (b.index + b.index) (order_to_size o) in
        record {
          index = b.index + b.index + 1;
          at_index = omega (arith, b.at_index, t, n);
          small = omega (arith, order);
          fits = omega (arith, b.fits, e, t, n);
        }

    -- What is outside of the block is outside of its halves.
    low_apart : (o' b : ℕ) → mark (suc o) a false u o' b ≡ true → AreApart o a o' b
    low_apart o' b h = elim (others_apart start size u packing (suc o) a o' b whole h) [
      | inl l ↦ inl (omega (arith, l, order_to_size-suc o order))
      | inr l ↦ inr l
    ]

    high_apart :
        (o' b : ℕ)
        → mark o a true (mark (suc o) a false u) o' b ≡ true
        → AreApart o (a + order_to_size o) o' b
    high_apart o' b h = elim (mark-cases o a o' b (mark (suc o) a false u) h) [
      | inl (e, f) ↦ rw e (rw f (inr (omega arith)))
      | inr m ↦ elim (others_apart start size u packing (suc o) a o' b whole m) [
        | inl l ↦ inl (omega (arith, l, order_to_size-suc o order))
        | inr l ↦ inr (omega (arith, l))
      ]
    ]

    pub halved-IsPacking : IsPacking start size (halved o a u)
    halved-IsPacking =
        let v = mark (suc o) a false u in
        let p = clear-IsPacking start size u packing (suc o) a in
        insert-IsPacking start size (mark o a true v)
          (insert-IsPacking start size v p o a low_half low_apart) o (a + order_to_size o) high_half
          high_apart

  module _ (o a b : ℕ) (low : u o a ≡ true) (high : u o b ≡ true)
      (buddies : AreBuddies start size o a b) (below : suc o < max_order) where
    both : IsBlock start size (suc o) a
    both =
        let e = order_to_size-suc o below in
        let t = twice buddies.pair (order_to_size o) (order_to_size (suc o)) e in
        let c = packing.block o b high in
        record {
          index = buddies.pair;
          at_index = omega (arith, buddies.low, t);
          small = below;
          fits = omega (arith, c.at_index, c.fits, buddies.low, buddies.high, e, t);
        }

    both_apart :
        (o' x : ℕ) → mark o b false (mark o a false u) o' x ≡ true → AreApart (suc o) a o' x
    both_apart o' x h =
        let (n, m) = mark-cleared o b o' x (mark o a false u) h in
        let e = order_to_size-suc o below in
        let k = (mark-cleared o a o' x u m).1 in
        elim (others_apart start size u packing o a o' x low m) [
          | inr l ↦ inr l
          | inl l ↦
              elim (others_apart start size u packing o b o' x high (mark-kept o b o' x u n k)) [
                | inl r ↦ inl (omega (arith, r, e, buddies.high))
                | inr r ↦
                    absurd (omega (arith, l, r, buddies.high, positive start size u packing o' x k))
              ]
        ]

    pub joined-IsPacking : IsPacking start size (joined o a b u)
    joined-IsPacking =
        let v = mark o a false u in
        let p = clear-IsPacking start size v (clear-IsPacking start size u packing o a) o b in
        insert-IsPacking start size (mark o b false v) p (suc o) a both both_apart
