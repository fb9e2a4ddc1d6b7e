-- ===== src/Allocator/Buddy/Cuts.antt =====
-- `allocate` of the buddy allocator: a free block is taken from its list and cut.
use vitr_os.Base.{
  ℕ, zero, suc, ◌+◌, ◌-◌, ◌%◌, ◌^◌, ◌<◌, ◌≡◌, ◌≢◌, refl, sym, ap, ◌∙◌, ◌⊎◌, inl, inr, Bool, true,
  false, false≢true, none, some, arith,
}
use vitr_os.Allocator.Size.{order_to_size}
use vitr_os.Allocator.Buddy.{
  Buddy, Layout, block_order, split, allocate, allocate_at, add_to_free_list,
}
use vitr_os.Allocator.Buddy.Links.{
  Blocks, mark, mark-old, mark-new, mark-kept, mark-out, mark-still_out, mark-gone,
}
use vitr_os.Allocator.Buddy.Fit.{allocate_lem}
use vitr_os.Allocator.Buddy.Blocks.{order_to_size-bounds, order_to_size-suc}
use vitr_os.Allocator.Buddy.Packing.{halved, halved-IsPacking, same_order}
use vitr_os.Allocator.Buddy.Sound.{IsSound}
use vitr_os.Allocator.Buddy.Moves.{add_to_free_list-Gives, remove_from_free_list-Gives}

-- The block is in use.
abbrev pub Held : Blocks → Blocks → ℕ → ℕ → Type 0
Held u g o a = (u o a ≡ true) × (g o a ≡ false)

-- The block `a` of order `o` is in use, and so are the others of `rest`.
pub record IsHolding (start size : ℕ) (s : Buddy) (o a : ℕ) (rest : ℕ → ℕ → Type 0) : Type 0 where
  pub blocks : Blocks
  pub unused : Blocks
  pub sound : IsSound start size s blocks unused
  pub held : Held blocks unused o a
  pub others : (p x : ℕ) → rest p x → Held blocks unused p x × (x ≢ a)

-- The blocks in use but for one.
abbrev pub OtherThan : Blocks → Blocks → ℕ → ℕ → ℕ → Type 0
OtherThan u g a p x = Held u g p x × (x ≢ a)

-- What is free, is not in use.
pub not_free : (b : Bool) → (b ≡ true → ⊥) → b ≡ false
not_free true h = absurd (h refl)
not_free false h = refl

module _ (start size : ℕ) (s : Buddy) (u g : Blocks) (sound : IsSound start size s u g) (o a : ℕ)
    (held : Held u g (suc o) a) where
  inner : (p : ℕ) → u p (a + order_to_size o) ≡ true → ⊥
  inner p h =
      let n =
        (order_to_size-bounds o (omega (arith, (sound.packing.block (suc o) a held.0).small))).0 in
      let e = order_to_size-suc o (sound.packing.block (suc o) a held.0).small in
      elim (sound.packing.apart (suc o) a p (a + order_to_size o) held.0 h) [
        | inl (q, r) ↦ omega (arith, r, n)
        | inr (inl l) ↦ omega (arith, l, e, n)
        | inr (inr l) ↦ omega (arith, l, n)
      ]

  not_in : (p : ℕ) → p ≢ suc o → u p a ≡ true → ⊥
  not_in p n h = n (same_order start size u sound.packing p (suc o) a h held.0)

  kept : (p x : ℕ) → u p x ≡ true → ((p ≡ suc o) × (x ≡ a) → ⊥) → halved o a u p x ≡ true
  kept p x h n =
      let v = mark (suc o) a false u in
      mark-old o (a + order_to_size o) p x (mark o a true v)
        (mark-old o a p x v (mark-kept (suc o) a p x u n h))

  cut : IsSound start size s (halved o a u) g
  cut = record {
    at_start = sound.at_start;
    at_size = sound.at_size;
    region = sound.region;
    packing = halved-IsPacking start size u sound.packing o a held.0;
    linked = sound.linked;
    bits = sound.bits;
    free = λ p x h.
        kept p x (sound.free p x h)
          (λ e. false≢true (sym held.1 ∙ ap (g (suc o)) (sym e.1) ∙ ap (λ q. g q x) (sym e.0) ∙ h));
  }

  -- The upper half goes on the list of its order, and the lower half is held.
  cut_once :
      (s' : Buddy) × (add_to_free_list ((a + order_to_size o) % 2 ^ 64) o s ≡ some s')
      × IsHolding start size s' o a (OtherThan u g a)
  cut_once =
      let b = sound.packing.block (suc o) a held.0 in
      let e = order_to_size-suc o b.small in
      let m : (a + order_to_size o) % 2 ^ 64 ≡ a + order_to_size o =
        omega (arith, b.at_index, b.fits, sound.region.inside, e) in
      let v = mark o a true (mark (suc o) a false u) in
      let free : g o (a + order_to_size o) ≡ false =
        not_free (g o (a + order_to_size o))
          (λ h. inner o (sound.free o (a + order_to_size o) h)) in
      let (s', q, h) =
        add_to_free_list-Gives start size s (halved o a u) g cut o (a + order_to_size o)
          (mark-new o (a + order_to_size o) v) free in
      let n : 0 < order_to_size o =
        omega (arith, (order_to_size-bounds o (omega (arith, b.small))).0) in
      (
        s',
        rw m q,
        record {
          blocks = halved o a u;
          unused = mark o (a + order_to_size o) true g;
          sound = h;
          held = (
            mark-old o (a + order_to_size o) o a v (mark-new o a (mark (suc o) a false u)),
            mark-out o (a + order_to_size o) o a true g (λ r. omega (arith, r, n))
                (not_free (g o a) (λ r. not_in o (λ t. omega (arith, t)) (sound.free o a r))),
          );
          others = λ p x (k, d). (
            (
              kept p x k.0 (λ r. d r.1),
              mark-out o (a + order_to_size o) p x true g (λ r. inner p (rw (← r) k.0)) k.1,
            ),
            d,
          );
        },
      )

-- The halves down to the order `required` succeed.
pub split-IsHolding :
    (start size n required a : ℕ) (s : Buddy) (u g : Blocks)
    → IsSound start size s u g
    → Held u g (required + n) a
    → (s' : Buddy) × (split n required a s ≡ some s')
      × IsHolding start size s' required a (OtherThan u g a)
unfolding split
split-IsHolding start size zero required a s u g sound held = (
  s,
  refl,
  record {
    blocks = u;
    unused = g;
    sound = sound;
    held = let e : required + 0 ≡ required = omega arith in rw e at held;
    others = λ p x h. h;
  },
)
split-IsHolding start size (suc n) required a s u g sound held =
    let e : required + suc n ≡ suc (required + n) = omega arith in
    let (t, q, h) = cut_once start size s u g sound (required + n) a (rw e at held) in
    let (s', r, k) = split-IsHolding start size n required a t h.blocks h.unused h.sound h.held in
    (
      s',
      rw (q, split) r,
      record {
        blocks = k.blocks;
        unused = k.unused;
        sound = k.sound;
        held = k.held;
        others = λ p x m. k.others p x ((h.others p x m).0, m.1);
      },
    )

module _ (start size : ℕ) (s : Buddy) (u g : Blocks) (sound : IsSound start size s u g) where
  -- Nothing else is in use at the address of a free block.
  pub Held-apart : (o a p x : ℕ) → g o a ≡ true → Held u g p x → x ≢ a
  Held-apart o a p x h k e =
      let q : p ≡ o =
        same_order start size u sound.packing p o a (rw (← e) k.0) (sound.free o a h) in
      false≢true (sym k.1 ∙ ap (g p) e ∙ ap (λ r. g r a) q ∙ h)

  pub allocate_at-IsHolding :
      (required n : ℕ)
      → (a : ℕ) → s.free_lists (required + n) ≡ some a
      → (s' : Buddy) × (allocate_at required (required + n) s ≡ some (s', some a))
        × IsHolding start size s' required a (Held u g)
  unfolding allocate_at
  allocate_at-IsHolding required n a e =
      let f = required + n in
      let h : g f a ≡ true = (sound.linked.head f a e).0 in
      let m = sound.free f a h in
      let (t, q, k) = remove_from_free_list-Gives start size s u g sound f a m h e in
      let out : mark f a false g f a ≡ false = mark-gone f a g in
      let (s', r, w) = split-IsHolding start size n required a t u (mark f a false g) k (m, out) in
      let d : f - required ≡ n = omega arith in
      (
        s',
        rw (q, d, allocate_at) (rw r refl),
        record {
          blocks = w.blocks;
          unused = w.unused;
          sound = w.sound;
          held = w.held;
          others =
              λ p x i. w.others p x ((i.0, mark-still_out f a p x g i.1), Held-apart f a p x h i);
        },
      )

  -- `allocate` gives out a block that is in use from then on, as are all blocks that were before, and
  -- whose address none of them has; or there is no free block of the order of the request or above.
  pub allocate-IsHolding :
      (l : Layout)
      → (allocate l s ≡ some (s, none))
        ⊎ (s' : Buddy) × (a : ℕ) × (allocate l s ≡ some (s', some a))
          × IsHolding start size s' (block_order l) a (Held u g)
  allocate-IsHolding l = elim (allocate_lem l s) [
    | inl (e, _) ↦ inl e
    | inr (f, e, first) ↦
        let r = block_order l in
        let q : r + (f - r) ≡ f = omega (arith, first.from) in
        let (s', m, h) = rw q at (allocate_at-IsHolding r (f - r) first.block (rw q first.head)) in
        inr (s', first.block, e ∙ m, h)
  ]
