-- ===== src/Allocator/Buddy/Joins.antt =====
-- `deallocate` of the buddy allocator: a block is put together with its buddy while this is free.
use vitr_os.Base.{
  ℕ, zero, suc, ◌+◌, ◌-◌, ◌*◌, ◌%◌, ◌^◌, ◌<◌, ◌≡◌, ◌≢◌, refl, sym, ap, ◌∙◌, ◌⊎◌, inl, inr, true,
  false, false≢true, Bool-cases, some, arith, min, ltb, leb, ◌||◌,
}
use vitr_os.Allocator.Size.{max_order, order_to_size}
use vitr_os.Allocator.Buddy.{
  Buddy, Layout, block_order, buddy_address, is_free, can_merge, merge, deallocate,
  remove_node_from_free_list,
}
use vitr_os.Allocator.Buddy.Links.{
  Blocks, mark, mark-old, mark-new, mark-kept, mark-out, mark-still_out, mark-gone,
}
use vitr_os.Allocator.Buddy.Blocks.{
  IsBlock, IsSpot, AreBuddies, buddy_address-AreBuddies, in_bitmap-spot,
}
use vitr_os.Allocator.Buddy.Packing.{joined, joined-IsPacking, same_order, next}
use vitr_os.Allocator.Buddy.Sound.{IsSound}
use vitr_os.Allocator.Buddy.Moves.{add_to_free_list-Gives, remove_node_from_free_list-Gives}
use vitr_os.Allocator.Buddy.Cuts.{Held, OtherThan, IsHolding, not_free, Held-apart}

module _ (start size : ℕ) (s : Buddy) (u g : Blocks) (sound : IsSound start size s u g) where
  -- The free bit of a block that starts in the region.
  pub is_free-spot : (o a : ℕ) → IsSpot start size o a → is_free a o s ≡ some (g o a)
  unfolding is_free
  is_free-spot o a spot =
      let h = in_bitmap-spot start size s sound.region sound.at_start o a spot in
      rw (h, is_free) (ap some (sound.bits o a spot))

  module _ (o a b : ℕ) (low : u o a ≡ true) (high : u o b ≡ true)
      (buddies : AreBuddies start size o a b) (below : suc o < max_order) (not_low : g o a ≡ false)
      (not_high : g o b ≡ false) where
    gone : (o' c p x : ℕ) → u o' c ≡ true → g o' c ≡ false → g p x ≡ true → x ≢ c
    gone o' c p x m n h e =
        let q : p ≡ o' =
          same_order start size u sound.packing p o' c (ap (u p) (sym e) ∙ sound.free p x h) m in
        false≢true (sym n ∙ ap (λ r. g r c) (sym q) ∙ ap (g p) (sym e) ∙ h)

    joined_old : (p x : ℕ) → u p x ≡ true → x ≢ a → x ≢ b → joined o a b u p x ≡ true
    joined_old p x h m n =
        mark-old (suc o) a p x (mark o b false (mark o a false u))
          (mark-kept o b p x (mark o a false u) (λ e. n e.1) (mark-kept o a p x u (λ e. m e.1) h))

    -- Two halves in use are the same as the whole in use.
    join : IsHolding start size s (suc o) a (λ p x. Held u g p x × (x ≢ a) × (x ≢ b))
    join = record {
      blocks = joined o a b u;
      unused = g;
      sound = record {
        at_start = sound.at_start;
        at_size = sound.at_size;
        region = sound.region;
        packing = joined-IsPacking start size u sound.packing o a b low high buddies below;
        linked = sound.linked;
        bits = sound.bits;
        free = λ p x h.
            joined_old p x (sound.free p x h) (gone o a p x low not_low h)
              (gone o b p x high not_high h);
      };
      held = (
        mark-new (suc o) a (mark o b false (mark o a false u)),
        not_free (g (suc o) a) (λ h. absurd (gone o a (suc o) a low not_low h refl)),
      );
      others = λ p x (h, m, n). ((joined_old p x h.0 m n, h.1), m);
    }

module _ (start size : ℕ) (s : Buddy) (u g : Blocks) (sound : IsSound start size s u g) (o a : ℕ)
    (held : Held u g o a) where
  buddy : ℕ
  buddy = buddy_address a o s

  block : IsBlock start size o a
  block = sound.packing.block o a held.0

  sides :
      AreBuddies start size o a (buddy_address a o s)
      ⊎ AreBuddies start size o (buddy_address a o s) a
  sides =
      buddy_address-AreBuddies start size s sound.region sound.at_start o a
        (sound.packing.block o a held.0)

  buddy_spot : buddy_address a o s < start + size → IsSpot start size o (buddy_address a o s)
  buddy_spot h = elim sides [
    | inl b ↦
        let e : (b.pair + b.pair + 1) * order_to_size o
            ≡ (b.pair + b.pair) * order_to_size o + order_to_size o =
          next (b.pair + b.pair) (order_to_size o) in
        record {
          index = b.pair + b.pair + 1;
          at_index = omega (arith, b.low, b.high, e);
          small = (sound.packing.block o a held.0).small;
          starts = omega (arith, h, b.low, b.high, e);
        }
    | inr b ↦ record {
      index = b.pair + b.pair;
      at_index = b.low;
      small = (sound.packing.block o a held.0).small;
      starts = omega (arith, h, b.low);
    }
  ]

  -- The buddy is found free only if it is a free block of this order.
  can_merge-cases :
      (can_merge (buddy_address a o s) o s ≡ some false)
      ⊎ (can_merge (buddy_address a o s) o s ≡ some true) × (g o (buddy_address a o s) ≡ true)
  unfolding can_merge
  can_merge-cases =
      let c = buddy_address a o s in
      elim (Bool-cases
        (ltb c s.region_start || leb ((s.region_start + s.region_size) % 2 ^ 64) c)) [
          | inl e ↦ inl (rw (e, can_merge) refl)
          | inr e ↦
              let h : c < start + size =
                ground (arith, e, sound.at_start, sound.at_size, sound.region.inside) in
              let f = is_free-spot start size s u g sound o c (buddy_spot h) in
              elim (Bool-cases (g o c)) [
                | inl k ↦ inr (rw (e, can_merge) (f ∙ ap some k), k)
                | inr k ↦ inl (rw (e, can_merge) (f ∙ ap some k))
              ]
        ]

  merge_once :
      suc o < max_order
      → g o (buddy_address a o s) ≡ true
      → (s' : Buddy) × (remove_node_from_free_list (buddy_address a o s) o s ≡ some s')
        × IsHolding start size s' (suc o) (min a (buddy_address a o s)) (OtherThan u g a)
  merge_once below free =
      let c = buddy_address a o s in
      let m = sound.free o c free in
      let (s', e, k) = remove_node_from_free_list-Gives start size s u g sound o c m free in
      let g' = mark o c false g in
      let mine : g' o a ≡ false = mark-still_out o c o a g held.1 in
      let its : g' o c ≡ false = mark-gone o c g in
      let far : (p x : ℕ) → Held u g p x → x ≢ c =
        λ p x. Held-apart start size s u g sound o c p x free in
      (
        s',
        e,
        elim sides [
          | inl b ↦
              let h = join start size s' u g' k o a c held.0 m b below mine its in
              let q : min a c ≡ a = omega (arith, b.high) in
              rw q (record {
                blocks = h.blocks;
                unused = h.unused;
                sound = h.sound;
                held = h.held;
                others =
                    λ p x (i, n). h.others p x ((i.0, mark-still_out o c p x g i.1), n, far p x i);
              })
          | inr b ↦
              let h = join start size s' u g' k o c a m held.0 b below its mine in
              let q : min a c ≡ c = omega (arith, b.high) in
              rw q (record {
                blocks = h.blocks;
                unused = h.unused;
                sound = h.sound;
                held = h.held;
                others =
                    λ p x (i, n). h.others p x ((i.0, mark-still_out o c p x g i.1), far p x i, n);
              })
        ],
      )

-- The rounds of `deallocate` succeed, and leave one block in the place of those put together.
merge-IsHolding :
    (start size n a o : ℕ) (s : Buddy) (u g : Blocks)
    → IsSound start size s u g
    → Held u g o a
    → o + n < max_order
    → (s' : Buddy) × (a' : ℕ) × (o' : ℕ) × (merge n a o s ≡ some (s', a', o'))
      × IsHolding start size s' o' a' (OtherThan u g a)
unfolding merge
merge-IsHolding start size zero a o s u g sound held below = (
  s,
  a,
  o,
  refl,
  record { blocks = u; unused = g; sound = sound; held = held; others = λ p x h. h },
)
merge-IsHolding start size (suc n) a o s u g sound held below =
    elim (can_merge-cases start size s u g sound o a held) [
      | inl e ↦ (
        s,
        a,
        o,
        rw (e, merge) refl,
        record { blocks = u; unused = g; sound = sound; held = held; others = λ p x h. h },
      )
      | inr (e, free) ↦
          let (t, q, h) = merge_once start size s u g sound o a held (omega (arith, below)) free in
          let (s', a', o', r, k) =
            merge-IsHolding start size n (min a (buddy_address a o s)) (suc o) t h.blocks h.unused
              h.sound h.held (omega (arith, below)) in
          (
            s',
            a',
            o',
            rw (e, merge) (rw q r),
            record {
              blocks = k.blocks;
              unused = k.unused;
              sound = k.sound;
              held = k.held;
              others = λ p x i. k.others p x (h.others p x i);
            },
          )
    ]

-- `deallocate` of a block in use succeeds, and all other blocks in use stay so.
pub deallocate-IsSound :
    (start size : ℕ) (s : Buddy) (u g : Blocks)
    → IsSound start size s u g
    → (a : ℕ) (l : Layout) → Held u g (block_order l) a
    → (s' : Buddy) × (u' : Blocks) × (g' : Blocks) × (deallocate a l s ≡ some s')
      × IsSound start size s' u' g'
      × ((p x : ℕ) → Held u g p x → x ≢ a → Held u' g' p x)
unfolding deallocate
deallocate-IsSound start size s u g sound a l held =
    let o = block_order l in
    let (t, a', o', e, h) =
      merge-IsHolding start size (max_order - 1 - o) a o s u g sound held
        (omega (arith, (sound.packing.block o a held.0).small)) in
    let (s', q, k) =
      add_to_free_list-Gives start size t h.blocks h.unused h.sound o' a' h.held.0 h.held.1 in
    (
      s',
      h.blocks,
      mark o' a' true h.unused,
      rw (e, deallocate) q,
      k,
      λ p x i n. let (j, m) = h.others p x (i, n) in (j.0, mark-out o' a' p x true h.unused m j.1),
    )
