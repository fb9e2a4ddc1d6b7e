-- ===== src/Allocator/Buddy/Safety.antt =====
-- What the buddy allocator promises its clients: the blocks in use do not overlap.
use vitr_os.Base.{
  ℕ, ◌+◌, ◌-◌, ◌^◌, ◌≤◌, ◌<◌, ◌≡◌, sym, ap, ◌∙◌, ◌⊎◌, inl, inr, Bool, true, false, false≢true,
  Option, none, some, arith,
}
use vitr_os.Allocator.Size.{align_up, align_down, min_block_size, order_to_size}
use vitr_os.Allocator.Buddy.{Buddy, Layout, new, init, allocate, deallocate, block_order, is_free}
use vitr_os.Allocator.Buddy.Links.{Blocks, mark, mark-cases, mark-cleared, some_inj, none≢some}
use vitr_os.Allocator.Buddy.Blocks.{IsBlock, IsBlock-IsSpot}
use vitr_os.Allocator.Buddy.Packing.{AreApart, no_blocks, same_order}
use vitr_os.Allocator.Buddy.Sound.{IsSound}
use vitr_os.Allocator.Buddy.Cuts.{Held, allocate-IsHolding}
use vitr_os.Allocator.Buddy.Joins.{deallocate-IsSound, is_free-spot}
use vitr_os.Allocator.Buddy.Start.{init-IsSound}

-- The aligned region that `init` manages.
abbrev pub first_page : ℕ → ℕ
first_page start = align_up start min_block_size

abbrev pub page_bytes : ℕ → ℕ → ℕ
page_bytes start size = align_down (start + size) min_block_size - first_page start

-- The states that calls lead to, each with the blocks that were given out and not given back. A block
-- is given back once, with the layout that it was allocated for.
pub data Reaches (start size : ℕ) : Buddy → Blocks → Type 0 where
  started : (s : Buddy) → init start size new ≡ some s → Reaches start size s no_blocks
  allocated :
      (s s' : Buddy) (h : Blocks) (l : Layout) (a : ℕ)
      → Reaches start size s h
      → allocate l s ≡ some (s', some a)
      → Reaches start size s' (mark (block_order l) a true h)
  refused :
      (s s' : Buddy) (h : Blocks) (l : Layout)
      → Reaches start size s h
      → allocate l s ≡ some (s', none)
      → Reaches start size s' h
  deallocated :
      (s s' : Buddy) (h : Blocks) (l : Layout) (a : ℕ)
      → Reaches start size s h
      → h (block_order l) a ≡ true
      → deallocate a l s ≡ some s'
      → Reaches start size s' (mark (block_order l) a false h)

-- The blocks given out are in use.
pub record IsSafe (start size : ℕ) (s : Buddy) (h : Blocks) : Type 0 where
  pub blocks : Blocks
  pub unused : Blocks
  pub sound : IsSound (first_page start) (page_bytes start size) s blocks unused
  pub held : (o a : ℕ) → h o a ≡ true → Held blocks unused o a

some_state : (s t : Buddy) → ◌≡◌ {A = Option Buddy} (some s) (some t) → s ≡ t
some_state s t e = cc

some_pair :
    (s t : Buddy) (m n : Option ℕ)
    → ◌≡◌ {A = Option (Buddy × Option ℕ)} (some (s, m)) (some (t, n))
    → (s ≡ t) × (m ≡ n)
some_pair s t m n e = (cc, cc)

some_bool : (b : Bool) → ◌≡◌ {A = Option Bool} (some b) (some true) → b ≡ true
some_bool b e = cc

module _ (start size : ℕ) (positive : 0 < start) (inside : start + size + 4096 ≤ 2 ^ 64)
    (limit : size ≤ 2 ^ 30) where
  follow : {s t : Buddy} {h : Blocks} → s ≡ t → IsSafe start size s h → IsSafe start size t h
  follow e safe = rw e at safe

  Reaches-IsSafe : {s : Buddy} {h : Blocks} → Reaches start size s h → IsSafe start size s h
  Reaches-IsSafe (started s e) =
      let (t, u, g, q, k) = init-IsSound start size positive inside limit in
      let m : t ≡ s = some_state t s (sym q ∙ e) in
      record { blocks = u; unused = g; sound = rw m at k; held = λ o a m. absurd (false≢true m) }
  Reaches-IsSafe (allocated s s' h l a r e) =
      let safe = Reaches-IsSafe r in
      elim (allocate-IsHolding (first_page start) (page_bytes start size) s safe.blocks safe.unused
        safe.sound l) [
          | inl q ↦ absurd (none≢some a (some_pair s s' none (some a) (sym q ∙ e)).1)
          | inr (t, b, q, k) ↦
              let (m, n) = some_pair t s' (some b) (some a) (sym q ∙ e) in
              let d : b ≡ a = some_inj b a n in
              follow m (record {
                blocks = k.blocks;
                unused = k.unused;
                sound = k.sound;
                held = λ p x i. elim (mark-cases (block_order l) a p x h i) [
                  | inl (v, w) ↦ rw v (
                      rw w (
                        ap (k.blocks (block_order l)) (sym d) ∙ k.held.0,
                        ap (k.unused (block_order l)) (sym d) ∙ k.held.1,
                      ))
                  | inr v ↦ (k.others p x (safe.held p x v)).0
                ];
              })
        ]
  Reaches-IsSafe (refused s s' h l r e) =
      let safe = Reaches-IsSafe r in
      elim (allocate-IsHolding (first_page start) (page_bytes start size) s safe.blocks safe.unused
        safe.sound l) [
          | inl q ↦ let m = (some_pair s s' none none (sym q ∙ e)).0 in follow m safe
          | inr (t, b, q, k) ↦
              absurd (none≢some b (sym (some_pair t s' (some b) none (sym q ∙ e)).1))
        ]
  Reaches-IsSafe (deallocated s s' h l a r m e) =
      let safe = Reaches-IsSafe r in
      let mine = safe.held (block_order l) a m in
      let (t, u, g, q, k, others) =
        deallocate-IsSound (first_page start) (page_bytes start size) s safe.blocks safe.unused
          safe.sound a l mine in
      let n : t ≡ s' = some_state t s' (sym q ∙ e) in
      record {
        blocks = u;
        unused = g;
        sound = rw n at k;
        held = λ p x i.
            let (d, v) = mark-cleared (block_order l) a p x h i in
            let w = safe.held p x v in
            others p x w (λ y. d (
              same_order (first_page start) (page_bytes start size) safe.blocks safe.sound.packing p
                  (block_order l) a (ap (safe.blocks p) (sym y) ∙ w.0) mine.0,
              y,
            ));
      }

  module _ (s : Buddy) (h : Blocks) (reached : Reaches start size s h) where
    -- For a region of at most 1 GB that does not start at 0 and ends below the last page: in every state
    -- that `init`, `allocate` and `deallocate` lead to, the blocks that clients hold lie in the pages of
    -- the region, and no two of them overlap.
    pub Reaches-AreApart :
        (o a p b : ℕ)
        → h o a ≡ true
        → h p b ≡ true
        → (first_page start ≤ a)
          × (a + order_to_size o ≤ first_page start + page_bytes start size)
          × ((o ≡ p) × (a ≡ b) ⊎ AreApart o a p b)
    Reaches-AreApart o a p b m n =
        let safe = Reaches-IsSafe reached in
        let packing = safe.sound.packing in
        let block = packing.block o a (safe.held o a m).0 in
        (
          omega (arith, block.at_index),
          omega (arith, block.at_index, block.fits),
          packing.apart o a p b (safe.held o a m).0 (safe.held p b n).0,
        )

    -- In such a state a block of the region that is marked free in the bit map of its order overlaps
    -- with none that a client holds.
    pub is_free-AreApart :
        (o a p b : ℕ)
        → IsBlock (first_page start) (page_bytes start size) o a
        → is_free a o s ≡ some true
        → h p b ≡ true
        → AreApart o a p b
    is_free-AreApart o a p b block e m =
        let safe = Reaches-IsSafe reached in
        let f =
          is_free-spot (first_page start) (page_bytes start size) s safe.blocks safe.unused
            safe.sound o a (IsBlock-IsSpot (first_page start) (page_bytes start size) o a block) in
        let g : safe.unused o a ≡ true = some_bool (safe.unused o a) (sym f ∙ e) in
        let (x, y) = safe.held p b m in
        elim (safe.sound.packing.apart o a p b (safe.sound.free o a g) x) [
          | inr d ↦ d
          | inl (i, j) ↦ absurd (
              false≢true
                (sym y ∙ ap (safe.unused p) (sym j) ∙ ap (λ q. safe.unused q a) (sym i) ∙ g))
        ]

    -- In such a state no call panics: `allocate` returns for every layout, and `deallocate` for every
    -- block that a client holds, with the layout that it was allocated for.
    pub Reaches-returns :
        ((l : Layout) → (s' : Buddy) × (m : Option ℕ) × (allocate l s ≡ some (s', m)))
        × ((l : Layout) (a : ℕ)
            → h (block_order l) a ≡ true
            → (s' : Buddy) × (deallocate a l s ≡ some s'))
    Reaches-returns =
        let safe = Reaches-IsSafe reached in
        (
          λ l.
              elim (allocate-IsHolding (first_page start) (page_bytes start size) s safe.blocks
                safe.unused safe.sound l) [
                  | inl q ↦ (s, none, q)
                  | inr (t, b, q, _) ↦ (t, some b, q)
                ],
          λ l a m.
              let (t, u, g, q, _, _) =
                deallocate-IsSound (first_page start) (page_bytes start size) s safe.blocks
                  safe.unused safe.sound a l (safe.held (block_order l) a m) in
              (t, q),
        )
