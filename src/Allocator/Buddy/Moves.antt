-- ===== src/Allocator/Buddy/Moves.antt =====
-- A block of the buddy allocator becomes free, or is taken from its list.
use vitr_os.Base.{
  ℕ, ◌+◌, ◌/◌, ◌%◌, ◌^◌, ◌≡◌, refl, sym, ap, ◌∙◌, inl, inr, Bool, true, false, false≢true,
  Bool-cases, ◌==◌, Option, none, some, if◌then◌else◌, arith,
}
use vitr_os.Allocator.Size.{min_block_size_log2}
use vitr_os.Allocator.Buddy.{
  Buddy, Node, relative_to, set_bit, set_prev, set_head, set_node, skip_node, non_null, update,
  add_to_free_list, remove_from_free_list, remove_node_from_free_list, unmark_free,
}
use vitr_os.Allocator.Buddy.Links.{
  Blocks, mark, points, IsLinked, mark-cases, mark-cleared, added_next, added_prev, add-IsLinked,
}
use vitr_os.Allocator.Buddy.Unlinks.{
  without_head, removed_heads, removed_next, removed_prev, remove-IsLinked,
}
use vitr_os.Allocator.Buddy.Blocks.{IsSpot, IsBlock-IsSpot}
use vitr_os.Allocator.Buddy.Packing.{same_order}
use vitr_os.Allocator.Buddy.Sound.{
  IsSound, AreBits, next_of, prev_of, set_prev-IsSameBesides, set_prev-links, set_next-links,
  set_node-links, IsLinked-same, marked_state, set_bit-spot, AreBits-marked,
}

abbrev bit_in : (ℕ → ℕ → ℕ → Bool) → ℕ → ℕ → ℕ → Bool
bit_in maps start o a =
    let i = relative_to start a / 2 ^ (min_block_size_log2 + o) in maps o (i / 64) (i % 64)

-- The operation succeeds, and leaves these blocks free.
abbrev pub Gives : ℕ → ℕ → Option Buddy → Blocks → Blocks → Type 0
Gives start size r u g = (s : Buddy) × (r ≡ some s) × IsSound start size s u g

record IsSkipped (o : ℕ) (m n : Option ℕ) (s s' : Buddy) : Type 0 where
  same_start : s'.region_start ≡ s.region_start
  same_size : s'.region_size ≡ s.region_size
  same_maps : s'.free_bitmaps ≡ s.free_bitmaps
  lists : (p : ℕ) → s'.free_lists p ≡ without_head m o n s.free_lists p
  nexts : (x : ℕ) → next_of s' x ≡ (if points m x then n else next_of s x)
  prevs : (x : ℕ) → prev_of s' x ≡ prev_of s x

skip_node-IsSkipped : (o : ℕ) (m n : Option ℕ) (s : Buddy) → IsSkipped o m n s (skip_node o m n s)
unfolding skip_node
skip_node-IsSkipped o none n s = record {
  same_start = refl;
  same_size = refl;
  same_maps = refl;
  lists = λ p. refl;
  nexts = λ x. refl;
  prevs = λ x. refl;
}
skip_node-IsSkipped o (some b) n s = record {
  same_start = refl;
  same_size = refl;
  same_maps = refl;
  lists = λ p. refl;
  nexts = λ x. (set_next-links (some b) n s x).0;
  prevs = λ x. (set_next-links (some b) n s x).1;
}

module _ (start size : ℕ) (s : Buddy) (u g : Blocks) (sound : IsSound start size s u g) (o a : ℕ)
    (held : u o a ≡ true) where
  spot : IsSpot start size o a
  spot = IsBlock-IsSpot start size o a (sound.packing.block o a held)

  -- The write to the bit map, after the writes to the lists.
  with_bit :
      (v : Bool) (s' : Buddy)
      → s'.region_start ≡ s.region_start
      → s'.region_size ≡ s.region_size
      → s'.free_bitmaps ≡ s.free_bitmaps
      → IsLinked s'.free_lists (next_of s') (prev_of s') (mark o a v g)
      → ((p x : ℕ) → mark o a v g p x ≡ true → u p x ≡ true)
      → Gives start size (set_bit v a o s') u (mark o a v g)
  with_bit v s' e z m links free =
      let at = e ∙ sound.at_start in
      let bits : AreBits start size s' g = λ p x q.
        ap (λ f. bit_in f s'.region_start p x) m
        ∙ ap (λ t. bit_in s.free_bitmaps t p x) e
        ∙ sound.bits p x q in
      (
        marked_state start size s' sound.region at g bits v o a spot,
        set_bit-spot start size s' sound.region at g bits v o a spot,
        record {
          at_start = at;
          at_size = z ∙ sound.at_size;
          region = sound.region;
          packing = sound.packing;
          linked = links;
          bits = AreBits-marked start size s' sound.region at g bits v o a spot;
          free = free;
        },
      )

  module _ (taken : g o a ≡ false) where
    fresh : (p : ℕ) → g p a ≡ false
    fresh p = elim (Bool-cases (g p a)) [
      | inr e ↦ e
      | inl e ↦ absurd (
          false≢true (
            sym taken
            ∙ ap (λ q. g q a) (same_order start size u sound.packing o p a held (sound.free p a e))
            ∙ e))
    ]

    non_null_block : non_null a ≡ some a
    non_null_block =
        let e : (a == 0) ≡ false = ground (arith, spot.at_index, sound.region.positive) in rw e refl

    abbrev added : Option ℕ → Buddy
    added p =
        set_head o p (
          set_prev (s.free_lists o) p
            (set_node a (record { next = s.free_lists o; prev = none }) s))

    added_links :
        IsLinked
          (added (some a)).free_lists
          (next_of (added (some a)))
          (prev_of (added (some a)))
          (mark o a true g)
    added_links =
        let head = s.free_lists o in
        let node : Node = record { next = head; prev = none } in
        let t : Buddy = set_node a node s in
        IsLinked-same (update o (some a) s.free_lists) (added (some a)).free_lists
          (added_next s.free_lists (next_of s) (prev_of s) g sound.linked o a)
          (next_of (added (some a)))
          (added_prev s.free_lists (next_of s) (prev_of s) g sound.linked o a)
          (prev_of (added (some a))) (mark o a true g)
          (λ p. ap (λ f. update o (some a) f p) (set_prev-IsSameBesides head (some a) t).same_lists)
          (λ x. (set_prev-links head (some a) t x).1 ∙ (set_node-links a node s x).1)
          (λ x.
            (set_prev-links head (some a) t x).0
            ∙ ap (λ r. if points head x then some a else r) (set_node-links a node s x).0)
          (add-IsLinked s.free_lists (next_of s) (prev_of s) g sound.linked o a fresh)

    pub add_to_free_list-Gives : Gives start size (add_to_free_list a o s) u (mark o a true g)
    unfolding add_to_free_list
    add_to_free_list-Gives =
        let node : Node = record { next = s.free_lists o; prev = none } in
        let same = set_prev-IsSameBesides (s.free_lists o) (some a) (set_node a node s) in
        let (s', e, h) =
          with_bit true (added (some a)) same.same_start same.same_size same.same_maps added_links
            (λ p x m. elim (mark-cases o a p x g m) [
              | inl (q, r) ↦ rw q (rw r held)
              | inr n ↦ sound.free p x n
            ]) in
        (s', ap (λ n. set_bit true a o (added n)) non_null_block ∙ e, h)

  module _ (here : g o a ≡ true) where
    removed_links :
        (s' : Buddy)
        → ((p : ℕ) → s'.free_lists p ≡ without_head (prev_of s a) o (next_of s a) s.free_lists p)
        → ((x : ℕ) → next_of s' x ≡ (if points (prev_of s a) x then next_of s a else next_of s x))
        → ((x : ℕ) → prev_of s' x ≡ (if points (next_of s a) x then prev_of s a else prev_of s x))
        → IsLinked s'.free_lists (next_of s') (prev_of s') (mark o a false g)
    removed_links s' h n p =
        IsLinked-same (removed_heads s.free_lists (next_of s) (prev_of s) g sound.linked o a)
          s'.free_lists (removed_next s.free_lists (next_of s) (prev_of s) g sound.linked o a)
          (next_of s') (removed_prev s.free_lists (next_of s) (prev_of s) g sound.linked o a)
          (prev_of s') (mark o a false g) h n p
          (remove-IsLinked s.free_lists (next_of s) (prev_of s) g sound.linked o a here)

    unmarked :
        (s' : Buddy)
        → s'.region_start ≡ s.region_start
        → s'.region_size ≡ s.region_size
        → s'.free_bitmaps ≡ s.free_bitmaps
        → IsLinked s'.free_lists (next_of s') (prev_of s') (mark o a false g)
        → Gives start size (unmark_free a o s') u (mark o a false g)
    unmarked s' e z m l =
        with_bit false s' e z m l (λ p x n. sound.free p x (mark-cleared o a p x g n).1)

    pub remove_node_from_free_list-Gives :
        Gives start size (remove_node_from_free_list a o s) u (mark o a false g)
    unfolding remove_node_from_free_list
    remove_node_from_free_list-Gives =
        let n = next_of s a in
        let p = prev_of s a in
        let t = skip_node o p n s in
        let w = skip_node-IsSkipped o p n s in
        let same = set_prev-IsSameBesides n p t in
        let links =
          removed_links (set_prev n p t) (λ q. ap (λ f. f q) same.same_lists ∙ w.lists q)
            (λ x. (set_prev-links n p t x).1 ∙ w.nexts x)
            (λ x. (set_prev-links n p t x).0 ∙ ap (λ r. if points n x then p else r) (w.prevs x)) in
        unmarked (set_prev n p t) (same.same_start ∙ w.same_start) (same.same_size ∙ w.same_size)
          (same.same_maps ∙ w.same_maps) links

    pub remove_from_free_list-Gives :
        s.free_lists o ≡ some a
        → (s' : Buddy) × (remove_from_free_list o s ≡ some (s', some a))
          × IsSound start size s' u (mark o a false g)
    unfolding remove_from_free_list
    remove_from_free_list-Gives e =
        let n = next_of s a in
        let f : prev_of s a ≡ none = (sound.linked.head o a e).1 in
        let same = set_prev-IsSameBesides n none s in
        let t = set_head o n (set_prev n none s) in
        let links =
          removed_links t (λ q. rw f (ap (λ h. update o n h q) same.same_lists))
            (λ x. rw f (set_prev-links n none s x).1) (λ x. rw f (set_prev-links n none s x).0) in
        let (s', q, h) = unmarked t same.same_start same.same_size same.same_maps links in
        (s', rw (e, remove_from_free_list) (rw q refl), h)
