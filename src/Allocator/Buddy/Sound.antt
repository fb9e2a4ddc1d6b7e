-- ===== src/Allocator/Buddy/Sound.antt =====
-- The invariant of the buddy allocator: its free lists and its bit maps hold the same blocks.
use vitr_os.Base.{
  ℕ, ◌+◌, ◌*◌, ◌/◌, ◌%◌, ◌≡◌, ◌≢◌, refl, sym, ap, ◌∙◌, inl, inr, Bool, true, false, false≢true,
  Bool-cases, ◌==◌, ==_iff, Option, none, some, if◌then◌else◌, arith,
}
use vitr_os.Allocator.Size.{order_to_size}
use vitr_os.Allocator.Buddy.{Buddy, Node, addr_to_bit_index, set_bit, set_prev, set_next, set_node}
use vitr_os.Allocator.Buddy.Bits.{written, written-same, written-other}
use vitr_os.Allocator.Buddy.Links.{Blocks, mark, points, IsLinked}
use vitr_os.Allocator.Buddy.Blocks.{IsRegion, IsSpot, addr_to_bit_index-spot, in_bitmap-spot}
use vitr_os.Allocator.Buddy.Packing.{IsPacking}

abbrev pub next_of : Buddy → ℕ → Option ℕ
next_of s a = (s.nodes a).next

abbrev pub prev_of : Buddy → ℕ → Option ℕ
prev_of s a = (s.nodes a).prev

abbrev pub bit_at : Buddy → ℕ → ℕ → Bool
bit_at s o a = let i = addr_to_bit_index a o s in s.free_bitmaps o (i / 64) (i % 64)

-- The bits of the blocks that start in the region are those of the set.
abbrev pub AreBits : ℕ → ℕ → Buddy → Blocks → Type 0
AreBits start size s g = (o a : ℕ) → IsSpot start size o a → bit_at s o a ≡ g o a

-- The region is divided into the blocks `u`. Of these, `g` are free: they are on the lists of their
-- orders, and have their bits set.
pub record IsSound (start size : ℕ) (s : Buddy) (u g : Blocks) : Type 0 where
  pub at_start : s.region_start ≡ start
  pub at_size : s.region_size ≡ size
  pub region : IsRegion start size
  pub packing : IsPacking start size u
  pub linked : IsLinked s.free_lists (next_of s) (prev_of s) g
  pub bits : AreBits start size s g
  pub free : (o a : ℕ) → g o a ≡ true → u o a ≡ true

-- The states differ in the nodes alone.
pub record IsSameBesides (s s' : Buddy) : Type 0 where
  pub same_start : s'.region_start ≡ s.region_start
  pub same_size : s'.region_size ≡ s.region_size
  pub same_maps : s'.free_bitmaps ≡ s.free_bitmaps
  pub same_lists : s'.free_lists ≡ s.free_lists

pub set_prev-IsSameBesides : (m p : Option ℕ) (s : Buddy) → IsSameBesides s (set_prev m p s)
set_prev-IsSameBesides none p s = record {
  same_start = refl;
  same_size = refl;
  same_maps = refl;
  same_lists = refl;
}
set_prev-IsSameBesides (some a) p s = record {
  same_start = refl;
  same_size = refl;
  same_maps = refl;
  same_lists = refl;
}

pub set_next-IsSameBesides : (m n : Option ℕ) (s : Buddy) → IsSameBesides s (set_next m n s)
set_next-IsSameBesides none n s = record {
  same_start = refl;
  same_size = refl;
  same_maps = refl;
  same_lists = refl;
}
set_next-IsSameBesides (some a) n s = record {
  same_start = refl;
  same_size = refl;
  same_maps = refl;
  same_lists = refl;
}

through_if {ℓ ℓ'} :
    {A : Type ℓ} {B : Type ℓ'} (f : A → B) (b : Bool) (x y : A)
    → f (if b then x else y) ≡ (if b then f x else f y)
through_if f true x y = refl
through_if f false x y = refl

either_way {ℓ} : {A : Type ℓ} (b : Bool) (x y : A) → (b ≡ true → x ≡ y) → (if b then x else y) ≡ y
either_way true x y h = h refl
either_way false x y h = refl

at_same {ℓ} : {A : Type ℓ} (x a : ℕ) (f : ℕ → A) → (x == a) ≡ true → f a ≡ f x
at_same x a f h = ap f (sym ((==_iff x a).0 h))

pub set_prev-links :
    (m p : Option ℕ) (s : Buddy) (x : ℕ)
    → (prev_of (set_prev m p s) x ≡ (if points m x then p else prev_of s x))
      × (next_of (set_prev m p s) x ≡ next_of s x)
set_prev-links none p s x = (refl, refl)
set_prev-links (some a) p s x = (
  through_if (λ n. n.prev) (x == a) (record { next = (s.nodes a).next; prev = p }) (s.nodes x),
  through_if (λ n. n.next) (x == a) (record { next = (s.nodes a).next; prev = p }) (s.nodes x)
      ∙ either_way (x == a) (next_of s a) (next_of s x) (at_same x a (next_of s)),
)

pub set_next-links :
    (m n : Option ℕ) (s : Buddy) (x : ℕ)
    → (next_of (set_next m n s) x ≡ (if points m x then n else next_of s x))
      × (prev_of (set_next m n s) x ≡ prev_of s x)
set_next-links none n s x = (refl, refl)
set_next-links (some a) n s x = (
  through_if (λ m. m.next) (x == a) (record { next = n; prev = (s.nodes a).prev }) (s.nodes x),
  through_if (λ m. m.prev) (x == a) (record { next = n; prev = (s.nodes a).prev }) (s.nodes x)
      ∙ either_way (x == a) (prev_of s a) (prev_of s x) (at_same x a (prev_of s)),
)

pub set_node-links :
    (a : ℕ) (node : Node) (s : Buddy) (x : ℕ)
    → (prev_of (set_node a node s) x ≡ (if x == a then node.prev else prev_of s x))
      × (next_of (set_node a node s) x ≡ (if x == a then node.next else next_of s x))
set_node-links a node s x = (
  through_if (λ n. n.prev) (x == a) node (s.nodes x),
  through_if (λ n. n.next) (x == a) node (s.nodes x),
)

module _ (heads heads' : ℕ → Option ℕ) (next next' prev prev' : ℕ → Option ℕ) (g : Blocks) where
  -- The same lists, as other functions.
  pub IsLinked-same :
      ((o : ℕ) → heads' o ≡ heads o)
      → ((x : ℕ) → next' x ≡ next x)
      → ((x : ℕ) → prev' x ≡ prev x)
      → IsLinked heads next prev g
      → IsLinked heads' next' prev' g
  IsLinked-same h n p l = record {
    head = λ o a e. let (m, q) = l.head o a (sym (h o) ∙ e) in (m, p a ∙ q);
    first = λ o a m e. h o ∙ l.first o a m (sym (p a) ∙ e);
    before = λ o a b m e. let (k, q) = l.before o a b m (sym (p a) ∙ e) in (k, n b ∙ q);
    after = λ o a b m e. let (k, q) = l.after o a b m (sym (n a) ∙ e) in (k, p b ∙ q);
    once = l.once;
  }

module _ (start size : ℕ) (s : Buddy) (region : IsRegion start size)
    (at_start : s.region_start ≡ start) (g : Blocks) (bits : AreBits start size s g) (v : Bool)
    (o a : ℕ) (spot : IsSpot start size o a) where
  index : ℕ
  index = addr_to_bit_index a o s

  abbrev pub marked_state : Buddy
  marked_state = record s { free_bitmaps = written s.free_bitmaps o (addr_to_bit_index a o s) v }

  -- The bit of a block that starts in the region exists.
  pub set_bit-spot : set_bit v a o s ≡ some marked_state
  unfolding set_bit
  set_bit-spot = let h = in_bitmap-spot start size s region at_start o a spot in rw h refl

  same_index :
      (x : ℕ) → IsSpot start size o x → addr_to_bit_index x o s ≡ addr_to_bit_index a o s → x ≡ a
  same_index x q e =
      let i : q.index ≡ spot.index =
        sym (addr_to_bit_index-spot start size s region at_start o x q)
        ∙ e
        ∙ addr_to_bit_index-spot start size s region at_start o a spot in
      q.at_index ∙ ap (λ k. start + k * order_to_size o) i ∙ sym spot.at_index

  pub AreBits-marked : AreBits start size marked_state (mark o a v g)
  AreBits-marked o' x q = elim (Bool-cases (o' == o)) [
    | inr e ↦
        let n : o' ≢ o = λ r. false≢true (ground (arith, r)) in
        let m : mark o a v g o' x ≡ g o' x = rw e refl in
        written-other s.free_bitmaps o (addr_to_bit_index a o s) o' (addr_to_bit_index x o' s) v
          (inl n)
        ∙ bits o' x q
        ∙ sym m
    | inl e ↦ elim (Bool-cases (x == a)) [
      | inl f ↦
          let w = (==_iff o' o).0 e in
          let y = (==_iff x a).0 f in
          let m : mark o a v g o' x ≡ v = rw (e, f) refl in
          ap (λ r. bit_at marked_state r x) w
          ∙ ap (λ r. bit_at marked_state o r) y
          ∙ written-same s.free_bitmaps o (addr_to_bit_index a o s) v
          ∙ sym m
      | inr f ↦
          let w = (==_iff o' o).0 e in
          let n : x ≢ a = λ r. false≢true (ground (arith, r)) in
          let q' : IsSpot start size o x = rw (← w) q in
          let m : mark o a v g o' x ≡ g o' x = rw (e, f) refl in
          written-other s.free_bitmaps o (addr_to_bit_index a o s) o' (addr_to_bit_index x o' s) v
            (inr (rw w (λ r. n (same_index x q' r))))
          ∙ bits o' x q
          ∙ sym m
    ]
  ]
