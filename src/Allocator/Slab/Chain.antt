-- ===== src/Allocator/Slab/Chain.antt =====
-- The free list of a slab as a list of blocks: what its operations do to it.
use native.Mathlib.Nat.{div-mul-le_self}
use vitr_os.Base.{
  ℕ, zero, suc, ◌+◌, ◌*◌, ◌/◌, ◌%◌, ◌^◌, ◌≤◌, ◌<◌, ◌≡◌, ◌≢◌, refl, ap, ◌∙◌, ◌⊎◌, inl, inr, Option,
  none, some, List, [], ◌∷◌, All, All-mono, length, arith,
}
use vitr_os.Allocator.Buddy.{non_null, update}
use vitr_os.Allocator.Slab.{SlabCache, Links, slab_allocate, slab_deallocate, add_blocks, add_slab}

-- The links lead from `head` through the blocks, in this order.
abbrev pub IsChain : Links → Option ℕ → List ℕ → Type 0
IsChain links head [] = head ≡ none
IsChain links head (a ∷ l) = (head ≡ some a) × IsChain links (links a) l

-- `slab_allocate` takes the first block of the free list; with an empty list it fails and changes
-- nothing.
pub slab_allocate_lem :
    (links : Links) (c : SlabCache) (blocks : List ℕ)
    → IsChain links c.free_list blocks
    → (blocks ≡ []) × (slab_allocate links c ≡ (c, none))
      ⊎ (a : ℕ) × (rest : List ℕ) × (blocks ≡ a ∷ rest)
        × ((slab_allocate links c).1 ≡ some a)
        × IsChain links (slab_allocate links c).0.free_list rest
unfolding slab_allocate
slab_allocate_lem links c [] h = inl (refl, simp (h, slab_allocate) refl)
slab_allocate_lem links c (a ∷ l) h =
    inr (a, l, refl, rw (h.0, slab_allocate) refl, rw (h.0, slab_allocate) h.1)

update_other : (links : Links) (ptr a : ℕ) (o : Option ℕ) → a ≢ ptr → update ptr o links a ≡ links a
update_other links ptr a o n = ground arith

update_same : (links : Links) (ptr : ℕ) (o : Option ℕ) → update ptr o links ptr ≡ o
update_same links ptr o = ground arith

pub IsChain-update :
    (links : Links) (ptr : ℕ) (o head : Option ℕ) (blocks : List ℕ)
    → All (λ a. a ≢ ptr) blocks
    → IsChain links head blocks
    → IsChain (update ptr o links) head blocks
IsChain-update links ptr o head [] n h = h
IsChain-update links ptr o head (a ∷ l) n h =
    (h.0, rw (update_other links ptr a o n.0) (IsChain-update links ptr o (links a) l n.1 h.1))

-- `slab_deallocate` puts a block that is not null and not free already in front of the free list.
pub slab_deallocate_lem :
    (ptr : ℕ) (links : Links) (c : SlabCache) (blocks : List ℕ)
    → 0 < ptr
    → All (λ a. a ≢ ptr) blocks
    → IsChain links c.free_list blocks
    → IsChain
        (slab_deallocate ptr (links, c)).0
        (slab_deallocate ptr (links, c)).1.free_list
        (ptr ∷ blocks)
unfolding slab_deallocate
slab_deallocate_lem ptr links c blocks z n h = (
  ground arith,
  rw (update_same links ptr c.free_list)
      (IsChain-update links ptr c.free_list c.free_list blocks n h),
)

-- The blocks of `size` bytes, each above the next ones and clear of them.
abbrev pub IsSpaced : ℕ → List ℕ → Type 0
IsSpaced size [] = Unit
IsSpaced size (a ∷ l) = All (λ b. b + size ≤ a) l × IsSpaced size l

-- A free list after its blocks have been cut from `start` to `stop`.
pub record Cut (size start stop count : ℕ) (links : Links) (head : Option ℕ) : Type 0 where
  pub blocks : List ℕ
  pub chain : IsChain links head blocks
  pub spaced : IsSpaced size blocks
  pub inside : All (λ b. (start ≤ b) × (b + size ≤ stop)) blocks
  pub number : length blocks ≡ count

suc_mul : (i size : ℕ) → suc i * size ≡ i * size + size
suc_mul i size = omega arith

add-mul : (i n size : ℕ) → (i + n) * size ≡ i * size + n * size
add-mul i n size = grind arith

block_Cut :
    (size start i : ℕ) (links : Links) (head : Option ℕ)
    → 0 < size
    → 0 < start
    → Cut size start (start + i * size) i links head
    → Cut size start
        (start + suc i * size)
        (suc i)
        (update (start + i * size) head links)
        (non_null (start + i * size))
block_Cut size start i links head z s c =
    let a : ℕ = start + i * size in
    record {
      blocks = a ∷ c.blocks;
      chain = (
        ground arith,
        rw (update_same links a head) (
            IsChain-update links a head head c.blocks
              (All-mono (λ b h e. omega (arith, h.0, h.1)) c.blocks c.inside) c.chain),
      );
      spaced = (All-mono (λ b h. h.1) c.blocks c.inside, c.spaced);
      inside = (
        (omega arith, omega (arith, suc_mul i size)),
        All-mono (λ b h. (h.0, omega (arith, suc_mul i size, h.1))) c.blocks c.inside,
      );
      number = ap suc c.number;
    }

add_blocks-Cut :
    (n i start : ℕ) (links : Links) (c : SlabCache)
    → 0 < c.block_size
    → 0 < start
    → start + (i + n) * c.block_size < 2 ^ 64
    → Cut c.block_size start (start + i * c.block_size) i links c.free_list
    → Cut c.block_size start
        (start + (i + n) * c.block_size)
        (i + n)
        (add_blocks n i start (links, c)).0
        (add_blocks n i start (links, c)).1.free_list
unfolding add_blocks slab_deallocate
add_blocks-Cut zero i start links c z s h d = let e : i + 0 ≡ i = omega arith in rw e d
add_blocks-Cut (suc n) i start links c z s h d =
    let e : i + suc n ≡ suc i + n = omega arith in
    let m : (start + i * c.block_size) % 2 ^ 64 ≡ start + i * c.block_size =
      omega (arith, add-mul i (suc n) c.block_size) in
    rw (e, add_blocks, slab_deallocate, m)
      (add_blocks-Cut n (suc i) start (update (start + i * c.block_size) c.free_list links)
        (record c { free_list = non_null (start + i * c.block_size) }) z s (rw e at h)
        (block_Cut c.block_size start i links c.free_list z s d))

-- `add_slab` cuts a slab into as many blocks as it holds. In an empty cache the free list then has
-- exactly these blocks, which lie in the slab and do not overlap.
pub add_slab_lem :
    (start size : ℕ) (links : Links) (c : SlabCache)
    → 0 < c.block_size
    → 0 < start
    → start + size < 2 ^ 64
    → c.free_list ≡ none
    → Cut c.block_size start
        (start + size)
        (size / c.block_size)
        (add_slab start size (links, c)).0
        (add_slab start size (links, c)).1.free_list
unfolding add_slab
add_slab_lem start size links c z s h e =
    let m : size / c.block_size * c.block_size ≤ size = div-mul-le_self size c.block_size in
    let d =
      add_blocks-Cut (size / c.block_size) 0 start links c z s (omega (arith, m))
        (record { blocks = []; chain = e; spaced = tt; inside = tt; number = refl }) in
    record {
      blocks = d.blocks;
      chain = d.chain;
      spaced = d.spaced;
      inside = All-mono (λ b h. (h.0, omega (arith, m, h.1))) d.blocks d.inside;
      number = d.number ∙ omega arith;
    }
