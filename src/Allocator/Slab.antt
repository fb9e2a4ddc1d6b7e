-- ===== src/Allocator/Slab.antt =====
-- `SlabCache` and `KernelAllocator` of `kernel/src/allocator.rs`. `links` is the memory where the free
-- blocks of the slabs keep their links. The observer's hooks do not touch the heap.
pub mod Chain
pub mod Heap
use vitr_os.Base.{
  ℕ, zero, suc, ◌+◌, ◌-◌, ◌*◌, ◌/◌, ◌%◌, ◌^◌, ◌≤◌, ◌<◌, max, Bool, true, false, Option, none, some,
  List, [], ◌∷◌, ltb, leb, ◌==◌, if◌then◌else◌, get_or, set, map,
}
use vitr_os.Allocator.Size.{size_classes, num_size_classes, size_to_class, align_down}
use vitr_os.Allocator.Buddy
use vitr_os.Allocator.Buddy.{Layout, non_null, update}

pub record SlabCache : Type 0 where
  pub free_list : Option ℕ
  pub block_size : ℕ

-- `SlabCache::new`.
abbrev pub new_cache : ℕ → SlabCache
new_cache block_size = record { free_list = none; block_size = block_size }

abbrev pub Links : Type 0
Links = ℕ → Option ℕ

unfoldable pub slab_allocate : Links → SlabCache → SlabCache × Option ℕ
slab_allocate links c = elim c.free_list [
  | some a ↦ (record c { free_list = links a }, some a)
  | none ↦ (c, none)
]

unfoldable pub slab_deallocate : ℕ → Links × SlabCache → Links × SlabCache
slab_deallocate ptr (links, c) =
    (update ptr c.free_list links, record c { free_list = non_null ptr })

-- The blocks of `add_slab` from the number `i` on.
unfoldable pub add_blocks : ℕ → ℕ → ℕ → Links × SlabCache → Links × SlabCache
unfolding slab_deallocate
add_blocks zero i slab_start s = s
add_blocks (suc n) i slab_start s =
    let addr = (slab_start + i * s.1.block_size) % 2 ^ 64 in
    add_blocks n (suc i) slab_start (slab_deallocate addr s)

unfoldable pub add_slab : ℕ → ℕ → Links × SlabCache → Links × SlabCache
unfolding add_blocks
add_slab slab_start slab_size s = add_blocks (slab_size / s.1.block_size) 0 slab_start s

pub record KernelAllocator : Type 0 where
  pub slab_caches : List SlabCache
  pub buddy : Buddy.Buddy
  pub links : Links

-- `KernelAllocator::new`.
abbrev pub new : KernelAllocator
new = record { slab_caches = map new_cache size_classes; buddy = Buddy.new; links = λ _. none }

abbrev pub cache : ℕ → KernelAllocator → SlabCache
cache i k = get_or k.slab_caches i (new_cache 0)

abbrev pub set_cache : ℕ → Links × SlabCache → KernelAllocator → KernelAllocator
set_cache i (links, c) k = record k { slab_caches = set k.slab_caches i c; links = links }

-- The loop of `init` over the size classes.
unfoldable pub init_slabs : List ℕ → ℕ → ℕ → ℕ → KernelAllocator → KernelAllocator
unfolding add_slab align_down
init_slabs [] i region_size current k = k
init_slabs (size ∷ sizes) i region_size current k =
    let aligned_size = align_down (region_size / num_size_classes) size in
    init_slabs sizes (suc i) region_size (current + aligned_size)
      (set_cache i (add_slab current aligned_size (k.links, cache i k)) k)

unfoldable pub init : ℕ → ℕ → KernelAllocator → Option KernelAllocator
unfolding init_slabs
init heap_start heap_size k =
    let slab_region_size = heap_size / 2 in
    let k' = init_slabs size_classes 0 slab_region_size heap_start k in
    elim (Buddy.init ((heap_start + slab_region_size) % 2 ^ 64) (heap_size - slab_region_size)
      k'.buddy) [ none ↦ none | some b ↦ some (record k' { buddy = b }) ]

-- The null pointer is 0.
null_or : Option ℕ → ℕ
null_or none = 0
null_or (some a) = a

unfoldable pub alloc_large : Layout → KernelAllocator → Option (KernelAllocator × ℕ)
unfolding null_or
alloc_large l k = elim (Buddy.allocate l k.buddy) [
  | none ↦ none
  | some (b, p) ↦ some (record k { buddy = b }, null_or p)
]

-- From the slab of the class, or from the buddy allocator if that has no free block.
unfoldable pub alloc_small : ℕ → Layout → KernelAllocator → Option (KernelAllocator × ℕ)
unfolding alloc_large
alloc_small i l k =
    let (c, p) = slab_allocate k.links (cache i k) in
    elim p [ some a ↦ some (set_cache i (k.links, c) k, a) | none ↦ alloc_large l k ]

-- The outer `none` is a panic.
unfoldable pub alloc : Layout → KernelAllocator → Option (KernelAllocator × ℕ)
unfolding alloc_small
alloc l k = elim (size_to_class (max l.size l.align)) [
  | some i ↦ alloc_small i l k
  | none ↦ alloc_large l k
]

free_small : Option ℕ → ℕ → KernelAllocator → KernelAllocator
free_small none ptr k = k
free_small (some i) ptr k = set_cache i (slab_deallocate ptr (k.links, cache i k)) k

unfoldable pub dealloc : ℕ → Layout → KernelAllocator → Option KernelAllocator
unfolding free_small
dealloc ptr l k =
    if l.size == 0
    then some k
    else if leb k.buddy.region_start ptr
    then elim (Buddy.deallocate ptr l k.buddy) [
      | none ↦ none
      | some b ↦ some (record k { buddy = b })
    ]
    else some (free_small (size_to_class (max l.size l.align)) ptr k)
