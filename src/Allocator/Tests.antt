-- ===== src/Allocator/Tests.antt =====
-- The theorems about the allocator at concrete inputs, and tests.
use vitr_os.Base.{ℕ, ◌<◌, ◌≡◌, ◌≢◌, ◌⊎◌, refl, none, some, [], ◌∷◌, arith}
use vitr_os.Allocator.Size.{size_to_order, size_to_class, bit_length}
use vitr_os.Allocator.Buddy
use vitr_os.Allocator.Buddy.{
  Buddy, Layout, update, set_bit, is_free, addr_to_bit_index, block_order, allocate, allocate_at,
}
use vitr_os.Allocator.Slab.{
  Links, KernelAllocator, new, new_cache, cache, set_cache, slab_deallocate, add_blocks, add_slab,
  alloc, alloc_large, dealloc,
}
use vitr_os.Allocator.Slab.Chain.{IsChain}
use vitr_os.Allocator.Slab.Heap.{IsLeastClass, Takes, alloc_lem, dealloc-alloc}

size_to_order_runs : size_to_order 20000 ≡ 3
unfolding size_to_order bit_length
size_to_order_runs = refl

abbrev no_blocks : Links
no_blocks = λ _. none

-- A heap whose third class has two free blocks, below the region of the buddy allocator.
abbrev sample_heap : KernelAllocator
sample_heap =
    let s = add_slab 4096 64 (no_blocks, new_cache 32) in
    let k = set_cache 2 s new in
    record k { buddy = record (k.buddy) { region_start = 8192; region_size = 8192 } }

abbrev sample_layout : Layout
sample_layout = record { size = 20; align = 8 }

alloc_lem_example :
    (alloc sample_layout sample_heap ≡ alloc_large sample_layout sample_heap)
      × ((◌<◌ 4096 20) ⊎ (i : ℕ) × IsLeastClass 20 i × ((cache i sample_heap).free_list ≡ none))
    ⊎ (i : ℕ) × (a : ℕ) × IsLeastClass 20 i
      × ((cache i sample_heap).free_list ≡ some a)
      × ((k' : KernelAllocator) × (alloc sample_layout sample_heap ≡ some (k', a))
          × Takes i a sample_heap k')
alloc_lem_example = alloc_lem sample_layout sample_heap refl

dealloc-alloc_example :
    (k' : KernelAllocator) × (k'' : KernelAllocator) × (alloc sample_layout sample_heap
      ≡ some (k', 4128))
    × (dealloc 4128 sample_layout (record k' { links = update 4128 (some 7) k'.links }) ≡ some k'')
    × IsChain k''.links (cache 2 k'').free_list (4128 ∷ 4096 ∷ [])
    × (k''.buddy ≡ sample_heap.buddy)
    × ((j : ℕ) → 2 ≢ j → cache j k'' ≡ cache j sample_heap)
unfolding add_slab add_blocks slab_deallocate size_to_class bit_length
dealloc-alloc_example =
    dealloc-alloc sample_layout sample_heap 2 4128 (4096 ∷ []) (some 7) (omega arith) refl
      (omega arith) (omega arith) (omega arith) ((λ e. ground arith), tt) (refl, (refl, refl))

abbrev sample_buddy : Buddy
sample_buddy = record Buddy.new { region_start = 4096; region_size = 65536 }

abbrev one_block : Buddy
one_block = record sample_buddy { free_lists = update 3 (some 36864) (λ _. none) }
