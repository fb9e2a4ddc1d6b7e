-- ===== src/Main.antt =====
-- `kernel/src/main.rs`: the choice of the memory for the heap, and its start.
pub mod Heap
mod Tests
use vitr_os.Base.{
  ℕ, zero, suc, min, Bool, true, false, ◌&&◌, Option, none, some, List, [], ◌∷◌, length, take, ltb,
  ◌==◌, if◌then◌else◌, Outcome, ok, err, panic,
}
use vitr_os.Boot.{BootInfo, MemoryRegion}
use vitr_os.Paging.{PagingError, phys_to_virt}
use vitr_os.Allocator.Slab.{KernelAllocator}
use vitr_os.Allocator.Slab

abbrev pub efi_conventional_memory : ℕ
efi_conventional_memory = 7

pub record Largest : Type 0 where
  pub start_phys : ℕ
  pub size : ℕ

abbrev pub no_memory : Largest
no_memory = record { start_phys = 0; size = 0 }

abbrev pub is_larger : MemoryRegion → Largest → Bool
is_larger region largest =
    region.region_type == efi_conventional_memory && ltb largest.size region.size

-- The loop of `kernel_main_inner` over the regions.
unfoldable pub find_largest : List MemoryRegion → Largest → Largest
find_largest [] largest = largest
find_largest (region ∷ l) largest = find_largest l (
    if is_larger region largest
    then record { start_phys = region.start; size = region.size }
    else largest)

-- The regions that count.
abbrev pub safe_regions : BootInfo → List MemoryRegion
safe_regions b = take (min b.memory_map_count (length b.memory_map)) b.memory_map

unfoldable pub init_heap_at : Outcome PagingError ℕ → ℕ → KernelAllocator → Option KernelAllocator
init_heap_at (ok start_virt) size k = Slab.init start_virt size k
init_heap_at (err e) size k = none
init_heap_at panic size k = none

-- The heap, unchanged if there is no memory for it; a panic is none.
unfoldable pub start_heap : BootInfo → KernelAllocator → Option KernelAllocator
unfolding find_largest init_heap_at
start_heap b k =
    let largest = find_largest (safe_regions b) no_memory in
    if ltb 0 largest.size
    then init_heap_at (phys_to_virt largest.start_phys) largest.size k
    else some k
